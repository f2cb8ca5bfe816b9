-- ===== src/Message/Checksum.antt =====
-- Message::calculateChecksum, verifyChecksum and isValid, common/Message.cpp.
use protokol_javni_prevoz.Prelude.{ℕ, ◌≡◌, refl, true, ◌==◌, ==_iff, ◌↔◌, sym, ◌∙◌, ap}
use protokol_javni_prevoz.Text.{Str}
use protokol_javni_prevoz.Message.{
  Message, magic_value, new, add_string, with_checksum, calculate_checksum, verify_checksum,
  is_valid, serialize,
}
use protokol_javni_prevoz.Message.Crc.{crc32}

pub record HasFrame (m : Message) : Type 0 where
  pub magic : m.header.magic ≡ magic_value
  pub version : m.header.version ≡ 1

pub new-HasFrame : (type : ℕ) → HasFrame (new type)
unfolding new
new-HasFrame type = record { magic = refl; version = refl }

pub add_string-HasFrame : (k v : Str) (m : Message) → HasFrame m → HasFrame (add_string k v m)
unfolding add_string
add_string-HasFrame k v m h = record { magic = h.magic; version = h.version }

abbrev expected : Message → ℕ
expected m = crc32 (serialize (with_checksum 0 m))

is_valid_test :
    (m : Message) (c : ℕ) → HasFrame m → is_valid (with_checksum c m) ≡ (c == expected m)
unfolding is_valid verify_checksum with_checksum
is_valid_test m c h = rw (h.magic, h.version) refl

-- For a message with the protocol's magic and version, among all checksums that it could carry
-- isValid accepts the one that calculateChecksum writes and no other.
pub is_valid-with_checksum :
    (m : Message) (c : ℕ)
    → HasFrame m
    → (is_valid (with_checksum c m) ≡ true) ↔ (with_checksum c m ≡ calculate_checksum m)
is_valid-with_checksum m c h = (
  λ v.
      let e : c ≡ expected m = (==_iff c (expected m)).0 (sym (is_valid_test m c h) ∙ v) in
      unfold calculate_checksum in ap (λ k. with_checksum k m) e,
  λ e.
      is_valid_test m c h
      ∙ (==_iff c (expected m)).1
          (unfold calculate_checksum with_checksum in ap (λ k. k.header.checksum) e),
)

pub calculate_checksum-is_valid :
    (m : Message) → HasFrame m → is_valid (calculate_checksum m) ≡ true
unfolding calculate_checksum
calculate_checksum-is_valid m h = (is_valid-with_checksum m (expected m) h).1 refl
