-- ===== src/Text.antt =====
-- std::string as the list of its bytes, and its lexicographic order (std::less<std::string>).
-- Text literals of the program are ASCII, so their bytes are their code points.
pub mod Decimal
pub mod Split
use Prim.Native.Char.{code}
use protokol_javni_prevoz.Prelude.{
  ℕ, compare, Ordering, String, ◌≡◌, refl, ◌↔◌, Bool, true, false, List, [], ◌∷◌, arith, ◌==◌, ◌&&◌,
}

abbrev pub Str : Type 0
Str = List ℕ

-- The bytes of a literal.
unfoldable pub str : String → Str
str String.[] = []
str (String.◌∷◌ c s) = code c ∷ str s

-- std::string::compare, by unsigned bytes.
unfoldable pub compare_str : Str → Str → Ordering
compare_str [] [] = Ordering.eq
compare_str [] (b ∷ t) = Ordering.lt
compare_str (a ∷ s) [] = Ordering.gt
compare_str (a ∷ s) (b ∷ t) = elim (compare a b) [
  | Ordering.lt ↦ Ordering.lt
  | Ordering.eq ↦ compare_str s t
  | Ordering.gt ↦ Ordering.gt
]

-- operator== on strings.
unfoldable pub eq_str : Str → Str → Bool
unfolding compare_str
eq_str s t = elim (compare_str s t) [ Ordering.eq ↦ true | _ ↦ false ]

pub compare_str_refl : (s : Str) → compare_str s s ≡ Ordering.eq
unfolding compare_str
compare_str_refl [] = refl
compare_str_refl (a ∷ s) = ground (arith, compare_str_refl s)

pub compare_str_eq : (s t : Str) → compare_str s t ≡ Ordering.eq → s ≡ t
unfolding compare_str
compare_str_eq [] [] h = refl
compare_str_eq [] (b ∷ t) h = cc
compare_str_eq (a ∷ s) [] h = cc
compare_str_eq (a ∷ s) (b ∷ t) h = ground (arith, compare_str_eq s t)

pub compare_str_flip : (s t : Str) → compare_str s t ≡ Ordering.gt → compare_str t s ≡ Ordering.lt
unfolding compare_str
compare_str_flip [] [] h = cc
compare_str_flip [] (b ∷ t) h = cc
compare_str_flip (a ∷ s) [] h = refl
compare_str_flip (a ∷ s) (b ∷ t) h = ground (arith, compare_str_flip s t)

pub compare_str_flip_lt :
    (s t : Str) → compare_str s t ≡ Ordering.lt → compare_str t s ≡ Ordering.gt
unfolding compare_str
compare_str_flip_lt [] [] h = cc
compare_str_flip_lt [] (b ∷ t) h = refl
compare_str_flip_lt (a ∷ s) [] h = cc
compare_str_flip_lt (a ∷ s) (b ∷ t) h = ground (arith, compare_str_flip_lt s t)

pub compare_str_trans :
    (s t u : Str)
    → compare_str s t ≡ Ordering.lt
    → compare_str t u ≡ Ordering.lt
    → compare_str s u ≡ Ordering.lt
unfolding compare_str
compare_str_trans [] [] u h k = cc
compare_str_trans [] (b ∷ t) [] h k = cc
compare_str_trans [] (b ∷ t) (c ∷ u) h k = refl
compare_str_trans (a ∷ s) [] u h k = cc
compare_str_trans (a ∷ s) (b ∷ t) [] h k = cc
compare_str_trans (a ∷ s) (b ∷ t) (c ∷ u) h k = ground (arith, compare_str_trans s t u)

pub eq_str_refl : (s : Str) → eq_str s s ≡ true
unfolding eq_str
eq_str_refl s = ground (arith, compare_str_refl s)

pub eq_str_iff : (s t : Str) → (eq_str s t ≡ true) ↔ (s ≡ t)
unfolding eq_str
eq_str_iff s t = (λ h. compare_str_eq s t (ground arith), λ e. ground (arith, compare_str_refl s))

-- std::string::empty.
abbrev pub is_empty : Str → Bool
is_empty [] = true
is_empty (_ ∷ _) = false

-- text.rfind(p, 0) == 0: the text starts with `p`.
unfoldable pub has_prefix : Str → Str → Bool
has_prefix [] s = true
has_prefix (c ∷ p) [] = false
has_prefix (c ∷ p) (d ∷ s) = c == d && has_prefix p s
