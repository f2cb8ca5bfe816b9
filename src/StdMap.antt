-- ===== src/StdMap.antt =====
-- std::map<std::string, V>: the entries in the order of their keys.
pub mod Append
use protokol_javni_prevoz.Prelude.{
  ◌≡◌, refl, Ordering, Option, none, some, List, [], ◌∷◌, arith, if◌then◌else◌,
}
use protokol_javni_prevoz.Text.{
  Str, compare_str, eq_str, eq_str_iff, compare_str_refl, compare_str_eq, compare_str_flip,
}

abbrev pub StdMap {ℓ} : Type ℓ → Type ℓ
StdMap V = List (Str × V)

module _ {ℓ} {V : Type ℓ} where
  -- map.find(key).
  unfoldable pub find : Str → StdMap V → Option V
  find k [] = none
  find k ((j, v) ∷ m) = if eq_str k j then some v else find k m

  -- map[key] = value.
  unfoldable pub insert : Str → V → StdMap V → StdMap V
  insert k v [] = (k, v) ∷ []
  insert k v ((j, w) ∷ m) = elim (compare_str k j) [
    | Ordering.lt ↦ (k, v) ∷ (j, w) ∷ m
    | Ordering.eq ↦ (j, v) ∷ m
    | Ordering.gt ↦ (j, w) ∷ insert k v m
  ]

  -- map.erase(key).
  unfoldable pub erase : Str → StdMap V → StdMap V
  erase k [] = []
  erase k ((j, w) ∷ m) = let rest = erase k m in if eq_str k j then rest else (j, w) ∷ rest

  pub find-insert :
      (k j : Str) (v : V) (m : StdMap V)
      → find j (insert k v m) ≡ (if eq_str j k then some v else find j m)
  unfolding find insert
  find-insert k j v [] = refl
  find-insert k j v ((i, w) ∷ m) = ground (
    arith,
    find-insert k j v m,
    eq_str_iff j k,
    eq_str_iff j i,
    eq_str_iff k i,
    compare_str_eq k i,
    compare_str_refl k,
  )

  pub find-erase :
      (k j : Str) (m : StdMap V) → find j (erase k m) ≡ (if eq_str j k then none else find j m)
  unfolding find erase
  find-erase k j [] = ground arith
  find-erase k j ((i, w) ∷ m) =
      ground (arith, find-erase k j m, eq_str_iff j k, eq_str_iff j i, eq_str_iff k i)

  -- The keys rise strictly along the entries.
  abbrev pub HeadAbove : Str → StdMap V → Type 0
  HeadAbove k [] = Unit {0}
  HeadAbove k ((j, w) ∷ m) = compare_str k j ≡ Ordering.lt

  abbrev pub IsSorted : StdMap V → Type 0
  IsSorted [] = Unit {0}
  IsSorted ((k, v) ∷ m) = HeadAbove k m × IsSorted m

  HeadAbove-insert :
      (i k : Str) (v : V) (m : StdMap V)
      → compare_str i k ≡ Ordering.lt
      → HeadAbove i m
      → HeadAbove i (insert k v m)
  unfolding insert
  HeadAbove-insert i k v [] h a = h
  HeadAbove-insert i k v ((j, w) ∷ m) h a = ground arith

  pub insert-IsSorted : (k : Str) (v : V) (m : StdMap V) → IsSorted m → IsSorted (insert k v m)
  unfolding insert
  insert-IsSorted k v [] s = (tt, tt)
  insert-IsSorted k v ((j, w) ∷ m) s = ground (
    arith,
    insert-IsSorted k v m s.1,
    HeadAbove-insert j k v m,
    compare_str_flip k j,
    compare_str_eq k j,
  )
