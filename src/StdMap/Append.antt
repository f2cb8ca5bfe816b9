-- ===== src/StdMap/Append.antt =====
-- Filling a std::map from entries that come in the order of their keys.
use protokol_javni_prevoz.Prelude.{◌≡◌, refl, sym, ◌∙◌, Ordering, [], ◌∷◌, ◌++◌, arith}
use protokol_javni_prevoz.Text.{Str, compare_str, compare_str_flip_lt, compare_str_trans}
use protokol_javni_prevoz.StdMap.{StdMap, insert, IsSorted, HeadAbove}
use mathlib.Core.List.{append_assoc, append-nil}

module _ {ℓ} {V : Type ℓ} where
  unfoldable pub insert_all : StdMap V → StdMap V → StdMap V
  insert_all [] acc = acc
  insert_all ((k, v) ∷ m) acc = insert_all m (insert k v acc)

  HeadAbove-drop :
      (j : Str) (m : StdMap V) (k : Str) (v : V) (l : StdMap V)
      → IsSorted (m ++ (k, v) ∷ l)
      → HeadAbove j (m ++ (k, v) ∷ l)
      → compare_str j k ≡ Ordering.lt
  HeadAbove-drop j [] k v l s h = h
  HeadAbove-drop j ((i, w) ∷ m) k v l s h =
      compare_str_trans j i k h (HeadAbove-drop i m k v l s.1 s.0)

  insert_last :
      (acc : StdMap V) (k : Str) (v : V) (l : StdMap V)
      → IsSorted (acc ++ (k, v) ∷ l)
      → insert k v acc ≡ acc ++ (k, v) ∷ []
  unfolding insert
  insert_last [] k v l s = refl
  insert_last ((j, w) ∷ acc) k v l s = ground (
    arith,
    insert_last acc k v l s.1,
    compare_str_flip_lt j k,
    HeadAbove-drop j acc k v l s.1 s.0,
  )

  insert_all_above : (m acc : StdMap V) → IsSorted (acc ++ m) → insert_all m acc ≡ acc ++ m
  unfolding insert_all
  insert_all_above [] acc s = sym (append-nil acc)
  insert_all_above ((k, v) ∷ m) acc s = rw (insert_last acc k v m s) (
      insert_all_above m (acc ++ (k, v) ∷ []) (rw (append_assoc acc ((k, v) ∷ []) m) s)
      ∙ append_assoc acc ((k, v) ∷ []) m)

  pub insert_all-nil : (m : StdMap V) → IsSorted m → insert_all m [] ≡ m
  insert_all-nil m s = insert_all_above m [] s
