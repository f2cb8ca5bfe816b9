-- ===== src/Database/Pool/Lending.antt =====
-- The bookkeeping of DatabasePool, common/Database.cpp: how many places are free, and what lending
-- and returning do to them.
use protokol_javni_prevoz.Prelude.{
  ℕ, zero, suc, ◌+◌, ◌<◌, ◌≡◌, refl, ap, Bool, true, false, none, some, List, [], ◌∷◌, arith,
  length,
}
use protokol_javni_prevoz.Database.Pool.{Pool, set_at, first_available, get_connection}

unfoldable pub count_free : List Bool → ℕ
count_free [] = 0
count_free (true ∷ bs) = suc (count_free bs)
count_free (false ∷ bs) = count_free bs

pub length-set_at {ℓ} :
    {A : Type ℓ} (xs : List A) (i : ℕ) (a : A) → length (set_at xs i a) ≡ length xs
unfolding set_at
length-set_at [] i a = refl
length-set_at (x ∷ xs) zero a = refl
length-set_at (x ∷ xs) (suc i) a = ap suc (length-set_at xs i a)

-- The first free place is in range; taking it leaves one free place less, and giving it back
-- restores the list.
pub record IsFree (bs : List Bool) (i : ℕ) : Type 0 where
  pub in_range : i < length bs
  pub taken : count_free (set_at bs i false) + 1 ≡ count_free bs
  pub given_back : set_at (set_at bs i false) i true ≡ bs

pub first_available-IsFree : (bs : List Bool) (i : ℕ) → first_available bs ≡ some i → IsFree bs i
unfolding first_available set_at count_free
first_available-IsFree [] i e = cc
first_available-IsFree (true ∷ bs) zero e = record {
  in_range = omega arith;
  taken = omega arith;
  given_back = refl;
}
first_available-IsFree (true ∷ bs) (suc i) e = absurd (ground arith)
first_available-IsFree (false ∷ bs) zero e = absurd (ground arith)
first_available-IsFree (false ∷ bs) (suc i) e =
    let r = first_available-IsFree bs i (ground arith) in
    record {
      in_range = omega (arith, r.in_range);
      taken = omega (arith, r.taken);
      given_back = ap (λ l. false ∷ l) r.given_back;
    }

pub first_available-none : (bs : List Bool) → first_available bs ≡ none → count_free bs ≡ 0
unfolding first_available count_free
first_available-none [] e = refl
first_available-none (true ∷ bs) e = cc
first_available-none (false ∷ bs) e = first_available-none bs (ground arith)

-- As many places as connections.
pub record IsPool {R : Type 0} (p : Pool R) : Type 0 where
  pub places : length p.available ≡ length p.connections

-- A caller waits only when every connection is lent.
pub get_connection-none :
    {R : Type 0} (p : Pool R) → get_connection p ≡ none → count_free p.available ≡ 0
unfolding get_connection
get_connection-none p e = ground (arith, first_available-none p.available)
