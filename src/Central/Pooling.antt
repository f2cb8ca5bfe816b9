-- ===== src/Central/Pooling.antt =====
-- The connections that the steps of server/CentralServer.cpp borrow: what each step does to the
-- list of free places of the pool.
pub mod Steps
pub mod Rules
pub mod Handlers
pub mod Trips
pub mod Management
use protokol_javni_prevoz.Prelude.{
  ℕ, ◌+◌, ◌<◌, ◌≡◌, refl, sym, ◌∙◌, ap, Bool, true, false, Option, none, some, List, [], ◌∷◌, arith,
  ltb, leb, length, if◌then◌else◌, Option-cases, inl, inr,
}
use protokol_javni_prevoz.Result.{Result, done, threw, blocked}
use protokol_javni_prevoz.Text.{Str}
use protokol_javni_prevoz.Message.{Message, get_int}
use protokol_javni_prevoz.Platform.{Platform}
use protokol_javni_prevoz.Database.{Db}
use protokol_javni_prevoz.Database.Pool.{
  Pool, lend, set_at, first_available, get_connection, return_connection, with_connection,
}
use protokol_javni_prevoz.Database.Pool.Lending.{
  count_free, IsFree, first_available-IsFree, first_available-none, length-set_at,
}
use protokol_javni_prevoz.Central.{Server, Handler, acquire, call, release, now, send, read_int}
use protokol_javni_prevoz.Central.Triple.{Triple, Ends, MayThrow}

-- The free places of the pool, and the number of its connections.
pub record At {R : Type 0} (av : List Bool) (n : ℕ) (s : Server R) : Type 0 where
  pub places : s.pool.available ≡ av
  pub connections : length s.pool.connections ≡ n

-- A handler that leaves the free places as they are.
abbrev pub Steady : {R A : Type 0} → Handler R A → Type 0
Steady m = (av : List Bool) (n : ℕ) → Triple MayThrow (At av n) m (λ a. At av n)

pub call-Steady : {R A : Type 0} (i : ℕ) (m : Db R A) → Steady (call i m)
unfolding call with_connection
call-Steady i m av n = record {
  run = λ s p. record {
    places = p.places;
    connections = length-set_at s.pool.connections i _ ∙ p.connections;
  };
}

-- A free place is there.
pub record HasFree (av : List Bool) (n : ℕ) : Type 0 where
  pub free : 0 < count_free av
  pub full_size : length av ≡ n

-- The i-th connection is lent; all else is as in `av`.
pub record Lent {R : Type 0} (av : List Bool) (n i : ℕ) (s : Server R) : Type 0 where
  pub is_free : IsFree av i
  pub at : At (set_at av i false) n s

acquire-Ends :
    {R : Type 0} (av : List Bool) (n : ℕ) (s : Server R)
    → HasFree av n
    → At av n s
    → Ends MayThrow (Lent av n) (acquire s)
unfolding acquire get_connection lend
acquire-Ends av n s h p = elim (Option-cases (first_available s.pool.available)) [
  | inl e ↦
      absurd
        (omega (arith, h.free, ap count_free p.places, first_available-none s.pool.available e))
  | inr (i, e) ↦
      rw (e, Ends, acquire, get_connection, lend)
        (record {
          is_free = first_available-IsFree av i (sym (ap first_available p.places) ∙ e);
          at = record { places = ap (λ l. set_at l i false) p.places; connections = p.connections };
        })
]

pub acquire_lem :
    {R : Type 0} (av : List Bool) (n : ℕ)
    → HasFree av n
    → Triple MayThrow (At {R = R} av n) acquire (Lent av n)
acquire_lem av n h = record { run = λ s p. acquire-Ends av n s h p }

in_range :
    {R : Type 0} {av : List Bool} {n i : ℕ} {s : Server R}
    → HasFree av n
    → Lent av n i s
    → ltb i (length s.pool.connections) ≡ true
in_range h p = ground (arith, h.full_size, p.is_free.in_range, p.at.connections)

pub release_lem :
    {R : Type 0} (av : List Bool) (n i : ℕ)
    → HasFree av n
    → Triple MayThrow (Lent {R = R} av n i) (release i) (λ _. At av n)
unfolding release return_connection
release_lem av n i h = record {
  run = λ s p. rw (in_range h p) (record {
    places = ap (λ l. set_at l i true) p.at.places ∙ p.is_free.given_back;
    connections = p.at.connections;
  });
}
