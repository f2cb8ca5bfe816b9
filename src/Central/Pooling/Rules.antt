-- ===== src/Central/Pooling/Rules.antt =====
-- How the parts of a handler of server/CentralServer.cpp combine: a part borrows a connection, uses
-- it, and gives it back.
use protokol_javni_prevoz.Prelude.{ℕ, Bool, true, false, Option, none, some, List, if◌then◌else◌}
use protokol_javni_prevoz.Central.{Handler, ◌>>=◌, ◌>>◌, acquire, release}
use protokol_javni_prevoz.Central.Triple.{Triple, bind, map_Ends, MayThrow}
use protokol_javni_prevoz.Central.Pooling.{At, Steady, HasFree, Lent, acquire_lem, release_lem}

-- A handler that borrows only connections that are free, and leaves as many free as it found.
abbrev pub Settles : {R A : Type 0} → Handler R A → Type 0
Settles m = (av : List Bool) (n : ℕ) → HasFree av n → Triple MayThrow (At av n) m (λ _. At av n)

-- The part of a handler that has a connection, up to where it returns it.
abbrev pub Repays : {R A : Type 0} → ℕ → Handler R A → Type 0
Repays i m =
    (av : List Bool) (n : ℕ) → HasFree av n → Triple MayThrow (Lent av n i) m (λ _. At av n)

pub steady : {R A : Type 0} {m : Handler R A} → Steady m → Settles m
steady t av n h = t av n

pub borrow :
    {R A : Type 0} {f : ℕ → Handler R A} → ((i : ℕ) → Repays i (f i)) → Settles (acquire >>= f)
borrow t av n h = bind (acquire_lem av n h) (λ i. t i av n h)

pub first :
    {R A B : Type 0} {m : Handler R A} {f : A → Handler R B}
    → Steady m
    → ((a : A) → Settles (f a))
    → Settles (m >>= f)
first t u av n h = bind (t av n) (λ a. u a av n h)

pub and_then :
    {R A B : Type 0} {m : Handler R A} {f : A → Handler R B}
    → Settles m
    → ((a : A) → Settles (f a))
    → Settles (m >>= f)
and_then t u av n h = bind (t av n h) (λ a. u a av n h)

keep-Lent :
    {R A : Type 0} {m : Handler R A} (i : ℕ) (av : List Bool) (n : ℕ)
    → Steady m
    → Triple MayThrow (Lent av n i) m (λ _. Lent av n i)
keep-Lent {m} i av n t = record {
  run = λ s p.
      map_Ends MayThrow (m s) ((t _ n).run s p.at)
        (λ a s' q. record { is_free = p.is_free; at = q });
}

pub using :
    {R A B : Type 0} {m : Handler R A} {f : A → Handler R B} {i : ℕ}
    → Steady m
    → ((a : A) → Repays i (f a))
    → Repays i (m >>= f)
using {i} t u av n h = bind (keep-Lent i av n t) (λ a. u a av n h)

pub repay : {R B : Type 0} {k : Handler R B} {i : ℕ} → Steady k → Repays i (release i >> k)
repay {i} t av n h = bind (release_lem av n i h) (λ _. t av n)

pub repay_last : {R : Type 0} (i : ℕ) → Repays {R = R} i (release i)
repay_last i av n h = release_lem av n i h

pub either_Steady :
    {R A : Type 0} {m k : Handler R A} (b : Bool)
    → Steady m
    → Steady k
    → Steady (if b then m else k)
either_Steady true t u = t
either_Steady false t u = u

pub either :
    {R A : Type 0} {m k : Handler R A} (b : Bool)
    → Settles m
    → Settles k
    → Settles (if b then m else k)
either true t u = t
either false t u = u

pub either_Repays :
    {R A : Type 0} {m k : Handler R A} {i : ℕ} (b : Bool)
    → Repays i m
    → Repays i k
    → Repays i (if b then m else k)
either_Repays true t u = t
either_Repays false t u = u

pub choose_Steady :
    {R A C : Type 0} {m : Handler R A} {f : C → Handler R A} (o : Option C)
    → Steady m
    → ((c : C) → Steady (f c))
    → Steady (elim o [ none ↦ m | some c ↦ f c ])
choose_Steady none t u = t
choose_Steady (some c) t u = u c
