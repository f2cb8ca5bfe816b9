-- ===== src/Central/Triple.antt =====
-- Statements about handlers of server/CentralServer.cpp: from every state that meets `P`, the
-- handler does not wait, and where it returns, its result and the state then meet `Q`. `E` is what
-- an exception amounts to: nothing is promised then, or there is none.
use protokol_javni_prevoz.Result.{Result, done, threw, blocked}
use protokol_javni_prevoz.Central.{Server, Handler, continue, ◌>>=◌}

abbrev pub MayThrow : Type 0
MayThrow = Unit {0}

abbrev pub NeverThrows : Type 0
NeverThrows = ⊥

abbrev pub Ends : {R A : Type 0} → Type 0 → (A → Server R → Type 0) → Result A × Server R → Type 0
Ends E Q (done a, s) = Q a s
Ends E Q (threw x, s) = E
Ends E Q (blocked, s) = ⊥

pub record Triple {R A : Type 0} (E : Type 0) (P : Server R → Type 0) (m : Handler R A)
    (Q : A → Server R → Type 0) : Type 0 where
  pub run : (s : Server R) → P s → Ends E Q (m s)

module _ {R A B E : Type 0} where
  continue-Ends :
      {Q : A → Server R → Type 0} {S : B → Server R → Type 0} (r : Result A × Server R)
      (f : A → Handler R B)
      → Ends E Q r
      → ((a : A) → Triple E (Q a) (f a) S)
      → Ends E S (continue r.0 f r.1)
  continue-Ends (done a, s) f e h = (h a).run s e
  continue-Ends (threw x, s) f e h = e
  continue-Ends (blocked, s) f e h = absurd e

  pub bind :
      {P : Server R → Type 0} {Q : A → Server R → Type 0} {S : B → Server R → Type 0}
      {m : Handler R A} {f : A → Handler R B}
      → Triple E P m Q
      → ((a : A) → Triple E (Q a) (f a) S)
      → Triple E P (m >>= f) S
  bind {m} {f} t h = record { run = λ s p. continue-Ends (m s) f (t.run s p) h }

pub map_Ends :
    {R A : Type 0} (E : Type 0) {Q : A → Server R → Type 0} {S : A → Server R → Type 0}
    (r : Result A × Server R)
    → Ends E Q r
    → ((a : A) (s : Server R) → Q a s → S a s)
    → Ends E S r
map_Ends E (done a, s) e h = h a s e
map_Ends E (threw x, s) e h = e
map_Ends E (blocked, s) e h = e

module _ {R A E : Type 0} {P : Server R → Type 0} {Q : A → Server R → Type 0}
    {m : Handler R A} where
  pub from :
      {P' : Server R → Type 0} → ((s : Server R) → P' s → P s) → Triple E P m Q → Triple E P' m Q
  from h t = record { run = λ s p. t.run s (h s p) }

  -- A fact that holds of no state in particular may be used for the handler.
  pub given : {F : Type 0} → (F → Triple E P m Q) → Triple E (λ s. F × P s) m Q
  given h = record { run = λ s p. (h p.0).run s p.1 }

-- What two statements about a handler say together.
pub also :
    {R A E : Type 0} {P P' : Server R → Type 0} {Q Q' : A → Server R → Type 0} {m : Handler R A}
    → Triple E P m Q
    → Triple MayThrow P' m Q'
    → Triple E (λ s. P s × P' s) m (λ a s. Q a s × Q' a s)
also {R} {A} {E} {Q} {Q'} {m} t u = record { run = λ s p. both (m s) (t.run s p.0) (u.run s p.1) }
  where
    both :
        (r : Result A × Server R)
        → Ends E Q r
        → Ends MayThrow Q' r
        → Ends E (λ a s. Q a s × Q' a s) r
    both (done a, s) x y = (x, y)
    both (threw e, s) x y = x
    both (blocked, s) x y = x
