-- ===== src/Central/World/Finds.antt =====
-- Steps of server/CentralServer.cpp whose result is known and which change nothing that counts: the
-- look-ups of a handler.
use protokol_javni_prevoz.Prelude.{
  ℕ, ◌≡◌, refl, sym, subst, Bool, true, false, Option, none, some, List, if◌then◌else◌,
}
use protokol_javni_prevoz.Prelude.Int.{ℤ}
use protokol_javni_prevoz.Result.{done}
use protokol_javni_prevoz.Text.{Str}
use protokol_javni_prevoz.Message.{Message, get_int}
use protokol_javni_prevoz.Database.Rows.{Tables}
use protokol_javni_prevoz.Central.{Server, Handler, ◌>>=◌, pure, read_int}
use protokol_javni_prevoz.Central.Triple.{Triple, Ends, NeverThrows, bind, given}
use protokol_javni_prevoz.Central.World.{World}

module _ {R : Type 0} (t : Tables R) (subs : List ℕ) (out : List (ℕ × Message)) where
  -- The handler returns `a`.
  abbrev pub Finds : {A : Type 0} → Handler R A → A → Type 0
  Finds m a = Triple NeverThrows (World t subs out) m (λ x s. (x ≡ a) × World t subs out s)

  pub pure-Finds : {A : Type 0} (a : A) → Finds (pure a) a
  pure-Finds a = record { run = λ s p. (refl, p) }

  pub after :
      {A B : Type 0} {m : Handler R A} {a : A} {Q : B → Server R → Type 0} (f : A → Handler R B)
      → Finds m a
      → Triple NeverThrows (World t subs out) (f a) Q
      → Triple NeverThrows (World t subs out) (m >>= f) Q
  after {Q} f h g =
      bind h
        (λ x. given (λ e. subst (λ y. Triple NeverThrows (World t subs out) (f y) Q) (sym e) g))

  pub either-Finds :
      {A : Type 0} {m k : Handler R A} {a b : A} (c : Bool)
      → Finds m a
      → Finds k b
      → Finds (if c then m else k) (if c then a else b)
  either-Finds true h g = h
  either-Finds false h g = g

  pub choose-Finds :
      {A C : Type 0} {m : Handler R A} {f : C → Handler R A} {a : A} {g : C → A} (o : Option C)
      → Finds m a
      → ((c : C) → Finds (f c) (g c))
      → Finds (elim o [ none ↦ m | some c ↦ f c ]) (elim o [ none ↦ a | some c ↦ g c ])
  choose-Finds none h k = h
  choose-Finds (some c) h k = k c

  -- The two ways of a test end in states of their own.
  pub either_World :
      {A : Type 0} {m k : Handler R A} {t₁ t₂ : Tables R} {out₁ out₂ : List (ℕ × Message)}
      (c : Bool)
      → Triple NeverThrows (World t subs out) m (λ _. World t₁ subs out₁)
      → Triple NeverThrows (World t subs out) k (λ _. World t₂ subs out₂)
      → Triple NeverThrows
          (World t subs out)
          (if c then m else k)
          (λ _. World (if c then t₁ else t₂) subs (if c then out₁ else out₂))
  either_World true h g = h
  either_World false h g = g

-- A number of the message that can be read is read, whatever else is known of the state.
pub read_first :
    {R B : Type 0} {P : Server R → Type 0} {Q : B → Server R → Type 0} (f : ℤ → Handler R B)
    (m : Message) (key : Str) (z : ℤ)
    → get_int m key ≡ done z
    → Triple NeverThrows P (f z) Q
    → Triple NeverThrows P (read_int m key >>= f) Q
unfolding read_int
read_first f m key z h g = record { run = λ s p. rw (h, Ends) (g.run s p) }
