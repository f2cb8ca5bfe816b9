-- ===== src/Central/Answers.antt =====
-- What the steps of server/CentralServer.cpp tell the client that they serve, and what they leave of
-- the free seats: both hold whatever else fails, and the seats also behind an exception.
pub mod Kinds
pub mod Steps
pub mod Handlers
pub mod Management
pub mod Trips
use protokol_javni_prevoz.Prelude.{
  ℕ, ◌+◌, ◌≡◌, refl, Bool, true, false, not, ◌&&◌, ◌==◌, Option, none, some, List, [], ◌∷◌,
  if◌then◌else◌,
}
use protokol_javni_prevoz.Result.{Exception, Result, done, threw, blocked}
use protokol_javni_prevoz.Message.{Message, get_int}
use protokol_javni_prevoz.Text.{Str, str}
use protokol_javni_prevoz.Message.Kind
use protokol_javni_prevoz.Platform.{Platform}
use protokol_javni_prevoz.Database.Vehicles.Bounds.{SeatedIn}
use protokol_javni_prevoz.Central.{Server, Handler, continue, ◌>>=◌}

-- An update goes to all subscribers, and answers nobody.
abbrev pub is_update : Message → Bool
is_update m = m.header.type == Kind.multicast_update

-- The messages to one client that are no updates.
abbrev pub count_answers : ℕ → List (ℕ × Message) → ℕ
count_answers client [] = 0
count_answers client ((c, m) ∷ sent) =
    (if c == client && not (is_update m) then 1 else 0) + count_answers client sent

-- The fields that handlers read with getInt.
pub data NumberField : Type 0 where
  age vehicle_type ticket_type passengers active capacity available_seats : NumberField

abbrev pub key_of : NumberField → Str
key_of age = str "age"
key_of vehicle_type = str "vehicle_type"
key_of ticket_type = str "ticket_type"
key_of passengers = str "passengers"
key_of active = str "active"
key_of capacity = str "capacity"
key_of available_seats = str "available_seats"

-- An exception of getInt on such a field of the message is one of `U`.
abbrev pub Throws : Type 0 → Message → Type 0
Throws U m = (f : NumberField) (e : Exception) → get_int m (key_of f) ≡ threw e → U

-- Every write arrives.
abbrev pub Reaches : Platform → Type 0
Reaches env = (n c : ℕ) → env.delivers n c ≡ true

module _ (env : Platform) where
  open env use {Real}

  abbrev pub Seats : Server Real → Type 0
  Seats s = SeatedIn s.pool.file.tables

  -- No vehicle has a negative number of free seats, and the client has been answered `n` times if
  -- every write arrives.
  pub record Fine (client n : ℕ) (s : Server Real) : Type 0 where
    pub seats : Seats s
    pub answered : Reaches env → count_answers client s.sent ≡ n

  -- `U` is what an exception amounts to.
  abbrev pub Leaves :
      Type 0 → {A : Type 0} → (A → Server Real → Type 0) → Result A × Server Real → Type 0
  Leaves U Q (done a, s) = Q a s
  Leaves U Q (threw e, s) = Seats s × U
  Leaves U Q (blocked, s) = Seats s

  pub record Walk (U : Type 0) {A : Type 0} (P : Server Real → Type 0) (m : Handler Real A)
      (Q : A → Server Real → Type 0) : Type 0 where
    pub run : (s : Server Real) → P s → Leaves U Q (m s)

  module _ (U : Type 0) {A B : Type 0} where
    continue-Leaves :
        {Q : A → Server Real → Type 0} {S : B → Server Real → Type 0} (r : Result A × Server Real)
        (f : A → Handler Real B)
        → Leaves U Q r
        → ((a : A) → Walk U (Q a) (f a) S)
        → Leaves U S (continue r.0 f r.1)
    continue-Leaves (done a, s) f e h = (h a).run s e
    continue-Leaves (threw x, s) f e h = e
    continue-Leaves (blocked, s) f e h = e

    pub chain :
        {P : Server Real → Type 0} {Q : A → Server Real → Type 0} {S : B → Server Real → Type 0}
        {m : Handler Real A} {f : A → Handler Real B}
        → Walk U P m Q
        → ((a : A) → Walk U (Q a) (f a) S)
        → Walk U P (m >>= f) S
    chain {m} {f} t h = record { run = λ s p. continue-Leaves (m s) f (t.run s p) h }

  module _ (U : Type 0) (client : ℕ) where
    -- A handler that does not answer, and one that answers once.
    abbrev pub Silent : {A : Type 0} → Handler Real A → Type 0
    Silent m = (n : ℕ) → Walk U (Fine client n) m (λ _. Fine client n)

    abbrev pub Answers : {A : Type 0} → Handler Real A → Type 0
    Answers m = (n : ℕ) → Walk U (Fine client n) m (λ _. Fine client (n + 1))

    -- A handler that may have answered already, as its result says.
    abbrev pub AnswersIf : {A : Type 0} → (A → Bool) → Handler Real A → Type 0
    AnswersIf told m =
        (n : ℕ) → Walk U (Fine client n) m (λ a. Fine client (if told a then n + 1 else n))

module _ {env : Platform} {U : Type 0} {client : ℕ} where
  open env use {Real}

  pub silently :
      {A B : Type 0} {m : Handler Real A} {f : A → Handler Real B}
      → Silent env U client m
      → ((a : A) → Silent env U client (f a))
      → Silent env U client (m >>= f)
  silently t u n = chain env U (t n) (λ a. u a n)

  pub before :
      {A B : Type 0} {m : Handler Real A} {f : A → Handler Real B}
      → Silent env U client m
      → ((a : A) → Answers env U client (f a))
      → Answers env U client (m >>= f)
  before t u n = chain env U (t n) (λ a. u a n)

  pub behind :
      {A B : Type 0} {m : Handler Real A} {f : A → Handler Real B}
      → Answers env U client m
      → ((a : A) → Silent env U client (f a))
      → Answers env U client (m >>= f)
  behind t u n = chain env U (t n) (λ a. u a (n + 1))

  pub either_Silent :
      {A : Type 0} {m k : Handler Real A} (b : Bool)
      → Silent env U client m
      → Silent env U client k
      → Silent env U client (if b then m else k)
  either_Silent true t u = t
  either_Silent false t u = u

  pub either :
      {A : Type 0} {m k : Handler Real A} (b : Bool)
      → Answers env U client m
      → Answers env U client k
      → Answers env U client (if b then m else k)
  either true t u = t
  either false t u = u

  -- The second branch may use that the test failed.
  pub guarded :
      {A : Type 0} {m k : Handler Real A} (b : Bool)
      → Answers env U client m
      → (b ≡ false → Answers env U client k)
      → Answers env U client (if b then m else k)
  guarded true t u = t
  guarded false t u = u refl

  pub choose_Silent :
      {A C : Type 0} {m : Handler Real A} {f : C → Handler Real A} (o : Option C)
      → Silent env U client m
      → ((c : C) → Silent env U client (f c))
      → Silent env U client (elim o [ none ↦ m | some c ↦ f c ])
  choose_Silent none t u = t
  choose_Silent (some c) t u = u c
