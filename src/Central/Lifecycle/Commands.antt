-- ===== src/Central/Lifecycle/Commands.antt =====
-- Sequences of calls of start and stop, server/CentralServer.cpp.
use protokol_javni_prevoz.Prelude.{◌≡◌, Bool, Option, none, some, List, [], ◌∷◌}
use protokol_javni_prevoz.Prelude.Int.{ℤ}
use protokol_javni_prevoz.Platform.{Platform}
use protokol_javni_prevoz.Database.Pool.{Pool, initialize_pool}
use protokol_javni_prevoz.Central.Lifecycle.{CentralServer, Attempt, stop_server, start_server}
use protokol_javni_prevoz.Central.Lifecycle.Phases.{Phase, idle, Shows, promise_start, opens}

pub data Command : Type 0 where
  start_on : ℤ → Attempt → Command
  stop_now : Command

abbrev pub answer_then :
    {A B : Type 0} → Option (Bool × A) → (A → List Bool × Option B) → List Bool × Option B
answer_then none f = ([], none)
answer_then (some (b, a)) f = let (bs, r) = f a in (b ∷ bs, r)

-- The same answers; both at an end, or in agreement.
abbrev pub Agree :
    {R : Type 0}
    → List Bool × Option (CentralServer R)
    → List Bool × Option (Phase × Pool R)
    → Type 0
Agree (bs, none) (cs, none) = bs ≡ cs
Agree (bs, none) (cs, some p) = ⊥
Agree (bs, some s) (cs, none) = ⊥
Agree (bs, some s) (cs, some p) = (bs ≡ cs) × Shows p.0 s × (s.pool ≡ p.1)

module _ (env : Platform) where
  open env use {Real}

  -- A sequence of calls from outside, with the answers of start in order, and what they promise.
  abbrev pub perform_all :
      List Command → CentralServer Real → List Bool × Option (CentralServer Real)
  perform_all [] s = ([], some s)
  perform_all (stop_now ∷ cs) s = perform_all cs (stop_server s)
  perform_all (start_on port attempt ∷ cs) s =
      answer_then (start_server env port attempt s) (perform_all cs)

  abbrev pub promise_all : List Command → Phase → Pool Real → List Bool × Option (Phase × Pool Real)
  promise_all [] phase pool = ([], some (phase, pool))
  promise_all (stop_now ∷ cs) phase pool = promise_all cs idle pool
  promise_all (start_on port attempt ∷ cs) phase pool =
      let (ready, pool') = initialize_pool env 5 pool in
      answer_then (promise_start ready (opens attempt.tls) phase)
        (λ after. promise_all cs after pool')
