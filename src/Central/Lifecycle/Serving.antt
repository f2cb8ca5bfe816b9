-- ===== src/Central/Lifecycle/Serving.antt =====
-- From start to the handlers, server/CentralServer.cpp: the pool that start leaves is one with which
-- the handlers get on.
use protokol_javni_prevoz.Prelude.{
  ℕ, zero, suc, ◌<◌, ◌≡◌, refl, sym, ◌∙◌, ap, subst, Bool, true, false, some, List, [], ◌∷◌, length,
  drop, if◌then◌else◌,
}
use protokol_javni_prevoz.Prelude.Int.{ℤ}
use protokol_javni_prevoz.Message.{Message}
use protokol_javni_prevoz.Platform.{Platform}
use protokol_javni_prevoz.Database.Pool.{
  Pool, File, Conn, fresh, attach, file_of, initialize, resize, initialize_connections,
  initialize_pool,
}
use protokol_javni_prevoz.Database.Pool.Lending.{IsPool, count_free}
use protokol_javni_prevoz.Central.{Server}
use protokol_javni_prevoz.Central.Dispatch.{handle_client_message}
use protokol_javni_prevoz.Central.Dispatch.Pooling.{PoolKept, handle_client_message-PoolKept}
use protokol_javni_prevoz.Central.Lifecycle.{CentralServer, Attempt, start_server}
use protokol_javni_prevoz.Central.Lifecycle.Phases.{
  Phase, idle, serving, deaf, Shows, promise_start, opens, Meets,
}
use protokol_javni_prevoz.Central.Lifecycle.Steps.{start_server-Meets}

length-resize {ℓ} : {A : Type ℓ} (n : ℕ) (a : A) (xs : List A) → length (resize n a xs) ≡ n
unfolding resize
length-resize zero a xs = refl
length-resize (suc n) a [] = ap suc (length-resize n a [])
length-resize (suc n) a (x ∷ xs) = ap suc (length-resize n a xs)

length-chosen :
    {R : Type 0} (n : ℕ) (b : Bool) (x y : Bool × List Conn × File R)
    → (x.0 ≡ true → length x.1 ≡ n)
    → y.0 ≡ false
    → (if b then x else y).0 ≡ true
    → length ((if b then x else y).1) ≡ n
length-chosen n false x y h f e = cc
length-chosen n true x y h f e = h e

-- A start that answers true has opened the pool.
started_pool :
    {R : Type 0} (ready listening : Bool) (phase : Phase) (pool : Pool R) (s' : CentralServer R)
    → Meets pool (some (true, s')) (promise_start ready listening phase)
    → (ready ≡ true) × (s'.pool ≡ pool)
started_pool false listening phase pool s' m = let h = m.0 in cc
started_pool true false idle pool s' m = let h = m.0 in cc
started_pool true false serving pool s' m = let h = m.0 in cc
started_pool true false deaf pool s' m = let h = m.0 in cc
started_pool true true idle pool s' m = (refl, m.2)
started_pool true true serving pool s' m = absurd m
started_pool true true deaf pool s' m = absurd m

module _ (env : Platform) where
  open env use {Real}

  length-initialize_connections :
      (n : ℕ) (old : List Conn) (f : File Real)
      → (initialize_connections env n old f).0 ≡ true
      → length (initialize_connections env n old f).1 ≡ n
  unfolding initialize_connections
  length-initialize_connections zero old f e = refl
  length-initialize_connections (suc n) old f e =
      length-chosen (suc n) (initialize env (attach fresh f)).0 _ _
        (λ h. ap suc (
          length-initialize_connections n (drop 1 old) (file_of (initialize env (attach fresh f)).1)
            h))
        refl e

  initialize_pool-IsPool :
      (n : ℕ) (p : Pool Real)
      → (initialize_pool env n p).0 ≡ true
      → IsPool (initialize_pool env n p).1
  unfolding initialize_pool
  initialize_pool-IsPool n p e = record {
    places =
        length-resize n true p.available
        ∙ sym (length-initialize_connections n p.connections p.file e);
  }

  -- When start answers true, with a place in the pool that was not lent, then a server with the
  -- pool that start left handles a client's messages, whatever they are and whatever fails,
  -- without a wait for a connection, and when no handler throws, the same connections are free
  -- afterwards.
  pub start_server-PoolKept :
      (phase : Phase) (port : ℤ) (attempt : Attempt) (s s' : CentralServer Real) (ms : List Message)
      (client : ℕ) (server : Server Real)
      → Shows phase s
      → 0 < count_free (resize 5 true s.pool.available)
      → start_server env port attempt s ≡ some (true, s')
      → server.pool ≡ s'.pool
      → PoolKept env server (handle_client_message env ms client server)
  start_server-PoolKept phase port attempt s s' ms client server h free e same =
      let got = started_pool _ (opens attempt.tls) phase _ s' (
        subst
          (λ r.
            Meets (initialize_pool env 5 s.pool).1 r
              (promise_start (initialize_pool env 5 s.pool).0 (opens attempt.tls) phase))
          e (start_server-Meets env phase port attempt s h)) in
      let pool = sym (same ∙ got.1) in
      handle_client_message-PoolKept env ms client server
        (subst IsPool pool (initialize_pool-IsPool 5 s.pool got.0))
        (subst (λ p. 0 < count_free p.available) pool (unfold initialize_pool in free))
