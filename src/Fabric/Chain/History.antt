-- ===== src/Fabric/Chain/History.antt =====
-- What holds of every log that calls of `append` can build.
use rotten_apple.Prelude.{
  All, All-append, In, List, [], arith, err, inl, inr, length, length-append, none, refl, ◌++◌, ◌<◌,
  ◌∷◌, ◌≡◌,
}
use rotten_apple.Fabric.Event.{EnvelopeCore, Envelope, Fabric}
use rotten_apple.Fabric.Chain.{
  EventLog, ChainError, new, u64_mod, TrustStore, append, commit, replay,
}
use rotten_apple.Fabric.Chain.Links.{
  Follows, IsSigned, last_core, last_core-append, IsWellFormed, IsChain-append, is_empty-append,
  new-IsWellFormed,
}
use rotten_apple.Fabric.Chain.Admission.{append_exact}
use rotten_apple.Fabric.Chain.Order.{
  SameLease, Precedes, Ordered, Ordered-SameLease, Ordered-Precedes,
}

module _ (f : Fabric) (trust : TrustStore f) where
  -- A well-formed log whose events are all signed by trusted issuers.
  pub record IsSound (log : EventLog) : Type 0 where
    pub well_formed : IsWellFormed f log
    pub signed : All (IsSigned f trust) log.events

  pub new-IsSound : IsSound new
  unfolding new
  new-IsSound = record { well_formed = new-IsWellFormed f; signed = tt }

  commit-IsWellFormed :
      (log : EventLog) (env : Envelope)
      → IsWellFormed f log
      → Follows f (last_core none log.events) env.core
      → IsWellFormed f (commit f log env)
  unfolding commit
  commit-IsWellFormed log env w h = record {
    chain = IsChain-append f none log.events env w.chain h;
    cached =
        rw (last_core-append none log.events env)
          (is_empty-append f log.events env, refl, refl, refl, refl);
  }

  commit-IsSound :
      (log : EventLog) (env : Envelope)
      → IsSound log
      → IsSigned f trust env
      → Follows f (last_core none log.events) env.core
      → IsSound (commit f log env)
  unfolding commit
  commit-IsSound log env s g h = record {
    well_formed = commit-IsWellFormed log env s.well_formed h;
    signed = All-append (IsSigned f trust) log.events (env ∷ []) s.signed (g, tt);
  }

  pub append-IsSound :
      (log : EventLog) (env : Envelope) → IsSound log → IsSound (append f log env trust).1
  append-IsSound log env s = elim (append_exact f log env trust s.well_formed) [
    | inl (e, g, h) ↦ rw e (commit-IsSound log env s g h)
    | inr (x, e, n, a) ↦ rw e s
  ]

  -- Whatever envelopes are offered, valid or not, the log stays a signed chain.
  pub replay-IsSound :
      (log : EventLog) (envs : List Envelope) → IsSound log → IsSound (replay f log envs trust)
  unfolding replay
  replay-IsSound log [] s = s
  replay-IsSound log (env ∷ rest) s =
      replay-IsSound (append f log env trust).1 rest (append-IsSound log env s)

  -- No split brain: after any offers, of two accepted events the later one stands in a later lease
  -- epoch, or in the same one with the same issuer.
  pub replay-one_issuer :
      (envs : List Envelope) → Ordered SameLease (replay f new envs trust).events
  replay-one_issuer envs =
      Ordered-SameLease f (replay f new envs trust).events
        (replay-IsSound new envs new-IsSound).well_formed.chain

  irreflexive : (a : EnvelopeCore) → ¬ Precedes a a
  irreflexive a h = ground arith

  not-In-Ordered :
      (env : Envelope) (es : List Envelope) → In env es → Ordered Precedes (es ++ env ∷ []) → ⊥
  not-In-Ordered env [] m o = elim m [ ]
  not-In-Ordered env (e ∷ es) (inl p) o =
      irreflexive env.core (rw (← p) at (last_related e.core es o.0))
    where
      last_related :
          (a : EnvelopeCore) (es : List Envelope)
          → All (λ d. Precedes a d.core) (es ++ env ∷ [])
          → Precedes a env.core
      last_related a [] h = h.0
      last_related a (d ∷ es) h = last_related a es h.1
  not-In-Ordered env (e ∷ es) (inr m) o = not-In-Ordered env es m o.1

  -- An event that the log holds is refused when it is offered again, in a log of fewer than 2^64
  -- events.
  pub append_again :
      (log : EventLog) (env : Envelope)
      → IsWellFormed f log
      → length log.events < u64_mod
      → In env log.events
      → (e : ChainError) × (append f log env trust ≡ (err e, log))
  append_again log env w room m = elim (append_exact f log env trust w) [
    | inl (e, g, h) ↦ absurd (
        not-In-Ordered env log.events m (
          Ordered-Precedes f (log.events ++ env ∷ [])
            (omega (arith, length-append log.events (env ∷ [])))
            (IsChain-append f none log.events env w.chain h)))
    | inr (x, e, n, a) ↦ (x, e)
  ]
