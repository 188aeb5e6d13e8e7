-- ===== src/Fabric/Chain/Admission.antt =====
-- When `append` accepts, and what it leaves behind.
use rotten_apple.Prelude.{
  Option, Option-cases, Result-cases, ap, arith, err, false, inl, inr, ltb, none, ok, some,
  text_beq, text_beq_iff, true, ◌↔◌, ◌∙◌, ◌≡◌, ◌≢◌, ◌⊎◌,
}
use rotten_apple.Fabric.Event.{EnvelopeCore, Envelope, Fabric}
use rotten_apple.Fabric.Chain.{
  EventLog, unwrap_hash, TrustStore, trust_get, continuity, checks, append, panicked, commit,
  ChainError,
}
use rotten_apple.Fabric.Chain.Links.{Follows, IsSigned, last_core, IsCached, IsWellFormed}

module _ (f : Fabric) (log : EventLog) (env : Envelope) where
  -- The checks behind the signature, by the last event.
  links_of_checks :
      (last : Option EnvelopeCore)
      → IsCached f log last
      → text_beq env.core.prev_hash (unwrap_hash log.head_hash) ≡ true
      → ltb env.core.lease_epoch log.head_epoch ≡ false
      → continuity log env.core ≡ ok tt
      → Follows f last env.core
  unfolding continuity
  links_of_checks none c p e k =
      ground (arith, text_beq_iff env.core.prev_hash (unwrap_hash log.head_hash))
  links_of_checks (some last) c p e k =
      ground (arith, text_beq_iff env.core.prev_hash (unwrap_hash log.head_hash))

  checks_of_links :
      (last : Option EnvelopeCore)
      → IsCached f log last
      → Follows f last env.core
      → (text_beq env.core.prev_hash (unwrap_hash log.head_hash) ≡ true)
        × (ltb env.core.lease_epoch log.head_epoch ≡ false)
        × (continuity log env.core ≡ ok tt)
  unfolding continuity
  checks_of_links none c h =
      ground (arith, text_beq_iff env.core.prev_hash (unwrap_hash log.head_hash))
  checks_of_links (some last) c h =
      ground (arith, text_beq_iff env.core.prev_hash (unwrap_hash log.head_hash))

  module _ (trust : TrustStore f) where
    pub IsSigned-of_checks : checks f log env trust ≡ ok tt → IsSigned f trust env
    unfolding checks
    IsSigned-of_checks h = elim (Option-cases (trust_get f env.core.issuer trust)) [
      | inl e ↦ ground arith
      | inr (key, e) ↦ record { key = key; trusted = e; verified = ground arith }
    ]

    -- `append` accepts exactly the signed envelopes of trusted issuers that follow the last event.
    pub checks_iff :
        IsWellFormed f log
        → (checks f log env trust ≡ ok tt)
          ↔ (IsSigned f trust env × Follows f (last_core none log.events) env.core)
    unfolding checks
    checks_iff w = (
      λ h. (
        IsSigned-of_checks h,
        links_of_checks (last_core none log.events) w.cached (ground arith) (ground arith)
            (ground arith),
      ),
      λ h. ground (
        arith,
        h.0.trusted,
        h.0.verified,
        checks_of_links (last_core none log.events) w.cached h.1,
      ),
    )

module _ (f : Fabric) (log : EventLog) (env : Envelope) where
  continuity-ne-panicked :
      (last : Option EnvelopeCore) → IsCached f log last → continuity log env.core ≢ err panicked
  unfolding continuity
  continuity-ne-panicked none c = ground arith
  continuity-ne-panicked (some last) c = ground arith

  checks-ne-panicked :
      (trust : TrustStore f) → IsWellFormed f log → checks f log env trust ≢ err panicked
  unfolding checks
  checks-ne-panicked trust w =
      ground (arith, continuity-ne-panicked (last_core none log.events) w.cached)

module _ (f : Fabric) (log : EventLog) (env : Envelope) (trust : TrustStore f) where
  -- What a call of `append` on a well-formed log does: it pushes the envelope exactly when the
  -- issuer is trusted, the signature verifies and the envelope follows the last event; otherwise it
  -- returns an error that is no panic and leaves the log as it was.
  pub append_exact :
      IsWellFormed f log
      → (append f log env trust ≡ (ok tt, commit f log env))
          × IsSigned f trust env
          × Follows f (last_core none log.events) env.core
        ⊎ (e : ChainError) × (append f log env trust ≡ (err e, log))
          × (e ≢ panicked)
          × ¬ (IsSigned f trust env × Follows f (last_core none log.events) env.core)
  unfolding append
  append_exact w = elim (Result-cases (checks f log env trust)) [
    | inl (tt, h) ↦ inl (
      rw (h, append),
      ((checks_iff f log env trust w).0 h).0,
      ((checks_iff f log env trust w).0 h).1,
    )
    | inr (e, h) ↦ inr (
      e,
      rw (h, append),
      (λ p. checks-ne-panicked f log env trust w (h ∙ ap err p)),
      λ a. cc (h, (checks_iff f log env trust w).1 a),
    )
  ]
