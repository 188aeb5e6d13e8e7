-- ===== src/Fabric/Chain/Links.antt =====
-- What a log of accepted events looks like: every event follows the one before it.
use rotten_apple.Prelude.{
  List, Option, [], false, none, ok, refl, some, true, ◌%◌, ◌++◌, ◌+◌, ◌<◌, ◌∷◌, ◌≡◌, ◌⊎◌,
}
use rotten_apple.Fabric.NodeId.{same}
use rotten_apple.Fabric.Event.{EnvelopeCore, Envelope, Fabric, hash, verify}
use rotten_apple.Fabric.Chain.{EventLog, new, zero_hash, u64_mod, is_empty, TrustStore, trust_get}

module _ (f : Fabric) where
  -- `core` may stand behind `last`.
  abbrev pub Follows : Option EnvelopeCore → EnvelopeCore → Type 0
  Follows none core = (core.prev_hash ≡ zero_hash) × (core.seq ≡ 0)
  Follows (some last) core =
      (core.prev_hash ≡ hash f last)
      × ((last.lease_epoch < core.lease_epoch) × (core.seq ≡ 0)
          ⊎ (core.lease_epoch ≡ last.lease_epoch)
            × (same core.issuer last.issuer ≡ true)
            × (core.seq ≡ (last.seq + 1) % u64_mod))

  abbrev pub IsChain : Option EnvelopeCore → List Envelope → Type 0
  IsChain last [] = Unit
  IsChain last (e ∷ es) = Follows last e.core × IsChain (some e.core) es

  -- Its issuer is trusted, and its signature verifies under the trusted key.
  pub record IsSigned (trust : TrustStore f) (env : Envelope) : Type 0 where
    pub key : f.PublicKey
    pub trusted : trust_get f env.core.issuer trust ≡ some key
    pub verified : verify f env key ≡ ok tt

abbrev pub last_core : Option EnvelopeCore → List Envelope → Option EnvelopeCore
last_core last [] = last
last_core last (e ∷ es) = last_core (some e.core) es

pub last_core-append :
    (last : Option EnvelopeCore) (es : List Envelope) (e : Envelope)
    → last_core last (es ++ e ∷ []) ≡ some e.core
last_core-append last [] e = refl
last_core-append last (d ∷ es) e = last_core-append (some d.core) es e

-- The cached head fields are those of the last event.
module _ (f : Fabric) where
  abbrev pub IsCached : EventLog → Option EnvelopeCore → Type 0
  IsCached log none = (is_empty log.events ≡ true) × (log.head_hash ≡ none) × (log.head_epoch ≡ 0)
  IsCached log (some core) =
      (is_empty log.events ≡ false)
      × (log.head_hash ≡ some (hash f core))
      × (log.head_epoch ≡ core.lease_epoch)
      × (log.head_issuer ≡ some core.issuer)
      × (log.head_seq ≡ some core.seq)

  pub record IsWellFormed (log : EventLog) : Type 0 where
    pub chain : IsChain f none log.events
    pub cached : IsCached log (last_core none log.events)

  pub IsChain-append :
      (last : Option EnvelopeCore) (es : List Envelope) (e : Envelope)
      → IsChain f last es
      → Follows f (last_core last es) e.core
      → IsChain f last (es ++ e ∷ [])
  IsChain-append last [] e c h = (h, tt)
  IsChain-append last (d ∷ es) e c h = (c.0, IsChain-append (some d.core) es e c.1 h)

  pub is_empty-append : (es : List Envelope) (e : Envelope) → is_empty (es ++ e ∷ []) ≡ false
  is_empty-append [] e = refl
  is_empty-append (d ∷ es) e = refl

  pub new-IsWellFormed : IsWellFormed new
  unfolding new
  new-IsWellFormed = record { chain = tt; cached = (refl, refl, refl) }
