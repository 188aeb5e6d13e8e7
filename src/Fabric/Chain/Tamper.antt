-- ===== src/Fabric/Chain/Tamper.antt =====
-- What the head hash pins: the signed cores of the whole history, and not the signatures.
use rotten_apple.Prelude.{All, List, [], ap, arith, length, none, refl, some, ◌↔◌, ◌∷◌, ◌≡◌}
use rotten_apple.Fabric.Event.{EnvelopeCore, Envelope, Fabric, hash, signed_bytes}
use rotten_apple.Fabric.Chain.{EventLog, TrustStore, new, replay}
use rotten_apple.Fabric.Chain.History.{new-IsSound, replay-IsSound}
use rotten_apple.Fabric.Chain.Links.{IsChain, last_core, IsCached, IsWellFormed}

abbrev pub cores : List Envelope → List EnvelopeCore
cores [] = []
cores (e ∷ es) = e.core ∷ cores es

-- The core of the last event.
abbrev final : Envelope → List Envelope → EnvelopeCore
final e [] = e.core
final e (x ∷ es) = final x es

last_core-final : (e : Envelope) (es : List Envelope) → last_core none (e ∷ es) ≡ some (final e es)
last_core-final e [] = refl
last_core-final e (x ∷ es) = last_core-final x es

final-cores :
    (e d : Envelope) (es ds : List Envelope)
    → cores (e ∷ es) ≡ cores (d ∷ ds)
    → final e es ≡ final d ds
final-cores e d [] [] h = cc
final-cores e d [] (y ∷ ds) h = cc
final-cores e d (x ∷ es) [] h = cc
final-cores e d (x ∷ es) (y ∷ ds) h = final-cores x y es ds (cc)

module _ (f : Fabric) where
  -- SHA-256 tells the encoded cores of one log from those of the other.
  abbrev pub NoCollision : List Envelope → List Envelope → Type 0
  NoCollision es ds =
      All
        (λ e.
          All (λ d. f.sha256 (f.to_vec e.core) ≡ f.sha256 (f.to_vec d.core) → e.core ≡ d.core) ds)
        es

  NoCollision-tail :
      (e d : Envelope) (es ds : List Envelope) → NoCollision (e ∷ es) (d ∷ ds) → NoCollision es ds
  NoCollision-tail e d [] ds n = tt
  NoCollision-tail e d (x ∷ es) ds n = (n.1.0.1, NoCollision-tail e d es ds (n.0, n.1.1))

  pinned :
      (e d : Envelope) (es ds : List Envelope)
      → IsChain f (some e.core) es
      → IsChain f (some d.core) ds
      → length es ≡ length ds
      → NoCollision (e ∷ es) (d ∷ ds)
      → hash f (final e es) ≡ hash f (final d ds)
      → cores (e ∷ es) ≡ cores (d ∷ ds)
  unfolding hash signed_bytes
  pinned e d [] [] c c' l n h = ap (λ r. r ∷ []) (n.0.0 h)
  pinned e d [] (y ∷ ds) c c' l n h = absurd (omega arith)
  pinned e d (x ∷ es) [] c c' l n h = absurd (omega arith)
  pinned e d (x ∷ es) (y ∷ ds) c c' l n h =
      let rest : cores (x ∷ es) ≡ cores (y ∷ ds) =
        pinned x y es ds c.1 c'.1 (omega arith) (NoCollision-tail e d (x ∷ es) (y ∷ ds) n) h in
      let same_link : hash f e.core ≡ hash f d.core = cc (rest, c.0.0, c'.0.0) in
      cc (rest, n.0.0 same_link)

  head_hash-final :
      (log : EventLog) (e : Envelope) (es : List Envelope)
      → IsCached f log (last_core none (e ∷ es))
      → log.head_hash ≡ some (hash f (final e es))
  head_hash-final log e es c = (rw (last_core-final e es) at c).1

  head_hash-cores :
      (log log' : EventLog)
      → IsWellFormed f log
      → IsWellFormed f log'
      → length log.events ≡ length log'.events
      → NoCollision log.events log'.events
      → (log.head_hash ≡ log'.head_hash) ↔ (cores log.events ≡ cores log'.events)
  head_hash-cores log log' w w' l n =
      go log.events log'.events w.chain w'.chain w.cached w'.cached l n
    where
      go :
          (es ds : List Envelope)
          → IsChain f none es
          → IsChain f none ds
          → IsCached f log (last_core none es)
          → IsCached f log' (last_core none ds)
          → length es ≡ length ds
          → NoCollision es ds
          → (log.head_hash ≡ log'.head_hash) ↔ (cores es ≡ cores ds)
      go [] [] c c' k k' l n = (λ _. refl, λ _. cc (k.1, k'.1))
      go [] (d ∷ ds) c c' k k' l n = absurd (omega arith)
      go (e ∷ es) [] c c' k k' l n = absurd (omega arith)
      go (e ∷ es) (d ∷ ds) c c' k k' l n = (
        λ h.
            pinned e d es ds c.1 c'.1 (omega arith) n
              (cc (h, head_hash-final log e es k, head_hash-final log' d ds k')),
        λ h. cc (head_hash-final log e es k, head_hash-final log' d ds k', final-cores e d es ds h),
      )

  -- Two logs that were built from nothing, by offering any envelopes to peers with any trust stores,
  -- have one head hash exactly if they hold the same signed cores in the same order: no event that was
  -- accepted can be changed, swapped or replaced without changing the head hash. The logs have the
  -- same number of events, and SHA-256 has no collision between the encoded cores of the one and those
  -- of the other. The signatures do not count.
  pub head_hash_iff :
      (envs envs' : List Envelope) (trust trust' : TrustStore f)
      → length (replay f new envs trust).events ≡ length (replay f new envs' trust').events
      → NoCollision (replay f new envs trust).events (replay f new envs' trust').events
      → ((replay f new envs trust).head_hash ≡ (replay f new envs' trust').head_hash)
        ↔ (cores (replay f new envs trust).events ≡ cores (replay f new envs' trust').events)
  head_hash_iff envs envs' trust trust' l n =
      head_hash-cores (replay f new envs trust) (replay f new envs' trust')
        (replay-IsSound f trust new envs (new-IsSound f trust)).well_formed
        (replay-IsSound f trust' new envs' (new-IsSound f trust')).well_formed l n
