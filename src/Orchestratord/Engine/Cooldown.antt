-- ===== src/Orchestratord/Engine/Cooldown.antt =====
-- No move within the cooldown of the last one.
use rotten_apple.Prelude.{
  All, Bool-cases, In, List, Option, Result, [], ap, arith, err, false, if_elim, inl, inr, nat_beq,
  ok, refl, some, sym, true, ℕ, ◌*◌, ◌-◌, ◌<◌, ◌^◌, ◌∙◌, ◌∷◌, ◌≡◌, ◌⊎◌,
}
use rotten_apple.Orchestratord.Broadcast.{Inner}
use rotten_apple.HashMap
use rotten_apple.HashMap.{IsEquivalence}
use rotten_apple.Manifest.{PolicyMemory}
use rotten_apple.Orchestratord.Engine.{
  Direction, up, down, direction_beq, same_key, ActorError, DomainInfo, Message, EngineState,
  Environment, cooling, apply_move, run_tick, EventKind, engine_apply, engine_skip, Event,
  ballooned, balloon_failed, cooldown_active, emit, saturating_mul,
}
use rotten_apple.Orchestratord.Engine.Policies.{insert_defaults-known, policies-run_tick}
use rotten_apple.Orchestratord.Engine.Ticks.{In-send, Cooldowns, IsOther, run_tick-keeps}

direction_beq-eq : (a b : Direction) → direction_beq a b ≡ true → a ≡ b
direction_beq-eq up up h = refl
direction_beq-eq up down h = cc
direction_beq-eq down up h = cc
direction_beq-eq down down h = refl

direction_beq_refl : (a : Direction) → direction_beq a a ≡ true
direction_beq_refl up = refl
direction_beq_refl down = refl

same_key-eq : (a b : ℕ × Direction) → same_key a b ≡ true → a ≡ b
same_key-eq (i, d) (j, e) h =
    let p : i ≡ j = ground arith in let q : d ≡ e = direction_beq-eq d e (ground arith) in cc (p, q)

same_key_refl : (a : ℕ × Direction) → same_key a a ≡ true
same_key_refl (i, d) = ground (arith, direction_beq_refl d)

same_key-IsEquivalence : IsEquivalence same_key
same_key-IsEquivalence = record {
  same_refl = same_key_refl;
  same_symm = λ a b h. rw (same_key-eq a b h) (same_key_refl b);
  same_trans = λ a b c h k. rw (same_key-eq a b h) k;
}

-- An event of the ring that tells of a move of a domain in a direction.
abbrev pub IsMove : ℕ × Direction → ℕ × Event → Type 0
IsMove key x =
    (from_mb : ℕ) × (to_mb : ℕ) × (x.1.domid ≡ some key.0)
    × (x.1.message ≡ ballooned key.1 from_mb to_mb)

module _ (key : ℕ × Direction) where
  -- Every move in the ring was there before.
  abbrev pub NoneNew : Inner Event → Inner Event → Type 0
  NoneNew before after = (x : ℕ × Event) → IsMove key x → In x after.ring → In x before.ring

  NoneNew-other :
      (env : Environment) (kind : EventKind) (domid : Option ℕ) (m : Message) (s : EngineState)
      (x : ℕ × Event)
      → IsOther m
      → IsMove key x
      → In x (emit env kind domid m s).events.ring
      → In x s.events.ring
  NoneNew-other env kind domid m s x o (a, b, i, e) h = elim (In-send x _ s.events h) [
    | inl k ↦ k
    | inr k ↦ absurd (o key.1 a b (ap (λ (y : ℕ × Event). y.1.message) (sym k) ∙ e))
  ]

  NoneNew-ballooned :
      (env : Environment) (kind : EventKind) (domid : ℕ) (dir : Direction) (from_mb to_mb : ℕ)
      (s : EngineState) (x : ℕ × Event)
      → IsMove key x
      → In x (emit env kind (some domid) (ballooned dir from_mb to_mb) s).events.ring
      → In x s.events.ring ⊎ ((domid, dir) ≡ key)
  NoneNew-ballooned env kind domid dir from_mb to_mb s x (a, b, i, e) h =
      elim (In-send x _ s.events h) [
        | inl k ↦ inl k
        | inr k ↦
            let same_domid : some domid ≡ some key.0 =
              ap (λ (y : ℕ × Event). y.1.domid) (sym k) ∙ i in
            let same_message : ballooned dir from_mb to_mb ≡ ballooned key.1 a b =
              ap (λ (y : ℕ × Event). y.1.message) (sym k) ∙ e in
            inr (cc (same_domid, same_message))
      ]

  module _ (env : Environment) (start : EngineState) where
    -- A move that is new has its instant recorded.
    Noted : Inner Event → Cooldowns → Type 0
    Noted g c =
        (x : ℕ × Event)
        → IsMove key x
        → In x g.ring
        → In x start.events.ring ⊎ (HashMap.get same_key key c ≡ some env.now)

    later_insert :
        (k : ℕ × Direction) (c : Cooldowns)
        → HashMap.get same_key key c ≡ some env.now
        → HashMap.get same_key key (HashMap.insert same_key k env.now c) ≡ some env.now
    later_insert k c h =
        ground (arith, HashMap.get-insert same_key same_key-IsEquivalence k key env.now c)

    Noted-apply_move :
        (d : DomainInfo) (o : Option ℕ) (t : ℕ) (dir : Direction) (s : EngineState)
        → Noted s.events s.cooldowns
        → Noted (apply_move env d o (t, dir) s).events (apply_move env d o (t, dir) s).cooldowns
    unfolding apply_move Noted
    Noted-apply_move d o t dir s q =
        if_elim (λ (u : EngineState). Noted u.events u.cooldowns)
          (cooling env.now o (HashMap.get same_key (d.domid, dir) s.cooldowns))
          (λ _ x m h. q x m (
            NoneNew-other env engine_skip (some d.domid) (cooldown_active dir) s x (λ d' a b. cc) m
              h))
          (λ _. go (env.domain_balloon d.domid (saturating_mul t 1024)))
      where
        moved : EngineState
        moved = record s { cooldowns = HashMap.insert same_key (d.domid, dir) env.now s.cooldowns }

        go :
            (r : Result ActorError (Unit {0}))
            → let u : EngineState = elim r [
              | ok u ↦ emit env engine_apply (some d.domid) (ballooned dir d.memory_mb t) moved
              | err e ↦ emit env engine_skip (some d.domid) (balloon_failed e) s
            ] in
              Noted u.events u.cooldowns
        go (err e) x m h =
            q x m (
              NoneNew-other env engine_skip (some d.domid) (balloon_failed e) s x (λ d' a b. cc) m
                h)
        go (ok u) x m h =
            elim (NoneNew-ballooned env engine_apply d.domid dir d.memory_mb t moved x m h) [
              | inr k ↦ inr (
                  ground (
                    arith,
                    same_key_refl key,
                    HashMap.get-insert same_key same_key-IsEquivalence (d.domid, dir) key env.now
                        s.cooldowns,
                  ))
              | inl k ↦ elim (q x m k) [
                | inl old ↦ inl old
                | inr r ↦ inr (later_insert (d.domid, dir) s.cooldowns r)
              ]
            ]

    -- A tick records the instant of each move that it makes.
    run_tick-Noted : Noted (run_tick env start).events (run_tick env start).cooldowns
    unfolding Noted
    run_tick-Noted =
        run_tick-keeps env Noted
          (λ kind domid m s o q x i h. q x i (NoneNew-other env kind domid m s x o i h)) start
          (λ domains d p t dir s held q. Noted-apply_move d p.cooldown_s t dir s q) (λ x m h. inl h)

  -- What a tick finds and keeps while the cooldown runs that started at `last`.
  module _ (env : Environment) (cooldown_s last : ℕ) (before : Inner Event)
      (recent : env.now - last < cooldown_s * 10 ^ 9) where
    abbrev Quiet : Inner Event → Cooldowns → Type 0
    Quiet g c = NoneNew before g × (HashMap.get same_key key c ≡ some last)

    Quiet-emit :
        (kind : EventKind) (domid : Option ℕ) (m : Message) (s : EngineState)
        → IsOther m
        → Quiet s.events s.cooldowns
        → Quiet (emit env kind domid m s).events (emit env kind domid m s).cooldowns
    Quiet-emit kind domid m s o q =
        (λ x i h. q.0 x i (NoneNew-other env kind domid m s x o i h), q.1)

    Quiet-apply_move :
        (d : DomainInfo) (o : Option ℕ) (t : ℕ) (dir : Direction) (s : EngineState)
        → ((d.domid, dir) ≡ key → o ≡ some cooldown_s)
        → Quiet s.events s.cooldowns
        → Quiet (apply_move env d o (t, dir) s).events (apply_move env d o (t, dir) s).cooldowns
    unfolding apply_move
    Quiet-apply_move d o t dir s rule q =
        if_elim (λ (u : EngineState). Quiet u.events u.cooldowns)
          (cooling env.now o (HashMap.get same_key (d.domid, dir) s.cooldowns))
          (λ _. Quiet-emit engine_skip (some d.domid) (cooldown_active dir) s (λ d' a b. cc) q)
          (λ warm. go warm (env.domain_balloon d.domid (saturating_mul t 1024)))
      where
        moved : EngineState
        moved = record s { cooldowns = HashMap.insert same_key (d.domid, dir) env.now s.cooldowns }

        elsewhere :
            Quiet s.events s.cooldowns
            → cooling env.now o (HashMap.get same_key (d.domid, dir) s.cooldowns) ≡ false
            → ¬ ((d.domid, dir) ≡ key)
        elsewhere q warm k =
            let hot : cooling env.now o (HashMap.get same_key (d.domid, dir) s.cooldowns) ≡ true =
              rw (k, q.1, rule k) (ground arith) in
            cc (hot, warm)

        other_key :
            ¬ ((d.domid, dir) ≡ key)
            → Quiet s.events s.cooldowns
            → Quiet moved.events moved.cooldowns
        other_key n q = (
          q.0,
          elim (Bool-cases (same_key (d.domid, dir) key)) [
            | inl same ↦ absurd (n (same_key-eq (d.domid, dir) key same))
            | inr other ↦ ground (
              arith,
              q.1,
              HashMap.get-insert same_key same_key-IsEquivalence (d.domid, dir) key env.now
                  s.cooldowns,
            )
          ],
        )

        made :
            ¬ ((d.domid, dir) ≡ key)
            → Quiet moved.events moved.cooldowns
            → let u = emit env engine_apply (some d.domid) (ballooned dir d.memory_mb t) moved in
              Quiet u.events u.cooldowns
        made n q = (
          λ x i h. elim (NoneNew-ballooned env engine_apply d.domid dir d.memory_mb t moved x i h) [
            | inl k ↦ q.0 x i k
            | inr k ↦ absurd (n k)
          ],
          q.1,
        )

        go :
            cooling env.now o (HashMap.get same_key (d.domid, dir) s.cooldowns) ≡ false
            → (r : Result ActorError (Unit {0}))
            → let u : EngineState = elim r [
              | ok u ↦ emit env engine_apply (some d.domid) (ballooned dir d.memory_mb t) moved
              | err e ↦ emit env engine_skip (some d.domid) (balloon_failed e) s
            ] in
              Quiet u.events u.cooldowns
        go warm (err e) =
            Quiet-emit engine_skip (some d.domid) (balloon_failed e) s (λ d' a b. cc) q
        go warm (ok u) = let n = elsewhere q warm in made n (other_key n q)

    run_tick-Quiet :
        (p : PolicyMemory) (s : EngineState)
        → HashMap.get nat_beq key.0 s.policies ≡ some p
        → p.cooldown_s ≡ some cooldown_s
        → Quiet s.events s.cooldowns
        → Quiet (run_tick env s).events (run_tick env s).cooldowns
    run_tick-Quiet p s held limit q =
        run_tick-keeps env Quiet Quiet-emit s
          (λ domains d r t dir u found k.
            Quiet-apply_move d r.cooldown_s t dir u
              (λ same.
                let i : d.domid ≡ key.0 = ap (λ (x : ℕ × Direction). x.0) same in
                let known = insert_defaults-known domains s.policies key.0 p held in
                let same_policy : r ≡ p = cc (i, found, known) in cc (same_policy, limit))
              k)
          q

-- Ticks one after another.
unfoldable pub run_ticks : List Environment → EngineState → EngineState
run_ticks [] s = s
run_ticks (env ∷ envs) s = run_ticks envs (run_tick env s)

module _ (key : ℕ × Direction) (cooldown_s : ℕ) where
  abbrev pub Within : ℕ → Environment → Type 0
  Within last env = env.now - last < cooldown_s * 10 ^ 9

  run_ticks-NoneNew :
      (last : ℕ) (before : Inner Event) (later : List Environment) (p : PolicyMemory)
      (s : EngineState)
      → HashMap.get nat_beq key.0 s.policies ≡ some p
      → p.cooldown_s ≡ some cooldown_s
      → All (Within last) later
      → NoneNew key before s.events
      → HashMap.get same_key key s.cooldowns ≡ some last
      → NoneNew key before (run_ticks later s).events
  unfolding run_ticks
  run_ticks-NoneNew last before [] p s held limit w n r = n
  run_ticks-NoneNew last before (env ∷ later) p s held limit w n r =
      let q = run_tick-Quiet key env cooldown_s last before w.0 p s held limit (n, r) in
      run_ticks-NoneNew last before later p (run_tick env s)
        ((policies-run_tick env s).0 key.0 p held) limit w.1 q.0 q.1

  -- Of a domain that has a policy with a cooldown: after a tick that moved its memory in a direction,
  -- no later tick within the cooldown moves it in that direction again. A move is told by an event:
  -- every event in the ring that tells of such a move was there after the first tick. Between the
  -- ticks the policy is not set anew.
  pub cooldown_holds :
      (first : Environment) (later : List Environment) (p : PolicyMemory) (s : EngineState)
      → HashMap.get nat_beq key.0 s.policies ≡ some p
      → p.cooldown_s ≡ some cooldown_s
      → All (Within first.now) later
      → (move : ℕ × Event) → IsMove key move
      → In move (run_tick first s).events.ring
      → ¬ In move s.events.ring
      → NoneNew key (run_tick first s).events (run_ticks later (run_tick first s)).events
  unfolding Noted
  cooldown_holds first later p s held limit w move is_move made is_new =
      elim (run_tick-Noted key first s move is_move made) [
        | inl old ↦ absurd (is_new old)
        | inr noted ↦
            run_ticks-NoneNew first.now (run_tick first s).events later p (run_tick first s)
              ((policies-run_tick first s).0 key.0 p held) limit w (λ x i h. h) noted
      ]
