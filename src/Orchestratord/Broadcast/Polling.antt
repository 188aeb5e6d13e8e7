-- ===== src/Orchestratord/Broadcast/Polling.antt =====
-- What a poll of the ring returns, in terms of everything that was ever sent.
use rotten_apple.Prelude.{
  Bool-cases, List, [], arith, drop, if◌then◌else◌, inl, inr, length, length-append, length-drop,
  length-take, ltb, max, min, nat_eq, refl, some, suc, text_eq, zero, ℕ, ◌%◌, ◌&&◌, ◌++◌, ◌+◌, ◌-◌,
  ◌<◌, ◌==◌, ◌∷◌, ◌≡◌, ◌≤◌,
}
use native.Mathlib.Nat.{mod-eq_of_lt}
use rotten_apple.Orchestratord.Broadcast.{
  Inner, u64_mod, channel, pop_front, send, drain_loop, back, advance, drain_since, events_tail,
  send_all,
}

max_seq-step : (c m s : ℕ) → c ≤ m → (if ltb c s && ltb m s then s else m) ≡ max m s
max_seq-step c m s h = ground arith

module _ {ℓ} {A : Type ℓ} where
  -- Values with consecutive numbers.
  abbrev numbered : ℕ → List A → List (ℕ × A)
  numbered k [] = []
  numbered k (v ∷ vs) = (k, v) ∷ numbered (k + 1) vs

  append-nil : (xs : List A) → xs ++ [] ≡ xs
  append-nil [] = refl
  append-nil (x ∷ xs) = rw (append-nil xs)

  append_assoc : (xs ys zs : List A) → (xs ++ ys) ++ zs ≡ xs ++ (ys ++ zs)
  append_assoc [] ys zs = refl
  append_assoc (x ∷ xs) ys zs = rw (append_assoc xs ys zs)

  drop-drop : (m n : ℕ) (us : List A) → drop m (drop n us) ≡ drop (n + m) us
  drop-drop m zero us = let p : 0 + m ≡ m = omega arith in rw p
  drop-drop zero (suc n) [] = let p : suc n + 0 ≡ suc n = omega arith in rw p
  drop-drop (suc m) (suc n) [] = let p : suc n + suc m ≡ suc (suc n + m) = omega arith in rw p
  drop-drop m (suc n) (u ∷ us) =
      let p : suc n + m ≡ suc (n + m) = omega arith in rw (drop-drop m n us, p)

  drop-past : (n : ℕ) (us : List A) → length us ≤ n → drop n us ≡ []
  drop-past zero [] h = refl
  drop-past zero (u ∷ us) h = absurd (omega arith)
  drop-past (suc n) [] h = refl
  drop-past (suc n) (u ∷ us) h = drop-past n us (omega arith)

  length-numbered : (k : ℕ) (vs : List A) → length (numbered k vs) ≡ length vs
  length-numbered k [] = refl
  length-numbered k (v ∷ vs) = rw (length-numbered (k + 1) vs)

  numbered-append :
      (k : ℕ) (vs : List A) (v : A)
      → numbered k (vs ++ v ∷ []) ≡ numbered k vs ++ (k + length vs, v) ∷ []
  numbered-append k [] v = let p : k + 0 ≡ k = omega arith in rw p
  numbered-append k (w ∷ vs) v =
      let p : k + suc (length vs) ≡ k + 1 + length vs = omega arith in
      rw (numbered-append (k + 1) vs v, p)

  drop-append :
      (n : ℕ) (us : List A) (v : A) → n ≤ length us → drop n (us ++ v ∷ []) ≡ drop n us ++ v ∷ []
  drop-append zero us v h = refl
  drop-append (suc n) [] v h = absurd (omega arith)
  drop-append (suc n) (u ∷ us) v h = drop-append n us v (omega arith)

  pop-drop :
      (k n : ℕ) (us : List A)
      → pop_front (numbered k (drop n us)) ≡ numbered (k + 1) (drop (suc n) us)
  pop-drop k zero [] = refl
  pop-drop k zero (u ∷ us) = refl
  pop-drop k (suc n) [] = refl
  pop-drop k (suc n) (u ∷ us) = pop-drop k n us

  drop-nil : (n : ℕ) → drop {A = A} n [] ≡ []
  drop-nil zero = refl
  drop-nil (suc n) = refl

  -- The ring after some values were sent: the last 1024, numbered from 1.
  abbrev Holds : List A → Inner A → Type ℓ
  Holds us g =
      (g.ring ≡ numbered (length us - 1024 + 1) (drop (length us - 1024) us))
      × (g.next_seq ≡ length us + 1)

  drop-step :
      (c k : ℕ) (w : A) (ws : List A)
      → (if ltb c (k + 1) then w ∷ drop (c - (k + 1)) ws else drop (c - (k + 1)) ws)
        ≡ drop (c - k) (w ∷ ws)
  drop-step c k w ws = elim (Bool-cases (ltb c (k + 1))) [
    | inl new ↦
        let p : c - (k + 1) ≡ 0 = ground arith in let q : c - k ≡ 0 = ground arith in rw (new, p, q)
    | inr old ↦ let p : c - k ≡ suc (c - (k + 1)) = ground arith in rw (old, p)
  ]

  -- A poll of consecutive numbers, of which a first one is new or the cursor is not behind.
  drained-numbered :
      (c m k : ℕ) (ws : List A)
      → c ≤ m
      → (ws ≡ [] → k ≤ m)
      → drain_loop c m (numbered (k + 1) ws) ≡ (max m (k + length ws), drop (c - k) ws)
  unfolding drain_loop
  drained-numbered c m k [] h l =
      let p : max m (k + 0) ≡ m = omega (arith, l refl) in
      let q : drop {A = A} (c - k) [] ≡ [] = drop-nil (c - k) in rw (p, q)
  drained-numbered c m k (w ∷ ws) h l =
      let p : max (max m (k + 1)) (k + 1 + length ws) ≡ max m (k + suc (length ws)) = omega arith in
      rw (
        max_seq-step c m (k + 1) h,
        drained-numbered c (max m (k + 1)) (k + 1) ws (omega arith) (λ _. omega arith),
        drop-step c k w ws,
        p,
      )

  back-numbered :
      (k : ℕ) (w : A) (ws : List A) → back (numbered (k + 1) (w ∷ ws)) ≡ some (k + suc (length ws))
  back-numbered k w [] = refl
  back-numbered k w (x ∷ ws) =
      let p : k + suc (suc (length ws)) ≡ k + 1 + suc (length ws) = omega arith in
      rw (back-numbered (k + 1) x ws, p)

  advance-held :
      (c k : ℕ) (ws out : List A)
      → (ws ≡ [] → k ≤ c)
      → advance (max c (k + length ws)) (back (numbered (k + 1) ws)) out ≡ max c (k + length ws)
  advance-held c k [] out l = refl
  advance-held c k (w ∷ ws) [] l = rw (back-numbered k w ws) (ground arith)
  advance-held c k (w ∷ ws) (v ∷ out) l = rw (back-numbered k w ws)

  numbered-snoc :
      (k : ℕ) (us : List A) (v : A)
      → k ≤ length us
      → numbered (k + 1) (drop k us) ++ (length us + 1, v) ∷ []
        ≡ numbered (k + 1) (drop k (us ++ v ∷ []))
  numbered-snoc k us v h =
      let p : k + 1 + (length us - k) ≡ length us + 1 = omega arith in
      rw (drop-append k us v h, numbered-append (k + 1) (drop k us) v, length-drop k us, p)

  length-Holds : (us : List A) (g : Inner A) → Holds us g → length g.ring ≡ min (length us) 1024
  length-Holds us g h =
      let p : length us - (length us - 1024) ≡ min (length us) 1024 = omega arith in
      rw (h.0, length-numbered, length-drop, p)

  kept-Holds :
      (us : List A) (g : Inner A)
      → Holds us g
      → (if length g.ring == 1024 then pop_front g.ring else g.ring)
        ≡ numbered (length us + 1 - 1024 + 1) (drop (length us + 1 - 1024) us)
  kept-Holds us g h = elim (Bool-cases (length g.ring == 1024)) [
    | inl full ↦
        let k = length us - 1024 in
        let p : length us + 1 - 1024 ≡ suc k = ground (arith, length-Holds us g h) in
        let q : suc k + 1 ≡ k + 1 + 1 = omega arith in rw (full, h.0, pop-drop, p, q)
    | inr room ↦
        let p : length us + 1 - 1024 ≡ length us - 1024 = ground (arith, length-Holds us g h) in
        rw (room, h.0, p)
  ]

  Holds-send :
      (us : List A) (v : A) (g : Inner A)
      → length us + 2 < u64_mod
      → Holds us g
      → Holds (us ++ v ∷ []) (send v g).1
  unfolding send
  Holds-send us v g room h =
      let e : length (us ++ v ∷ []) ≡ length us + 1 = length-append us (v ∷ []) in
      let k = length us + 1 - 1024 in
      let p : (length us + 1 + 1) % u64_mod ≡ length us + 1 + 1 = mod-eq_of_lt (omega arith) in
      (rw (kept-Holds us g h, h.1, e) (numbered-snoc k us v (omega arith)), rw (h.1, p, e))

  Holds-send_all :
      (vs us : List A) (g : Inner A)
      → length us + length vs + 2 < u64_mod
      → Holds us g
      → Holds (us ++ vs) (send_all vs g)
  unfolding send_all
  Holds-send_all [] us g room h = rw (append-nil us) h
  Holds-send_all (v ∷ vs) us g room h =
      let e : length (us ++ v ∷ []) ≡ length us + 1 = length-append us (v ∷ []) in
      rw (← append_assoc us (v ∷ []) vs) (
        Holds-send_all vs (us ++ v ∷ []) (send v g).1 (omega arith)
          (Holds-send us v g (omega arith) h))

  -- The ring after fewer than 2^64 - 2 sends: the last 1024 values, numbered from 1.
  Holds-channel : (vs : List A) → length vs + 2 < u64_mod → Holds vs (send_all vs channel)
  unfolding channel
  Holds-channel vs room = Holds-send_all vs [] channel (omega arith) (refl, refl)

  -- What a poll returns after some values were sent, fewer than 2^64 - 2: every value behind the
  -- cursor, in the order of the sends, but for those that are not among the last 1024; and as the new
  -- cursor the number of values that were sent, if the old one is not beyond it.
  pub drain_since-send_all :
      (vs : List A) (cursor : ℕ)
      → length vs + 2 < u64_mod
      → drain_since cursor (send_all vs channel)
        ≡ (max cursor (length vs), drop (max cursor (length vs - 1024)) vs)
  unfolding drain_since
  drain_since-send_all vs cursor room =
      let h = Holds-channel vs room in
      let k = length vs - 1024 in
      let short : drop k vs ≡ [] → k ≤ cursor =
        λ e. let z : length (drop k vs) ≡ 0 = rw e in omega (arith, z, length-drop k vs) in
      let p : k + (length vs - k) ≡ length vs = omega arith in
      let q : k + (cursor - k) ≡ max cursor k = omega arith in
      let out = drop (cursor - k) (drop k vs) in
      let a = advance-held cursor k (drop k vs) out short in
      rw (
        h.0,
        drained-numbered cursor cursor k (drop k vs) (omega arith) short,
        a,
        length-drop k vs,
        drop-drop (cursor - k) k vs,
        p,
        q,
      )

  -- A poll with a limit loses events: when more than `limit` are due, the cursor that it returns is
  -- behind all of them, so the next poll returns none although only `limit` were delivered.
  pub events_tail_loses :
      (vs : List A) (since limit : ℕ)
      → length vs + 2 < u64_mod
      → limit < length vs - max since (length vs - 1024)
      → let g = send_all vs channel in
        let (cursor, events) = events_tail since limit g in
        (length events ≡ limit)
        × (limit < length (drain_since since g).1)
        × (drain_since cursor g ≡ (cursor, []))
  unfolding events_tail
  events_tail_loses vs since limit room more =
      let first = drain_since-send_all vs since room in
      let m = max since (length vs - 1024) in
      let next = drain_since-send_all vs (max since (length vs)) room in
      let l : min limit (length vs - m) ≡ limit = omega arith in
      let p : max (max since (length vs)) (length vs) ≡ max since (length vs) = omega arith in
      let past = drop-past (max (max since (length vs)) (length vs - 1024)) vs (omega arith) in
      rw (first, next, length-take, length-drop, l, p, past) (refl, more, refl)
