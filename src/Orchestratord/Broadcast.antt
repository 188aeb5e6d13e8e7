-- ===== src/Orchestratord/Broadcast.antt =====
-- crates/orchestratord/src/engine.rs, module `broadcast`: the bounded ring of control-plane events
-- that clients poll, and `events.tail` of dispatch.rs. Each call holds the mutex from end to end, so
-- a call is one function of the ring.
pub mod Polling
use rotten_apple.Prelude.{
  List, Option, [], if◌then◌else◌, length, ltb, nat_eq, none, some, take, text_eq, ℕ, ◌%◌, ◌&&◌,
  ◌++◌, ◌+◌, ◌==◌, ◌^◌, ◌∷◌,
}

abbrev pub capacity : ℕ
capacity = 1024

abbrev pub u64_mod : ℕ
u64_mod = 2 ^ 64

pub record Inner {ℓ} (A : Type ℓ) : Type ℓ where
  pub ring : List (ℕ × A)
  pub next_seq : ℕ

module _ {ℓ} {A : Type ℓ} where
  unfoldable pub channel : Inner A
  channel = record { ring = []; next_seq = 1 }

  abbrev pub pop_front : List (ℕ × A) → List (ℕ × A)
  pop_front [] = []
  pop_front (x ∷ xs) = xs

  -- The number that the value got, and the ring afterwards.
  unfoldable pub send : A → Inner A → ℕ × Inner A
  send v g =
      let seq = g.next_seq in
      let kept = if length g.ring == capacity then pop_front g.ring else g.ring in
      (seq, record { ring = kept ++ (seq, v) ∷ []; next_seq = (seq + 1) % u64_mod })

  -- The loop of `drain_since`: `max_seq` at its end, and the values behind the cursor.
  unfoldable pub drain_loop : (cursor max_seq : ℕ) → List (ℕ × A) → ℕ × List A
  drain_loop cursor max_seq [] = (max_seq, [])
  drain_loop cursor max_seq ((seq, v) ∷ rest) =
      let seen = if ltb cursor seq && ltb max_seq seq then seq else max_seq in
      let later = drain_loop cursor seen rest in
      (later.0, if ltb cursor seq then v ∷ later.1 else later.1)

  abbrev pub back : List (ℕ × A) → Option ℕ
  back [] = none
  back ((seq, v) ∷ []) = some seq
  back (x ∷ y ∷ rest) = back (y ∷ rest)

  -- A client that is up to date gets the number of the newest event.
  abbrev pub advance : ℕ → Option ℕ → List A → ℕ
  advance max_seq none out = max_seq
  advance max_seq (some seq) [] = if ltb max_seq seq then seq else max_seq
  advance max_seq (some seq) (v ∷ out) = max_seq

  unfoldable pub drain_since : ℕ → Inner A → ℕ × List A
  drain_since cursor g =
      let drained = drain_loop cursor cursor g.ring in
      (advance drained.0 (back g.ring) drained.1, drained.1)

  -- `events.tail`: the cursor for the next poll, and at most `limit` events.
  unfoldable pub events_tail : (since limit : ℕ) → Inner A → ℕ × List A
  events_tail since limit g =
      let (cursor, events) = drain_since since g in (cursor, take limit events)

  -- Some sends, one after another.
  unfoldable pub send_all : List A → Inner A → Inner A
  send_all [] g = g
  send_all (v ∷ vs) g = send_all vs (send v g).1
