-- ===== src/Orchestratord/Connection.antt =====
-- crates/orchestratord/src/lib.rs, `handle_connection`: the handshake and then the requests of one
-- client. What happens on the stream is a list of turns; between two of them other clients and the
-- engine may change the state of the daemon.
use rotten_apple.Prelude.{
  All, Bool, Bool-cases, List, Text, [], arith, codes, false, if◌then◌else◌, inl, inr, length,
  nat_eq, none, not, refl, some, text_beq, text_beq_iff, text_eq, true, ◌++◌, ◌==◌, ◌∷◌, ◌≡◌, ◌≤◌,
}
use rotten_apple.Backend.{HypervisorBackend}
use rotten_apple.Orchestratord.Actor.{Machine}
use rotten_apple.Orchestratord.Params.{Host}
use rotten_apple.Orchestratord.Protocol.{
  Json, Request, parse_error, protocol_mismatch, protocol_version, versions, Response, answer,
  failure, failure_with,
}
use rotten_apple.Orchestratord.Dispatch.{Answer, Daemon, dispatch}

-- What one read of the stream gives. `idle` is a time-out.
pub data Incoming (x : Json) : Type 0 where
  request : Request x → Incoming x
  unparsed : (error : Text) → Incoming x
  idle closed : Incoming x
  broken : (error : Text) → Incoming x

pub data Reply : Type 0 where
  hello : (auth_nonce : Text) → Reply
  result : Answer → Reply

module _ (x : Json) (h : HypervisorBackend) (m : Machine h) (host : Host) where
  -- `raised` is the flag of the shutdown, `written` whether the answer could be sent.
  pub record Turn : Type 0 where
    pub meanwhile : Daemon x h → Daemon x h
    pub raised : Bool
    pub incoming : Incoming x
    pub written : Bool

  abbrev pub Sent : Type 0
  Sent = List (Response x.Value Reply)

  abbrev pub as_reply : Response x.Value Answer → Response x.Value Reply
  as_reply (answer a id) = answer (result a) id
  as_reply (failure e id) = failure e id

  abbrev unreadable : Text → Response x.Value Reply
  unreadable e = failure_with parse_error (codes "parse error: " ++ e) none x.null

  abbrev sending : Response x.Value Reply → Sent × Daemon x h → Sent × Daemon x h
  sending r (rs, s) = (r ∷ rs, s)

  -- The answers that are sent, and the state of the daemon when the connection ends.
  unfoldable pub request_loop : List Turn → Daemon x h → Sent × Daemon x h
  unfolding dispatch
  request_loop [] s = ([], s)
  request_loop (t ∷ ts) before =
      let s = t.meanwhile before in
      elim t.raised [
        | true ↦ ([], s)
        | false ↦ elim t.incoming [
          | request req ↦
              let (resp, after) = dispatch x h m host req s in
              elim t.written [
                | true ↦ sending (as_reply resp) (request_loop ts after)
                | false ↦ ([], after)
              ]
          | unparsed e ↦ elim t.written [
            | true ↦ sending (unreadable e) (request_loop ts s)
            | false ↦ ([], s)
          ]
          | idle ↦ request_loop ts s
          | closed ↦ ([], s)
          | broken e ↦ ([], s)
        ]
      ]

  abbrev pub client_version : Request x → Text
  client_version req = elim (x.get req.params (codes "protocol_version")) [
    | none ↦ []
    | some v ↦ elim (x.as_str v) [ none ↦ [] | some t ↦ t ]
  ]

  -- `handle_connection`, from the first message on; `nonce` is the fresh nonce in hexadecimal.
  unfoldable pub handle_connection :
      (nonce : Text)
      → (first : Incoming x) → (written : Bool) → List Turn
      → Daemon x h
      → Sent × Daemon x h
  unfolding request_loop
  handle_connection nonce (request req) written turns s =
      if not (req.method == codes "hello")
      then (
        failure_with protocol_mismatch (codes "expected 'hello' as first method") none req.id ∷ [],
        s,
      )
      else if not (client_version req == protocol_version)
      then (
        failure_with protocol_mismatch (codes "protocol version mismatch")
              (some (versions protocol_version (client_version req))) req.id
            ∷ [],
        s,
      )
      else if written
      then sending (answer (hello nonce) req.id) (request_loop turns s)
      else ([], s)
  handle_connection nonce (unparsed e) written turns s = (unreadable e ∷ [], s)
  handle_connection nonce idle written turns s = ([], s)
  handle_connection nonce closed written turns s = ([], s)
  handle_connection nonce (broken e) written turns s = ([], s)

  -- A first message that opens the connection.
  abbrev pub IsHello : Incoming x → Type 0
  IsHello (request req) = (req.method ≡ codes "hello") × (client_version req ≡ protocol_version)
  IsHello _ = ⊥

  pub IsFailure : Response x.Value Reply → Type 0
  IsFailure (answer r id) = ⊥
  IsFailure (failure e id) = Unit

  -- Unless the first message is a hello of the daemon's own protocol version, no request is served:
  -- the daemon stays as it was and sends one answer at most, which is an error.
  pub handle_connection_gate :
      (nonce : Text) (first : Incoming x) (written : Bool) (turns : List Turn) (s : Daemon x h)
      → (IsHello first → ⊥)
      → ((handle_connection nonce first written turns s).1 ≡ s)
        × (length (handle_connection nonce first written turns s).0 ≤ 1)
        × All IsFailure (handle_connection nonce first written turns s).0
  unfolding handle_connection IsFailure
  handle_connection_gate nonce (request req) written turns s stranger =
      elim (Bool-cases (text_beq req.method (codes "hello"))) [
        | inr e ↦ rw (e, handle_connection) (refl, ground arith, (tt, tt))
        | inl e ↦ elim (Bool-cases (text_beq (client_version req) protocol_version)) [
          | inr v ↦ rw (e, v, handle_connection) (refl, ground arith, (tt, tt))
          | inl v ↦ absurd (
              stranger (
                (text_beq_iff req.method (codes "hello")).0 e,
                (text_beq_iff (client_version req) protocol_version).0 v,
              ))
        ]
      ]
  handle_connection_gate nonce (unparsed e) written turns s stranger =
      (refl, ground arith, (tt, tt))
  handle_connection_gate nonce idle written turns s stranger = (refl, ground arith, tt)
  handle_connection_gate nonce closed written turns s stranger = (refl, ground arith, tt)
  handle_connection_gate nonce (broken e) written turns s stranger = (refl, ground arith, tt)
