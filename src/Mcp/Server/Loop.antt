-- ===== src/Mcp/Server/Loop.antt =====
-- The whole loop: which answers it writes, and what it can make of the daemon.
use rotten_apple.Prelude.{
  All, Bool, List, Option, Text, [], ap, false, map, none, refl, some, subst, sym, true, ◌∙◌, ◌∷◌,
  ◌≡◌,
}
use rotten_apple.Instances.Disk.{Toml}
use rotten_apple.Mcp.Protocol.{Value, null, McpResponse, id_of, UpstreamClient}
use rotten_apple.Mcp.Create.{Images, Encoding, Local}
use rotten_apple.Mcp.Server.{
  Incoming, request, unparsed, blank, closed, broken, Turn, World, Sent, serve_request, serve,
  sending, after_request, one_line,
}
use rotten_apple.Mcp.Server.Requests.{Allowed, serve_request-IsServed, written_id}

-- The ids of the answers that a list of lines asks for: a line that does not parse is answered
-- with the id null, and a notification is not answered.
unfoldable pub asked_by : Incoming → List Value → List Value
asked_by closed later = []
asked_by (broken e) later = []
asked_by blank later = later
asked_by (unparsed e) later = null ∷ later
asked_by (request req) later = elim req.id [ none ↦ later | some id ↦ id ∷ later ]

unfoldable pub asked : List Turn → List Value
unfolding asked_by
asked [] = []
asked (t ∷ ts) = asked_by t.incoming (asked ts)

abbrev pub IsWritten : Turn → Type 0
IsWritten t = t.written ≡ true

module _ (toml : Toml) (images : Images) (enc : Encoding) (up : UpstreamClient) where
  abbrev W : Type 0
  W = World toml images enc up

  module _ (P : up.State → Type 0)
      (keeps : (u : up.State) (method : Text) (params : Value)
        → Allowed method params
        → P u
        → P (up.call u method params).1) where
    sending-keeps :
        (written : Bool) (r : McpResponse) (later : Sent toml images enc up) (s : W)
        → P later.1.upstream
        → P s.upstream
        → P (sending toml images enc up written r later s).1.upstream
    sending-keeps true r later s p q = p
    sending-keeps false r later s p q = q

    after_request-keeps :
        (written : Bool) (rest : W → Sent toml images enc up) (o : Option McpResponse × W)
        → P o.1.upstream
        → ((s : W) → P s.upstream → P (rest s).1.upstream)
        → P (after_request toml images enc up written rest o).1.upstream
    unfolding after_request
    after_request-keeps written rest (none, s) p h = h s p
    after_request-keeps written rest (some r, s) p h = sending-keeps written r (rest s) s (h s p) p

    one_line-keeps :
        (i : Incoming) (l : Local) (written : Bool) (rest : W → Sent toml images enc up) (s : W)
        → P s.upstream
        → ((s : W) → P s.upstream → P (rest s).1.upstream)
        → P (one_line toml images enc up i l written rest s).1.upstream
    unfolding one_line
    one_line-keeps closed l written rest s p h = p
    one_line-keeps (broken e) l written rest s p h = p
    one_line-keeps blank l written rest s p h = h s p
    one_line-keeps (unparsed e) l written rest s p h = sending-keeps written _ (rest s) s (h s p) p
    one_line-keeps (request req) l written rest s p h =
        after_request-keeps written rest (serve_request toml images enc up l req s)
          (serve_request-IsServed toml images enc up P keeps l req s p).upstream h

    -- A client of the server reaches the daemon through the eight calls that the tools stand for
    -- alone: what each of these keeps true of the daemon, whatever its numbers and paths, a whole
    -- session keeps true, whatever lines it reads.
    pub serve-Allowed :
        (ts : List Turn) (s : W) → P s.upstream → P (serve toml images enc up ts s).1.upstream
    unfolding serve
    serve-Allowed [] s p = p
    serve-Allowed (t ∷ ts) s p =
        one_line-keeps t.incoming t.local t.written _ s p (λ after q. serve-Allowed ts after q)

  after_request-ids :
      (id : Option Value) (rest : W → Sent toml images enc up) (o : Option McpResponse × W)
      (ids : List Value)
      → written_id o.0 ≡ id
      → ((s : W) → map id_of (rest s).0 ≡ ids)
      → map id_of (after_request toml images enc up true rest o).0
        ≡ elim id [ none ↦ ids | some i ↦ i ∷ ids ]
  unfolding after_request
  after_request-ids id rest (none, s) ids e h =
      h s ∙ ap (λ (i : Option Value). elim i [ none ↦ ids | some i ↦ i ∷ ids ]) e
  after_request-ids id rest (some r, s) ids e h =
      ap (λ (is : List Value). id_of r ∷ is) (h s)
      ∙ ap (λ (i : Option Value). elim i [ none ↦ ids | some i ↦ i ∷ ids ]) e

  one_line-ids :
      (i : Incoming) (l : Local) (rest : W → Sent toml images enc up) (s : W) (ids : List Value)
      → ((s : W) → map id_of (rest s).0 ≡ ids)
      → map id_of (one_line toml images enc up i l true rest s).0 ≡ asked_by i ids
  unfolding one_line asked_by
  one_line-ids closed l rest s ids h = refl
  one_line-ids (broken e) l rest s ids h = refl
  one_line-ids blank l rest s ids h = h s
  one_line-ids (unparsed e) l rest s ids h = ap (λ (is : List Value). null ∷ is) (h s)
  one_line-ids (request req) l rest s ids h =
      after_request-ids req.id rest (serve_request toml images enc up l req s) ids
        (serve_request-IsServed toml images enc up (λ u. Unit {0}) (λ u m p a k. tt) l req s tt).ids
        h

  -- As long as its output can be written, the server answers every request that has an id, once, under
  -- that id and in the order of the requests, with the id null every line that does not parse, and
  -- nothing else, up to the end of its input.
  pub serve-asked :
      (ts : List Turn) (s : W)
      → All IsWritten ts
      → map id_of (serve toml images enc up ts s).0 ≡ asked ts
  unfolding serve asked
  serve-asked [] s w = refl
  serve-asked (t ∷ ts) s w =
      subst
        (λ b.
          map id_of
            (one_line toml images enc up t.incoming t.local b
              (λ after. serve toml images enc up ts after) s).0
          ≡ asked_by t.incoming (asked ts))
        (sym w.0)
        (one_line-ids t.incoming t.local _ s (asked ts) (λ after. serve-asked ts after w.1))
