-- ===== src/Mcp/Server/Requests.antt =====
-- Each request is answered under its own id, and calls the daemon for what its tool stands for alone.
use rotten_apple.Prelude.{
  Bool, Option, Result, Text, ap, codes, err, if_elim, nat_eq, none, not, ok, refl, some, text_eq,
  ◌==◌, ◌>>=◌, ◌≡◌,
}
use rotten_apple.Instances.{InstanceEntry, NewInstanceParams}
use rotten_apple.Instances.Disk.{Files, Toml}
use rotten_apple.Mcp.Protocol.{
  Value, number, boolean, object, member, end, McpRequest, McpResponse, id_of, UpstreamError,
  UpstreamClient, io, rpc,
}
use rotten_apple.Mcp.Create.{Images, Encoding, Local, create_with_pull, instance_params}
use rotten_apple.Mcp.Server.{
  World, answered, with_domain, announced, create_checked, called, call_tool, handle_tools_call,
  call_named, node_answer, handle_instance_create, handle_node_info, handle, serve_request,
  to_write, id_or_null, tool_name, tool_args, domain_create_params, replied, is_notification_method,
}
use rotten_apple.Mcp.Tools.{
  Translated, translate_tool, require_domid, require_int, force_of, for_domid, domid_params,
}
use rotten_apple.Orchestratord.Protocol.{ℤ}

-- The calls of the daemon that the tools stand for.
pub data Allowed : (method : Text) → (params : Value) → Type 0 where
  host_info : Allowed (codes "host.info") (object end)
  domain_list : Allowed (codes "domain.list") (object end)
  domain_get : (domid : ℤ) → Allowed (codes "domain.get") (domid_params domid)
  domain_start : (domid : ℤ) → Allowed (codes "domain.start") (domid_params domid)
  domain_kill : (domid : ℤ) → Allowed (codes "domain.kill") (domid_params domid)
  domain_shutdown :
      (domid : ℤ) (force : Bool)
      → Allowed (codes "domain.shutdown") (
          object
            (member (codes "domid") (number domid) (member (codes "force") (boolean force) end)))
  domain_balloon :
      (domid target_kb : ℤ)
      → Allowed (codes "domain.balloon") (
          object (
            member
              (codes "domid")
              (number domid)
              (member (codes "target_kb") (number target_kb) end)))
  domain_create :
      (entry : InstanceEntry) → Allowed (codes "domain.create") (domain_create_params entry)

data IsAllowed : Result Text Translated → Type 0 where
  refused : (e : Text) → IsAllowed (err e)
  allowed : {t : Translated} → Allowed t.method t.params → IsAllowed (ok t)

for_domid-IsAllowed :
    (method : Text) (r : Result Text ℤ)
    → ((domid : ℤ) → Allowed method (domid_params domid))
    → IsAllowed (r >>= for_domid method)
for_domid-IsAllowed method (err e) h = refused e
for_domid-IsAllowed method (ok domid) h = allowed (h domid)

shutdown-IsAllowed :
    (r : Result Text ℤ) (force : Bool)
    → IsAllowed (
        r >>= λ domid. ok (record {
          method = codes "domain.shutdown";
          params =
              object (
                member (codes "domid") (number domid) (member (codes "force") (boolean force) end));
        }))
shutdown-IsAllowed (err e) force = refused e
shutdown-IsAllowed (ok domid) force = allowed (domain_shutdown domid force)

balloon-IsAllowed :
    (r q : Result Text ℤ)
    → IsAllowed (do
      domid ← r
      target_kb ← q
      ok (record {
        method = codes "domain.balloon";
        params = object (
            member
              (codes "domid")
              (number domid)
              (member (codes "target_kb") (number target_kb) end));
      }))
balloon-IsAllowed (err e) q = refused e
balloon-IsAllowed (ok domid) (err e) = refused e
balloon-IsAllowed (ok domid) (ok target_kb) = allowed (domain_balloon domid target_kb)

translate_tool-IsAllowed : (name : Text) (args : Value) → IsAllowed (translate_tool name args)
unfolding translate_tool
translate_tool-IsAllowed name args =
    if_elim IsAllowed (name == codes "host_info") (λ _. allowed host_info)
      (λ _.
        if_elim IsAllowed (name == codes "domain_list") (λ _. allowed domain_list)
          (λ _.
            if_elim IsAllowed (name == codes "domain_get")
              (λ _. for_domid-IsAllowed (codes "domain.get") (require_domid args) domain_get)
              (λ _.
                if_elim IsAllowed (name == codes "domain_start")
                  (λ _.
                    for_domid-IsAllowed (codes "domain.start") (require_domid args) domain_start)
                  (λ _.
                    if_elim IsAllowed (name == codes "domain_shutdown")
                      (λ _. shutdown-IsAllowed (require_domid args) (force_of args))
                      (λ _.
                        if_elim IsAllowed (name == codes "domain_kill")
                          (λ _.
                            for_domid-IsAllowed (codes "domain.kill") (require_domid args)
                              domain_kill)
                          (λ _.
                            if_elim IsAllowed (name == codes "domain_balloon")
                              (λ _.
                                balloon-IsAllowed (require_domid args)
                                  (require_int args (codes "target_kb")))
                              (λ _. refused _)))))))

abbrev pub written_id : Option McpResponse → Option Value
written_id none = none
written_id (some r) = some (id_of r)

module _ (toml : Toml) (images : Images) (enc : Encoding) (up : UpstreamClient)
    (P : up.State → Type 0)
    (keeps : (u : up.State) (method : Text) (params : Value)
      → Allowed method params
      → P u
      → P (up.call u method params).1) where
  abbrev Answered : Type 0
  Answered = McpResponse × World toml images enc up

  -- The answer has the id, and what holds of the daemon still holds.
  record Fine (id : Value) (o : Answered) : Type 0 where
    own_id : id_of o.0 ≡ id
    upstream : P o.1.upstream

  answered-Fine :
      (wrap : Value → Value) (id : Value) (files : Files)
      (r : Result UpstreamError Value × up.State)
      → P r.1
      → Fine id (answered toml images enc up wrap id files r)
  answered-Fine wrap id files (ok v, u) p = record { own_id = refl; upstream = p }
  answered-Fine wrap id files (err (io e), u) p = record { own_id = refl; upstream = p }
  answered-Fine wrap id files (err (rpc code message extra), u) p = record {
    own_id = refl;
    upstream = p;
  }

  announced-Fine :
      (id : Value) (u : up.State) (r : Result Text InstanceEntry × Files)
      → P u
      → Fine id (announced toml images enc up id u r)
  unfolding announced
  announced-Fine id u (err e, files) p = record { own_id = refl; upstream = p }
  announced-Fine id u (ok entry, files) p =
      answered-Fine (with_domain toml images enc up entry) id files _
        (keeps u _ _ (domain_create entry) p)

  create_checked-Fine :
      (l : Local) (id : Value) (s : World toml images enc up) (r : Result Text NewInstanceParams)
      → P s.upstream
      → Fine id (create_checked toml images enc up l id s r)
  unfolding create_checked
  create_checked-Fine l id s (err e) p = record { own_id = refl; upstream = p }
  create_checked-Fine l id s (ok a) p =
      announced-Fine id s.upstream (create_with_pull toml images enc l a s.files) p

  called-Fine :
      (id : Value) (s : World toml images enc up) (r : Result Text Translated)
      → IsAllowed r
      → P s.upstream
      → Fine id (called toml images enc up id s r)
  unfolding called
  called-Fine id s _ (refused e) p = record { own_id = refl; upstream = p }
  called-Fine id s _ (allowed {t = t} a) p =
      answered-Fine (λ r. r) id s.files _ (keeps s.upstream t.method t.params a p)

  node_answer-id :
      (r : Result Text Value) (id : Value) → id_of (node_answer toml images enc r id) ≡ id
  unfolding node_answer
  node_answer-id (ok payload) id = refl
  node_answer-id (err e) id = refl

  call_named-Fine :
      (l : Local) (name : Option Text) (args id : Value) (s : World toml images enc up)
      → P s.upstream
      → Fine id (call_named toml images enc up l name args id s)
  unfolding call_named call_tool handle_instance_create handle_node_info
  call_named-Fine l none args id s p = record { own_id = refl; upstream = p }
  call_named-Fine l (some name) args id s p =
      if_elim (Fine id) (name == codes "instance_create")
        (λ _. create_checked-Fine l id s (instance_params args) p)
        (λ _.
          if_elim (Fine id) (name == codes "node_info")
            (λ _. record { own_id = node_answer-id l.node_info id; upstream = p })
            (λ _. called-Fine id s _ (translate_tool-IsAllowed name args) p))

  abbrev Reply : Type 0
  Reply = Option McpResponse × World toml images enc up

  HasId : Value → Option McpResponse → Type 0
  HasId id none = Unit
  HasId id (some r) = id_of r ≡ id

  record IsFit (id : Value) (o : Reply) : Type 0 where
    has_id : HasId id o.0
    upstream : P o.1.upstream

  replied-IsFit : {id : Value} {o : Answered} → Fine id o → IsFit id (replied toml images enc up o)
  unfolding HasId
  replied-IsFit h = record { has_id = h.own_id; upstream = h.upstream }

  handle-IsFit :
      (l : Local) (req : McpRequest) (s : World toml images enc up)
      → P s.upstream
      → IsFit (id_or_null req.id) (handle toml images enc up l req s)
  unfolding handle handle_tools_call HasId
  handle-IsFit l req s p =
      let id = id_or_null req.id in
      if_elim (IsFit id) (req.method == codes "initialize")
        (λ _. record { has_id = refl; upstream = p })
        (λ _.
          if_elim (IsFit id) (req.method == codes "notifications/initialized")
            (λ _. record { has_id = tt; upstream = p })
            (λ _.
              if_elim (IsFit id) (req.method == codes "tools/list")
                (λ _. record { has_id = refl; upstream = p })
                (λ _.
                  if_elim (IsFit id) (req.method == codes "tools/call")
                    (λ _.
                      replied-IsFit
                        (call_named-Fine l (tool_name req.params) (tool_args req.params) id s p))
                    (λ _.
                      if_elim (IsFit id) (is_notification_method req.method)
                        (λ _. record { has_id = tt; upstream = p })
                        (λ _. record { has_id = refl; upstream = p })))))

  -- A request is answered exactly when it has an id, and with that id.
  pub record IsServed (id : Option Value) (o : Reply) : Type 0 where
    pub ids : written_id o.0 ≡ id
    pub upstream : P o.1.upstream

  to_write-IsServed :
      (id : Option Value) (o : Reply)
      → IsFit (id_or_null id) o
      → IsServed id (to_write toml images enc up id o)
  unfolding HasId
  to_write-IsServed none (r, s) h = record { ids = refl; upstream = h.upstream }
  to_write-IsServed (some id) (none, s) h = record { ids = refl; upstream = h.upstream }
  to_write-IsServed (some id) (some r, s) h = record {
    ids = ap some h.has_id;
    upstream = h.upstream;
  }

  pub serve_request-IsServed :
      (l : Local) (req : McpRequest) (s : World toml images enc up)
      → P s.upstream
      → IsServed req.id (serve_request toml images enc up l req s)
  unfolding serve_request HasId
  serve_request-IsServed l req s p =
      if_elim (IsServed req.id) (not (req.jsonrpc == codes "2.0"))
        (λ _. to_write-IsServed req.id _ record { has_id = refl; upstream = p })
        (λ _. to_write-IsServed req.id _ (handle-IsFit l req s p))
