-- ===== src/Mcp/Server.antt =====
-- crates/mcp-server/src/lib.rs: the requests of a client and the loop that serves them. The loop is a
-- list of turns, one for each line that is read; what the host does in a turn comes with it.
pub mod Requests
pub mod Loop
pub mod Listed
use rotten_apple.Prelude.{
  Bool, List, Option, Result, Text, [], codes, decimal, err, false, if◌then◌else◌, length, nat_eq,
  none, not, ok, some, take, text_eq, true, ◌++◌, ◌+◌, ◌==◌, ◌∷◌,
}
use rotten_apple.Instances.{
  InstanceError, base_image_not_found, InstanceEntry, NewInstanceParams, default_paths,
}
use rotten_apple.Instances.Disk.{Files, Toml}
use rotten_apple.Instances.Operations.{manifest_path, create_instance_in}
use rotten_apple.Mcp.Create.{Images, Encoding, Local, instance_params, create_with_pull}
use rotten_apple.Mcp.Protocol.{
  Value, null, boolean, text, array, object, item, no_items, member, end, get, as_u64, as_str,
  as_bool, invalid_request, method_not_found, invalid_params, internal_error, parse_error,
  mcp_protocol_version, server_name, server_version, McpRequest, McpResponse, success, err_response,
  UpstreamError, io, rpc, UpstreamClient,
}
use rotten_apple.Mcp.Tools.{
  Translated, translate_tool, default_memory_mb, default_vcpus, tool_list, tool_values,
}
use rotten_apple.Orchestratord.Protocol.{ℤ, pos, negsuc}

abbrev pub domain_create_params : InstanceEntry → Value
domain_create_params entry =
    object (member (codes "manifest_path") (text (manifest_path default_paths entry.id)) end)

abbrev pub tool_name : Value → Option Text
tool_name params = elim (get params (codes "name")) [ none ↦ none | some v ↦ as_str v ]

abbrev pub tool_args : Value → Value
tool_args params = elim (get params (codes "arguments")) [ none ↦ object end | some v ↦ v ]

abbrev pub initialized : Value
initialized = object (
    member (codes "protocolVersion") (text mcp_protocol_version) (
      member (codes "capabilities") (object (member (codes "tools") (object end) end)) (
        member (codes "serverInfo")
          (object (
            member (codes "name") (text server_name)
              (member (codes "version") (text server_version) end)))
          end)))

abbrev pub id_or_null : Option Value → Value
id_or_null none = null
id_or_null (some id) = id

abbrev pub is_notification_method : Text → Bool
is_notification_method method =
    take (length (codes "notifications/")) method == codes "notifications/"

-- What one read of the input gives.
pub data Incoming : Type 0 where
  request : McpRequest → Incoming
  unparsed : (error : Text) → Incoming
  blank closed : Incoming
  broken : (error : Text) → Incoming

-- `written` is whether the response, if there is one, could be written.
pub record Turn : Type 0 where
  pub incoming : Incoming
  pub local : Local
  pub written : Bool

abbrev int_text : ℤ → Text
int_text (pos n) = decimal n
int_text (negsuc n) = b'-' ∷ decimal (n + 1)

-- The result of a tool as the protocol wraps it.
abbrev content : Text → Bool → Value
content t is_error = object (
    member (codes "content")
      (array (
        item
          (object
            (member (codes "type") (text (codes "text")) (member (codes "text") (text t) end)))
          no_items))
      (member (codes "isError") (boolean is_error) end))

abbrev pub tool_error_text : Text → Value
tool_error_text message = content message true

module _ (toml : Toml) (images : Images) (enc : Encoding) where
  -- `tool_result_text`; printing a value cannot fail.
  unfoldable pub tool_result_text : Value → Bool → Value
  tool_result_text result is_error = content (enc.to_string_pretty result) is_error

  -- The detail of a refusal by the daemon.
  abbrev upstream_error_text : UpstreamError → Text
  upstream_error_text (io e) = codes "transport error: " ++ e
  upstream_error_text (rpc code message none) =
      codes "orchestratord error " ++ (int_text code ++ (codes ": " ++ message))
  upstream_error_text (rpc code message (some d)) =
      (codes "orchestratord error " ++ (int_text code ++ (codes ": " ++ message)))
      ++ ((10 ∷ codes "data: ") ++ enc.to_string d)

  unfoldable pub node_answer : Result Text Value → Value → McpResponse
  unfolding tool_result_text
  node_answer (ok payload) id = success (tool_result_text payload false) id
  node_answer (err e) id = success (tool_error_text e) id

  unfoldable pub handle_node_info : Local → Value → McpResponse
  unfolding node_answer
  handle_node_info l id = node_answer l.node_info id

  module _ (up : UpstreamClient) where
    -- What the server may change: the files of the host, and the daemon.
    pub record World : Type 0 where
      pub files : Files
      pub upstream : up.State

    abbrev pub answered :
        (Value → Value)
        → Value
        → Files
        → Result UpstreamError Value × up.State
        → McpResponse × World
    answered wrap id files (ok result, u) =
        (success (tool_result_text (wrap result) false) id, record { files = files; upstream = u })
    answered wrap id files (err e, u) = (
      success (tool_error_text (upstream_error_text e)) id,
      record { files = files; upstream = u },
    )

    abbrev pub with_domain : InstanceEntry → Value → Value
    with_domain entry result =
        object
          (member (codes "instance") (enc.entry_value entry) (member (codes "domain") result end))

    unfoldable pub announced :
        Value → up.State → Result Text InstanceEntry × Files → McpResponse × World
    announced id u (err e, files) =
        (success (tool_error_text e) id, record { files = files; upstream = u })
    announced id u (ok entry, files) =
        answered (with_domain entry) id files
          (up.call u (codes "domain.create") (domain_create_params entry))

    unfoldable pub create_checked :
        Local → Value → World → Result Text NewInstanceParams → McpResponse × World
    unfolding announced create_with_pull
    create_checked l id s (err e) = (err_response invalid_params e id, s)
    create_checked l id s (ok p) =
        announced id s.upstream (create_with_pull toml images enc l p s.files)

    unfoldable pub handle_instance_create : Local → Value → Value → World → McpResponse × World
    unfolding create_checked instance_params
    handle_instance_create l args id s = create_checked l id s (instance_params args)

    unfoldable pub called : Value → World → Result Text Translated → McpResponse × World
    called id s (err e) = (err_response invalid_params e id, s)
    called id s (ok t) = answered (λ r. r) id s.files (up.call s.upstream t.method t.params)

    unfoldable pub call_tool : Local → Text → Value → Value → World → McpResponse × World
    unfolding called handle_instance_create handle_node_info translate_tool
    call_tool l name args id s =
        if name == codes "instance_create"
        then handle_instance_create l args id s
        else if name == codes "node_info"
        then (handle_node_info l id, s)
        else called id s (translate_tool name args)

    unfoldable pub call_named : Local → Option Text → Value → Value → World → McpResponse × World
    unfolding call_tool
    call_named l none args id s = (err_response invalid_params (codes "missing tool name") id, s)
    call_named l (some name) args id s = call_tool l name args id s

    unfoldable pub handle_tools_call : Local → Value → Value → World → McpResponse × World
    unfolding call_named
    handle_tools_call l params id s = call_named l (tool_name params) (tool_args params) id s

    abbrev pub replied : McpResponse × World → Option McpResponse × World
    replied (r, s) = (some r, s)

    unfoldable pub handle : Local → McpRequest → World → Option McpResponse × World
    unfolding handle_tools_call tool_list
    handle l req s =
        let id = id_or_null req.id in
        if req.method == codes "initialize"
        then (some (success initialized id), s)
        else if req.method == codes "notifications/initialized"
        then (none, s)
        else if req.method == codes "tools/list"
        then (
          some (success (object (member (codes "tools") (array (tool_values tool_list)) end)) id),
          s,
        )
        else if req.method == codes "tools/call"
        then replied (handle_tools_call l req.params id s)
        else if is_notification_method req.method
        then (none, s)
        else (some (err_response method_not_found (codes "method not found: " ++ req.method) id), s)

    -- The response that is written, if the request asks for one.
    abbrev pub to_write : Option Value → Option McpResponse × World → Option McpResponse × World
    to_write none (r, s) = (none, s)
    to_write (some id) (none, s) =
        (some (err_response internal_error (codes "no response produced") id), s)
    to_write (some id) (some r, s) = (some r, s)

    unfoldable pub serve_request : Local → McpRequest → World → Option McpResponse × World
    unfolding handle
    serve_request l req s =
        if not (req.jsonrpc == codes "2.0")
        then to_write req.id (
          some (err_response invalid_request (codes "jsonrpc must be \"2.0\"") (id_or_null req.id)),
          s,
        )
        else to_write req.id (handle l req s)

    abbrev pub Sent : Type 0
    Sent = List McpResponse × World

    abbrev pub sending : Bool → McpResponse → Sent → World → Sent
    sending true r (rs, end_state) s = (r ∷ rs, end_state)
    sending false r later s = ([], s)

    -- What follows a request; `rest` is the loop after this line.
    unfoldable pub after_request :
        (written : Bool) → (rest : World → Sent) → Option McpResponse × World → Sent
    after_request written rest (none, s) = rest s
    after_request written rest (some r, s) = sending written r (rest s) s

    unfoldable pub one_line :
        Incoming → Local → (written : Bool) → (rest : World → Sent) → World → Sent
    unfolding serve_request after_request
    one_line closed l written rest s = ([], s)
    one_line (broken e) l written rest s = ([], s)
    one_line blank l written rest s = rest s
    one_line (unparsed e) l written rest s =
        sending written (err_response parse_error (codes "parse error: " ++ e) null) (rest s) s
    one_line (request req) l written rest s = after_request written rest (serve_request l req s)

    -- The responses that are written, in order, and what is left when the loop ends.
    unfoldable pub serve : List Turn → World → Sent
    unfolding one_line
    serve [] s = ([], s)
    serve (t ∷ ts) s = one_line t.incoming t.local t.written (λ after. serve ts after) s
