-- ===== src/Tests/OfMcp.antt =====
-- The theorems on the server for the Model Context Protocol, with a daemon that records its calls.
use rotten_apple.Prelude.{
  All, List, Option, Text, [], codes, contains, err, false, map, nat_eq, none, ok, refl, some,
  text_beq, text_eq, true, ◌++◌, ◌∷◌, ◌≡◌,
}
use rotten_apple.Orchestratord.Protocol.{pos}
use rotten_apple.Mcp.Protocol.{
  Value, null, number, text, object, end, member, UpstreamClient, err_response, invalid_params,
  id_of, get,
}
use rotten_apple.Mcp.Create.{Images, Encoding, Local}
use rotten_apple.Mcp.Server.{
  Turn, request, unparsed, Incoming, World, serve, handle_tools_call, tool_name,
}
use rotten_apple.Mcp.Server.Requests.{Allowed}
use rotten_apple.Mcp.Server.Requests
use rotten_apple.Mcp.Server.Loop.{asked, serve-asked, serve-Allowed}
use rotten_apple.Mcp.Server.Listed.{tool_names, handle_tools_call-unlisted}
use rotten_apple.Tests.OfInstances
use rotten_apple.Tests.OfInstances.{toml, disk}

abbrev images : Images
images = record {
  ImageEntry = Text;
  is_listed = λ files name. true;
  pull = λ name files. (ok name, files);
  enter = λ entry files. (ok tt, files);
}

abbrev enc : Encoding
enc = record {
  to_string = λ v. [];
  to_string_pretty = λ v. [];
  instance_error_text = λ e. [];
  entry_value = λ e. null;
}

abbrev daemon : UpstreamClient
daemon = record {
  State = List (Text × Value);
  call = λ calls method params. (ok null, (method, params) ∷ calls);
}

abbrev here : Local
here = record { attempt = OfInstances.host; second_attempt = OfInstances.host; node_info = err [] }

abbrev line : Incoming → Turn
line i = record { incoming = i; local = here; written = true }

abbrev tool_call : Option Value → Text → Value → Incoming
tool_call id name args = request (record {
  jsonrpc = codes "2.0";
  method = codes "tools/call";
  params = object (member (codes "name") (text name) (member (codes "arguments") args end));
  id = id;
})

abbrev domid_args : Value
domid_args = object (member (codes "domid") (number (pos 7)) end)

-- A call, a line of noise, a call without an id, and a call of a tool that there is not.
abbrev lines : List Turn
lines =
    line (tool_call (some (number (pos 1))) (codes "domain_kill") domid_args)
    ∷ line (unparsed [])
    ∷ line (tool_call none (codes "domain_start") domid_args)
    ∷ line (tool_call (some (text (codes "x"))) (codes "set_policy") domid_args)
    ∷ []

abbrev before : World toml images enc daemon
before = record { files = disk; upstream = [] }

asked_test : asked lines ≡ number (pos 1) ∷ null ∷ text (codes "x") ∷ []
unfolding asked
asked_test = refl

serve-asked_example : map id_of (serve toml images enc daemon lines before).0 ≡ asked lines
serve-asked_example =
    serve-asked toml images enc daemon lines before (refl, (refl, (refl, (refl, tt))))

abbrev IsNoPolicy : Text × Value → Type 0
IsNoPolicy c = text_beq c.0 (codes "engine.set_policy") ≡ false

IsNoPolicy-Allowed :
    (method : Text) (params : Value) → Allowed method params → IsNoPolicy (method, params)
unfolding text_beq
IsNoPolicy-Allowed _ _ Requests.host_info = refl
IsNoPolicy-Allowed _ _ Requests.domain_list = refl
IsNoPolicy-Allowed _ _ (Requests.domain_get domid) = refl
IsNoPolicy-Allowed _ _ (Requests.domain_start domid) = refl
IsNoPolicy-Allowed _ _ (Requests.domain_kill domid) = refl
IsNoPolicy-Allowed _ _ (Requests.domain_shutdown domid force) = refl
IsNoPolicy-Allowed _ _ (Requests.domain_balloon domid target_kb) = refl
IsNoPolicy-Allowed _ _ (Requests.domain_create entry) = refl

serve-Allowed_example : All IsNoPolicy (serve toml images enc daemon lines before).1.upstream
serve-Allowed_example =
    serve-Allowed toml images enc daemon (All IsNoPolicy)
      (λ u method params a p. (IsNoPolicy-Allowed method params a, p)) lines before tt

abbrev policy_params : Value
policy_params = object (member (codes "name") (text (codes "set_policy")) end)

named : tool_name policy_params ≡ some (codes "set_policy")
unfolding text_beq get
named = refl

unknown : contains tool_names (codes "set_policy") ≡ false
unfolding contains tool_names text_beq
unknown = refl

handle_tools_call-unlisted_example :
    handle_tools_call toml images enc daemon here policy_params null before
    ≡ (err_response invalid_params (codes "unknown tool: " ++ codes "set_policy") null, before)
handle_tools_call-unlisted_example =
    handle_tools_call-unlisted toml images enc daemon here (codes "set_policy") policy_params null
      before named unknown
