-- ===== src/Mcp/Tools.antt =====
-- crates/mcp-server/src/lib.rs: the tools, and the call of the daemon that each becomes.
use rotten_apple.Prelude.{
  Bool, List, Result, Text, [], codes, err, false, if◌then◌else◌, nat_eq, none, ok, ok_or, some,
  text_eq, ℕ, ◌++◌, ◌==◌, ◌>>=◌, ◌∷◌,
}
use rotten_apple.Mcp.Protocol.{
  Value, number, boolean, text, array, object, item, no_items, member, end, Values, get, as_i64,
  as_bool, Tool,
}
use rotten_apple.Orchestratord.Protocol.{ℤ, pos}

pub record Translated : Type 0 where
  pub method : Text
  pub params : Value

abbrev pub default_memory_mb : ℕ
default_memory_mb = 4096

abbrev pub default_vcpus : ℕ
default_vcpus = 2

-- A member that has to be a 64-bit integer.
unfoldable pub require_int : Value → Text → Result Text ℤ
require_int args key = elim (get args key) [
  | none ↦ err (codes "missing or non-integer '" ++ (key ++ codes "'"))
  | some v ↦ ok_or (as_i64 v) (codes "missing or non-integer '" ++ (key ++ codes "'"))
]

abbrev pub require_domid : Value → Result Text ℤ
require_domid args = require_int args (codes "domid")

abbrev pub force_of : Value → Bool
force_of args = elim (get args (codes "force")) [
  | none ↦ false
  | some v ↦ elim (as_bool v) [ none ↦ false | some b ↦ b ]
]

abbrev pub domid_params : ℤ → Value
domid_params domid = object (member (codes "domid") (number domid) end)

abbrev pub for_domid : Text → ℤ → Result Text Translated
for_domid method domid = ok (record { method = method; params = domid_params domid })

unfoldable pub translate_tool : Text → Value → Result Text Translated
translate_tool name args =
    if name == codes "host_info"
    then ok (record { method = codes "host.info"; params = object end })
    else if name == codes "domain_list"
    then ok (record { method = codes "domain.list"; params = object end })
    else if name == codes "domain_get"
    then (require_domid args >>= for_domid (codes "domain.get"))
    else if name == codes "domain_start"
    then (require_domid args >>= for_domid (codes "domain.start"))
    else if name == codes "domain_shutdown"
    then (do
      domid ← require_domid args
      ok (record {
        method = codes "domain.shutdown";
        params = object (
            member (codes "domid") (number domid)
              (member (codes "force") (boolean (force_of args)) end));
      }))
    else if name == codes "domain_kill"
    then (require_domid args >>= for_domid (codes "domain.kill"))
    else if name == codes "domain_balloon"
    then (do
      domid ← require_domid args
      target_kb ← require_int args (codes "target_kb")
      ok (record {
        method = codes "domain.balloon";
        params = object (
            member (codes "domid") (number domid)
              (member (codes "target_kb") (number target_kb) end));
      }))
    else err (codes "unknown tool: " ++ name)

abbrev pub domid_schema : Value
domid_schema = object (
    member (codes "type") (text (codes "integer")) (
      member (codes "minimum") (number (pos 0))
        (member (codes "description") (text (codes "Xen domain id (domid). 0 is dom0.")) end)))

abbrev instance_create_tool : Tool
instance_create_tool = record {
  name = codes "instance_create";
  description =
      codes
        "Create a fresh instance from a base image, auto-pulling the base if needed, then ask the daemon to create the domain from the generated manifest. Use this to spawn new guests from one MCP surface.";
  input_schema = object (
      member (codes "type") (text (codes "object")) (
        member (codes "properties")
          (object (
            member (codes "id")
              (object (
                member (codes "type") (text (codes "string")) (
                  member (codes "minLength") (number (pos 1)) (
                    member (codes "description")
                      (text (
                        codes
                          "Stable rotten-apple instance id. Also becomes the overlay and manifest name."))
                      end))))
              (member (codes "base_image")
                (object (
                  member (codes "type") (text (codes "string")) (
                    member (codes "minLength") (number (pos 1)) (
                      member (codes "description")
                        (text (
                          codes
                            "Base image shorthand such as ubuntu:24.04, ubuntu:22.04, or debian:12."))
                        end))))
                (member (codes "memory_mb")
                  (object (
                    member (codes "type") (text (codes "integer")) (
                      member (codes "minimum") (number (pos 1)) (
                        member (codes "default") (number (pos default_memory_mb)) (
                          member (codes "description") (text (codes "Guest memory target in MiB."))
                            end)))))
                  (member (codes "vcpus")
                    (object (
                      member (codes "type") (text (codes "integer")) (
                        member (codes "minimum") (number (pos 1)) (
                          member (codes "default") (number (pos default_vcpus)) (
                            member (codes "description")
                              (text (codes "Number of virtual CPUs for the new guest.")) end)))))
                    (member (codes "ephemeral")
                      (object (
                        member (codes "type") (text (codes "boolean")) (
                          member (codes "default") (boolean false) (
                            member (codes "description")
                              (text (
                                codes
                                  "Whether the instance should be marked ephemeral in the registry."))
                              end))))
                      end))))))
          (member (codes "required")
            (array (item (text (codes "id")) (item (text (codes "base_image")) no_items)))
            (member (codes "additionalProperties") (boolean false) end))));
}

abbrev host_info_tool : Tool
host_info_tool = record {
  name = codes "host_info";
  description =
      codes
        "Return host hypervisor facts: Xen version, dom0 memory, CPU count, free memory. Use first when investigating a host before issuing other calls.";
  input_schema = object (
      member (codes "type") (text (codes "object")) (
        member (codes "properties") (object end)
          (member (codes "additionalProperties") (boolean false) end)));
}

abbrev node_info_tool : Tool
node_info_tool = record {
  name = codes "node_info";
  description =
      codes
        "Return this node's mesh identity: stable NodeId (from /etc/rotten-apple/node-id, derived from /etc/machine-id on first run) plus its Ed25519 signing pubkey (loaded from /var/lib/rotten-apple/node.key, generated on first run). Local query — does NOT require orchestratord to be running. Use this when wiring up the rotten-apple Xen mesh: copy the returned `peer_entry_toml` into another node's /etc/rotten-apple/mesh.toml under `[[peers]]` to grant this node trust on that peer.";
  input_schema = object (
      member (codes "type") (text (codes "object")) (
        member (codes "properties") (object end)
          (member (codes "additionalProperties") (boolean false) end)));
}

abbrev domain_list_tool : Tool
domain_list_tool = record {
  name = codes "domain_list";
  description =
      codes
        "List all domains known to the hypervisor with id, name, state, and resource usage. Cheap; use to discover domids before per-domain calls.";
  input_schema = object (
      member (codes "type") (text (codes "object")) (
        member (codes "properties") (object end)
          (member (codes "additionalProperties") (boolean false) end)));
}

abbrev domain_get_tool : Tool
domain_get_tool = record {
  name = codes "domain_get";
  description =
      codes
        "Fetch detailed state for a single domain by domid: name, run state, vcpus, memory, uuid. Use after domain_list to drill into a specific guest.";
  input_schema = object (
      member (codes "type") (text (codes "object")) (
        member (codes "properties") (object (member (codes "domid") domid_schema end)) (
          member (codes "required") (array (item (text (codes "domid")) no_items))
            (member (codes "additionalProperties") (boolean false) end))));
}

abbrev domain_start_tool : Tool
domain_start_tool = record {
  name = codes "domain_start";
  description =
      codes
        "Resume or unpause a stopped domain. The domain must already be defined; this does not create new guests.";
  input_schema = object (
      member (codes "type") (text (codes "object")) (
        member (codes "properties") (object (member (codes "domid") domid_schema end)) (
          member (codes "required") (array (item (text (codes "domid")) no_items))
            (member (codes "additionalProperties") (boolean false) end))));
}

abbrev domain_shutdown_tool : Tool
domain_shutdown_tool = record {
  name = codes "domain_shutdown";
  description =
      codes
        "Request graceful guest shutdown via the ACPI/PV channel. Set force=true to skip the cooperative path and proceed straight to a hard stop. Prefer this over domain_kill for normal operation.";
  input_schema = object (
      member (codes "type") (text (codes "object")) (
        member (codes "properties")
          (object (
            member (codes "domid") domid_schema (
              member (codes "force")
                (object (
                  member (codes "type") (text (codes "boolean")) (
                    member (codes "default") (boolean false) (
                      member (codes "description")
                        (text (codes "If true, bypass guest cooperation and stop unconditionally."))
                        end))))
                end)))
          (member (codes "required") (array (item (text (codes "domid")) no_items))
            (member (codes "additionalProperties") (boolean false) end))));
}

abbrev domain_kill_tool : Tool
domain_kill_tool = record {
  name = codes "domain_kill";
  description =
      codes
        "Hard-kill a domain immediately, equivalent to pulling its power. The guest is not given a chance to flush; use only when shutdown has hung.";
  input_schema = object (
      member (codes "type") (text (codes "object")) (
        member (codes "properties") (object (member (codes "domid") domid_schema end)) (
          member (codes "required") (array (item (text (codes "domid")) no_items))
            (member (codes "additionalProperties") (boolean false) end))));
}

abbrev domain_balloon_tool : Tool
domain_balloon_tool = record {
  name = codes "domain_balloon";
  description =
      codes
        "Set a guest's memory target in kilobytes. Use to grow or shrink a domain's RAM allocation; the guest's balloon driver enforces the change.";
  input_schema = object (
      member (codes "type") (text (codes "object")) (
        member (codes "properties")
          (object (
            member (codes "domid") domid_schema (
              member (codes "target_kb")
                (object (
                  member (codes "type") (text (codes "integer")) (
                    member (codes "minimum") (number (pos 0)) (
                      member (codes "description")
                        (text (codes "New memory target for the domain, in kilobytes.")) end))))
                end)))
          (member (codes "required")
            (array (item (text (codes "domid")) (item (text (codes "target_kb")) no_items)))
            (member (codes "additionalProperties") (boolean false) end))));
}

unfoldable pub tool_list : List Tool
tool_list =
    instance_create_tool ∷ host_info_tool ∷ node_info_tool ∷ domain_list_tool ∷ domain_get_tool
    ∷ domain_start_tool ∷ domain_shutdown_tool ∷ domain_kill_tool ∷ domain_balloon_tool ∷ []

abbrev pub tool_value : Tool → Value
tool_value t = object (
    member (codes "name") (text t.name) (
      member (codes "description") (text t.description)
        (member (codes "inputSchema") t.input_schema end)))

abbrev pub tool_values : List Tool → Values
tool_values [] = no_items
tool_values (t ∷ ts) = item (tool_value t) (tool_values ts)
