-- ===== src/Mcp/Server/Listed.antt =====
-- A tool that is not in the list is refused before anything is done.
use rotten_apple.Prelude.{
  Bool-cases, List, Option, Text, ap, arith, codes, contains, false, inl, inr, map, nat_eq, refl,
  some, sym, text_beq, text_beq_iff, text_eq, true, ◌++◌, ◌∙◌, ◌≡◌,
}
use rotten_apple.Instances.Disk.{Toml}
use rotten_apple.Mcp.Protocol.{Value, UpstreamClient, err_response, invalid_params}
use rotten_apple.Mcp.Create.{Images, Encoding, Local}
use rotten_apple.Mcp.Server.{
  World, handle_tools_call, call_named, call_tool, called, tool_name, tool_args,
}
use rotten_apple.Mcp.Tools.{tool_list, translate_tool}

-- The names that `tools/list` gives out.
unfoldable pub tool_names : List Text
unfolding tool_list
tool_names = map (λ t. t.name) tool_list

other :
    (name listed : Text)
    → contains tool_names name ≡ false
    → contains tool_names listed ≡ true
    → text_beq name listed ≡ false
other name listed h k = elim (Bool-cases (text_beq name listed)) [
  | inr e ↦ e
  | inl e ↦
      let same = (text_beq_iff name listed).0 e in
      let clash = sym h ∙ (ap (λ n. contains tool_names n) same ∙ k) in ground arith
]

module _ (toml : Toml) (images : Images) (enc : Encoding) (up : UpstreamClient) where
  call_named-unlisted :
      (l : Local) (name : Text) (args id : Value) (s : World toml images enc up)
      → contains tool_names name ≡ false
      → call_named toml images enc up l (some name) args id s
        ≡ (err_response invalid_params (codes "unknown tool: " ++ name) id, s)
  unfolding call_named call_tool called translate_tool tool_names tool_list contains text_beq
  call_named-unlisted l name args id s h =
      let e0 = other name (codes "instance_create") h refl in
      let e1 = other name (codes "node_info") h refl in
      let e2 = other name (codes "host_info") h refl in
      let e3 = other name (codes "domain_list") h refl in
      let e4 = other name (codes "domain_get") h refl in
      let e5 = other name (codes "domain_start") h refl in
      let e6 = other name (codes "domain_shutdown") h refl in
      let e7 = other name (codes "domain_kill") h refl in
      let e8 = other name (codes "domain_balloon") h refl in rw (e0, e1, e2, e3, e4, e5, e6, e7, e8)

  -- A call of a tool that `tools/list` does not name is refused as invalid parameters, with the name
  -- in the message: neither the files nor the daemon are touched.
  pub handle_tools_call-unlisted :
      (l : Local) (name : Text) (params id : Value) (s : World toml images enc up)
      → tool_name params ≡ some name
      → contains tool_names name ≡ false
      → handle_tools_call toml images enc up l params id s
        ≡ (err_response invalid_params (codes "unknown tool: " ++ name) id, s)
  unfolding handle_tools_call
  handle_tools_call-unlisted l name params id s e h =
      ap (λ (n : Option Text). call_named toml images enc up l n (tool_args params) id s) e
      ∙ call_named-unlisted l name (tool_args params) id s h
