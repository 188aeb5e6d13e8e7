-- ===== src/Mcp/Protocol.antt =====
-- crates/mcp-server/src/protocol.rs and upstream.rs: JSON values with the accessors that the server
-- calls, requests, responses and error codes, and the connection to the daemon as an interface.
use rotten_apple.Prelude.{
  Bool, Option, Result, Text, codes, if◌then◌else◌, ltb, nat_eq, none, some, text_eq, ℕ, ◌==◌, ◌^◌,
}
use rotten_apple.Orchestratord.Protocol.{ℤ, pos, negsuc}

-- The crate serde_json's value. A parsed object holds each name once, and an integer fits into 64
-- bits; a number of another kind keeps its text.
mutual
  pub data Value : Type 0 where
    null : Value
    number : ℤ → Value
    real : (written : Text) → Value
    boolean : Bool → Value
    text : Text → Value
    array : Values → Value
    object : Members → Value

  pub data Values : Type 0 where
    no_items : Values
    item : Value → Values → Values

  pub data Members : Type 0 where
    end : Members
    member : (name : Text) → Value → Members → Members

find_member : Text → Members → Option Value
find_member name end = none
find_member name (member key v ms) =
    let later = find_member name ms in if key == name then some v else later

unfoldable pub get : Value → Text → Option Value
unfolding find_member
get (object ms) name = find_member name ms
get _ name = none

abbrev pub as_i64 : Value → Option ℤ
as_i64 (number (pos n)) = if ltb n (2 ^ 63) then some (pos n) else none
as_i64 (number (negsuc n)) = if ltb n (2 ^ 63) then some (negsuc n) else none
as_i64 _ = none

abbrev pub as_u64 : Value → Option ℕ
as_u64 (number (pos n)) = some n
as_u64 _ = none

abbrev pub as_str : Value → Option Text
as_str (text s) = some s
as_str _ = none

abbrev pub as_bool : Value → Option Bool
as_bool (boolean b) = some b
as_bool _ = none

abbrev pub invalid_request : ℤ
invalid_request = negsuc 32599

abbrev pub method_not_found : ℤ
method_not_found = negsuc 32600

abbrev pub invalid_params : ℤ
invalid_params = negsuc 32601

abbrev pub internal_error : ℤ
internal_error = negsuc 32602

abbrev pub parse_error : ℤ
parse_error = negsuc 32699

abbrev pub mcp_protocol_version : Text
mcp_protocol_version = codes "2024-11-05"

abbrev pub server_name : Text
server_name = codes "rotten-apple"

abbrev pub server_version : Text
server_version = codes "0.0.2"

-- A request without an id, or with the id null, is a notification.
pub record McpRequest : Type 0 where
  pub jsonrpc : Text
  pub method : Text
  pub params : Value
  pub id : Option Value

pub record McpError : Type 0 where
  pub code : ℤ
  pub message : Text
  pub extra : Option Value

pub data McpResponse : Type 0 where
  success : (result id : Value) → McpResponse
  failure : (error : McpError) → (id : Value) → McpResponse

-- `McpResponse::err`, whose callers give no data.
abbrev pub err_response : ℤ → Text → Value → McpResponse
err_response code message id = failure (record { code = code; message = message; extra = none }) id

abbrev pub id_of : McpResponse → Value
id_of (success result id) = id
id_of (failure error id) = id

pub data UpstreamError : Type 0 where
  io : (error : Text) → UpstreamError
  rpc : (code : ℤ) → (message : Text) → (extra : Option Value) → UpstreamError

pub record UpstreamClient : Type 1 where
  pub State : Type 0
  pub call : State → (method : Text) → (params : Value) → Result UpstreamError Value × State

-- A tool as `tools/list` describes it.
pub record Tool : Type 0 where
  pub name : Text
  pub description : Text
  pub input_schema : Value
