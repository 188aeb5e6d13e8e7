-- ===== src/Orchestratord/Protocol.antt =====
-- crates/orchestratord/src/protocol.rs: requests, answers and error codes. A JSON value is what
-- the crate serde_json makes of it, with the accessors that the daemon calls; an answer keeps what it
-- carries instead of its encoding.
use rotten_apple.Prelude.{Bool, Option, Result, Text, codes, if◌then◌else◌, nat_beq, ℕ, ◌-◌}
use rotten_apple.Manifest.{PolicyMemory}

-- A signed 32-bit number.
pub data ℤ : Type 0 where
  pos negsuc : ℕ → ℤ

abbrev minus : ℕ → ℤ
minus n = if nat_beq n 0 then pos 0 else negsuc (n - 1)

abbrev pub parse_error : ℤ
parse_error = minus 32700

abbrev pub invalid_request : ℤ
invalid_request = minus 32600

abbrev pub method_not_found : ℤ
method_not_found = minus 32601

abbrev pub protocol_mismatch : ℤ
protocol_mismatch = minus 32000

-- `BACKEND_UNAVAILABLE` and the codes after it, one for each kind of error of the actor.
abbrev pub backend_unavailable_code : ℤ
backend_unavailable_code = minus 32001

abbrev pub backend_internal_code : ℤ
backend_internal_code = minus 32002

abbrev pub permission_denied_code : ℤ
permission_denied_code = minus 32003

abbrev pub guest_not_found_code : ℤ
guest_not_found_code = minus 32004

abbrev pub guest_already_running_code : ℤ
guest_already_running_code = minus 32005

abbrev pub insufficient_resources_code : ℤ
insufficient_resources_code = minus 32006

abbrev pub hardware_unavailable_code : ℤ
hardware_unavailable_code = minus 32007

abbrev pub protocol_version : Text
protocol_version = codes "0.1"

pub record Json : Type 1 where
  pub Value : Type 0
  pub null : Value
  pub get : Value → Text → Option Value
  pub as_u64 : Value → Option ℕ
  pub as_str : Value → Option Text
  pub as_bool : Value → Option Bool
  pub policy_of : Value → Result Text PolicyMemory

module _ (x : Json) where
  -- The member `jsonrpc` of a request is read and never looked at.
  pub record Request : Type 0 where
    pub jsonrpc : Text
    pub method : Text
    pub params : x.Value
    pub id : x.Value

-- The `data` of an error.
pub data Data : Type 0 where
  detail : Text → Data
  unknown_method : Text → Data
  versions : (server client : Text) → Data

pub record ErrorObject : Type 0 where
  pub code : ℤ
  pub message : Text
  pub extra : Option Data

pub data Response (V A : Type 0) : Type 0 where
  answer : (result : A) → (id : V) → Response V A
  failure : (error : ErrorObject) → (id : V) → Response V A

-- `Response::err`.
abbrev pub failure_with : {V A : Type 0} → ℤ → Text → Option Data → V → Response V A
failure_with code message extra id =
    failure (record { code = code; message = message; extra = extra }) id
