-- ===== src/Runner.antt =====
-- cmd/gibson-runner/main.go: the default mode, from the environment to the exit code. The
-- proto messages come from packages outside the repository, a record of parameters here.
pub mod Input
pub mod Line
pub mod Delivery
pub mod Abi
pub mod Deadline
pub mod Success
use gibson_tool_runner.Json.{Value}
use gibson_tool_runner.Json.Maps.{unmarshal_map, unmarshal_string, unmarshal_strings}
use gibson_tool_runner.Base64.{encode, decode, corrupt_input}
use gibson_tool_runner.Base.{
  ℕ, zero, suc, ◌+◌, ◌-◌, ◌*◌, ◌/◌, ◌%◌, Bytes, codes, Bool, true, false, not, ◌&&◌, List, [], ◌∷◌,
  ◌++◌, Option, none, some, Error, message, wrapping, ℤ, pos, negsuc, is_empty, index, trim_space,
  to_int32, ◌==◌, if◌then◌else◌,
}
use gibson_tool_runner.Graph.{DiscoveryResult, nothing}
use gibson_tool_runner.Process.{World, Context}
use gibson_tool_runner.Registry.{
  Registry, Parser, ExecuteRequest, ExecuteResponse, ParseQuality, failed, lookup,
}
use gibson_tool_runner.Parsers.Lines.{Decoded, record_of, malformed}

abbrev pub env_tool_name : Bytes
env_tool_name = codes "GIBSON_TOOL_NAME"

abbrev pub env_input_b64 : Bytes
env_input_b64 = codes "GIBSON_TOOL_INPUT_B64"

-- The fields of `CallToolRequest` that are read.
pub record CallToolRequest : Type 0 where
  pub input_json : Bytes
  pub timeout_ms : ℤ

pub record ComponentError : Type 0 where
  pub code : Bytes
  pub error : Error
  pub retryable : Bool

-- `CallToolResponse`: the output, or the error. The error's message is the rendered Go error.
pub data CallToolResponse : Type 0 where
  output : Bytes → CallToolResponse
  error_of : ComponentError → CallToolResponse

-- What protojson does with the three messages; `sprintf` is `fmt.Sprintf`.
pub record Codec : Type 0 where
  pub decode_request : Bytes → Decoded CallToolRequest
  pub encode_discovery : DiscoveryResult → Decoded Bytes
  pub encode_response : CallToolResponse → Decoded Bytes
  pub sprintf : Bytes → List Bytes → Bytes

-- `base64.StdEncoding.DecodeString`
unfoldable pub decode_base64 : Bytes → Decoded Bytes
decode_base64 s = elim (decode s) [ none ↦ malformed corrupt_input | some raw ↦ record_of raw ]

-- `delete(m, key)`
unfoldable pub erase {ℓ} : {V : Type ℓ} → Bytes → List (Bytes × V) → List (Bytes × V)
erase k [] = []
erase k ((j, v) ∷ m) = let rest = erase k m in if j == k then rest else (j, v) ∷ rest

abbrev pub empty_request : ExecuteRequest
empty_request = record { target = []; args = []; options = []; timeout = pos 0 }

-- The strings among the members that are left.
unfoldable pub options_of : List (Bytes × Value) → List (Bytes × Bytes)
options_of [] = []
options_of ((k, raw) ∷ m) =
    let rest = options_of m in
    elim (unmarshal_string raw) [ record_of s ↦ (k, s) ∷ rest | malformed e ↦ rest ]

unfoldable pub with_options : ExecuteRequest → List (Bytes × Value) → Decoded ExecuteRequest
with_options req m = record_of (record req { options = options_of m })

unfoldable pub with_args : ExecuteRequest → List (Bytes × Value) → Decoded ExecuteRequest
with_args req m = elim (index (codes "args") m) [
  | none ↦ with_options req m
  | some raw ↦ elim (unmarshal_strings raw) [
    | malformed e ↦ malformed (wrapping (codes "input_json.args: %w") [] e)
    | record_of args ↦ with_options (record req { args = args }) (erase (codes "args") m)
  ]
]

unfoldable pub with_target : List (Bytes × Value) → Decoded ExecuteRequest
with_target m = elim (index (codes "target") m) [
  | none ↦ with_args empty_request m
  | some raw ↦ elim (unmarshal_string raw) [
    | malformed e ↦ malformed (wrapping (codes "input_json.target: %w") [] e)
    | record_of target ↦
        with_args (record empty_request { target = target }) (erase (codes "target") m)
  ]
]

unfoldable pub decode_input_json : Bytes → Decoded ExecuteRequest
decode_input_json input_json =
    if is_empty input_json then record_of empty_request else elim (unmarshal_map input_json) [
      | malformed e ↦ malformed (wrapping (codes "unmarshal input_json: %w") [] e)
      | record_of m ↦ with_target m
    ]

-- `if timeoutMs > 0 { execReq.Timeout = int32(timeoutMs / 1000) }`
unfoldable pub with_timeout : ℤ → ExecuteRequest → ExecuteRequest
with_timeout (pos zero) req = req
with_timeout (pos (suc ms)) req = record req { timeout = to_int32 (pos (suc ms / 1000)) }
with_timeout (negsuc ms) req = req

-- `if execReq.Timeout > 0`: the deadline of the context, in seconds.
unfoldable pub deadline : ℤ → Context
deadline (pos zero) = none
deadline (pos (suc seconds)) = some (suc seconds)
deadline (negsuc n) = none

-- What the process leaves: nothing on the standard output, an error line, or an output line.
pub data Emitted : Type 0 where
  silent : Emitted
  error_line : Bytes → List Bytes → Emitted
  output_line : Bytes → Emitted

pub record Exit : Type 0 where
  pub code : ℕ
  pub emitted : Emitted

abbrev pub abi_output_marker : Bytes
abi_output_marker = codes "===GIBSON_TOOL_OUTPUT==="

abbrev pub abi_error_marker : Bytes
abi_error_marker = codes "===GIBSON_TOOL_ERROR==="

abbrev pub exit_ok : ℕ
exit_ok = 0

abbrev pub exit_input_parse : ℕ
exit_input_parse = 1

abbrev pub exit_execute_error : ℕ
exit_execute_error = 2

abbrev pub exit_output_marshal : ℕ
exit_output_marshal = 3

abbrev pub exit_tool_not_registered : ℕ
exit_tool_not_registered = 4

module _ (c : Codec) where
  -- What `emitResponse` and `emitError` write to the standard output.
  unfoldable pub printed : Emitted → Bytes
  printed silent = []
  printed (error_line format args) = abi_error_marker ++ (c.sprintf format args ++ (b'\n' ∷ []))
  printed (output_line b) = abi_output_marker ++ (encode b ++ (b'\n' ∷ []))

  -- `emitResponse`, then the exit with `code`; an encoding error exits before that.
  unfoldable pub emit_response : CallToolResponse → ℕ → Exit
  emit_response resp code = elim (c.encode_response resp) [
    | malformed e ↦ record { code = exit_output_marshal; emitted = silent }
    | record_of b ↦ record { code = code; emitted = output_line b }
  ]

  is_failed : ParseQuality → Bool
  is_failed failed = true
  is_failed _ = false

  -- `CallToolResponse.error` for an error of `Execute`.
  unfoldable pub error_response : ExecuteResponse → Error → CallToolResponse
  unfolding is_failed
  error_response resp err = error_of (record {
    code = if is_failed resp.parse_quality then codes "PARSE_FAILED" else codes "EXECUTE_ERROR";
    error = err;
    retryable = false;
  })

  unfoldable pub discovery_or_empty : Option DiscoveryResult → DiscoveryResult
  discovery_or_empty none = nothing
  discovery_or_empty (some d) = d

  -- Behind `parser.Execute`.
  unfoldable pub finish : ExecuteResponse × Option Error → Exit
  finish (resp, some err) = emit_response (error_response resp err) exit_execute_error
  finish (resp, none) = elim (c.encode_discovery (discovery_or_empty resp.discovery)) [
    | malformed e ↦ record { code = exit_output_marshal; emitted = silent }
    | record_of output_json ↦ emit_response (output output_json) exit_ok
  ]

  abbrev pub unreadable : Exit
  unreadable = record { code = exit_input_parse; emitted = silent }

  module _ (r : Registry) (w : World) where
    unfoldable pub run_parser : Parser → ExecuteRequest → Exit
    run_parser p req = finish (p.execute r.policies w (deadline req.timeout) req)

    -- The request envelope, for the parser that was found.
    unfoldable pub run_request : Parser → Bytes → Exit
    run_request p input_b64 = elim (decode_base64 input_b64) [
      | malformed e ↦ unreadable
      | record_of bytes ↦ elim (c.decode_request bytes) [
        | malformed e ↦ unreadable
        | record_of call_req ↦ elim (decode_input_json call_req.input_json) [
          | malformed e ↦ unreadable
          | record_of req ↦ run_parser p (with_timeout call_req.timeout_ms req)
        ]
      ]
    ]

    unfoldable pub run_default : Exit
    run_default =
        let tool_name = trim_space (w.getenv env_tool_name) in
        let input_b64 = trim_space (w.getenv env_input_b64) in
        if is_empty tool_name then unreadable else elim (lookup r tool_name) [
          | none ↦ record {
            code = exit_tool_not_registered;
            emitted =
                error_line (codes "tool %q not registered in this runner image") (tool_name ∷ []);
          }
          | some p ↦ if is_empty input_b64 then unreadable else run_request p input_b64
        ]
