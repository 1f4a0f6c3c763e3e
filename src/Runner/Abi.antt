-- ===== src/Runner/Abi.antt =====
-- cmd/gibson-runner/main.go, `runDefault`: every way in which the process can end.
use gibson_tool_runner.Base.{
  Bytes, codes, true, false, [], ◌∷◌, Option, none, some, Error, ◌≡◌, refl, subst, sym, arith,
  is_empty, trim_space, Bool-cases, Option-cases, inl, inr,
}
use gibson_tool_runner.Graph.{DiscoveryResult, nothing}
use gibson_tool_runner.Process.{World}
use gibson_tool_runner.Registry.{
  Registry, Parser, ParseQuality, unspecified, structured, partial, raw, failed, ExecuteRequest,
  ExecuteResponse, lookup,
}
use gibson_tool_runner.Parsers.Lines.{record_of, malformed}
use gibson_tool_runner.Parsers.Lines.Laws.{Decoded-cases}
use gibson_tool_runner.Runner.{
  decode_base64, Codec, CallToolRequest, CallToolResponse, output, error_of, decode_input_json,
  with_timeout, deadline, silent, error_line, output_line, Exit, env_tool_name, env_input_b64,
  emit_response, error_response, discovery_or_empty, finish, run_parser, run_request, run_default,
}

-- The code of the error that answers a response.
abbrev pub code_for : ParseQuality → Bytes
code_for failed = codes "PARSE_FAILED"
code_for unspecified = codes "EXECUTE_ERROR"
code_for structured = codes "EXECUTE_ERROR"
code_for partial = codes "EXECUTE_ERROR"
code_for raw = codes "EXECUTE_ERROR"

-- The error response for an error of `Execute`.
abbrev pub report : ExecuteResponse → Error → CallToolResponse
report resp err =
    error_of (record { code = code_for resp.parse_quality; error = err; retryable = false })

-- The graph that a discovery stands for: the empty one if there is none.
abbrev pub Shown : Option DiscoveryResult → DiscoveryResult → Type 0
Shown none disc = disc ≡ nothing
Shown (some d) disc = disc ≡ d

module _ (c : Codec) (r : Registry) (w : World) where
  -- The request that the environment holds, as the parser gets it.
  pub record Requested (req : ExecuteRequest) : Type 0 where
    pub envelope : Bytes
    pub call_req : CallToolRequest
    pub decoded : ExecuteRequest
    pub reads_base64 :
        decode_base64 (trim_space (w.getenv (codes "GIBSON_TOOL_INPUT_B64"))) ≡ record_of envelope
    pub reads_request : c.decode_request envelope ≡ record_of call_req
    pub reads_input : decode_input_json call_req.input_json ≡ record_of decoded
    pub timed : req ≡ with_timeout call_req.timeout_ms decoded

  -- Why the environment holds no request.
  pub data Unreadable : Type 0 where
    no_text : is_empty (trim_space (w.getenv (codes "GIBSON_TOOL_INPUT_B64"))) ≡ true → Unreadable
    no_base64 :
        (e : Error)
        → decode_base64 (trim_space (w.getenv (codes "GIBSON_TOOL_INPUT_B64"))) ≡ malformed e
        → Unreadable
    no_request :
        (envelope : Bytes) (e : Error)
        → decode_base64 (trim_space (w.getenv (codes "GIBSON_TOOL_INPUT_B64"))) ≡ record_of envelope
        → c.decode_request envelope ≡ malformed e
        → Unreadable
    no_json :
        (envelope : Bytes) (call_req : CallToolRequest) (e : Error)
        → decode_base64 (trim_space (w.getenv (codes "GIBSON_TOOL_INPUT_B64"))) ≡ record_of envelope
        → c.decode_request envelope ≡ record_of call_req
        → decode_input_json call_req.input_json ≡ malformed e
        → Unreadable

  -- What the tables say of the name that the environment holds, which is not empty.
  abbrev pub Named : Option Parser → Type 0
  Named p =
      (is_empty (trim_space (w.getenv (codes "GIBSON_TOOL_NAME"))) ≡ false)
      × (lookup r (trim_space (w.getenv (codes "GIBSON_TOOL_NAME"))) ≡ p)

  -- The parser's answer to the request that the environment holds.
  pub record Answered (p : Parser) (resp : ExecuteResponse) (err : Option Error) : Type 0 where
    pub named : Named (some p)
    pub req : ExecuteRequest
    pub requested : Requested req
    pub answers : p.execute r.policies w (deadline req.timeout) req ≡ (resp, err)

  -- Why an answer cannot be encoded.
  pub data Unencodable (resp : ExecuteResponse) : Option Error → Type 0 where
    no_report :
        (err e : Error)
        → c.encode_response (report resp err) ≡ malformed e
        → Unencodable resp (some err)
    no_graph :
        (disc : DiscoveryResult) (e : Error)
        → Shown resp.discovery disc
        → c.encode_discovery disc ≡ malformed e
        → Unencodable resp none
    no_output :
        (disc : DiscoveryResult) (json : Bytes) (e : Error)
        → Shown resp.discovery disc
        → c.encode_discovery disc ≡ record_of json
        → c.encode_response (output json) ≡ malformed e
        → Unencodable resp none

  -- The ways to end, with the conditions of each. A tool's parser was called in the last three only.
  pub data Ends (ex : Exit) : Type 0 where
    unnamed :
        is_empty (trim_space (w.getenv (codes "GIBSON_TOOL_NAME"))) ≡ true
        → ex ≡ record { code = 1; emitted = silent }
        → Ends ex
    no_tool :
        Named none
        → ex ≡ record {
          code = 4;
          emitted =
              error_line
                (codes "tool %q not registered in this runner image")
                (trim_space (w.getenv (codes "GIBSON_TOOL_NAME")) ∷ []);
        }
        → Ends ex
    no_input :
        (p : Parser)
        → Named (some p)
        → Unreadable
        → ex ≡ record { code = 1; emitted = silent }
        → Ends ex
    reported :
        (p : Parser) (resp : ExecuteResponse) (err : Error) (b : Bytes)
        → Answered p resp (some err)
        → c.encode_response (report resp err) ≡ record_of b
        → ex ≡ record { code = 2; emitted = output_line b }
        → Ends ex
    succeeded :
        (p : Parser) (resp : ExecuteResponse) (disc : DiscoveryResult) (json b : Bytes)
        → Answered p resp none
        → Shown resp.discovery disc
        → c.encode_discovery disc ≡ record_of json
        → c.encode_response (output json) ≡ record_of b
        → ex ≡ record { code = 0; emitted = output_line b }
        → Ends ex
    not_encoded :
        (p : Parser) (resp : ExecuteResponse) (err : Option Error)
        → Answered p resp err
        → Unencodable resp err
        → ex ≡ record { code = 3; emitted = silent }
        → Ends ex

  error_response-report :
      (resp : ExecuteResponse) (err : Error) → error_response c resp err ≡ report resp err
  unfolding error_response
  error_response-report resp err = by_quality resp.parse_quality
    where
      by_quality :
          (q : ParseQuality)
          → error_response c (record resp { parse_quality = q }) err
            ≡ report (record resp { parse_quality = q }) err
      by_quality unspecified = refl
      by_quality structured = refl
      by_quality partial = refl
      by_quality raw = refl
      by_quality failed = refl

  Shown-discovery_or_empty : (o : Option DiscoveryResult) → Shown o (discovery_or_empty c o)
  unfolding discovery_or_empty
  Shown-discovery_or_empty none = refl
  Shown-discovery_or_empty (some d) = refl

  finish-Ends :
      (p : Parser) (resp : ExecuteResponse) (err : Option Error)
      → Answered p resp err
      → Ends (finish c (resp, err))
  unfolding finish emit_response
  finish-Ends p resp (some err) ans =
      rw (error_response-report resp err)
        (elim (Decoded-cases (c.encode_response (report resp err))) [
          | inl (b, enc) ↦ reported p resp err b ans enc (ground arith)
          | inr (x, enc) ↦ not_encoded p resp (some err) ans (no_report err x enc) (ground arith)
        ])
  finish-Ends p resp none ans =
      let disc = discovery_or_empty c resp.discovery in
      let shown : Shown resp.discovery disc = Shown-discovery_or_empty resp.discovery in
      elim (Decoded-cases (c.encode_discovery disc)) [
        | inr (x, enc) ↦ not_encoded p resp none ans (no_graph disc x shown enc) (ground arith)
        | inl (json, enc) ↦ elim (Decoded-cases (c.encode_response (output json))) [
          | inr (x, out) ↦
              not_encoded p resp none ans (no_output disc json x shown enc out) (ground arith)
          | inl (b, out) ↦ succeeded p resp disc json b ans shown enc out (ground arith)
        ]
      ]

  module _ (p : Parser) (found : Named (some p)) where
    run_request-decoded :
        (envelope : Bytes) (call_req : CallToolRequest) (decoded : ExecuteRequest) (b64 : Bytes)
        → decode_base64 b64 ≡ record_of envelope
        → c.decode_request envelope ≡ record_of call_req
        → decode_input_json call_req.input_json ≡ record_of decoded
        → run_request c r w p b64 ≡ run_parser c r w p (with_timeout call_req.timeout_ms decoded)
    unfolding run_request
    run_request-decoded envelope call_req decoded b64 e f g = ground arith

    run_parser-Ends : (req : ExecuteRequest) → Requested req → Ends (run_parser c r w p req)
    unfolding run_parser
    run_parser-Ends req q =
        let out = p.execute r.policies w (deadline req.timeout) req in
        finish-Ends p out.0 out.1
          (record { named = found; req = req; requested = q; answers = refl })

    run_request-Ends : Ends (run_request c r w p (trim_space (w.getenv env_input_b64)))
    unfolding run_request
    run_request-Ends = elim (Decoded-cases (decode_base64 (trim_space (w.getenv env_input_b64)))) [
      | inr (x, e) ↦ no_input p found (no_base64 x e) (ground arith)
      | inl (envelope, e) ↦ elim (Decoded-cases (c.decode_request envelope)) [
        | inr (x, f) ↦ no_input p found (no_request envelope x e f) (ground arith)
        | inl (call_req, f) ↦ elim (Decoded-cases (decode_input_json call_req.input_json)) [
          | inr (x, g) ↦ no_input p found (no_json envelope call_req x e f g) (ground arith)
          | inl (decoded, g) ↦
              let req = with_timeout call_req.timeout_ms decoded in
              let q : Requested req = record {
                envelope = envelope;
                call_req = call_req;
                decoded = decoded;
                reads_base64 = e;
                reads_request = f;
                reads_input = g;
                timed = refl;
              } in
              subst Ends (sym (run_request-decoded envelope call_req decoded _ e f g))
                (run_parser-Ends req q)
        ]
      ]
    ]

  -- For every registry, environment and outcome of a tool the process ends in one of six ways. With code 1
  -- and nothing on the output, if GIBSON_TOOL_NAME is blank, or if it names a registered tool and
  -- GIBSON_TOOL_INPUT_B64 is blank or does not decode to a request. With code 4 and the error line, if no
  -- tool is registered under that name. Else the tool's parser was called with the decoded request: with
  -- code 2 and a line with the report of its error, if it returned one; with code 0 and a line with its
  -- discovery, the empty one for none, if not; with code 3 and nothing on the output, if one of the two
  -- encoders failed.
  pub run_default-Ends : Ends (run_default c r w)
  unfolding run_default
  run_default-Ends = elim (Bool-cases (is_empty (trim_space (w.getenv env_tool_name)))) [
    | inl unset ↦ unnamed unset (ground arith)
    | inr set ↦ elim (Option-cases (lookup r (trim_space (w.getenv env_tool_name)))) [
      | inl missing ↦ no_tool (set, missing) (ground arith)
      | inr (p, found) ↦ elim (Bool-cases (is_empty (trim_space (w.getenv env_input_b64)))) [
        | inl blank ↦ no_input p (set, found) (no_text blank) (ground arith)
        | inr text ↦ rw (set, found, text) (run_request-Ends p (set, found))
      ]
    ]
  ]
