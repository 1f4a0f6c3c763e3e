-- ===== src/Readiness.antt =====
-- internal/readiness/readiness.go and internal/probes/daemon.go. A probe is its name and what its
-- `Check` gives in a request; the handlers return the status code and the body. The lock is not
-- modelled: `Register` is called before the server starts, and a handler works on a copy.
pub mod Laws
use gibson_tool_runner.Base.{
  ℕ, zero, suc, Bytes, codes, Bool, true, false, List, [], ◌∷◌, ◌++◌, Option, none, some, Error,
  wrapping, is_empty, has_prefix, if◌then◌else◌,
}

-- `Check(ctx)` depends on the request's context.
pub record Probe (Context : Type 0) : Type 0 where
  pub name : Bytes
  pub check : Context → Option Error

pub record ProbeResult : Type 0 where
  pub name : Bytes
  pub status : Bytes
  pub error : Option Error

pub record ReadyzResponse : Type 0 where
  pub status : Bytes
  pub probes : List ProbeResult

-- The status code and the body of an answer.
pub record Answer : Type 0 where
  pub code : ℕ
  pub body : ReadyzResponse

pub record Aggregator (Context : Type 0) : Type 0 where
  pub probes : List (Probe Context)

module _ {Context : Type 0} where
  abbrev pub new_aggregator : Aggregator Context
  new_aggregator = record { probes = [] }

  unfoldable pub register : Aggregator Context → Probe Context → Aggregator Context
  register a p = record { probes = a.probes ++ (p ∷ []) }

  -- The result for one probe, and whether the loop stays ready.
  unfoldable pub probe_result : Context → Probe Context → ProbeResult
  probe_result ctx p = elim (p.check ctx) [
    | none ↦ record { name = p.name; status = codes "ok"; error = none }
    | some e ↦ record { name = p.name; status = codes "unready"; error = some e }
  ]

  unfoldable pub still_ready : Context → Probe Context → Bool → Bool
  still_ready ctx p ready = elim (p.check ctx) [ none ↦ ready | some e ↦ false ]

  -- The loop over the probes: the flag and the results so far.
  unfoldable pub check_all : Context → List (Probe Context) → Bool → List ProbeResult → Answer
  check_all ctx [] true results = record {
    code = 200;
    body = record { status = codes "ok"; probes = results };
  }
  check_all ctx [] false results = record {
    code = 503;
    body = record { status = codes "unready"; probes = results };
  }
  check_all ctx (p ∷ ps) ready results =
      check_all ctx ps (still_ready ctx p ready) (results ++ (probe_result ctx p ∷ []))

  unfoldable pub ready_handler : Aggregator Context → Context → Answer
  ready_handler a ctx = check_all ctx a.probes true []

-- What is written to a response: a JSON value to be encoded, or a text as it is.
pub data Response : Type 0 where
  encoded : Answer → Response
  plain : ℕ → Bytes → Response

-- `LivenessHandler`: a write with no status before it is a 200.
abbrev pub liveness_handler : Response
liveness_handler = plain 200 (codes "{\"status\":\"ok\"}")

-- internal/probes/daemon.go. The timeout is in milliseconds; `dial` is `DialContext` with the
-- deadline, a parameter: `none` is a connection, which is closed again.
pub record DaemonProbe : Type 0 where
  pub addr : Bytes
  pub timeout : ℕ

unfoldable pub resolve_daemon_addr : (Bytes → Bytes) → Bytes
resolve_daemon_addr getenv =
    let addr = getenv (codes "GIBSON_DAEMON_ADDRESS") in
    if is_empty addr then codes "localhost:50002" else addr

unfoldable pub new_daemon_probe : (Bytes → Bytes) → ℕ → DaemonProbe
new_daemon_probe getenv zero = record { addr = resolve_daemon_addr getenv; timeout = 3000 }
new_daemon_probe getenv (suc t) = record { addr = resolve_daemon_addr getenv; timeout = suc t }

canonical_loop : List Bytes → Bytes → Bytes
canonical_loop [] addr = addr
canonical_loop (pfx ∷ pfxs) addr =
    let rest = canonical_loop pfxs addr in if has_prefix addr pfx then addr else rest

unfoldable pub canonical_tcp_addr : Bytes → Bytes
unfolding canonical_loop
canonical_tcp_addr addr = canonical_loop (codes "unix:///" ∷ codes "unix://" ∷ []) addr

module _ {Context : Type 0} (dial : Context → ℕ → Bytes → Option Error) where
  unfoldable pub check : DaemonProbe → Context → Option Error
  check p ctx =
      let addr = canonical_tcp_addr p.addr in
      elim (dial ctx p.timeout addr) [
        | none ↦ none
        | some e ↦ some (wrapping (codes "daemon-callback unreachable at %s: %w") (addr ∷ []) e)
      ]

  abbrev pub daemon_probe : DaemonProbe → Probe Context
  daemon_probe p = record { name = codes "daemon-callback"; check = check p }
