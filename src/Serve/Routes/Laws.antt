-- ===== src/Serve/Routes/Laws.antt =====
-- cmd/gibson-runner/main.go with internal/readiness and internal/probes: the answers in serve mode.
use gibson_tool_runner.Base.{
  ℕ, Bytes, codes, [], ◌∷◌, Option, none, some, Error, wrapping, ◌≡◌, ap, refl, arith, ◌∙◌,
  is_empty, if◌then◌else◌, Option-cases, inl, inr, ◌==◌,
}
use gibson_tool_runner.Readiness.{
  Answer, ready_handler, register, check_all, probe_result, still_ready, check, resolve_daemon_addr,
  new_daemon_probe, encoded, plain,
}
use gibson_tool_runner.Readiness.Laws.{canonical_tcp_addr_same}
use gibson_tool_runner.Serve.Routes.{aggregator, route}

-- The answer for what the dial of an address gave.
abbrev pub answer_for : Bytes → Option Error → Answer
answer_for addr none = record {
  code = 200;
  body = record {
    status = codes "ok";
    probes = record { name = codes "daemon-callback"; status = codes "ok"; error = none } ∷ [];
  };
}
answer_for addr (some e) = record {
  code = 503;
  body = record {
    status = codes "unready";
    probes =
        record {
          name = codes "daemon-callback";
          status = codes "unready";
          error = some (wrapping (codes "daemon-callback unreachable at %s: %w") (addr ∷ []) e);
        }
        ∷ [];
  };
}

-- The address to dial for a value of the environment.
abbrev pub address_for : Bytes → Bytes
address_for [] = codes "localhost:50002"
address_for (b ∷ bs) = b ∷ bs

resolve_daemon_addr-address_for :
    (getenv : Bytes → Bytes)
    → resolve_daemon_addr getenv ≡ address_for (getenv (codes "GIBSON_DAEMON_ADDRESS"))
unfolding resolve_daemon_addr is_empty
resolve_daemon_addr-address_for getenv = by_value (getenv (codes "GIBSON_DAEMON_ADDRESS"))
  where
    by_value : (v : Bytes) → (if is_empty v then codes "localhost:50002" else v) ≡ address_for v
    by_value [] = refl
    by_value (b ∷ bs) = refl

module _ {Context : Type 0} (dial : Context → ℕ → Bytes → Option Error) (getenv : Bytes → Bytes)
    (ctx : Context) where
  ready_handler-answer_for :
      ready_handler (aggregator dial getenv) ctx
      ≡ answer_for (resolve_daemon_addr getenv) (dial ctx 3000 (resolve_daemon_addr getenv))
  unfolding ready_handler register check_all probe_result still_ready check new_daemon_probe
  ready_handler-answer_for = elim (Option-cases (dial ctx 3000 (resolve_daemon_addr getenv))) [
    | inl e ↦ ground (arith, canonical_tcp_addr_same (resolve_daemon_addr getenv))
    | inr (x, e) ↦ ground (arith, canonical_tcp_addr_same (resolve_daemon_addr getenv))
  ]

  -- In serve mode `/readyz` dials the address of GIBSON_DAEMON_ADDRESS, or localhost:50002 when that is
  -- empty, with a timeout of three seconds, also when it is one of a unix socket: it answers 200 with one
  -- passing probe if that succeeds, else 503 with the wrapped error. `/healthz` answers 200 in any case.
  pub route_lem :
      (route dial getenv ctx (codes "/readyz")
        ≡ encoded (
            answer_for
              (address_for (getenv (codes "GIBSON_DAEMON_ADDRESS")))
              (dial ctx 3000 (address_for (getenv (codes "GIBSON_DAEMON_ADDRESS"))))))
      × (route dial getenv ctx (codes "/healthz") ≡ plain 200 (codes "{\"status\":\"ok\"}"))
  unfolding route ◌==◌
  route_lem = (
    ap encoded ready_handler-answer_for
        ∙ ap (λ addr. encoded (answer_for addr (dial ctx 3000 addr)))
            (resolve_daemon_addr-address_for getenv),
    refl,
  )
