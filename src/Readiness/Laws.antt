-- ===== src/Readiness/Laws.antt =====
-- internal/readiness/readiness.go and internal/probes/daemon.go: what the answers say.
use gibson_tool_runner.Base.{
  Bytes, codes, Bool, true, false, List, [], ◌∷◌, ◌++◌, none, ◌≡◌, ◌↔◌, ◌⊎◌, refl, ◌∙◌, arith, map,
  append-nil, append_assoc, All, if◌then◌else◌, inl, inr,
}
use gibson_tool_runner.Readiness.{
  Probe, ProbeResult, Answer, Aggregator, probe_result, still_ready, check_all, ready_handler,
  canonical_tcp_addr,
}

module _ {Context : Type 0} (ctx : Context) where
  -- Every probe passes.
  abbrev pub AllPass : List (Probe Context) → Type 0
  AllPass = All (λ (p : Probe Context). p.check ctx ≡ none)

  -- The flag behind the loop.
  all_ready : List (Probe Context) → Bool → Bool
  all_ready [] ready = ready
  all_ready (p ∷ ps) ready = all_ready ps (still_ready ctx p ready)

  abbrev answer : Bool → List ProbeResult → Answer
  answer ready results =
      if ready
      then record { code = 200; body = record { status = codes "ok"; probes = results } }
      else record { code = 503; body = record { status = codes "unready"; probes = results } }

  check_all-answer :
      (ps : List (Probe Context)) (ready : Bool) (results : List ProbeResult)
      → check_all ctx ps ready results
        ≡ answer (all_ready ps ready) (results ++ map (probe_result ctx) ps)
  unfolding check_all all_ready
  check_all-answer [] true results = rw append-nil
  check_all-answer [] false results = rw append-nil
  check_all-answer (p ∷ ps) ready results = check_all-answer ps _ _ ∙ rw append_assoc

  all_ready-false : (ps : List (Probe Context)) → all_ready ps false ≡ false
  unfolding all_ready still_ready
  all_ready-false [] = refl
  all_ready-false (p ∷ ps) = ground (arith, all_ready-false ps)

  all_ready_iff : (ps : List (Probe Context)) → (all_ready ps true ≡ true) ↔ AllPass ps
  unfolding all_ready still_ready
  all_ready_iff [] = (λ h. tt, λ h. refl)
  all_ready_iff (p ∷ ps) =
      (ground (arith, all_ready-false ps, all_ready_iff ps), ground (arith, all_ready_iff ps))

  -- `/readyz` answers 200 exactly when every registered probe passes and 503 otherwise, and lists the
  -- result of each probe in the order of registration, failing ones too.
  pub ready_handler_lem :
      (a : Aggregator Context)
      → (((ready_handler a ctx).code ≡ 200) ↔ AllPass a.probes)
        × (((ready_handler a ctx).code ≡ 200) ⊎ ((ready_handler a ctx).code ≡ 503))
        × ((ready_handler a ctx).body.probes ≡ map (probe_result ctx) a.probes)
  unfolding ready_handler
  ready_handler_lem a =
      rw (check_all-answer a.probes true [])
        (by_flag (all_ready a.probes true) (all_ready_iff a.probes))
    where
      by_flag :
          (ready : Bool)
          → (ready ≡ true) ↔ AllPass a.probes
          → (((answer ready (map (probe_result ctx) a.probes)).code ≡ 200) ↔ AllPass a.probes)
            × (((answer ready (map (probe_result ctx) a.probes)).code ≡ 200)
                ⊎ ((answer ready (map (probe_result ctx) a.probes)).code ≡ 503))
            × ((answer ready (map (probe_result ctx) a.probes)).body.probes
                ≡ map (probe_result ctx) a.probes)
      by_flag true h = ((λ e. h.0 refl, λ p. refl), inl refl, refl)
      by_flag false h =
          ((λ e. absurd (omega arith), λ p. absurd (ground (arith, h.1 p))), inr refl, refl)

-- `canonicalTCPAddr` returns every address as it is, also one with a "unix:" prefix.
pub canonical_tcp_addr_same : (addr : Bytes) → canonical_tcp_addr addr ≡ addr
unfolding canonical_tcp_addr
canonical_tcp_addr_same addr = ground arith
