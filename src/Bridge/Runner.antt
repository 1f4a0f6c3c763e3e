-- ===== src/Bridge/Runner.antt =====
-- cmd/mcp-bridge-runner/main.go, `main`. `mcpbridge.Run` of zeroroot-ai/sdk is a parameter: for a path
-- and the files it returns, with an error or none, or ends the process with a code of its own.
use gibson_tool_runner.Base.{
  ℕ, Bytes, codes, Option, none, some, Error, ◌≡◌, ◌≢◌, ◌⊎◌, refl, ap, subst, arith, inl, inr,
}
use gibson_tool_runner.Bridge.{Result, ok, fail, Host, manifest_path}
use gibson_tool_runner.Bridge.Laws.{
  Resolved, Unresolved, manifest_path-Resolved, manifest_path-Unresolved,
}

pub data Ran : Type 0 where
  returned : Option Error → Ran
  exits : ℕ → Ran

-- The exit code of the process behind `mcpbridge.Run`.
exit_code : Ran → ℕ
exit_code (returned none) = 0
exit_code (returned (some e)) = 1
exit_code (exits n) = n

module _ (h : Host) (bridge : Bytes → h.Files → Ran) (temp_dir : Bytes) where
  start : Result Bytes × h.Files → ℕ
  start (fail e, files) = 1
  start (ok path, files) = exit_code (bridge path files)

  unfoldable pub run_bridge : (Bytes → Bytes) → h.Files → ℕ
  unfolding start exit_code
  run_bridge getenv files = start (manifest_path h temp_dir getenv files)

  -- The ways to end: no bridge was started, or it was, on a manifest that is there.
  pub data BridgeEnds (getenv : Bytes → Bytes) (files : h.Files) (code : ℕ) : Type 0 where
    not_started :
        Unresolved h temp_dir files
          (getenv (codes "GIBSON_CONNECTOR_MANIFEST_B64"))
          (getenv (codes "GIBSON_CONNECTOR_MANIFEST_PATH"))
        → code ≡ 1
        → BridgeEnds getenv files code
    started :
        (path : Bytes) (after : h.Files) (ran : Ran)
        → Resolved h temp_dir files
            (getenv (codes "GIBSON_CONNECTOR_MANIFEST_B64"))
            (getenv (codes "GIBSON_CONNECTOR_MANIFEST_PATH"))
            path
            after
        → bridge path after ≡ ran
        → ((n : ℕ) → ran ≡ exits n → code ≡ n)
        → ((e : Option Error)
            → ran ≡ returned e
            → (code ≡ 0) × (e ≡ none) ⊎ (code ≡ 1) × (e ≢ none))
        → BridgeEnds getenv files code

  -- The process exits with 1 for a manifest that is not there: both variables are set, or neither, or the
  -- file of the path variable is missing, or the inline manifest does not decode or cannot be written. Or it
  -- starts the bridge on the path resolved from exactly one of the two variables, which is not empty, and
  -- exits with the bridge's own code, with 0 if it returned no error, and with 1 if it returned one.
  pub run_bridge-Ends :
      (getenv : Bytes → Bytes) (files : h.Files) → BridgeEnds getenv files (run_bridge getenv files)
  unfolding run_bridge start exit_code
  run_bridge-Ends getenv files = by_path (manifest_path h temp_dir getenv files) refl
    where
      by_ran :
          (ran : Ran)
          → ((n : ℕ) → ran ≡ exits n → exit_code ran ≡ n)
            × ((e : Option Error)
                → ran ≡ returned e
                → (exit_code ran ≡ 0) × (e ≡ none) ⊎ (exit_code ran ≡ 1) × (e ≢ none))
      by_ran (returned none) = (λ n f. cc, λ e f. inl (refl, ground arith))
      by_ran (returned (some x)) = (λ n f. cc, λ e f. inr (refl, λ g. cc))
      by_ran (exits m) = (λ n f. ground arith, λ e f. cc)

      by_path :
          (m : Result Bytes × h.Files)
          → manifest_path h temp_dir getenv files ≡ m
          → BridgeEnds getenv files (start m)
      by_path (fail e, after) f =
          not_started (manifest_path-Unresolved h temp_dir files getenv e (ap (λ p. p.0) f)) refl
      by_path (ok path, after) f =
          started path after (bridge path after)
            (subst
              (λ a.
                Resolved h temp_dir files (getenv (codes "GIBSON_CONNECTOR_MANIFEST_B64"))
                  (getenv (codes "GIBSON_CONNECTOR_MANIFEST_PATH")) path a)
              (ap (λ p. p.1) f)
              (manifest_path-Resolved h temp_dir files getenv path (ap (λ p. p.0) f)))
            refl (by_ran (bridge path after)).0 (by_ran (bridge path after)).1
