-- ===== src/Runner/Deadline.antt =====
-- cmd/gibson-runner/main.go: what becomes of the request's timeout in milliseconds.
use gibson_tool_runner.Base.{
  ℕ, zero, suc, ◌*◌, ◌/◌, ◌^◌, ◌≤◌, ◌<◌, none, some, ◌≡◌, refl, arith, Bool-cases, inl, inr, ltb,
  if◌then◌else◌, pos, to_int32_pos, ◌∙◌, ap,
}
use gibson_tool_runner.Registry.{ExecuteRequest}
use gibson_tool_runner.Runner.{with_timeout, deadline}

deadline_pos : (n : ℕ) → 0 < n → deadline (pos n) ≡ some n
unfolding deadline
deadline_pos zero h = absurd (omega arith)
deadline_pos (suc n) h = refl

-- A timeout of at least a second, of less than 2^31 seconds, is the deadline in whole seconds,
-- rounded down.
deadline-whole_seconds :
    (ms : ℕ) (req : ExecuteRequest)
    → 1000 ≤ ms
    → ms < 2 ^ 31 * 1000
    → deadline (with_timeout (pos ms) req).timeout ≡ some (ms / 1000)
unfolding with_timeout
deadline-whole_seconds zero req h k = absurd (omega arith)
deadline-whole_seconds (suc ms) req h k =
    ap deadline (to_int32_pos (suc ms / 1000) (omega arith))
    ∙ deadline_pos (suc ms / 1000) (omega arith)

-- A positive timeout of less than a second sets no deadline at all.
deadline-subsecond :
    (ms : ℕ) (req : ExecuteRequest)
    → 0 < ms
    → ms < 1000
    → deadline (with_timeout (pos ms) req).timeout ≡ none
unfolding with_timeout
deadline-subsecond zero req h k = absurd (omega arith)
deadline-subsecond (suc ms) req h k =
    let e : suc ms / 1000 ≡ 0 = omega arith in
    rw e (ap deadline (to_int32_pos 0 (omega arith)) ∙ unfold deadline in refl)

-- A positive timeout of less than 2^31 seconds is the deadline in whole seconds, rounded down; below a
-- second it sets no deadline at all, not one of no time.
pub deadline-with_timeout :
    (ms : ℕ) (req : ExecuteRequest)
    → 0 < ms
    → ms < 2 ^ 31 * 1000
    → deadline (with_timeout (pos ms) req).timeout
      ≡ (if ltb ms 1000 then none else some (ms / 1000))
deadline-with_timeout ms req h k = elim (Bool-cases (ltb ms 1000)) [
  | inl e ↦ rw e (deadline-subsecond ms req h (ground arith))
  | inr e ↦ rw e (deadline-whole_seconds ms req (ground arith) k)
]
