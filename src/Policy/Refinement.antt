-- ===== src/Policy/Refinement.antt =====
-- internal/policy/policy.go: the loop of `ApplyArgs` held against the specification by groups.
use gibson_tool_runner.Base.{
  Bytes, true, false, List, [], ◌∷◌, ◌++◌, Option, none, some, ◌≡◌, refl, ◌∙◌, sym, ap, ◌⊎◌, arith,
  append-nil, append_assoc, Bool-cases, inl, inr,
}
use gibson_tool_runner.Policy.{
  ArgsPolicy, DroppedFlag, Applied, is_flag, stray_token, paired_value, check_flag, round,
  apply_loop, apply_args,
}
use gibson_tool_runner.Policy.Groups.{
  Group, flagged, tokens, groups, Verdict, kept, denied, rejected, verdict_of, verdict, settle,
  judge, is_some, groups_stray, groups_paired, groups_bare,
}

-- The loop's slices so far, in front of a result.
abbrev onto : List Bytes → List DroppedFlag → Applied → Applied
onto out dropped r = record {
  args = elim r.error [ none ↦ out ++ r.args | some err ↦ [] ];
  dropped = dropped ++ r.dropped;
  error = r.error;
}

abbrev Loop : Type 0
Loop = List Bytes → List DroppedFlag → Applied

-- How a verdict on a group with these tokens moves the loop on.
abbrev advance : Verdict → List Bytes → Loop → Loop
advance kept toks next out dropped = next (out ++ toks) dropped
advance (denied d) toks next out dropped = next out (dropped ++ (d ∷ []))
advance (rejected err) toks next out dropped = record {
  args = [];
  dropped = dropped;
  error = some err;
}

advance_congr :
    (v : Verdict) (toks : List Bytes) {f g : Loop}
    → ((out : List Bytes) (dropped : List DroppedFlag) → f out dropped ≡ g out dropped)
    → (out : List Bytes) (dropped : List DroppedFlag)
    → advance v toks f out dropped ≡ advance v toks g out dropped
advance_congr kept toks h out dropped = h _ _
advance_congr (denied d) toks h out dropped = h _ _
advance_congr (rejected err) toks h out dropped = refl

onto-settle :
    (v : Verdict) (toks : List Bytes) (rest : Applied) (out : List Bytes)
    (dropped : List DroppedFlag)
    → onto out dropped (settle v toks rest) ≡ advance v toks (λ o d. onto o d rest) out dropped
unfolding settle
onto-settle kept toks rest out dropped = ground (arith, append_assoc out toks rest.args)
onto-settle (denied d) toks rest out dropped =
    ground (arith, append_assoc dropped (d ∷ []) rest.dropped)
onto-settle (rejected err) toks rest out dropped = ground (arith, append-nil dropped)

module _ (p : ArgsPolicy) (tok : Bytes) (rest : List Bytes) where
  apply_loop_stray :
      is_flag tok ≡ false
      → (out : List Bytes) (dropped : List DroppedFlag)
      → apply_loop p (tok ∷ rest) false out dropped
        ≡ apply_loop p rest false out (dropped ++ (stray_token tok ∷ []))
  unfolding apply_loop round
  apply_loop_stray f out dropped = ground arith

  apply_loop_flag :
      (value : Option Bytes)
      → is_flag tok ≡ true
      → paired_value rest ≡ value
      → (out : List Bytes) (dropped : List DroppedFlag)
      → apply_loop p (tok ∷ rest) false out dropped
        ≡ advance
            (verdict p (flagged tok value))
            (tokens (flagged tok value))
            (apply_loop p rest (is_some value))
            out
            dropped
  unfolding apply_loop round verdict verdict_of check_flag
  apply_loop_flag none f v out dropped = ground arith
  apply_loop_flag (some value) f v out dropped = ground arith

module _ (p : ArgsPolicy) where
  apply_loop-judge_flag :
      (tok : Bytes) (rest : List Bytes) (value : Option Bytes) (gs : List Group)
      → is_flag tok ≡ true
      → paired_value rest ≡ value
      → groups (tok ∷ rest) ≡ flagged tok value ∷ gs
      → ((out : List Bytes) (dropped : List DroppedFlag)
          → apply_loop p rest (is_some value) out dropped ≡ onto out dropped (judge p gs))
      → (out : List Bytes) (dropped : List DroppedFlag)
      → apply_loop p (tok ∷ rest) false out dropped
        ≡ onto out dropped (judge p (groups (tok ∷ rest)))
  unfolding judge
  apply_loop-judge_flag tok rest value gs f v e h out dropped =
      apply_loop_flag p tok rest value f v out dropped
      ∙ advance_congr (verdict p (flagged tok value)) _ h out dropped
      ∙ sym (onto-settle (verdict p (flagged tok value)) _ (judge p gs) out dropped)
      ∙ ap (λ x. onto out dropped (judge p x)) (sym e)

  apply_loop-judge_stray :
      (tok : Bytes) (rest : List Bytes)
      → is_flag tok ≡ false
      → ((out : List Bytes) (dropped : List DroppedFlag)
          → apply_loop p rest false out dropped ≡ onto out dropped (judge p (groups rest)))
      → (out : List Bytes) (dropped : List DroppedFlag)
      → apply_loop p (tok ∷ rest) false out dropped
        ≡ onto out dropped (judge p (groups (tok ∷ rest)))
  unfolding judge verdict
  apply_loop-judge_stray tok rest s h out dropped =
      apply_loop_stray p tok rest s out dropped
      ∙ h _ _
      ∙ sym (onto-settle (denied (stray_token tok)) (tok ∷ []) (judge p (groups rest)) out dropped)
      ∙ ap (λ x. onto out dropped (judge p x)) (sym (groups_stray tok rest s))

  apply_loop_skip :
      (tok : Bytes) (rest : List Bytes) (out : List Bytes) (dropped : List DroppedFlag)
      → apply_loop p (tok ∷ rest) true out dropped ≡ apply_loop p rest false out dropped
  unfolding apply_loop
  apply_loop_skip tok rest out dropped = refl

  apply_loop-judge :
      (args : List Bytes) (out : List Bytes) (dropped : List DroppedFlag)
      → apply_loop p args false out dropped ≡ onto out dropped (judge p (groups args))
  apply_loop-judge [] out dropped =
      unfold apply_loop groups judge in rw (append-nil out, append-nil dropped)
  apply_loop-judge (tok ∷ []) out dropped = elim (Bool-cases (is_flag tok)) [
    | inr s ↦ apply_loop-judge_stray tok [] s (apply_loop-judge []) out dropped
    | inl f ↦
        let v : paired_value [] ≡ none = unfold paired_value in refl in
        apply_loop-judge_flag tok [] none (groups []) f v (groups_bare tok [] f v)
          (apply_loop-judge []) out dropped
  ]
  apply_loop-judge (tok ∷ next ∷ rest) out dropped = elim (Bool-cases (is_flag tok)) [
    | inr s ↦
        apply_loop-judge_stray tok (next ∷ rest) s (apply_loop-judge (next ∷ rest)) out dropped
    | inl f ↦ elim (Bool-cases (is_flag next)) [
      | inl n ↦
          let v : paired_value (next ∷ rest) ≡ none = unfold paired_value in rw n in
          apply_loop-judge_flag tok (next ∷ rest) none (groups (next ∷ rest)) f v
            (groups_bare tok (next ∷ rest) f v) (apply_loop-judge (next ∷ rest)) out dropped
      | inr n ↦
          let v : paired_value (next ∷ rest) ≡ some next = unfold paired_value in rw n in
          apply_loop-judge_flag tok (next ∷ rest) (some next) (groups rest) f v
            (groups_paired tok next rest f n)
            (λ o d. apply_loop_skip next rest o d ∙ apply_loop-judge rest o d) out dropped
    ]
  ]

settle_error :
    (v : Verdict) (toks : List Bytes) (rest : Applied)
    → (rest.error ≡ none) ⊎ (rest.args ≡ [])
    → ((settle v toks rest).error ≡ none) ⊎ ((settle v toks rest).args ≡ [])
unfolding settle
settle_error kept toks rest h = ground arith
settle_error (denied d) toks rest h = h
settle_error (rejected err) toks rest h = inr refl

-- With an error there are no arguments.
pub judge_error :
    (p : ArgsPolicy) (gs : List Group) → ((judge p gs).error ≡ none) ⊎ ((judge p gs).args ≡ [])
unfolding judge
judge_error p [] = inl refl
judge_error p (g ∷ gs) = settle_error (verdict p g) (tokens g) (judge p gs) (judge_error p gs)

onto_start : (r : Applied) → (r.error ≡ none) ⊎ (r.args ≡ []) → onto [] [] r ≡ r
onto_start r h = ground arith

-- For every argument list and policy, `ApplyArgs` returns what judging the token groups one by one
-- gives: the tokens of the kept groups in order, one dropped flag for each denied group, and the
-- error of the first rejected group, which empties the arguments and ends the walk.
pub apply_args-judge :
    (args : List Bytes) (p : ArgsPolicy) → apply_args args p ≡ judge p (groups args)
unfolding apply_args
apply_args-judge args p =
    apply_loop-judge p args [] [] ∙ onto_start (judge p (groups args)) (judge_error p (groups args))
