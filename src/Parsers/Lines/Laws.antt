-- ===== src/Parsers/Lines/Laws.antt =====
-- The loop over JSON lines of parsers/*/*.go: the loop as a fold over records.
use gibson_tool_runner.Base.{
  ℕ, zero, suc, ◌+◌, Bytes, true, false, List, [], ◌∷◌, Option, none, some, Error, ◌≡◌, ◌⊎◌, refl,
  sym, ap, ◌∙◌, arith, length, inl, inr, foldl,
}
use gibson_tool_runner.Graph.{DiscoveryResult}
use gibson_tool_runner.Registry.{ParseQuality, structured}
use gibson_tool_runner.Parsers.Lines.{
  Decoded, record_of, malformed, is_skipped, Looped, stopped, finished, loop, conclude, Parsed,
}

module _ {S : Type 0} where
  abbrev pub loop_state : Looped S → S
  loop_state (stopped s lines err) = s
  loop_state (finished s lines) = s

  abbrev pub loop_lines : Looped S → ℕ
  loop_lines (stopped s lines err) = lines
  loop_lines (finished s lines) = lines

  pub conclude-discovery :
      (discovery : S → DiscoveryResult) (empty_quality : ParseQuality) (e : Option Error)
      (l : Looped S)
      → (conclude discovery empty_quality e l).discovery ≡ discovery (loop_state l)
  unfolding conclude
  conclude-discovery discovery empty_quality e (stopped s lines err) = refl
  conclude-discovery discovery empty_quality (some e) (finished s lines) = refl
  conclude-discovery discovery empty_quality none (finished s zero) = refl
  conclude-discovery discovery empty_quality none (finished s (suc lines)) = refl

pub Decoded-cases :
    {R : Type 0} (d : Decoded R)
    → ((r : R) × (d ≡ record_of r)) ⊎ ((err : Error) × (d ≡ malformed err))
Decoded-cases (record_of r) = inl (r, refl)
Decoded-cases (malformed err) = inr (err, refl)

module _ {R : Type 0} (clean : Bytes → Bytes) (decode : Bytes → Decoded R) where
  abbrev prepend : Decoded R → List R → List R
  prepend (record_of r) rs = r ∷ rs
  prepend (malformed err) rs = []

  -- The records of the lines, up to the first line that does not decode.
  unfoldable pub records : List Bytes → List R
  records [] = []
  records (token ∷ tokens) =
      let rest = records tokens in
      elim (is_skipped (clean token)) [ true ↦ rest | false ↦ prepend (decode (clean token)) rest ]

  module _ {S : Type 0} (step : S → R → S) where
    pub loop_state-foldl :
        (tokens : List Bytes) (s : S) (n : ℕ)
        → loop_state (loop clean decode step tokens s n) ≡ foldl step s (records tokens)
    unfolding loop records
    loop_state-foldl [] s n = refl
    loop_state-foldl (token ∷ tokens) s n = elim (Decoded-cases (decode (clean token))) [
      | inl (r, e) ↦
          ground (arith, loop_state-foldl tokens s n, loop_state-foldl tokens (step s r) (suc n))
      | inr (err, e) ↦ ground (arith, loop_state-foldl tokens s n)
    ]

    -- The line counter counts the records.
    pub loop_lines-length :
        (tokens : List Bytes) (s : S) (n : ℕ)
        → loop_lines (loop clean decode step tokens s n) ≡ n + length (records tokens)
    unfolding loop records
    loop_lines-length [] s n = omega arith
    loop_lines-length (token ∷ tokens) s n = elim (Decoded-cases (decode (clean token))) [
      | inl (r, e) ↦
          ground (arith, loop_lines-length tokens s n, loop_lines-length tokens (step s r) (suc n))
      | inr (err, e) ↦ ground (arith, loop_lines-length tokens s n)
    ]

-- An invariant of the steps holds behind the loop.
pub foldl-inv {κ} :
    {S R : Type 0} (P : S → Type κ) (step : S → R → S)
    → ((s : S) (r : R) → P s → P (step s r))
    → (rs : List R) (s : S) → P s
    → P (foldl step s rs)
foldl-inv P step keep [] s h = h
foldl-inv P step keep (r ∷ rs) s h = foldl-inv P step keep rs (step s r) (keep s r h)

module _ {R : Type 0} (clean : Bytes → Bytes) (decode : Bytes → Decoded R) where
  -- One round with a line that decodes.
  pub loop_record :
      {S : Type 0} (step : S → R → S) (token line : Bytes) (tokens : List Bytes) (r : R) (s : S)
      (n : ℕ)
      → clean token ≡ line
      → is_skipped line ≡ false
      → decode line ≡ record_of r
      → loop clean decode step (token ∷ tokens) s n
        ≡ loop clean decode step tokens (step s r) (suc n)
  unfolding loop
  loop_record step token line tokens r s n c k d =
      ground (arith, ap is_skipped c ∙ k, ap decode c ∙ d)

  pub records_record :
      (token line : Bytes) (tokens : List Bytes) (r : R)
      → clean token ≡ line
      → is_skipped line ≡ false
      → decode line ≡ record_of r
      → records clean decode (token ∷ tokens) ≡ r ∷ records clean decode tokens
  unfolding records
  records_record token line tokens r c k d = ground (arith, ap is_skipped c ∙ k, ap decode c ∙ d)

-- The quality of an output with these records.
abbrev pub quality_of : {R : Type 0} → ParseQuality → List R → ParseQuality
quality_of empty_quality [] = empty_quality
quality_of empty_quality (r ∷ rs) = structured

pub conclude_finished :
    {S R : Type 0} (discovery : S → DiscoveryResult) (empty_quality : ParseQuality) (s : S)
    (rs : List R)
    → conclude discovery empty_quality none (finished s (0 + length rs))
      ≡ record { discovery = discovery s; quality = quality_of empty_quality rs; error = none }
unfolding conclude
conclude_finished discovery q s [] = refl
conclude_finished discovery q s (r ∷ rs) =
    let e : 0 + length (r ∷ rs) ≡ suc (length rs) = omega arith in rw e refl

-- A result with no error, from the result of the loop and another account of the graph.
pub settled :
    {p : Parsed} {d : DiscoveryResult} (d' : DiscoveryResult) (q : ParseQuality)
    → p ≡ record { discovery = d; quality = q; error = none }
    → p.discovery ≡ d'
    → p ≡ record { discovery = d'; quality = q; error = none }
settled d' q e f =
    let same = sym (ap (λ (p : Parsed). p.discovery) e) ∙ f in
    e ∙ ap (λ (d : DiscoveryResult). record { discovery = d; quality = q; error = none }) same
