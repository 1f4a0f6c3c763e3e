-- ===== src/Sandbox/Buffer/Laws.antt =====
-- internal/sandbox/sandbox.go, `CappedBuffer`: what a sequence of writes leaves in the buffer.
use gibson_tool_runner.Base.{
  ℕ, zero, suc, ◌↔◌, ◌-◌, ◌≤◌, ◌<◌, Bytes, true, List, [], ◌∷◌, ◌++◌, none, some,
  output_cap_exceeded, ◌≡◌, ◌≢◌, refl, ◌∙◌, arith, length, take, take-append, take_none, take_all,
  length-append, append-nil, append_assoc, All, if◌then◌else◌,
}
use gibson_tool_runner.Sandbox.Buffer.{CappedBuffer, fresh, init, write, bytes, err, write_all}

-- All that was written, in one piece.
abbrev pub concat : List Bytes → Bytes
concat [] = []
concat (p ∷ ps) = p ++ concat ps

-- The buffer after `written` went in under the cap `cap`.
record Tracks (cap : ℕ) (written : Bytes) (c : CappedBuffer) : Type 0 where
  buffered : c.buf ≡ take cap written
  left : c.rem ≡ cap - length written
  flagged : cap < length written → c.hit ≡ true
  same_cap : c.cap ≡ cap

write-buf : (c : CappedBuffer) (p : Bytes) → (write c p).0.buf ≡ c.buf ++ take c.rem p
unfolding write
write-buf c p =
    ground (arith, append-nil c.buf, take_none c.rem p, take_all c.rem p, take_all (length p) p)

write-rem : (c : CappedBuffer) (p : Bytes) → (write c p).0.rem ≡ c.rem - length p
unfolding write
write-rem c p = ground arith

write-Tracks :
    (cap : ℕ) (written p : Bytes) (c : CappedBuffer)
    → Tracks cap written c
    → Tracks cap (written ++ p) (write c p).0
write-Tracks cap written p c t = record {
  buffered = write-buf c p ∙ rw (take-append cap written p, ← t.left, ← t.buffered);
  left = omega (arith, write-rem c p, length-append written p);
  flagged = λ h. unfold write in ground (arith, length-append written p);
  same_cap = unfold write in ground (arith);
}

write_all-Tracks :
    (cap : ℕ) (written : Bytes) (c : CappedBuffer) (ps : List Bytes)
    → Tracks cap written c
    → Tracks cap (written ++ concat ps) (write_all c ps)
unfolding write_all
write_all-Tracks cap written c [] t = rw append-nil t
write_all-Tracks cap written c (p ∷ ps) t =
    rw (← append_assoc written p (concat ps))
      (write_all-Tracks cap (written ++ p) (write c p).0 ps (write-Tracks cap written p c t))

init-Tracks : (cap : ℕ) → Tracks cap [] (init fresh cap)
unfolding init
init-Tracks cap = record {
  buffered = none_left cap;
  left = omega arith;
  flagged = λ h. absurd (omega arith);
  same_cap = refl;
}
  where
    none_left : (n : ℕ) → ◌≡◌ {A = Bytes} [] (take n [])
    none_left zero = refl
    none_left (suc n) = refl

-- After any sequence of writes the buffer holds the first `cap` bytes of all that was written, and
-- nothing else.
pub bytes-write_all :
    (cap : ℕ) (ps : List Bytes) → bytes (write_all (init fresh cap) ps) ≡ take cap (concat ps)
unfolding bytes
bytes-write_all cap ps = (write_all-Tracks cap [] (init fresh cap) ps (init-Tracks cap)).buffered

-- Output beyond the cap is never lost in silence: if `Err` reports nothing after a sequence of
-- writes, the buffer holds every byte written.
pub bytes-write_all_complete :
    (cap : ℕ) (ps : List Bytes)
    → err (write_all (init fresh cap) ps) ≡ none
    → bytes (write_all (init fresh cap) ps) ≡ concat ps
unfolding err
bytes-write_all_complete cap ps h = bytes-write_all cap ps ∙ take_all cap (concat ps) fits
  where
    t : Tracks cap (concat ps) (write_all (init fresh cap) ps)
    t = write_all-Tracks cap [] (init fresh cap) ps (init-Tracks cap)

    fits : length (concat ps) ≤ cap
    fits = ground (arith, t.flagged)

write-hit : (c : CappedBuffer) (p : Bytes) → p ≢ [] → length p ≤ c.rem → (write c p).0.hit ≡ c.hit
unfolding write
write-hit c [] ne h = absurd (ne refl)
write-hit c (x ∷ p) ne h = ground arith

write_all-hit :
    (c : CappedBuffer) (ps : List Bytes)
    → All (λ p. p ≢ []) ps
    → length (concat ps) ≤ c.rem
    → (write_all c ps).hit ≡ c.hit
unfolding write_all
write_all-hit c [] ne h = refl
write_all-hit c (p ∷ ps) ne h =
    write_all-hit (write c p).0 ps ne.1 (omega (arith, write-rem c p, length-append p (concat ps)))
    ∙ write-hit c p ne.0 (omega (arith, length-append p (concat ps)))

-- If no write is empty, `Err` reports the overflow exactly when more than `cap` bytes were written.
pub err-write_all_iff :
    (cap : ℕ) (ps : List Bytes)
    → All (λ p. p ≢ []) ps
    → (err (write_all (init fresh cap) ps) ≡ some output_cap_exceeded) ↔ (cap < length (concat ps))
unfolding err
err-write_all_iff cap ps ne = (overflows, reported)
  where
    c : CappedBuffer
    c = write_all (init fresh cap) ps

    reported :
        cap < length (concat ps)
        → (if c.hit then some output_cap_exceeded else none) ≡ some output_cap_exceeded
    reported h = rw ((write_all-Tracks cap [] (init fresh cap) ps (init-Tracks cap)).flagged h)

    overflows :
        (if c.hit then some output_cap_exceeded else none) ≡ some output_cap_exceeded
        → cap < length (concat ps)
    overflows e = unfold init in ground (arith, write_all-hit (init fresh cap) ps ne)

-- If no write is empty, `Err` reports nothing exactly when all that was written fits.
pub err-write_all-none_iff :
    (cap : ℕ) (ps : List Bytes)
    → All (λ p. p ≢ []) ps
    → (err (write_all (init fresh cap) ps) ≡ none) ↔ (length (concat ps) ≤ cap)
unfolding err
err-write_all-none_iff cap ps ne = ground (arith, err-write_all_iff cap ps ne)
