-- ===== src/Sandbox/Buffer.antt =====
-- internal/sandbox/sandbox.go, `CappedBuffer`. The `int64` cap is a number: a cap below 0 acts like 0,
-- since `Write` only asks whether `rem` is positive, and `rem` never falls below 0 from there.
pub mod Laws
use gibson_tool_runner.Base.{
  ℕ, ◌+◌, ◌-◌, Bytes, Bool, true, false, List, [], ◌∷◌, ◌++◌, Option, none, some, Error,
  output_cap_exceeded, ltb, eqb, length, take, if◌then◌else◌,
}

pub record CappedBuffer : Type 0 where
  pub buf : Bytes
  pub cap : ℕ
  pub rem : ℕ
  pub hit : Bool

-- The zero value, `var stdout sandbox.CappedBuffer`.
abbrev pub fresh : CappedBuffer
fresh = record { buf = []; cap = 0; rem = 0; hit = false }

unfoldable pub init : CappedBuffer → ℕ → CappedBuffer
init c cap = record c { cap = cap; rem = cap }

-- The new buffer and the count that is reported. The error is that of `bytes.Buffer.Write`, which
-- is always nil.
unfoldable pub write : CappedBuffer → Bytes → CappedBuffer × ℕ
write c p =
    if eqb c.rem 0
    then (record c { hit = true }, length p)
    else let over = ltb c.rem (length p) in
      let accept = if over then c.rem else length p in
      (
        record c {
          buf = c.buf ++ take accept p;
          rem = c.rem - accept;
          hit = if over then true else c.hit;
        },
        length p,
      )

unfoldable pub bytes : CappedBuffer → Bytes
bytes c = c.buf

unfoldable pub err : CappedBuffer → Option Error
err c = if c.hit then some output_cap_exceeded else none

-- The writes of a process, in order.
unfoldable pub write_all : CappedBuffer → List Bytes → CappedBuffer
write_all c [] = c
write_all c (p ∷ ps) = write_all (write c p).0 ps
