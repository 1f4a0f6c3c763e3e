-- ===== src/Sandbox/Limit.antt =====
-- internal/sandbox/sandbox.go, `LimitReader`. The wrapped `io.Reader` is a parameter: a state and what
-- `Read` gives for a slice of a length. The `int64` quota is a number: a quota below 0 acts like 0.
pub mod Laws
use gibson_tool_runner.Base.{
  ℕ, ◌+◌, ◌-◌, ◌≤◌, Bytes, Bool, true, false, List, [], ◌∷◌, ◌++◌, Option, none, some, Error,
  output_cap_exceeded, ltb, eqb, length, if◌then◌else◌,
}

-- What one `Read` returns: the bytes put into the slice, and the error.
pub record Chunk : Type 0 where
  pub content : Bytes
  pub error : Option Error

-- `io.Reader`. Its contract: `Read(p)` returns at most `len(p)` bytes.
pub record Reader : Type 1 where
  pub State : Type 0
  pub read : State → ℕ → Chunk × State
  pub length-read : (s : State) (n : ℕ) → length (read s n).0.content ≤ n

module _ (r : Reader) where
  pub record LimitedReader : Type 0 where
    pub inner : r.State
    pub left : ℕ

  abbrev pub limit_reader : r.State → ℕ → LimitedReader
  limit_reader s limit = record { inner = s; left = limit }

  -- `Read(p)` for a slice `p` of length `n`.
  unfoldable pub read : LimitedReader → ℕ → Chunk × LimitedReader
  read l n =
      if eqb l.left 0
      then (record { content = []; error = some output_cap_exceeded }, l)
      else let (chunk, s) = r.read l.inner (if ltb l.left n then l.left else n) in
        (chunk, record { inner = s; left = l.left - length chunk.content })

  -- Calls with slices of these lengths, one after the other: all bytes, and the reader behind them.
  unfoldable pub read_many : LimitedReader → List ℕ → Bytes × LimitedReader
  read_many l [] = ([], l)
  read_many l (n ∷ ns) =
      let (chunk, l') = read l n in
      let (rest, l'') = read_many l' ns in (chunk.content ++ rest, l'')
