-- ===== src/Sandbox/Limit/Laws.antt =====
-- internal/sandbox/sandbox.go, `LimitReader`: the quota over any sequence of calls.
use gibson_tool_runner.Base.{
  ℕ, ◌+◌, List, [], ◌∷◌, some, output_cap_exceeded, ◌≡◌, arith, length, length-append, ltb,
  if◌then◌else◌,
}
use gibson_tool_runner.Sandbox.Limit.{Reader, LimitedReader, limit_reader, read, read_many}

module _ (r : Reader) where
  read-left :
      (l : LimitedReader r) (n : ℕ) → length (read r l n).0.content + (read r l n).1.left ≡ l.left
  unfolding read
  read-left l n = ground (arith, r.length-read l.inner (if ltb l.left n then l.left else n))

  -- Over any sequence of calls the bytes returned and the quota that is left add up to the limit, so
  -- never more than `limit` bytes are returned in total.
  pub read_many-left :
      (ns : List ℕ) (l : LimitedReader r)
      → length (read_many r l ns).0 + (read_many r l ns).1.left ≡ l.left
  unfolding read_many
  read_many-left [] l = omega arith
  read_many-left (n ∷ ns) l =
      let first = (read r l n).0.content in
      let rest = read_many r (read r l n).1 ns in
      omega (arith, read-left l n, read_many-left ns (read r l n).1, length-append first rest.0)

  -- Once `limit` bytes were returned, every further call fails with `ErrOutputCapExceeded`, returns no
  -- byte and does not touch the wrapped reader, also when that reader is at its end.
  pub read_exhausted :
      (s : r.State) (limit : ℕ) (ns : List ℕ) (n : ℕ)
      → length (read_many r (limit_reader r s limit) ns).0 ≡ limit
      → read r (read_many r (limit_reader r s limit) ns).1 n ≡ (
        record { content = []; error = some output_cap_exceeded },
        (read_many r (limit_reader r s limit) ns).1,
      )
  unfolding read
  read_exhausted s limit ns n h = ground (arith, read_many-left ns (limit_reader r s limit))
