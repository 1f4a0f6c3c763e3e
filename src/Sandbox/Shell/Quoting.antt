-- ===== src/Sandbox/Shell/Quoting.antt =====
-- internal/sandbox/sandbox.go, `shellQuoteSlice` under the reading of a POSIX shell.
use gibson_tool_runner.Base.{
  ℕ, Bytes, false, List, [], ◌∷◌, ◌++◌, Option, none, some, eqb, eqb_iff, ◌≡◌, refl, ◌∙◌, arith,
  append-nil, append_assoc, Bool-cases, inl, inr,
}
use gibson_tool_runner.Sandbox.Shell.{quote_bytes, quote_word, quote_more, shell_quote_slice}
use gibson_tool_runner.Sandbox.Shell.Posix.{
  gap, word, quoted, next_mode, ended, finish, prepend, read, words,
}

prepend_nil : (r : Option (List Bytes)) → prepend [] r ≡ r
prepend_nil none = refl
prepend_nil (some rest) = refl

-- A byte other than a quote inside quotes, and a quote as '\'' inside quotes.
read_plain :
    (w : Bytes) (c : ℕ) (rest : Bytes)
    → eqb c b'\'' ≡ false
    → read (quoted w) (c ∷ rest) ≡ read (quoted (w ++ (c ∷ []))) rest
unfolding read next_mode ended
read_plain w c rest h = rw h (prepend_nil _)

read_quote :
    (w : Bytes) (rest : Bytes)
    → read (quoted w) (b'\'' ∷ b'\\' ∷ b'\'' ∷ b'\'' ∷ rest)
      ≡ read (quoted (w ++ (b'\'' ∷ []))) rest
unfolding read next_mode ended
read_quote w rest = ground (arith, prepend_nil (read (quoted (w ++ (b'\'' ∷ []))) rest))

read-quote_bytes :
    (a w rest : Bytes)
    → read (quoted w) (quote_bytes a ++ (b'\'' ∷ rest)) ≡ read (word (w ++ a)) rest
unfolding quote_bytes
read-quote_bytes [] w rest =
    unfold read next_mode ended in rw append-nil (prepend_nil (read (word w) rest))
read-quote_bytes (c ∷ cs) w rest = elim (Bool-cases (eqb c b'\'')) [
  | inl q ↦ rw q (
      read_quote w (quote_bytes cs ++ (b'\'' ∷ rest))
      ∙ read-quote_bytes cs (w ++ (b'\'' ∷ [])) rest
      ∙ rw (append_assoc, (eqb_iff c b'\'').0 q))
  | inr o ↦ rw o (
      read_plain w c (quote_bytes cs ++ (b'\'' ∷ rest)) o
      ∙ read-quote_bytes cs (w ++ (c ∷ [])) rest
      ∙ rw append_assoc)
]

read_open : (rest : Bytes) → read gap (b'\'' ∷ rest) ≡ read (quoted []) rest
unfolding read next_mode ended
read_open rest = prepend_nil _

read_space : (w rest : Bytes) → read (word w) (b' ' ∷ rest) ≡ prepend (w ∷ []) (read gap rest)
unfolding read next_mode ended
read_space w rest = refl

read-quote_word : (a rest : Bytes) → read gap (quote_word a ++ rest) ≡ read (word a) rest
unfolding quote_word
read-quote_word a rest =
    read_open (quote_bytes a ++ (b'\'' ∷ []) ++ rest) ∙ rw append_assoc (read-quote_bytes a [] rest)

read-quote_more :
    (args : List Bytes) (w : Bytes) → read (word w) (quote_more args) ≡ some (w ∷ args)
unfolding quote_more
read-quote_more [] w = unfold read finish in refl
read-quote_more (a ∷ args) w =
    read_space w (quote_word a ++ quote_more args)
    ∙ rw (read-quote_word a (quote_more args), read-quote_more args a)

-- Quoting and the shell's reading are inverse: for every argument list the shell reads back exactly
-- these words, whatever bytes they hold, and leaves nothing to be expanded.
pub words-shell_quote_slice : (args : List Bytes) → words (shell_quote_slice args) ≡ some args
unfolding words shell_quote_slice
words-shell_quote_slice [] = unfold read finish in refl
words-shell_quote_slice (a ∷ args) = read-quote_word a (quote_more args) ∙ read-quote_more args a
