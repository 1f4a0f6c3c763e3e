-- ===== src/Sandbox/Shell.antt =====
-- internal/sandbox/sandbox.go, `Apply`, `shellWrapArgs` and `shellQuoteSlice`, with `applyMemoryLimit`
-- of memlimit_unix.go (Linux and macOS). `lookPath` is `exec.LookPath`, a parameter: `none` is an error.
pub mod Posix
pub mod Quoting
pub mod Wrapper
use gibson_tool_runner.Base.{
  ℕ, ◌+◌, ◌/◌, ◌%◌, ◌^◌, Bytes, codes, Bool, true, false, List, [], ◌∷◌, ◌++◌, Option, none, some,
  Error, eqb, decimal, if◌then◌else◌,
}
use gibson_tool_runner.Sandbox.Config.{Config}

-- The fields of `exec.Cmd` that matter here: `setpgid` is `SysProcAttr.Setpgid`, false too when
-- `SysProcAttr` is nil, and `err` is `Err`, which `exec.CommandContext` sets.
pub record Cmd : Type 0 where
  pub path : Bytes
  pub args : List Bytes
  pub setpgid : Bool
  pub err : Option Error

-- The bytes of one word, a single quote written as '\''.
unfoldable pub quote_bytes : Bytes → Bytes
quote_bytes [] = []
quote_bytes (c ∷ cs) =
    (if eqb c b'\'' then b'\'' ∷ b'\\' ∷ b'\'' ∷ b'\'' ∷ [] else c ∷ []) ++ quote_bytes cs

quote_word : Bytes → Bytes
quote_word a = b'\'' ∷ (quote_bytes a ++ (b'\'' ∷ []))

-- The words behind the first one, each with a space in front.
quote_more : List Bytes → Bytes
quote_more [] = []
quote_more (a ∷ args) = b' ' ∷ (quote_word a ++ quote_more args)

unfoldable pub shell_quote_slice : List Bytes → Bytes
unfolding quote_word quote_more quote_bytes
shell_quote_slice [] = []
shell_quote_slice (a ∷ args) = quote_word a ++ quote_more args

-- `(cfg.MemoryBytes + 1023) / 1024` on `uint64`
unfoldable pub limit_kib : Config → ℕ
limit_kib cfg = (cfg.memory_bytes + 1023) % 2 ^ 64 / 1024

module _ (look_path : Bytes → Option Bytes) where
  unfoldable pub shell_path : Bytes
  shell_path = elim (look_path (codes "sh")) [ none ↦ codes "/bin/sh" | some p ↦ p ]

  unfoldable pub shell_wrap_args : Cmd → ℕ → Cmd
  shell_wrap_args cmd limit_kib = record cmd {
    path = shell_path;
    args =
        codes "sh"
        ∷ codes "-c"
        ∷ (codes "ulimit -v "
            ++ (decimal limit_kib ++ (codes "; exec " ++ shell_quote_slice cmd.args)))
        ∷ [];
  }

  abbrev pub apply_memory_limit : Cmd → ℕ → Cmd
  apply_memory_limit = shell_wrap_args

  unfoldable pub apply : Cmd → Config → Cmd
  apply cmd cfg = apply_memory_limit (record cmd { setpgid = true }) (limit_kib cfg)

-- memlimit_other.go: on platforms other than Linux and macOS the limit is not set.
abbrev pub apply_memory_limit_other : Cmd → ℕ → Cmd
apply_memory_limit_other cmd limit_kib = cmd

-- `Apply` on these platforms.
unfoldable pub apply_other : Cmd → Config → Cmd
apply_other cmd cfg = apply_memory_limit_other (record cmd { setpgid = true }) (limit_kib cfg)
