-- ===== src/Sandbox/Shell/Wrapper.antt =====
-- internal/sandbox/sandbox.go, `Apply`: the command that runs in place of the tool.
use gibson_tool_runner.Base.{
  ℕ, ◌+◌, ◌*◌, ◌^◌, ◌≤◌, ◌<◌, Bytes, codes, true, List, [], ◌∷◌, ◌++◌, Option, none, some, decimal,
  parse_digits, parse_digits-decimal, ◌≡◌, ◌⊎◌, refl, arith, Bool-cases, Option-cases, leb, inl,
  inr,
}
use gibson_tool_runner.Sandbox.Config.{Config}
use gibson_tool_runner.Sandbox.Shell.{
  Cmd, shell_quote_slice, limit_kib, shell_path, shell_wrap_args, apply, apply_other,
}
use gibson_tool_runner.Sandbox.Shell.Posix.{words}
use gibson_tool_runner.Sandbox.Shell.Quoting.{words-shell_quote_slice}

-- A limit in KiB for a number of bytes: rounded up to a whole KiB, or 0 where the sum wraps around.
abbrev pub IsRounded : ℕ → ℕ → Type 0
IsRounded memory limit =
    (memory + 1023 < 2 ^ 64) × ((memory ≤ limit * 1024) × (limit * 1024 < memory + 1024))
    ⊎ (2 ^ 64 ≤ memory + 1023) × (limit ≡ 0)

-- The path of the program `sh`: what the look-up finds, or /bin/sh if it finds nothing.
abbrev pub IsShell : (Bytes → Option Bytes) → Bytes → Type 0
IsShell look_path path =
    (look_path (codes "sh") ≡ some path)
    ⊎ (look_path (codes "sh") ≡ none) × (path ≡ codes "/bin/sh")

-- A command that runs a shell which sets a memory limit for `memory` bytes and then replaces itself
-- by the words `args`, in a process group of its own.
pub record RunsLimited (look_path : Bytes → Option Bytes) (memory : ℕ) (args : List Bytes)
    (cmd : Cmd) : Type 0 where
  pub own_group : cmd.setpgid ≡ true
  pub shell : IsShell look_path cmd.path
  pub limit : ℕ
  pub numeral : Bytes
  pub quoted : Bytes
  pub script :
      cmd.args
      ≡ codes "sh"
        ∷ codes "-c"
        ∷ (codes "ulimit -v " ++ (numeral ++ (codes "; exec " ++ quoted)))
        ∷ []
  pub reads_limit : parse_digits numeral ≡ some limit
  pub rounds : IsRounded memory limit
  pub reads_args : words quoted ≡ some args

-- The limit is the configured number of bytes rounded up to a whole KiB for every configuration of at
-- most 2^64 - 1024 bytes. For every other one the sum wraps around, and the limit is 0 KiB.
pub limit_kib_bounds :
    (cfg : Config)
    → cfg.memory_bytes < 2 ^ 64
    → (cfg.memory_bytes + 1023 < 2 ^ 64)
        × ((cfg.memory_bytes ≤ limit_kib cfg * 1024)
            × (limit_kib cfg * 1024 < cfg.memory_bytes + 1024))
      ⊎ (2 ^ 64 ≤ cfg.memory_bytes + 1023) × (limit_kib cfg ≡ 0)
unfolding limit_kib
limit_kib_bounds cfg h = elim (Bool-cases (leb (cfg.memory_bytes + 1024) (2 ^ 64))) [
  | inl e ↦
      let fits : cfg.memory_bytes + 1023 < 2 ^ 64 = ground arith in
      inl (fits, (omega arith, omega arith))
  | inr e ↦ let above : 2 ^ 64 ≤ cfg.memory_bytes + 1023 = ground arith in inr (above, omega arith)
]

shell_path-IsShell : (look_path : Bytes → Option Bytes) → IsShell look_path (shell_path look_path)
unfolding shell_path
shell_path-IsShell look_path = elim (Option-cases (look_path (codes "sh"))) [
  | inl e ↦ inr (e, ground arith)
  | inr (p, e) ↦ inl (ground arith)
]

-- `Apply` turns every command into one that runs under the configured limit with the same words,
-- whatever bytes the words hold: a shell, the one that the path look-up finds or else /bin/sh, in a
-- process group of its own.
pub apply-RunsLimited :
    (look_path : Bytes → Option Bytes) (cmd : Cmd) (cfg : Config)
    → cfg.memory_bytes < 2 ^ 64
    → RunsLimited look_path cfg.memory_bytes cmd.args (apply look_path cmd cfg)
unfolding apply shell_wrap_args
apply-RunsLimited look_path cmd cfg h = record {
  own_group = refl;
  shell = shell_path-IsShell look_path;
  limit = limit_kib cfg;
  numeral = decimal (limit_kib cfg);
  quoted = shell_quote_slice cmd.args;
  script = refl;
  reads_limit = parse_digits-decimal (limit_kib cfg);
  rounds = limit_kib_bounds cfg h;
  reads_args = words-shell_quote_slice cmd.args;
}

-- The words that run under the limit are those that `Apply` of the other platforms runs with none.
apply-apply_other :
    (look_path : Bytes → Option Bytes) (cmd : Cmd) (cfg : Config)
    → cfg.memory_bytes < 2 ^ 64
    → RunsLimited look_path cfg.memory_bytes (apply_other cmd cfg).args (apply look_path cmd cfg)
unfolding apply_other
apply-apply_other look_path cmd cfg h = apply-RunsLimited look_path cmd cfg h
