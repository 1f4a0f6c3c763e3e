-- ===== src/Tests/Sandboxes.antt =====
-- internal/sandbox/sandbox.go at concrete inputs.
use gibson_tool_runner.Base.{
  ℕ, ◌+◌, ◌*◌, ◌^◌, ◌≤◌, ◌⊎◌, ◌<◌, Bytes, codes, List, [], ◌∷◌, Option, none, some,
  output_cap_exceeded, ◌≡◌, ◌↔◌, refl, arith, length, take, drop, length-take, decimal,
  if◌then◌else◌, ◌==◌, false,
}
use gibson_tool_runner.Sandbox.Buffer.{fresh, init, bytes, err, write_all}
use gibson_tool_runner.Sandbox.Buffer.Laws.{concat, err-write_all_iff}
use gibson_tool_runner.Sandbox.Config.{
  Config, env_output_cap_bytes, env_memory_bytes, default_config,
}
use gibson_tool_runner.Sandbox.Config.Laws.{InRange, default_config-InRange, default_config_set}
use gibson_tool_runner.Sandbox.Limit.{Reader, LimitedReader, limit_reader, read, read_many}
use gibson_tool_runner.Sandbox.Limit.Laws.{read_many-left, read_exhausted}
use gibson_tool_runner.Sandbox.Shell.{Cmd, shell_quote_slice, limit_kib, apply}
use gibson_tool_runner.Sandbox.Shell.Posix.{words}
use gibson_tool_runner.Sandbox.Shell.Quoting.{words-shell_quote_slice}
use gibson_tool_runner.Sandbox.Shell.Wrapper.{RunsLimited, apply-RunsLimited, limit_kib_bounds}

abbrev hostile : List Bytes
hostile = codes "nmap" ∷ codes "'; rm -rf $HOME" ∷ [] ∷ []

quoted_runs : shell_quote_slice hostile ≡ codes "'nmap' ''\\''; rm -rf $HOME' ''"
unfolding shell_quote_slice
quoted_runs = refl

words-shell_quote_slice_example : words (shell_quote_slice hostile) ≡ some hostile
words-shell_quote_slice_example = words-shell_quote_slice hostile

abbrev nowhere : Bytes → Option Bytes
nowhere name = none

abbrev small : Config
small = record { output_cap_bytes = 4; memory_bytes = 5000 }

abbrev huge : Config
huge = record { output_cap_bytes = 4; memory_bytes = 18_446_744_073_709_551_615 }

abbrev hostile_cmd : Cmd
hostile_cmd = record { path = codes "nmap"; args = hostile; setpgid = false; err = none }

apply-RunsLimited_example : RunsLimited nowhere 5000 hostile (apply nowhere hostile_cmd small)
apply-RunsLimited_example = apply-RunsLimited nowhere hostile_cmd small (omega arith)

limit_kib_bounds_example :
    (18_446_744_073_709_551_615 + 1023 < 2 ^ 64)
      × ((18_446_744_073_709_551_615 ≤ limit_kib huge * 1024)
          × (limit_kib huge * 1024 < 18_446_744_073_709_551_615 + 1024))
    ⊎ (2 ^ 64 ≤ 18_446_744_073_709_551_615 + 1023) × (limit_kib huge ≡ 0)
limit_kib_bounds_example = limit_kib_bounds huge (omega arith)

abbrev two_writes : List Bytes
two_writes = codes "abc" ∷ codes "def" ∷ []

cut_runs : bytes (write_all (init fresh 4) two_writes) ≡ codes "abcd"
unfolding bytes write_all gibson_tool_runner.Sandbox.Buffer.write init
cut_runs = refl

fits : err (write_all (init fresh 6) two_writes) ≡ none
unfolding err write_all gibson_tool_runner.Sandbox.Buffer.write init
fits = refl

err-write_all_iff_example :
    (err (write_all (init fresh 4) two_writes) ≡ some output_cap_exceeded)
    ↔ (4 < length (concat two_writes))
err-write_all_iff_example = err-write_all_iff 4 two_writes (λ e. cc, (λ e. cc, tt))

-- A reader over a text.
text_reader-length : (s : Bytes) (n : ℕ) → length (take n s) ≤ n
text_reader-length s n = omega (arith, length-take n s)

abbrev text_reader : Reader
text_reader = record {
  State = Bytes;
  read = λ s n. (record { content = take n s; error = none }, drop n s);
  length-read = text_reader-length;
}

abbrev limited : LimitedReader text_reader
limited = limit_reader text_reader (codes "abcdef") 4

read_many-left_example :
    length (read_many text_reader limited (3 ∷ 3 ∷ [])).0
      + (read_many text_reader limited (3 ∷ 3 ∷ [])).1.left
    ≡ 4
read_many-left_example = read_many-left text_reader (3 ∷ 3 ∷ []) limited

-- The limit of 4 is the length of the text, and the read at its end fails all the same.
abbrev exact : LimitedReader text_reader
exact = limit_reader text_reader (codes "abcd") 4

all_read : length (read_many text_reader exact (3 ∷ 3 ∷ [])).0 ≡ 4
unfolding read_many read
all_read = refl

read_exhausted_example : read text_reader (read_many text_reader exact (3 ∷ 3 ∷ [])).1 8 ≡ (
  record { content = []; error = some output_cap_exceeded },
  (read_many text_reader exact (3 ∷ 3 ∷ [])).1,
)
read_exhausted_example = read_exhausted text_reader (codes "abcd") 4 (3 ∷ 3 ∷ []) 8 all_read

abbrev nothing_set : Bytes → Bytes
nothing_set name = []

abbrev both_set : Bytes → Bytes
both_set name = if name == env_output_cap_bytes then codes "4096" else codes "5000"

default_config-InRange_example :
    InRange (2 ^ 63) (default_config nothing_set).output_cap_bytes
    × InRange (2 ^ 64) (default_config nothing_set).memory_bytes
default_config-InRange_example = default_config-InRange nothing_set

cap_set : both_set env_output_cap_bytes ≡ decimal 4096
unfolding ◌==◌ decimal
cap_set = refl

memory_set : both_set env_memory_bytes ≡ decimal 5000
unfolding ◌==◌ decimal
memory_set = refl

default_config_set_example :
    default_config both_set ≡ record { output_cap_bytes = 4096; memory_bytes = 5000 }
default_config_set_example =
    default_config_set both_set 4096 5000 cap_set memory_set (omega arith, omega arith)
      (omega arith, omega arith)
