-- ===== src/Bridge.antt =====
-- internal/bridgerunner/bridgerunner.go, `ManifestPath`.
-- `os.Stat` and `os.WriteFile` are parameters.
pub mod Laws
pub mod Runner
use gibson_tool_runner.Base64.{decode, corrupt_input}
use gibson_tool_runner.Base.{
  Bytes, codes, Bool, true, false, not, ◌&&◌, List, [], ◌∷◌, ◌++◌, Option, none, some, Error,
  message, wrapping, is_empty, if◌then◌else◌,
}

abbrev pub env_manifest_b64 : Bytes
env_manifest_b64 = codes "GIBSON_CONNECTOR_MANIFEST_B64"

abbrev pub env_manifest_path : Bytes
env_manifest_path = codes "GIBSON_CONNECTOR_MANIFEST_PATH"

pub data Result (A : Type 0) : Type 0 where
  ok : A → Result A
  fail : Error → Result A

-- `base64.StdEncoding.DecodeString`
unfoldable pub decode_base64 : Bytes → Result Bytes
decode_base64 s = elim (decode s) [ none ↦ fail corrupt_input | some raw ↦ ok raw ]

-- What the host offers: the error of `os.Stat`, `filepath.Join`, and the file that a
-- write leaves, or its error.
pub record Host : Type 1 where
  pub Files : Type 0
  pub stat : Files → Bytes → Option Error
  pub join : Bytes → Bytes → Bytes
  pub write_file : Files → Bytes → Bytes → Option Error × Files

abbrev both_set : Error
both_set =
    message (codes "bridgerunner: %s and %s are both set; exactly one is required")
      (env_manifest_b64 ∷ env_manifest_path ∷ [])

abbrev missing : Error
missing =
    message (codes "bridgerunner: connector manifest missing; set %s (hosted) or %s (local)")
      (env_manifest_b64 ∷ env_manifest_path ∷ [])

module _ (h : Host) (write_dir : Bytes) where
  abbrev pub out_path : Bytes
  out_path = h.join write_dir (codes "plugin.yaml")

  unfoldable pub local_path : h.Files → Bytes → Result Bytes × h.Files
  local_path files path = elim (h.stat files path) [
    | some e ↦ (fail (wrapping (codes "bridgerunner: manifest path %s: %w") (path ∷ []) e), files)
    | none ↦ (ok path, files)
  ]

  written : Option Error × h.Files → Result Bytes × h.Files
  written (some e, files) =
      (fail (wrapping (codes "bridgerunner: write manifest to %s: %w") (out_path ∷ []) e), files)
  written (none, files) = (ok out_path, files)

  unfoldable pub hosted_path : h.Files → Result Bytes → Result Bytes × h.Files
  unfolding written
  hosted_path files (fail e) =
      (fail (wrapping (codes "bridgerunner: decode %s: %w") (env_manifest_b64 ∷ []) e), files)
  hosted_path files (ok manifest) = written (h.write_file files out_path manifest)

  -- The switch, on the two variables.
  unfoldable pub resolve : h.Files → Bytes → Bytes → Result Bytes × h.Files
  resolve files b64 path =
      if not (is_empty b64) && not (is_empty path)
      then (fail both_set, files)
      else if is_empty b64 && is_empty path
      then (fail missing, files)
      else if not (is_empty path)
      then local_path files path
      else hosted_path files (decode_base64 b64)

  unfoldable pub manifest_path : (Bytes → Bytes) → h.Files → Result Bytes × h.Files
  manifest_path getenv files = resolve files (getenv env_manifest_b64) (getenv env_manifest_path)
