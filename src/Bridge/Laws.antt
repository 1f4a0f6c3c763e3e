-- ===== src/Bridge/Laws.antt =====
-- internal/bridgerunner/bridgerunner.go, `ManifestPath`: where a path comes from.
use gibson_tool_runner.Base.{
  Bytes, [], Option, none, some, ◌≡◌, refl, arith, is_empty, false, ◌∷◌, Error, Option-cases, inl,
  inr, sym,
}
use gibson_tool_runner.Bridge.{
  decode_base64, Result, ok, fail, Host, env_manifest_b64, env_manifest_path, out_path, written,
  resolve, local_path, hosted_path, manifest_path,
}

module _ (h : Host) (write_dir : Bytes) (files : h.Files) where
  -- How a path is resolved from the inline variable and the path variable. Either the path variable
  -- alone is set and not empty, the file exists, and nothing is written. Or the inline variable alone is set, it
  -- decodes, and the decoded manifest is written to the path that is returned.
  pub data Resolved (b64 given path : Bytes) (after : h.Files) : Type 0 where
    local :
        b64 ≡ []
        → is_empty given ≡ false
        → given ≡ path
        → h.stat files path ≡ none
        → after ≡ files
        → Resolved b64 given path after
    hosted :
        (manifest : Bytes)
        → given ≡ []
        → is_empty b64 ≡ false
        → decode_base64 b64 ≡ ok manifest
        → path ≡ out_path h write_dir
        → h.write_file files path manifest ≡ (none, after)
        → Resolved b64 given path after

  -- Why no path is resolved: both variables are set, or neither, or the file of the path variable is
  -- not there, or the inline manifest does not decode or cannot be written.
  pub data Unresolved (b64 given : Bytes) : Type 0 where
    both : is_empty b64 ≡ false → is_empty given ≡ false → Unresolved b64 given
    neither : b64 ≡ [] → given ≡ [] → Unresolved b64 given
    no_file : (e : Error) → b64 ≡ [] → h.stat files given ≡ some e → Unresolved b64 given
    no_base64 : (e : Error) → given ≡ [] → decode_base64 b64 ≡ fail e → Unresolved b64 given
    no_write :
        (manifest : Bytes) (e : Error) (after : h.Files)
        → given ≡ []
        → decode_base64 b64 ≡ ok manifest
        → h.write_file files (out_path h write_dir) manifest ≡ (some e, after)
        → Unresolved b64 given

  local_path-Resolved :
      (given path : Bytes)
      → is_empty given ≡ false
      → (local_path h write_dir files given).0 ≡ ok path
      → Resolved [] given path (local_path h write_dir files given).1
  unfolding local_path
  local_path-Resolved given path set e = elim (Option-cases (h.stat files given)) [
    | inl there ↦ local refl set (ground arith) (ground arith) (ground arith)
    | inr (err, gone) ↦ absurd (ground arith)
  ]

  hosted_path-Resolved :
      (b64 path : Bytes) (decoded : Result Bytes)
      → is_empty b64 ≡ false
      → decode_base64 b64 ≡ decoded
      → (hosted_path h write_dir files decoded).0 ≡ ok path
      → Resolved b64 [] path (hosted_path h write_dir files decoded).1
  unfolding hosted_path
  hosted_path-Resolved b64 path (fail err) set d e = cc
  hosted_path-Resolved b64 path (ok manifest) set d e =
      by_write (h.write_file files (out_path h write_dir) manifest) refl e
    where
      by_write :
          (w : Option Error × h.Files)
          → h.write_file files (out_path h write_dir) manifest ≡ w
          → (written h write_dir w).0 ≡ ok path
          → Resolved b64 [] path (written h write_dir w).1
      by_write (some err, after) f g = cc
      by_write (none, after) f g =
          let same : out_path h write_dir ≡ path = ground arith in
          hosted manifest refl set d (sym same) (rw (← same) f)

  resolve-Resolved :
      (b64 given path : Bytes)
      → (resolve h write_dir files b64 given).0 ≡ ok path
      → Resolved b64 given path (resolve h write_dir files b64 given).1
  unfolding resolve is_empty
  resolve-Resolved [] [] path e = cc
  resolve-Resolved [] (c ∷ given) path e = local_path-Resolved (c ∷ given) path refl e
  resolve-Resolved (b ∷ b64) [] path e =
      hosted_path-Resolved (b ∷ b64) path (decode_base64 (b ∷ b64)) refl refl e
  resolve-Resolved (b ∷ b64) (c ∷ given) path e = cc

  -- Whenever `ManifestPath` returns a path, it was resolved in one of these two ways from the
  -- variables: exactly one of them counts, and a file is written only for an inline manifest.
  pub manifest_path-Resolved :
      (getenv : Bytes → Bytes) (path : Bytes)
      → (manifest_path h write_dir getenv files).0 ≡ ok path
      → Resolved
          (getenv env_manifest_b64)
          (getenv env_manifest_path)
          path
          (manifest_path h write_dir getenv files).1
  unfolding manifest_path
  manifest_path-Resolved getenv path e = resolve-Resolved _ _ path e

  local_path-Unresolved :
      (given : Bytes) (e : Error)
      → (local_path h write_dir files given).0 ≡ fail e
      → Unresolved [] given
  unfolding local_path
  local_path-Unresolved given e f = elim (Option-cases (h.stat files given)) [
    | inl there ↦ absurd (ground arith)
    | inr (err, gone) ↦ no_file err refl gone
  ]

  hosted_path-Unresolved :
      (b64 : Bytes) (e : Error) (decoded : Result Bytes)
      → decode_base64 b64 ≡ decoded
      → (hosted_path h write_dir files decoded).0 ≡ fail e
      → Unresolved b64 []
  unfolding hosted_path
  hosted_path-Unresolved b64 e (fail err) d f = no_base64 err refl d
  hosted_path-Unresolved b64 e (ok manifest) d f =
      by_write (h.write_file files (out_path h write_dir) manifest) refl f
    where
      by_write :
          (w : Option Error × h.Files)
          → h.write_file files (out_path h write_dir) manifest ≡ w
          → (written h write_dir w).0 ≡ fail e
          → Unresolved b64 []
      by_write (some err, after) g k = no_write manifest err after refl d g
      by_write (none, after) g k = absurd (ground arith)

  resolve-Unresolved :
      (b64 given : Bytes) (e : Error)
      → (resolve h write_dir files b64 given).0 ≡ fail e
      → Unresolved b64 given
  unfolding resolve is_empty
  resolve-Unresolved [] [] e f = neither refl refl
  resolve-Unresolved [] (c ∷ given) e f = local_path-Unresolved (c ∷ given) e f
  resolve-Unresolved (b ∷ b64) [] e f =
      hosted_path-Unresolved (b ∷ b64) e (decode_base64 (b ∷ b64)) refl f
  resolve-Unresolved (b ∷ b64) (c ∷ given) e f = both refl refl

  -- Whenever `ManifestPath` returns an error, it has one of these reasons.
  pub manifest_path-Unresolved :
      (getenv : Bytes → Bytes) (e : Error)
      → (manifest_path h write_dir getenv files).0 ≡ fail e
      → Unresolved (getenv env_manifest_b64) (getenv env_manifest_path)
  unfolding manifest_path
  manifest_path-Unresolved getenv e f = resolve-Unresolved _ _ e f
