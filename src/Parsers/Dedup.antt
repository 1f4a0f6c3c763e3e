-- ===== src/Parsers/Dedup.antt =====
-- Deduplication by a key, as the maps `hostsByIP`, `seenHosts` and `seenSubs` of parsers/*/*.go do it,
-- described with no map: the records whose key comes for the first time.
use gibson_tool_runner.Base.{
  Bytes, codes, true, false, List, [], ◌∷◌, ◌++◌, none, some, ◌≡◌, refl, arith, ==_iff, mem, index,
  if◌then◌else◌,
}
use gibson_tool_runner.Registry.{assign}

-- The keys seen with one more record.
unfoldable pub see : Bytes → List Bytes → List Bytes
see key seen = if mem key seen then seen else seen ++ (key ∷ [])

unfoldable pub firsts {ℓ} : {R : Type ℓ} → (R → Bytes) → List Bytes → List R → List R
firsts key seen [] = []
firsts key seen (r ∷ rs) =
    let rest = firsts key (see (key r) seen) rs in if mem (key r) seen then rest else r ∷ rest

-- The node id of a host.
unfoldable pub host_id : Bytes → Bytes
host_id ip = codes "host:" ++ ip

-- The map from addresses to host ids behind these addresses.
unfoldable pub host_table : List Bytes → List (Bytes × Bytes)
host_table [] = []
host_table (ip ∷ seen) = (ip, host_id ip) ∷ host_table seen

pub index-host_table :
    (ip : Bytes) (seen : List Bytes)
    → index ip (host_table seen) ≡ (if mem ip seen then some (host_id ip) else none)
unfolding index host_table mem
index-host_table ip [] = refl
index-host_table ip (k ∷ seen) = ground (arith, ==_iff ip k, ==_iff k ip, index-host_table ip seen)

pub assign-host_table :
    (ip : Bytes) (seen : List Bytes)
    → mem ip seen ≡ false
    → assign ip (host_id ip) (host_table seen) ≡ host_table (seen ++ (ip ∷ []))
unfolding assign host_table mem
assign-host_table ip [] h = refl
assign-host_table ip (k ∷ seen) h =
    ground (arith, ==_iff ip k, ==_iff k ip, assign-host_table ip seen)

module _ {ℓ} {R : Type ℓ} (key : R → Bytes) (seen : List Bytes) (r : R) (rs : List R) where
  pub firsts_old : mem (key r) seen ≡ true → firsts key seen (r ∷ rs) ≡ firsts key seen rs
  unfolding firsts see
  firsts_old h = rw h

  pub firsts_new :
      mem (key r) seen ≡ false → firsts key seen (r ∷ rs) ≡ r ∷ firsts key (seen ++ (key r ∷ [])) rs
  unfolding firsts see
  firsts_new h = rw h

-- The keys seen behind a list of records.
abbrev pub see_all {ℓ} : {R : Type ℓ} → (R → Bytes) → List Bytes → List R → List Bytes
see_all key seen [] = seen
see_all key seen (r ∷ rs) = see_all key (see (key r) seen) rs

pub firsts-append {ℓ} :
    {R : Type ℓ} (key : R → Bytes) (seen : List Bytes) (rs rs' : List R)
    → firsts key seen (rs ++ rs') ≡ firsts key seen rs ++ firsts key (see_all key seen rs) rs'
unfolding firsts
firsts-append key seen [] rs' = refl
firsts-append key seen (r ∷ rs) rs' = ground (arith, firsts-append key (see (key r) seen) rs rs')

pub see_all-append {ℓ} :
    {R : Type ℓ} (key : R → Bytes) (seen : List Bytes) (rs rs' : List R)
    → see_all key seen (rs ++ rs') ≡ see_all key (see_all key seen rs) rs'
see_all-append key seen [] rs' = refl
see_all-append key seen (r ∷ rs) rs' = see_all-append key (see (key r) seen) rs rs'
