-- ===== src/Policy/Paths.antt =====
-- internal/policy/policy.go, `PathUnder`: where a path leads that it accepts.
use gibson_tool_runner.Base.{
  Bytes, codes, true, false, ◌||◌, List, [], ◌∷◌, ◌++◌, none, ◌≡◌, refl, sym, ap, ◌∙◌, subst, arith,
  eqb, is_empty, contains, has_prefix, foldl, All, append_assoc, Bool-cases, inl, inr, ◌==◌,
  if◌then◌else◌,
}
use gibson_tool_runner.Policy.{path_under}

-- The part of a path before its first slash, and the parts behind it.
unfoldable pub first_part : Bytes → Bytes
first_part [] = []
first_part (c ∷ cs) = let rest = first_part cs in if eqb c b'/' then [] else c ∷ rest

unfoldable pub other_parts : Bytes → List Bytes
unfolding first_part
other_parts [] = []
other_parts (c ∷ cs) =
    let rest = other_parts cs in if eqb c b'/' then first_part cs ∷ rest else rest

abbrev pub parts : Bytes → List Bytes
parts path = first_part path ∷ other_parts path

abbrev parent : List Bytes → List Bytes
parent [] = []
parent (d ∷ dirs) = dirs

-- One part of a path, from a directory, which is the list of its names, the innermost first.
unfoldable pub enter : List Bytes → Bytes → List Bytes
enter dirs part =
    if is_empty part || part == codes "."
    then dirs
    else if part == codes ".."
    then parent dirs
    else part ∷ dirs

-- Where a path leads that starts at the root.
abbrev pub leads_to : Bytes → List Bytes
leads_to path = foldl enter [] (parts path)

first_part-slash : (a b : Bytes) → first_part (a ++ (b'/' ∷ b)) ≡ first_part a
unfolding first_part
first_part-slash [] b = refl
first_part-slash (c ∷ a) b = ground (arith, first_part-slash a b)

other_parts-slash : (a b : Bytes) → other_parts (a ++ (b'/' ∷ b)) ≡ other_parts a ++ parts b
unfolding other_parts first_part
other_parts-slash [] b = refl
other_parts-slash (c ∷ a) b = ground (arith, first_part-slash a b, other_parts-slash a b)

contains-append :
    (a b : Bytes) → contains (a ++ b) (codes "..") ≡ false → contains b (codes "..") ≡ false
unfolding contains has_prefix
contains-append [] b h = h
contains-append (c ∷ a) b h = contains-append a b (ground arith)

first_part-stays :
    (path : Bytes) → contains path (codes "..") ≡ false → (first_part path == codes "..") ≡ false
unfolding contains has_prefix first_part ◌==◌
first_part-stays [] h = refl
first_part-stays (c ∷ []) h = ground arith
first_part-stays (c ∷ d ∷ path) h = ground arith

NoUp : List Bytes → Type 0
NoUp = All (λ part. (part == codes "..") ≡ false)

other_parts-NoUp : (path : Bytes) → contains path (codes "..") ≡ false → NoUp (other_parts path)
unfolding NoUp contains has_prefix other_parts
other_parts-NoUp [] h = tt
other_parts-NoUp (c ∷ path) h =
    let later : contains path (codes "..") ≡ false = ground arith in
    ground (arith, first_part-stays path later, other_parts-NoUp path later)

-- A walk with no step up stays below where it starts.
foldl-NoUp :
    (ps : List Bytes) (dirs : List Bytes)
    → NoUp ps
    → (more : List Bytes) × (foldl enter dirs ps ≡ more ++ dirs)
unfolding NoUp enter
foldl-NoUp [] dirs h = ([], refl)
foldl-NoUp (p ∷ ps) dirs h = elim (Bool-cases (is_empty p || p == codes ".")) [
  | inl stay ↦ rw (stay, enter) (foldl-NoUp ps dirs h.1)
  | inr go ↦
      let (more, e) = foldl-NoUp ps (p ∷ dirs) h.1 in
      (more ++ (p ∷ []), rw (go, h.0, enter) (e ∙ sym (append_assoc more (p ∷ []) dirs)))
]

foldl-append :
    (xs ys : List Bytes) (dirs : List Bytes)
    → foldl enter dirs (xs ++ ys) ≡ foldl enter (foldl enter dirs xs) ys
foldl-append [] ys dirs = refl
foldl-append (x ∷ xs) ys dirs = foldl-append xs ys (enter dirs x)

has_prefix-inv :
    (value prefix : Bytes)
    → has_prefix value prefix ≡ true
    → (rest : Bytes) × (value ≡ prefix ++ rest)
unfolding has_prefix
has_prefix-inv value [] h = (value, refl)
has_prefix-inv [] (p ∷ prefix) h = absurd (ground arith)
has_prefix-inv (c ∷ value) (p ∷ prefix) h =
    let (rest, e) = has_prefix-inv value prefix (ground arith) in (rest, ground arith)

-- A value that `PathUnder` accepts for a prefix that ends in a slash leads into the directory of the
-- prefix: from the root it leads to the directory's own names, with names behind them or none.
pub path_under-leads_to :
    (dir value : Bytes)
    → path_under (dir ++ (b'/' ∷ [])) value ≡ none
    → (more : List Bytes) × (leads_to value ≡ more ++ leads_to dir)
unfolding path_under
path_under-leads_to dir value h =
    let (rest, e) = has_prefix-inv value (dir ++ (b'/' ∷ [])) (ground arith) in
    let split : value ≡ dir ++ (b'/' ∷ rest) = e ∙ append_assoc dir (b'/' ∷ []) rest in
    let clean : contains rest (codes "..") ≡ false =
      contains-append (dir ++ (b'/' ∷ [])) rest
        (subst (λ v. contains v (codes "..") ≡ false) e (ground arith)) in
    let (more, below) =
      foldl-NoUp (parts rest) (leads_to dir)
        (unfold NoUp in (first_part-stays rest clean, other_parts-NoUp rest clean)) in
    (
      more,
      ap leads_to split
          ∙ rw (first_part-slash dir rest, other_parts-slash dir rest)
              (foldl-append (parts dir) (parts rest) [])
          ∙ below,
    )
