-- ===== src/Registry/Tables.antt =====
-- internal/registry/registry.go, `Register` and `Lookup`: the map and the list of parsers.
use gibson_tool_runner.Base.{
  Bytes, false, List, [], ◌∷◌, ◌++◌, none, some, ◌≡◌, refl, sym, ap, ◌∙◌, ◌↔◌, subst, arith,
  is_empty, index, ◌==◌, ==_iff, map, mem, ◌||◌, if◌then◌else◌,
}
use gibson_tool_runner.Registry.{Parser, Registry, done, assign, register, lookup}

module _ {ℓ} {V : Type ℓ} where
  pub index-assign :
      (j k : Bytes) (v : V) (m : List (Bytes × V))
      → index j (assign k v m) ≡ (if k == j then some v else index j m)
  unfolding index assign
  index-assign j k v [] = refl
  index-assign j k v ((i, w) ∷ m) =
      ground (arith, ==_iff k j, ==_iff i k, ==_iff i j, index-assign j k v m)

  assign_new :
      (k : Bytes) (v : V) (m : List (Bytes × V))
      → index k m ≡ none
      → assign k v m ≡ m ++ ((k, v) ∷ [])
  unfolding index assign
  assign_new k v [] h = refl
  assign_new k v ((i, w) ∷ m) h = ground (arith, assign_new k v m)

abbrev entry : Parser → Bytes × Parser
entry p = (p.describe.name, p)

abbrev name : Parser → Bytes
name p = p.describe.name

-- No name stands twice.
abbrev pub Distinct : List Bytes → Type 0
Distinct [] = Unit
Distinct (x ∷ xs) = (mem x xs ≡ false) × Distinct xs

-- The map holds exactly the parsers of the list, each under its own name, and the names are distinct
-- and not empty.
pub record IsConsistent (r : Registry) : Type 0 where
  pub in_step : r.parsers ≡ map entry r.registry
  pub distinct : Distinct (map name r.registry)
  pub no_empty : mem [] (map name r.registry) ≡ false

mem-concat : (x y : Bytes) (xs : List Bytes) → mem x (xs ++ (y ∷ [])) ≡ (mem x xs || x == y)
unfolding mem
mem-concat x y [] = ground arith
mem-concat x y (z ∷ xs) = ground (arith, mem-concat x y xs)

Distinct-concat :
    (y : Bytes) (xs : List Bytes) → Distinct xs → mem y xs ≡ false → Distinct (xs ++ (y ∷ []))
unfolding mem
Distinct-concat y [] d h = (refl, tt)
Distinct-concat y (x ∷ xs) d h = (
  ground (arith, mem-concat x y xs, ==_iff x y, ==_iff y x),
  Distinct-concat y xs d.1 (ground arith),
)

mem-names :
    (k : Bytes) (ps : List Parser) → index k (map entry ps) ≡ none → mem k (map name ps) ≡ false
unfolding index mem
mem-names k [] h = refl
mem-names k (p ∷ ps) h =
    ground (arith, ==_iff k p.describe.name, ==_iff p.describe.name k, mem-names k ps)

map-concat {ℓ κ} :
    {A : Type ℓ} {B : Type κ} (f : A → B) (xs : List A) (x : A)
    → map f (xs ++ (x ∷ [])) ≡ map f xs ++ (f x ∷ [])
map-concat f [] x = refl
map-concat f (y ∷ xs) x = ap (◌∷◌ (f y)) (map-concat f xs x)

-- What a registration that does not panic needs, and what it leaves.
register-inv :
    (r r' : Registry) (p : Parser)
    → register r p ≡ done r'
    → (is_empty p.describe.name ≡ false)
      × (index p.describe.name r.parsers ≡ none)
      × (r' ≡ record r {
        parsers = assign p.describe.name p r.parsers;
        registry = r.registry ++ (p ∷ []);
      })
unfolding register
register-inv r r' p h = ground arith

-- The tables with one more parser.
abbrev grown : Registry → Parser → Registry
grown r p = record r {
  parsers = assign p.describe.name p r.parsers;
  registry = r.registry ++ (p ∷ []);
}

empty-ne : (n : Bytes) → is_empty n ≡ false → ([] == n) ≡ false
unfolding is_empty ◌==◌
empty-ne [] h = cc
empty-ne (c ∷ cs) h = refl

grown-IsConsistent :
    (r : Registry) (p : Parser)
    → IsConsistent r
    → is_empty p.describe.name ≡ false
    → index p.describe.name r.parsers ≡ none
    → IsConsistent (grown r p)
grown-IsConsistent r p c ne free = record {
  in_step =
      assign_new p.describe.name p r.parsers free
      ∙ rw c.in_step (sym (map-concat entry r.registry p));
  distinct = rw (map-concat name r.registry p) (
      Distinct-concat p.describe.name (map name r.registry) c.distinct
        (mem-names p.describe.name r.registry (rw c.in_step at free)));
  no_empty =
      rw (map-concat name r.registry p, mem-concat, c.no_empty) (empty-ne p.describe.name ne);
}

-- A registration that does not panic keeps the tables consistent: the map still holds exactly the
-- listed parsers, each under its own name, and the names are distinct and not empty.
pub register-IsConsistent :
    (r r' : Registry) (p : Parser) → IsConsistent r → register r p ≡ done r' → IsConsistent r'
register-IsConsistent r r' p c h =
    let (ne, free, e) = register-inv r r' p h in
    subst IsConsistent (sym e) (grown-IsConsistent r p c ne free)

-- A registration goes through if and only if the name is not empty and its lookup fails; otherwise
-- it panics.
pub register_done_iff :
    (r : Registry) (p : Parser)
    → ((r' : Registry) × (register r p ≡ done r'))
      ↔ ((is_empty p.describe.name ≡ false) × (lookup r p.describe.name ≡ none))
unfolding lookup
register_done_iff r p = (
  λ (r', h). let (ne, free, e) = register-inv r r' p h in (ne, free),
  λ (ne, free). (grown r p, unfold register in ground arith),
)

-- Behind a registration its own name gives the parser, and every other name what it gave before.
pub lookup-register :
    (r r' : Registry) (p : Parser) (n : Bytes)
    → register r p ≡ done r'
    → lookup r' n ≡ (if p.describe.name == n then some p else lookup r n)
unfolding lookup
lookup-register r r' p n h =
    let (ne, free, e) = register-inv r r' p h in rw e (index-assign n p.describe.name p r.parsers)
