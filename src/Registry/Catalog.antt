-- ===== src/Registry/Catalog.antt =====
-- internal/registry/registry.go, `Catalog`: the order of the entries.
use mathlib.Core.Logic.Or
use mathlib.Core.Path.{ap₂}
use mathlib.Core.List.{Mem, Perm, Pairwise, mem-cons, not-mem-nil, mem-cons_self}
use mathlib.Core.List.Perm
use mathlib.Core.List.Pairwise
use gibson_tool_runner.Base.{
  Bytes, Bool, true, false, List, [], ◌∷◌, ◌≡◌, refl, sym, ap, ◌∙◌, subst, inr, arith, map, mem,
  ==_iff,
}
use gibson_tool_runner.Registry.{Parser, Registry, CatalogEntry, string_lt, by_name, catalog}
use gibson_tool_runner.Registry.Tables.{Distinct, IsConsistent}

string_lt_antisymm : (a b : Bytes) → string_lt a b ≡ false → string_lt b a ≡ false → a ≡ b
unfolding string_lt
string_lt_antisymm [] [] h k = refl
string_lt_antisymm [] (y ∷ b) h k = cc
string_lt_antisymm (x ∷ a) [] h k = cc
string_lt_antisymm (x ∷ a) (y ∷ b) h k = ground (arith, string_lt_antisymm a b)

string_lt_irrefl : (a : Bytes) → string_lt a a ≡ false
unfolding string_lt
string_lt_irrefl [] = refl
string_lt_irrefl (x ∷ a) = ground (arith, string_lt_irrefl a)

string_lt_trans :
    (a b c : Bytes) → string_lt b a ≡ false → string_lt c b ≡ false → string_lt c a ≡ false
unfolding string_lt
string_lt_trans [] b c h k = refl
string_lt_trans (x ∷ a) [] c h k = cc
string_lt_trans (x ∷ a) (y ∷ b) [] h k = cc
string_lt_trans (x ∷ a) (y ∷ b) (z ∷ c) h k = ground (arith, string_lt_trans a b c)

-- What the documentation of `sort.Slice` says of a result, for the order by name.
pub record IsSortOf (es sorted : List CatalogEntry) : Type 0 where
  pub permutes : Perm sorted es
  pub ordered : Pairwise (λ a b. by_name b a ≡ false) sorted

abbrev name : CatalogEntry → Bytes
name e = e.name

entry_set : IsSet CatalogEntry
entry_set = hlevel

bool_set : IsSet Bool
bool_set = hlevel

Mem-name : (a : CatalogEntry) (es : List CatalogEntry) → Mem a es → mem a.name (map name es) ≡ true
unfolding mem
Mem-name a [] m = absurd (not-mem-nil m)
Mem-name a (e ∷ es) m =
    Or.elim (bool_set _ _) (mem-cons.0 m)
      (λ same. ground (arith, ==_iff a.name e.name, ap name same))
      (λ later. ground (arith, Mem-name a es later))

-- With distinct names an entry is determined by its name.
name-injective :
    (es : List CatalogEntry) (a b : CatalogEntry)
    → Distinct (map name es)
    → Mem a es
    → Mem b es
    → a.name ≡ b.name
    → a ≡ b
name-injective [] a b d ma mb e = absurd (not-mem-nil ma)
name-injective (x ∷ es) a b d ma mb e =
    Or.elim (entry_set a b) (mem-cons.0 ma)
      (λ same.
        Or.elim (entry_set a b) (mem-cons.0 mb) (λ same'. same ∙ sym same')
          (λ later. absurd (clash x b d.0 later (ap name (sym same) ∙ e))))
      (λ later.
        Or.elim (entry_set a b) (mem-cons.0 mb)
          (λ same'. absurd (clash x a d.0 later (ap name (sym same') ∙ sym e)))
          (λ later'. name-injective es a b d.1 later later' e))
  where
    clash : (x b : CatalogEntry) → mem x.name (map name es) ≡ false → Mem b es → x.name ≡ b.name → ⊥
    clash x b fresh m e = let h = Mem-name b es m in cc

abbrev pub Le : CatalogEntry → CatalogEntry → Type 0
Le a b = by_name b a ≡ false

head_le :
    (a b : CatalogEntry) (l : List CatalogEntry) → Pairwise Le (a ∷ l) → Mem b (a ∷ l) → Le a b
unfolding by_name
head_le a b l (Pairwise.cons below s) m =
    Or.elim (bool_set _ _) (mem-cons.0 m)
      (λ same. ap (λ n. string_lt n a.name) (ap name same) ∙ string_lt_irrefl a.name) (below b)

-- A list that is ascending by a name that tells its entries apart is the only such order of them.
ascending_unique :
    (l r : List CatalogEntry)
    → ((a b : CatalogEntry) → Mem a l → Mem b l → a.name ≡ b.name → a ≡ b)
    → Pairwise Le l
    → Pairwise Le r
    → Perm l r
    → l ≡ r
unfolding by_name
ascending_unique [] r inj sl sr p = Perm.nil-eq p
ascending_unique (a ∷ l) [] inj sl sr p = Perm.eq-nil p
ascending_unique (a ∷ l) (b ∷ r) inj sl sr p =
    let b_in = (Perm.mem_iff p).1 mem-cons_self in
    let a_in = (Perm.mem_iff p).0 mem-cons_self in
    let names = string_lt_antisymm a.name b.name (head_le b a r sr a_in) (head_le a b l sl b_in) in
    let heads = inj a b mem-cons_self b_in names in
    let tails = Perm.cons_inv (Perm.trans p (Perm.symm (Perm.cons' heads Perm.rfl))) in
    ap₂ ◌∷◌ heads (
      ascending_unique l r (λ x y mx my. inj x y (mem-cons.1 ∣ inr mx ∣₁) (mem-cons.1 ∣ inr my ∣₁))
        (Pairwise.of_cons sl) (Pairwise.of_cons sr) tails)

-- Each entry is not above the next one.
abbrev pub Ascending : List CatalogEntry → Type 0
Ascending [] = Unit
Ascending (a ∷ []) = Unit
Ascending (a ∷ b ∷ es) = Le a b × Ascending (b ∷ es)

Ascending-below :
    (es : List CatalogEntry) (a b : CatalogEntry) → Ascending (a ∷ es) → Mem b es → Le a b
unfolding by_name
Ascending-below [] a b h m = absurd (not-mem-nil m)
Ascending-below (x ∷ es) a b h m =
    Or.elim (bool_set _ _) (mem-cons.0 m)
      (λ same. subst (λ (y : CatalogEntry). Le a y) (sym same) h.0)
      (λ later. string_lt_trans a.name x.name b.name h.0 (Ascending-below es x b h.1 later))

pub Ascending-Pairwise :
    (es : List CatalogEntry) → Ascending es → Pairwise (λ a b. by_name b a ≡ false) es
Ascending-Pairwise [] h = Pairwise.nil
Ascending-Pairwise (a ∷ []) h = Pairwise.cons (λ b m. absurd (not-mem-nil m)) Pairwise.nil
Ascending-Pairwise (a ∷ b ∷ es) h =
    Pairwise.cons (λ x m. Ascending-below (b ∷ es) a x h m) (Ascending-Pairwise (b ∷ es) h.1)

map-describe :
    (ps : List Parser)
    → map name (map (λ (p : Parser). p.describe) ps) ≡ map (λ (p : Parser). p.describe.name) ps
map-describe [] = refl
map-describe (p ∷ ps) = ap (◌∷◌ p.describe.name) (map-describe ps)

abbrev pub entries : Registry → List CatalogEntry
entries r = map (λ p. p.describe) r.registry

-- An ascending order of the entries of consistent tables is the only one.
pub IsSortOf-unique :
    (r : Registry) (es sorted sorted' : List CatalogEntry)
    → IsConsistent r
    → Perm (entries r) es
    → IsSortOf (entries r) sorted
    → IsSortOf es sorted'
    → sorted ≡ sorted'
IsSortOf-unique r es sorted sorted' c p s s' =
    let d = subst Distinct (sym (map-describe r.registry)) c.distinct in
    ascending_unique sorted sorted'
      (λ a b ma mb.
        name-injective (entries r) a b d ((Perm.mem_iff s.permutes).0 ma)
          ((Perm.mem_iff s.permutes).0 mb))
      s.ordered s'.ordered (Perm.trans s.permutes (Perm.trans p (Perm.symm s'.permutes)))

-- For consistent tables `Catalog` does not depend on how `sort.Slice` works, which need not be stable,
-- nor on the order of the registrations: two tables of the same entries in any orders give one catalog
-- under any two sorts that do what `sort.Slice` documents.
pub catalog_unique :
    (sort sort' : (CatalogEntry → CatalogEntry → Bool) → List CatalogEntry → List CatalogEntry)
    (r r' : Registry)
    → IsConsistent r
    → Perm (entries r) (entries r')
    → IsSortOf (entries r) (sort by_name (entries r))
    → IsSortOf (entries r') (sort' by_name (entries r'))
    → catalog sort r ≡ catalog sort' r'
unfolding catalog
catalog_unique sort sort' r r' c p s s' = IsSortOf-unique r (entries r') _ _ c p s s'
