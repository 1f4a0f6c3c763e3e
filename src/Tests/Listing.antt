-- ===== src/Tests/Listing.antt =====
-- The catalog of internal/registry/registry.go and `--list-tools` at concrete inputs.
use mathlib.Core.List.Perm
use gibson_tool_runner.Base.{
  Bytes, Bool, true, List, [], ◌∷◌, Option, none, Error, ◌≡◌, refl, sym, ap, subst, map, mem, ◌++◌,
}
use gibson_tool_runner.Registry.{Registry, CatalogEntry, by_name, string_lt, catalog}
use gibson_tool_runner.Registry.Tables.{IsConsistent}
use gibson_tool_runner.Registry.Catalog.{IsSortOf, Ascending-Pairwise, entries, catalog_unique}
use gibson_tool_runner.Modes.{listed, run_main}
use gibson_tool_runner.Modes.Laws.{descriptions, descriptions-IsSortOf, run_main_list}
use gibson_tool_runner.Parsers.Tools.Startup.{start_up-IsReady}
use gibson_tool_runner.Tests.Registries.{naabu_parser, subfinder_parser, with_both}
use gibson_tool_runner.Tests.Tools.{runner_world, plain_codec}
use gibson_tool_runner.Tests.Catalogues.{decoders}
use gibson_tool_runner.Tests.Serving.{quiet_sdk, fresh_globals}

abbrev Sort : Type 0
Sort = (CatalogEntry → CatalogEntry → Bool) → List CatalogEntry → List CatalogEntry

-- A sort for lists that are in order, and one for two entries in the wrong order.
abbrev keep : Sort
keep less es = es

abbrev swap : Sort
swap less (a ∷ b ∷ []) = b ∷ a ∷ []
swap less es = es

abbrev the_other_way : Registry
the_other_way = record with_both { registry = subfinder_parser ∷ naabu_parser ∷ [] }

with_both-IsConsistent : IsConsistent with_both
unfolding mem
with_both-IsConsistent = record { in_step = refl; distinct = (refl, (refl, tt)); no_empty = refl }

keep-IsSortOf : IsSortOf (entries with_both) (keep by_name (entries with_both))
unfolding by_name string_lt
keep-IsSortOf = record {
  permutes = Perm.rfl;
  ordered = Ascending-Pairwise (entries with_both) (refl, tt);
}

swap-IsSortOf : IsSortOf (entries the_other_way) (swap by_name (entries the_other_way))
unfolding by_name string_lt
swap-IsSortOf = record {
  permutes = Perm.swap _ _ _;
  ordered = Ascending-Pairwise (entries with_both) (refl, tt);
}

catalog_unique_example : catalog keep with_both ≡ catalog swap the_other_way
catalog_unique_example =
    catalog_unique keep swap with_both the_other_way with_both-IsConsistent (Perm.swap _ _ _)
      keep-IsSortOf swap-IsSortOf

abbrev names : List CatalogEntry → Bytes × Option Error
names [] = ([], none)
names (e ∷ es) = (e.name ++ (b'\n' ∷ (names es).0), (names es).1)

abbrev tables : Registry
tables = (start_up-IsReady decoders).0

tables-IsSortOf : IsSortOf (entries tables) (keep by_name (entries tables))
tables-IsSortOf =
    subst (λ es. IsSortOf es es)
      (sym (ap (map (λ p. p.describe)) (start_up-IsReady decoders).2.lists))
      (descriptions-IsSortOf decoders)

run_main_list_example :
    run_main quiet_sdk plain_codec names keep tables runner_world fresh_globals
      (record { list_tools = true; serve = true })
    ≡ listed (record { output = (names (descriptions decoders)).0; code = 0 })
run_main_list_example =
    run_main_list quiet_sdk plain_codec decoders tables runner_world fresh_globals true names keep
      (start_up-IsReady decoders).1 tables-IsSortOf
