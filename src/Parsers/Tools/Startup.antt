-- ===== src/Parsers/Tools/Startup.antt =====
-- The `init` functions of the eight parsers: what the tables hold when cmd/gibson-runner begins.
use gibson_tool_runner.Base.{
  [], ◌∷◌, some, ◌≡◌, refl, sym, ◌∙◌, subst, arith, index, is_empty, map, ◌==◌, mem,
}
use gibson_tool_runner.Registry.{
  Registry, done, register, register_args_policy, assign, lookup, lookup_args_policy,
}
use gibson_tool_runner.Registry.Tables.{IsConsistent}
use gibson_tool_runner.Parsers.Tools.{
  Tool, amass, dnsx, httpx, masscan, naabu, nmap, nuclei, subfinder, Decoders, parser_of, name_of,
  policy_of, start_up, imported,
}

-- Each tool's name gives its parser and its own policy.
pub record IsReady (d : Decoders) (r : Registry) : Type 0 where
  pub finds : (t : Tool) → lookup r (name_of t) ≡ some (parser_of d t)
  pub filters : (t : Tool) → lookup_args_policy r.policies (name_of t) ≡ some (policy_of t)
  pub lists : r.registry ≡ map (parser_of d) imported
  pub consistent : IsConsistent r

-- No `init` function panics, whatever the decoders are, and behind them the name of each of the eight
-- tools gives that tool's parser and that tool's policy, in tables that are consistent and list these
-- parsers in the order of the imports.
pub start_up-IsReady : (d : Decoders) → (r : Registry) × (start_up d ≡ done r) × IsReady d r
unfolding start_up register register_args_policy assign index is_empty ◌==◌ lookup
    lookup_args_policy mem
start_up-IsReady d = (
  tables,
  refl,
  record {
    finds = by_parser;
    filters = by_policy;
    lists = refl;
    consistent = record {
      in_step = refl;
      distinct = (refl, (refl, (refl, (refl, (refl, (refl, (refl, (refl, tt))))))));
      no_empty = refl;
    };
  },
)
  where
    tables : Registry
    tables = record {
      parsers =
          (name_of amass, parser_of d amass)
          ∷ (name_of dnsx, parser_of d dnsx)
          ∷ (name_of httpx, parser_of d httpx)
          ∷ (name_of masscan, parser_of d masscan)
          ∷ (name_of naabu, parser_of d naabu)
          ∷ (name_of nmap, parser_of d nmap)
          ∷ (name_of nuclei, parser_of d nuclei)
          ∷ (name_of subfinder, parser_of d subfinder)
          ∷ [];
      registry =
          parser_of d amass
          ∷ parser_of d dnsx
          ∷ parser_of d httpx
          ∷ parser_of d masscan
          ∷ parser_of d naabu
          ∷ parser_of d nmap
          ∷ parser_of d nuclei
          ∷ parser_of d subfinder
          ∷ [];
      policies =
          (name_of amass, policy_of amass)
          ∷ (name_of dnsx, policy_of dnsx)
          ∷ (name_of httpx, policy_of httpx)
          ∷ (name_of masscan, policy_of masscan)
          ∷ (name_of naabu, policy_of naabu)
          ∷ (name_of nmap, policy_of nmap)
          ∷ (name_of nuclei, policy_of nuclei)
          ∷ (name_of subfinder, policy_of subfinder)
          ∷ [];
    }

    by_parser : (t : Tool) → lookup tables (name_of t) ≡ some (parser_of d t)
    by_parser amass = refl
    by_parser dnsx = refl
    by_parser httpx = refl
    by_parser masscan = refl
    by_parser naabu = refl
    by_parser nmap = refl
    by_parser nuclei = refl
    by_parser subfinder = refl

    by_policy : (t : Tool) → lookup_args_policy tables.policies (name_of t) ≡ some (policy_of t)
    by_policy amass = refl
    by_policy dnsx = refl
    by_policy httpx = refl
    by_policy masscan = refl
    by_policy naabu = refl
    by_policy nmap = refl
    by_policy nuclei = refl
    by_policy subfinder = refl

done_inj : (r r' : Registry) → done r ≡ done r' → r ≡ r'
done_inj r r' e = ground arith

-- The same for the tables that the `init` functions leave.
pub IsReady-done : (d : Decoders) (r : Registry) → start_up d ≡ done r → IsReady d r
IsReady-done d r e =
    let (tables, built, ready) = start_up-IsReady d in
    subst (IsReady d) (done_inj tables r (sym built ∙ e)) ready
