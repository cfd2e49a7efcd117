-- ===== src/Tests/Registries.antt =====
-- Runs of the registry of instances, with texts for the instances.
use pkc_js.Base.{◌≡◌, refl, String, none, some, [], ◌∷◌, List, ok, str_eq, eq_iff}
use pkc_js.Registry.{
  empty, find_by_alias, alias_names, add_aliases, delete_property, set_property, remove_aliases,
}
use pkc_js.Registry.Owners.{no_owners, Describes}
use pkc_js.Registry.Operations.{
  Operation, track_value, add_names, remove_names, delete_name, set_name, run, move_all,
}
use pkc_js.Registry.History.{run-Describes, find_by_alias-run}

-- The second instance takes the first name of the first, which loses its other name later.
abbrev calls : List (Operation String)
calls =
    track_value "one" (some ("a" ∷ "b" ∷ []))
    ∷ track_value "two" none
    ∷ add_names "two" ("" ∷ "a" ∷ "c" ∷ [])
    ∷ remove_names "one" ("a" ∷ "b" ∷ [])
    ∷ set_name "d" "three"
    ∷ delete_name "d"
    ∷ add_names "three" ("e" ∷ [])
    ∷ []

calls_run : alias_names str_eq (run str_eq calls (empty String)) ≡ "a" ∷ "c" ∷ []
unfolding run alias_names add_aliases delete_property set_property remove_aliases
calls_run = refl

run-Describes_example :
    Describes str_eq (move_all str_eq calls (no_owners String)) (run str_eq calls (empty String))
run-Describes_example = run-Describes str_eq eq_iff calls

find_by_alias-run_example :
    find_by_alias str_eq "a" (run str_eq calls (empty String)) ≡ ok (some "two")
find_by_alias-run_example = find_by_alias-run str_eq eq_iff calls "a"
