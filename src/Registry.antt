-- ===== src/Registry.antt =====
-- src/pkc/tracked-instance-registry.ts: the instances that are in use, found by their aliases. A map
-- from instances to aliases goes with a map from aliases to instances. The children have the proofs.
mod Lookups
pub mod Owners
mod Claims
mod Releases
mod Moves
pub mod Operations
pub mod History
use pkc_js.Base.{
  Bool, true, false, not, ◌||◌, ◌+◌, ℕ, String, Option, none, some, List, [], ◌∷◌, map, length, ltb,
  is_empty, if◌then◌else◌, Result, ok, throw, ◌>>=◌, str_eq, contains, insert, discard, lookup,
  assign, erase, any, is_some,
}

-- `_entries` and `_aliases`
pub record Registry (T : Type 0) : Type 0 where
  pub entries : List (T × List String)
  pub aliases : List (String × List T)

pub data Failure : Type 0 where
  untracked_value : Failure
  ambiguous_alias : (alias_name : String) → Failure
  ambiguous_lookup : Failure

abbrev pub empty : (T : Type 0) → Registry T
empty T = record { entries = []; aliases = [] }

-- The members of the set of a key, if the key has one.
abbrev pub members_of : {A : Type 0} → Option (List A) → List A
members_of none = []
members_of (some xs) = xs

module _ {T : Type 0} (same : T → T → Bool) where
  -- `otherEntry.delete(alias)`, if the instance has an entry.
  unfoldable pub drop_name : T → String → List (T × List String) → List (T × List String)
  drop_name value name entries = elim (lookup same value entries) [
    | none ↦ entries
    | some names ↦ assign same value (discard str_eq name names) entries
  ]

  -- The loop over the holders of an alias, which takes it from all but `value`.
  unfoldable pub revoke :
      T → String → List T → List T × List (T × List String) → List T × List (T × List String)
  unfolding drop_name
  revoke value name [] state = state
  revoke value name (other ∷ others) (holders, entries) =
      let next : List T × List (T × List String) =
        if same other value
        then (holders, entries)
        else (discard same other holders, drop_name other name entries) in
      revoke value name others next

  -- The holders of an alias, and the entries, after `value` took it.
  unfoldable pub claim : T → String → Registry T → Registry T
  unfolding revoke
  claim value name r = elim (lookup str_eq name r.aliases) [
    | none ↦ record r { aliases = assign str_eq name (value ∷ []) r.aliases }
    | some holders ↦
        let left : List T × List (T × List String) =
          revoke value name holders (holders, r.entries) in
        record {
          entries = left.1;
          aliases = assign str_eq name (insert same value left.0) r.aliases;
        }
  ]

  unfoldable pub add_alias : T → String → Registry T → Registry T
  unfolding claim
  add_alias value name r =
      let names : List String = members_of (lookup same value r.entries) in
      if str_eq name "" || contains str_eq name names
      then r
      else claim value name
          (record r { entries = assign same value (insert str_eq name names) r.entries })

  unfoldable pub add_each : T → List String → Registry T → Registry T
  unfolding add_alias
  add_each value [] r = r
  add_each value (name ∷ names) r = add_each value names (add_alias value name r)

  unfoldable pub add_aliases : T → List String → Registry T → Result Failure (Registry T)
  unfolding add_each
  add_aliases value names r =
      if is_some (lookup same value r.entries)
      then ok (add_each value names r)
      else throw untracked_value

  -- `aliases` may be left out.
  unfoldable pub track : T → Option (List String) → Registry T → Result Failure (Registry T)
  unfolding add_aliases
  track value names r =
      let tracked : Registry T =
        if is_some (lookup same value r.entries)
        then r
        else record r { entries = assign same value [] r.entries } in
      elim names [ none ↦ ok tracked | some ns ↦ add_aliases value ns tracked ]

  -- `trackedValues.delete(value)`, and the key with the last value.
  unfoldable pub release : T → String → List (String × List T) → List (String × List T)
  release value name aliases = elim (lookup str_eq name aliases) [
    | none ↦ aliases
    | some holders ↦
        let left : List T = discard same value holders in
        if is_empty left then erase str_eq name aliases else assign str_eq name left aliases
  ]

  unfoldable pub remove_alias : T → String → Registry T → Registry T
  unfolding release
  remove_alias value name r =
      let names : List String = members_of (lookup same value r.entries) in
      if contains str_eq name names
      then record {
        entries = assign same value (discard str_eq name names) r.entries;
        aliases = release value name r.aliases;
      }
      else r

  unfoldable pub remove_each : T → List String → Registry T → Registry T
  unfolding remove_alias
  remove_each value [] r = r
  remove_each value (name ∷ names) r = remove_each value names (remove_alias value name r)

  unfoldable pub remove_aliases : T → List String → Registry T → Registry T
  unfolding remove_each
  remove_aliases value names r =
      if is_some (lookup same value r.entries) then remove_each value names r else r

  unfoldable pub release_each : T → List String → List (String × List T) → List (String × List T)
  unfolding release
  release_each value [] aliases = aliases
  release_each value (name ∷ names) aliases = release_each value names (release value name aliases)

  unfoldable pub untrack : T → Registry T → Registry T
  unfolding release_each
  untrack value r = elim (lookup same value r.entries) [
    | none ↦ r
    | some names ↦ record {
      entries = erase same value r.entries;
      aliases = release_each value names r.aliases;
    }
  ]

  unfoldable pub has : T → Registry T → Bool
  has value r = is_some (lookup same value r.entries)

  -- The one value of a set of holders.
  unfoldable pub sole : String → List T → Result Failure (Option T)
  sole name [] = ok none
  sole name (value ∷ []) = ok (some value)
  sole name (value ∷ another ∷ others) = throw (ambiguous_alias name)

  unfoldable pub find_by_alias : String → Registry T → Result Failure (Option T)
  unfolding sole
  find_by_alias name r = sole name (members_of (lookup str_eq name r.aliases))

  unfoldable pub add_match : Option T → List T → List T
  add_match none matches = matches
  add_match (some value) matches = insert same value matches

  unfoldable pub collect_matches : List String → List T → Registry T → Result Failure (List T)
  unfolding find_by_alias add_match
  collect_matches [] matches r = ok matches
  collect_matches (name ∷ names) matches r =
      find_by_alias name r >>= λ found. collect_matches names (add_match found matches) r

  unfoldable pub sole_match : List T → Result Failure (Option T)
  sole_match [] = ok none
  sole_match (value ∷ []) = ok (some value)
  sole_match (value ∷ another ∷ others) = throw ambiguous_lookup

  unfoldable pub find_by_aliases : List String → Registry T → Result Failure (Option T)
  unfolding collect_matches sole_match
  find_by_aliases names r = collect_matches names [] r >>= sole_match

  -- `delete registry[alias]`, for a name that is no member of the class.
  unfoldable pub delete_property : String → Registry T → Result Failure (Registry T)
  unfolding find_by_alias untrack
  delete_property name r = find_by_alias name r >>= λ found. elim found [
    | none ↦ ok r
    | some value ↦ ok (untrack value r)
  ]

  -- `registry[alias] = value`, for a name that is no member of the class and a value that is an
  -- object.
  unfoldable pub set_property : String → T → Registry T → Result Failure (Registry T)
  unfolding track
  set_property name value r = track value (some (name ∷ [])) r

  -- `alias in registry`, for a name that is no member of the class.
  unfoldable pub has_property : String → Registry T → Result Failure Bool
  unfolding find_by_alias
  has_property name r = find_by_alias name r >>= λ found. ok (is_some found)

  unfoldable pub values : Registry T → List T
  values r = map (λ entry. entry.0) r.entries

  unfoldable pub alias_names : Registry T → List String
  alias_names r = map (λ entry. entry.0) r.aliases

  unfoldable pub size : Registry T → ℕ
  size r = length r.entries
