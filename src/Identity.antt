-- ===== src/Identity.antt =====
-- src/runtime/node/community/local-community/author-identity.ts: does a configured identity refer to
-- the author of a publication? The author's name is resolved at most once for a matcher.
pub mod Laws
use pkc_js.Base.{
  ℕ, zero, suc, String, Bool, true, false, not, ◌&&◌, ◌||◌, Option, none, some, List, [], ◌∷◌,
  str_eq, if◌then◌else◌, truthy,
}
use pkc_js.Messages.{
  Message, err_author_name_has_no_record, err_community_has_no_resolver_for_author_name_tld,
  err_author_name_record_is_not_a_valid_key, err_community_failed_to_resolve_author_name,
}
use pkc_js.Names.{is_string_domain, are_equivalent_names}
use pkc_js.Excludes.{NameFailure, MatchOutcome, matched, unmatched}

-- The codes that the resolution of a name fails with, as far as they are told apart.
pub data ResolveError : Type 0 where
  no_resolver_for_name : ResolveError
  resolved_text_record_to_non_ipns : ResolveError
  other_error : ResolveError

-- `resolveAuthorNameIfNeeded`
pub data Resolved : Type 0 where
  address : String → Resolved
  no_record : Resolved
  failed : ResolveError → Resolved

-- `authorNameResolveFailureReason`; `none` is the error `null`.
unfoldable pub author_name_resolve_failure_reason : Option ResolveError → Message
author_name_resolve_failure_reason none = err_author_name_has_no_record
author_name_resolve_failure_reason (some no_resolver_for_name) =
    err_community_has_no_resolver_for_author_name_tld
author_name_resolve_failure_reason (some resolved_text_record_to_non_ipns) =
    err_author_name_record_is_not_a_valid_key
author_name_resolve_failure_reason (some other_error) = err_community_failed_to_resolve_author_name

-- The closure of `createAuthorIdentityMatcher`: the remembered verdict on the name, and how often
-- the resolver was asked.
pub record Matcher : Type 0 where
  pub name_outcome : Option MatchOutcome
  pub resolves : ℕ

abbrev pub new_matcher : Matcher
new_matcher = record { name_outcome = none; resolves = 0 }

abbrev pub no_match : MatchOutcome
no_match = unmatched none

abbrev pub name_failure : Option ResolveError → MatchOutcome
name_failure e = unmatched (some (record { reason = author_name_resolve_failure_reason e }))

-- `resolve` is the resolver, by the number of its call: its answer may change between calls.
module _ (to_lower_case : String → String) (resolve : ℕ → String → Resolved)
    (signer_address : String) (wire_name : Option String) where
  unfoldable pub verdict_of : Resolved → MatchOutcome
  verdict_of (address a) = if str_eq a signer_address then matched else no_match
  verdict_of no_record = name_failure none
  verdict_of (failed e) = name_failure (some e)

  -- The first call asks the resolver, and the later ones reuse its verdict.
  unfoldable pub ask_once : String → Matcher → MatchOutcome × Matcher
  unfolding verdict_of
  ask_once name m = elim (Matcher.name_outcome m) [
    | some o ↦ (o, m)
    | none ↦ (
      verdict_of (resolve m.resolves name),
      record {
        name_outcome = some (verdict_of (resolve m.resolves name));
        resolves = suc m.resolves;
      },
    )
  ]

  -- `nameResolvesToSigner`
  unfoldable pub name_resolves_to_signer : Matcher → MatchOutcome × Matcher
  unfolding ask_once
  name_resolves_to_signer m = elim wire_name [
    | none ↦ (no_match, m)
    | some name ↦ if is_string_domain name then ask_once name m else (no_match, m)
  ]

  -- `wireName && areEquivalentNames(identity, wireName)`
  unfoldable pub names_author : String → Bool
  names_author identity = elim wire_name [
    | none ↦ false
    | some name ↦ truthy (some name) && are_equivalent_names to_lower_case identity name
  ]

  -- `matchesIdentity`
  unfoldable pub matches_identity : String → Matcher → MatchOutcome × Matcher
  unfolding name_resolves_to_signer names_author
  matches_identity identity m =
      if not (is_string_domain identity)
      then (if str_eq identity signer_address then (matched, m) else (no_match, m))
      else if names_author identity
      then name_resolves_to_signer m
      else (no_match, m)

  unfoldable pub scan_identities : Bool → List String → Matcher → MatchOutcome × Matcher
  scan_identities name_listed [] m =
      if name_listed then name_resolves_to_signer m else (no_match, m)
  scan_identities name_listed (identity ∷ identities) m =
      let rest = scan_identities (names_author identity || name_listed) identities m in
      if str_eq identity signer_address then (matched, m) else rest

  -- `matchesAnyIdentity`
  unfoldable pub matches_any_identity : List String → Matcher → MatchOutcome × Matcher
  unfolding scan_identities names_author name_resolves_to_signer
  matches_any_identity identities m = scan_identities false identities m
