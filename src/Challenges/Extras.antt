-- ===== src/Challenges/Extras.antt =====
-- What a challenge may add to a publication: `validateChallengeResultExtras` of
-- validate-challenge-result.ts and `accumulateChallengeResultExtras` of challenges/index.ts.
use pkc_js.Base.{
  ℕ, Bool, not, String, Option, none, some, List, [], ◌∷◌, Result, ok, throw, ◌>>=◌, includes,
  str_eq, truthy, if◌then◌else◌,
}
use pkc_js.Json.{Json, obj, Fields, find, keys, spread, end}
use pkc_js.Challenges.{
  ChallengeResult, success, failure, Error, overrides_comment_signed_field,
  overrides_reserved_comment_update_field, overrides_non_community_author_key,
  overrides_reserved_community_author_field,
}

-- The three lists that the schemas give: `CommentSignedPropertyNames`,
-- `CommentUpdateChallengeReservedFieldNames`, `CommunityAuthorChallengeReservedFieldNames`.
pub record ReservedNames : Type 0 where
  pub comment_signed : List String
  pub comment_update : List String
  pub community_author : List String

pub record Aggregate : Type 0 where
  pub comment : Option Fields
  pub comment_update : Option Fields
  pub reason : Option String

abbrev pub empty_aggregate : Aggregate
empty_aggregate = record { comment = none; comment_update = none; reason = none }

-- A loop that throws at the first key which fails the test.
abbrev pub forbid : (String → Bool) → (String → Error) → List String → Result Error (Unit {0})
forbid allowed error [] = ok tt
forbid allowed error (k ∷ ks) =
    let rest = forbid allowed error ks in if allowed k then rest else throw (error k)

module _ (names : ReservedNames) (i : ℕ) where
  unfoldable pub validate_comment : Option Fields → Result Error (Unit {0})
  validate_comment none = ok tt
  validate_comment (some fields) =
      forbid (λ k. not (includes names.comment_signed k)) (overrides_comment_signed_field i)
        (keys fields)

  unfoldable pub validate_author_community : Option Json → Result Error (Unit {0})
  validate_author_community none = ok tt
  validate_author_community (some (obj fields)) =
      forbid (λ k. not (includes names.community_author k))
        (overrides_reserved_community_author_field i) (keys fields)
  validate_author_community (some _) =
      throw (overrides_reserved_community_author_field i "community")

  unfoldable pub validate_author : Option Json → Result Error (Unit {0})
  unfolding validate_author_community
  validate_author none = ok tt
  validate_author (some (obj fields)) = do
    _ ← forbid (λ k. str_eq k "community") (overrides_non_community_author_key i) (keys fields)
    validate_author_community (find "community" fields)
  validate_author (some _) = throw (overrides_non_community_author_key i "author")

  unfoldable pub validate_comment_update : Option Fields → Result Error (Unit {0})
  unfolding validate_author
  validate_comment_update none = ok tt
  validate_comment_update (some fields) = do
    _ ←
        forbid (λ k. not (includes names.comment_update k))
          (overrides_reserved_comment_update_field i) (keys fields)
    validate_author (find "author" fields)

  -- `validateChallengeResultExtras`
  unfoldable pub validate_challenge_result_extras : ChallengeResult → Result Error (Unit {0})
  unfolding validate_comment validate_comment_update
  validate_challenge_result_extras (failure _ _) = ok tt
  validate_challenge_result_extras (success comment comment_update) = do
    _ ← validate_comment comment
    validate_comment_update comment_update

-- `{ ...(agg ?? {}), ...extra }`, if there is an extra.
abbrev pub merge : Option Fields → Option Fields → Option Fields
merge old none = old
merge none (some extra) = some (spread end extra)
merge (some old) (some extra) = some (spread old extra)

unfoldable pub add_extras : ChallengeResult → Aggregate → Aggregate
add_extras (failure _ reason) agg = if truthy reason then record agg { reason = reason } else agg
add_extras (success comment comment_update) agg = record agg {
  comment = merge agg.comment comment;
  comment_update = merge agg.comment_update comment_update;
}

-- `accumulateChallengeResultExtras`
unfoldable pub accumulate_challenge_result_extras :
    ReservedNames → ChallengeResult → ℕ → Aggregate → Result Error Aggregate
unfolding validate_challenge_result_extras add_extras
accumulate_challenge_result_extras names r i agg = do
  _ ← validate_challenge_result_extras names i r
  ok (add_extras r agg)
