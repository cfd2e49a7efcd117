-- ===== src/Challenges.antt =====
-- src/runtime/node/community/challenges/index.ts: what a challenge returns, the checks on it, and the
-- extras and reasons gathered from results (with validate-challenge-result.ts).
pub mod Extras
pub mod Dependencies
pub mod Resolve
pub mod Classify
pub mod Answers
pub mod Verification
pub mod Proofs
use pkc_js.Base.{
  ℕ, ◌+◌, Bool, true, false, String, Option, none, some, List, [], ◌∷◌, Result, ok, throw, ◌>>=◌,
  is_some, if◌then◌else◌, ◌&&◌,
}
use pkc_js.Json.{Fields}

-- `{ success: true, comment?, commentUpdate? }` and `{ success: false, error, reason? }`
pub data ChallengeResult : Type 0 where
  success : (comment comment_update : Option Fields) → ChallengeResult
  failure : (error : String) (reason : Option String) → ChallengeResult

-- What a challenge's code hands back before it is checked: `success` may be no Boolean, and the
-- code may throw.
pub data RawResult : Type 0 where
  result : ChallengeResult → RawResult
  not_boolean : RawResult
  thrown : RawResult

-- A pending challenge; `verify` gets the author's answer, which may be missing.
pub record Challenge : Type 0 where
  pub challenge : String
  pub kind : String
  pub verify : Option String → RawResult

-- `Challenge | ChallengeResult`
pub data Outcome : Type 0 where
  answered : ChallengeResult → Outcome
  asked : Challenge → Outcome

pub data RawOutcome : Type 0 where
  raw_result : RawResult → RawOutcome
  raw_challenge :
      (challenge kind : Option String) (verify : Option (Option String → RawResult)) → RawOutcome

-- What the exchange throws. An index is the challenge's.
pub data Error : Type 0 where
  invalid_result_from_get_challenge : ℕ → Error
  invalid_challenge_result : ℕ → Error
  verify_threw : Error
  invalid_exclusion_index : ℕ → Error
  challenges_not_defined : Error
  get_challenge_answers_threw : Error
  overrides_comment_signed_field : ℕ → String → Error
  overrides_reserved_comment_update_field : ℕ → String → Error
  overrides_non_community_author_key : ℕ → String → Error
  overrides_reserved_community_author_field : ℕ → String → Error

-- `validateChallengeResult`
unfoldable pub validate_challenge_result : RawResult → ℕ → Result Error ChallengeResult
validate_challenge_result (result r) i = ok r
validate_challenge_result not_boolean i = throw (invalid_challenge_result i)
validate_challenge_result thrown i = throw verify_threw

-- `validateChallengeOrChallengeResult`; `none` is a throw.
unfoldable pub validate_challenge_or_result : RawOutcome → Option Outcome
validate_challenge_or_result (raw_result (result r)) = some (answered r)
validate_challenge_or_result (raw_result not_boolean) = none
validate_challenge_or_result (raw_result thrown) = none
validate_challenge_or_result (raw_challenge (some c) (some k) (some v)) =
    some (asked (record { challenge = c; kind = k; verify = v }))
validate_challenge_or_result (raw_challenge _ _ _) = none

-- `callGetChallenge`: whatever goes wrong inside is one error, with the index counted from 1.
unfoldable pub call_get_challenge : (ℕ → RawOutcome) → ℕ → Result Error Outcome
unfolding validate_challenge_or_result
call_get_challenge get_challenge i = elim (validate_challenge_or_result (get_challenge i)) [
  | none ↦ throw (invalid_result_from_get_challenge (i + 1))
  | some o ↦ ok o
]
