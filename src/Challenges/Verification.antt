-- ===== src/Challenges/Verification.antt =====
-- `getChallengeVerification` of challenges/index.ts: the whole exchange for one request.
use pkc_js.Base.{
  ℕ, Bool, true, false, ◌&&◌, ◌||◌, String, Option, none, some, List, [], ◌∷◌, get_or, every,
  is_some, if◌then◌else◌, Result, ok, throw, ◌>>=◌,
}
use pkc_js.Json.{Fields}
use pkc_js.Messages.{Message}
use pkc_js.Excludes.{CommunityChallenge, NameFailure, ShouldExclude}
use pkc_js.Challenges.{
  RawOutcome, Challenge, Error, challenges_not_defined, get_challenge_answers_threw,
}
use pkc_js.Challenges.Extras.{ReservedNames}
use pkc_js.Challenges.Classify.{
  Verdict, verified, rejected, awaiting, get_pending_challenges_or_challenge_verification,
}
use pkc_js.Challenges.Answers.{accepted, refused, get_challenge_verification_from_challenge_answers}

-- The reason to publish: a failed challenge's own, or the message of a name that could not be
-- verified.
pub data Reason : Type 0 where
  of_challenge : String → Reason
  of_name : Message → Reason

pub record Verification : Type 0 where
  pub challenge_success : Bool
  pub challenge_errors : List (ℕ × String)
  pub comment : Option Fields
  pub comment_update : Option Fields
  pub reason : Option Reason
  pub pending_approval : Bool

-- `decisiveNameFailure`: every failed challenge has a name failure of its own; the first counts.
unfoldable pub decisive_name_failure :
    List (ℕ × String) → List (Option NameFailure) → Option NameFailure
decisive_name_failure [] failures = none
decisive_name_failure ((i, e) ∷ errors) failures =
    if every (λ p. is_some (get_or failures p.0 none)) ((i, e) ∷ errors)
    then get_or failures i none
    else none

abbrev pub of_challenge? : Option String → Option Reason
of_challenge? none = none
of_challenge? (some r) = some (of_challenge r)

unfoldable pub reason_of :
    List (ℕ × String) → Option String → List (Option NameFailure) → Option Reason
reason_of errors reason failures = elim (decisive_name_failure errors failures) [
  | none ↦ of_challenge? reason
  | some f ↦ some (of_name (NameFailure.reason f))
]

unfoldable pub fail_with :
    List (ℕ × String) → Option String → List (Option NameFailure) → Verification
unfolding reason_of decisive_name_failure
fail_with errors reason failures = record {
  challenge_success = false;
  challenge_errors = errors;
  comment = none;
  comment_update = none;
  reason = reason_of errors reason failures;
  pending_approval = false;
}

-- `is_comment` is `Boolean(request.comment)`.
unfoldable pub succeed_with : Bool → Bool → Option Fields → Option Fields → Verification
succeed_with is_comment pending_approval comment comment_update = record {
  challenge_success = true;
  challenge_errors = [];
  comment = comment;
  comment_update = comment_update;
  reason = none;
  pending_approval = is_comment && pending_approval;
}

-- `get_challenge` before the answers and `get_challenge_after` them, since the author's identity is
-- verified anew in between; `get_challenge_answers` may throw, which is `none`.
module _ (names : ReservedNames) (is_comment : Bool)
    (get_challenge get_challenge_after : ℕ → RawOutcome) (excluded : ℕ → ShouldExclude)
    (cids_exclude : ℕ → Bool)
    (get_challenge_answers : List (ℕ × Challenge) → Option (List (Option String))) where
  unfoldable pub verify_answers :
      List CommunityChallenge → Verdict → Option (Result Error Verification)
  unfolding fail_with succeed_with
  verify_answers cs (verified approval comment update) =
      some (ok (succeed_with is_comment approval comment update))
  verify_answers cs (rejected errors reason failures) = some (ok (fail_with errors reason failures))
  verify_answers cs (awaiting pending approval deferred results failures) =
      elim (get_challenge_answers pending) [
        | none ↦ some (throw get_challenge_answers_threw)
        | some answers ↦
            elim (get_challenge_verification_from_challenge_answers names cs get_challenge_after
              pending answers deferred results) [
                | none ↦ none
                | some (throw e) ↦ some (throw e)
                | some (ok (refused errors reason)) ↦ some (ok (fail_with errors reason failures))
                | some (ok (accepted approval' comment update)) ↦
                    some (ok (succeed_with is_comment (approval || approval') comment update))
              ]
      ]

  -- `getChallengeVerification`, with the flag that `addToRateLimiter` is given: `challengeSuccess`.
  unfoldable pub get_challenge_verification :
      Option (List CommunityChallenge) → Option (Result Error (Verification × Bool))
  unfolding verify_answers
  get_challenge_verification none = some (throw challenges_not_defined)
  get_challenge_verification (some cs) =
      elim (get_pending_challenges_or_challenge_verification names get_challenge excluded
        cids_exclude (some cs)) [
          | none ↦ none
          | some (throw e) ↦ some (throw e)
          | some (ok verdict) ↦ elim (verify_answers cs verdict) [
            | none ↦ none
            | some r ↦ some (do v ← r; ok (v, Verification.challenge_success v))
          ]
        ]
