-- ===== src/Challenges/Classify.antt =====
-- Phase 5 of `getPendingChallengesOrChallengeVerification` in challenges/index.ts: the tally of
-- failures, pending challenges and pending approval, and the verdict; and the whole function.
use pkc_js.Base.{
  ℕ, suc, Bool, false, not, ◌||◌, String, Option, none, some, List, [], ◌∷◌, ◌++◌, length, is_empty,
  if◌then◌else◌, Result, ok, ◌>>=◌,
}
use pkc_js.Excludes.{CommunityChallenge, NameFailure, ShouldExclude}
use pkc_js.Json.{Fields}
use pkc_js.Challenges.{success, failure, RawOutcome, Challenge, Outcome, answered, asked, Error}
use pkc_js.Challenges.Extras.{
  ReservedNames, Aggregate, empty_aggregate, accumulate_challenge_result_extras,
}
use pkc_js.Challenges.Dependencies.{outcome_at, challenge_at, should_exclude_challenge_success}
use pkc_js.Challenges.Resolve.{Board, indexes, resolve, start_board, phase1_name_failures}

-- The variables that the loop over the results fills; the last entries stand last.
pub record Tally : Type 0 where
  pub errors : List (ℕ × String)
  pub pending : List (ℕ × Challenge)
  pub pending_approval : Bool
  pub agg : Aggregate

abbrev pub empty_tally : Tally
empty_tally = record { errors = []; pending = []; pending_approval = false; agg = empty_aggregate }

module _ (names : ReservedNames) (cs : List CommunityChallenge)
    (results : List (Option Outcome)) where
  -- One result that no rule excludes.
  unfoldable pub count_outcome : ℕ → Outcome → Tally → Result Error Tally
  count_outcome i (answered (failure error reason)) t = do
    agg ← accumulate_challenge_result_extras names (failure error reason) i t.agg
    ok (record t { errors = t.errors ++ (i, error) ∷ []; agg = agg })
  count_outcome i (answered (success comment update)) t = do
    agg ← accumulate_challenge_result_extras names (success comment update) i t.agg
    ok (record t {
      pending_approval =
          t.pending_approval || CommunityChallenge.pending_approval (challenge_at cs i);
      agg = agg;
    })
  count_outcome i (asked c) t = ok (record t { pending = t.pending ++ (i, c) ∷ [] })

  -- One turn of the loop.
  unfoldable pub tally_index : ℕ → Tally → Result Error Tally
  unfolding count_outcome
  tally_index i t = elim (outcome_at results i) [
    | none ↦ ok t
    | some o ↦ do
      excluded ← should_exclude_challenge_success (challenge_at cs i) i results
      if excluded then ok t else count_outcome i o t
  ]

  unfoldable pub tally : List ℕ → Tally → Result Error Tally
  tally [] t = ok t
  tally (i ∷ is) t = do t' ← tally_index i t; tally is t'

-- What the function returns. A pending verdict carries the state for the answers.
pub data Verdict : Type 0 where
  verified : (pending_approval : Bool) → (comment comment_update : Option Fields) → Verdict
  rejected :
      (errors : List (ℕ × String)) (reason : Option String)
      (name_failures : List (Option NameFailure))
      → Verdict
  awaiting :
      (pending : List (ℕ × Challenge)) (pending_approval : Bool) (deferred : List ℕ)
      (results : List (Option Outcome)) (name_failures : List (Option NameFailure))
      → Verdict

-- Phase 4: the indexes of the deferred challenges.
abbrev pub deferred_indexes : ℕ → List Bool → List ℕ
deferred_indexes from [] = []
deferred_indexes from (f ∷ fs) =
    if f then from ∷ deferred_indexes (suc from) fs else deferred_indexes (suc from) fs

unfoldable pub verdict_of_tally : Board → List (Option NameFailure) → Tally → Verdict
verdict_of_tally s failures t =
    if not (is_empty t.errors)
    then rejected t.errors (Aggregate.reason t.agg) failures
    else if is_empty t.pending
    then verified t.pending_approval (Aggregate.comment t.agg) (Aggregate.comment_update t.agg)
    else awaiting t.pending t.pending_approval (deferred_indexes 0 s.deferred) s.results failures

unfoldable pub classify :
    ReservedNames
    → List CommunityChallenge
    → List (Option NameFailure)
    → Board
    → Result Error Verdict
unfolding verdict_of_tally
classify names cs failures s = do
  t ← tally names cs s.results (indexes 0 (length cs)) empty_tally
  ok (verdict_of_tally s failures t)

-- `getPendingChallengesOrChallengeVerification`, for the loaded challenges or none at all; the
-- outer `none` means that the loop ran out of fuel.
module _ (names : ReservedNames) (get_challenge : ℕ → RawOutcome) (excluded : ℕ → ShouldExclude)
    (cids_exclude : ℕ → Bool) where
  unfoldable pub get_pending_challenges_or_challenge_verification :
      Option (List CommunityChallenge) → Option (Result Error Verdict)
  unfolding classify
  get_pending_challenges_or_challenge_verification none = some (ok (verified false none none))
  get_pending_challenges_or_challenge_verification (some cs) =
      elim (resolve cs get_challenge (suc (length cs))
        (start_board excluded cids_exclude (length cs))) [
          | none ↦ none
          | some board ↦ some (do
            s ← board
            classify names cs (phase1_name_failures excluded cids_exclude 0 (length cs)) s)
        ]
