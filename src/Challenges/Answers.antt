-- ===== src/Challenges/Answers.antt =====
-- Answer time: `getChallengeVerificationFromChallengeAnswers` of challenges/index.ts, for a caller
-- that passes on the request and all that the request-time function kept, as
-- `getChallengeVerification` does.
use mathlib.Core.Option
use pkc_js.Base.{
  ℕ, suc, Bool, true, false, not, String, Option, none, some, List, [], ◌∷◌, get_elem?, set,
  replicate, length, is_empty, any, if◌then◌else◌, Result, ok, throw, ◌>>=◌,
}
use pkc_js.Json.{Fields}
use pkc_js.Excludes.{CommunityChallenge}
use pkc_js.Challenges.{
  ChallengeResult, RawResult, thrown, RawOutcome, Challenge, Outcome, answered, asked, Error,
  verify_threw, validate_challenge_result,
}
use pkc_js.Challenges.Extras.{ReservedNames, Aggregate}
use pkc_js.Challenges.Dependencies.{
  outcome_at, is_decided, challenge_at, should_exclude_challenge_success, exclude, defer, ready,
  skip, evaluate_phase2_exclusion,
}
use pkc_js.Challenges.Resolve.{
  Board, indexes, exclude_index, call_index, run_rounds, any_decided_failure_is_final,
}
use pkc_js.Challenges.Classify.{Tally, empty_tally, count_outcome}

-- All `verify` calls; the first to reject rejects the exchange.
unfoldable pub verify_pending :
    ℕ → List (Option String) → List (ℕ × Challenge) → List (ℕ × RawResult)
verify_pending position answers [] = []
verify_pending position answers ((i, c) ∷ pending) =
    (i, c.verify (Option.get_or (get_elem? answers position) none))
    ∷ verify_pending (suc position) answers pending

abbrev pub is_thrown : RawResult → Bool
is_thrown thrown = true
is_thrown _ = false

abbrev pub validate_all : List (ℕ × RawResult) → Result Error (List (ℕ × ChallengeResult))
validate_all [] = ok []
validate_all ((i, raw) ∷ rest) = do
  r ← validate_challenge_result raw i
  rs ← validate_all rest
  ok ((i, r) ∷ rs)

unfoldable pub verified_results : List (ℕ × RawResult) → Result Error (List (ℕ × ChallengeResult))
unfolding validate_challenge_result
verified_results raws =
    if any (λ p. is_thrown p.1) raws then throw verify_threw else validate_all raws

-- The pending slots get their verified results.
unfoldable pub hydrate : List (ℕ × ChallengeResult) → List (Option Outcome) → List (Option Outcome)
hydrate [] results = results
hydrate ((i, r) ∷ rest) results = hydrate rest (set results i (some (answered r)))

abbrev pub undecide : List ℕ → List Bool → List Bool
undecide [] decided = decided
undecide (i ∷ is) decided = undecide is (set decided i false)

abbrev pub decide : List ℕ → List Bool → List Bool
decide [] decided = decided
decide (i ∷ is) decided = decide is (set decided i true)

unfoldable pub answer_board : ℕ → List ℕ → List (Option Outcome) → Board
answer_board count deferred results = record {
  decided = undecide deferred (replicate count true);
  deferred = replicate count false;
  results = results;
  calls = [];
}

unfoldable pub decide_deferred : List ℕ → Board → Board
decide_deferred deferred s = record s { decided = decide deferred s.decided }

module _ (cs : List CommunityChallenge) (get_challenge : ℕ → RawOutcome) where
  -- One turn of the loop over the deferred challenges: here "defer" is taken as "exclude".
  unfoldable pub try_deferred : Board → ℕ → Result Error (Board × Bool)
  unfolding exclude_index call_index
  try_deferred s i =
      if is_decided s.decided i
      then ok (s, false)
      else elim (evaluate_phase2_exclusion cs s.decided s.results i) [
        | skip ↦ ok (s, false)
        | exclude ↦ ok (exclude_index s i, true)
        | defer ↦ ok (exclude_index s i, true)
        | ready ↦ do s' ← call_index get_challenge s i; ok (s', true)
      ]

  unfoldable pub resolve_deferred : List ℕ → ℕ → Board → Option (Result Error Board)
  unfolding any_decided_failure_is_final decide_deferred
  resolve_deferred deferred =
      run_rounds get_challenge try_deferred (any_decided_failure_is_final cs get_challenge)
        (decide_deferred deferred) deferred

module _ (names : ReservedNames) (cs : List CommunityChallenge)
    (results : List (Option Outcome)) where
  abbrev pub is_asked : Outcome → Bool
  is_asked (asked _) = true
  is_asked (answered _) = false

  -- One turn of the classification: a result that is still pending is ignored.
  unfoldable pub tally_answer : ℕ → Tally → Result Error Tally
  unfolding count_outcome
  tally_answer i t = elim (outcome_at results i) [
    | none ↦ ok t
    | some (asked _) ↦ ok t
    | some (answered r) ↦ do
      excluded ← should_exclude_challenge_success (challenge_at cs i) i results
      if excluded then ok t else count_outcome names cs results i (answered r) t
  ]

  unfoldable pub tally_answers : List ℕ → Tally → Result Error Tally
  tally_answers [] t = ok t
  tally_answers (i ∷ is) t = do t' ← tally_answer i t; tally_answers is t'

pub data AnswerVerdict : Type 0 where
  accepted : (pending_approval : Bool) → (comment comment_update : Option Fields) → AnswerVerdict
  refused : (errors : List (ℕ × String)) (reason : Option String) → AnswerVerdict

unfoldable pub verdict_of_answers : Tally → AnswerVerdict
verdict_of_answers t =
    if not (is_empty t.errors)
    then refused t.errors (Aggregate.reason t.agg)
    else accepted t.pending_approval (Aggregate.comment t.agg) (Aggregate.comment_update t.agg)

unfoldable pub classify_answers :
    ReservedNames → List CommunityChallenge → List (Option Outcome) → Result Error AnswerVerdict
unfolding verdict_of_answers
classify_answers names cs results = do
  t ← tally_answers names cs results (indexes 0 (length cs)) empty_tally
  ok (verdict_of_answers t)

-- The deferred challenges, on the board that the verified results fill.
unfoldable pub settle_deferred :
    List CommunityChallenge
    → (ℕ → RawOutcome)
    → List ℕ
    → List (Option Outcome)
    → Option (Result Error (List (Option Outcome)))
settle_deferred cs get_challenge deferred results =
    if is_empty deferred
    then some (ok results)
    else elim (resolve_deferred cs get_challenge deferred (suc (length cs))
        (answer_board (length cs) deferred results)) [
          | none ↦ none
          | some r ↦ some (do s ← r; ok (Board.results s))
        ]

-- `getChallengeVerificationFromChallengeAnswers`; the outer `none` means that the fuel ran out.
unfoldable pub get_challenge_verification_from_challenge_answers :
    ReservedNames
    → List CommunityChallenge
    → (ℕ → RawOutcome)
    → List (ℕ × Challenge)
    → List (Option String)
    → List ℕ
    → List (Option Outcome)
    → Option (Result Error AnswerVerdict)
unfolding settle_deferred verified_results classify_answers
get_challenge_verification_from_challenge_answers names cs get_challenge pending answers deferred
      partial_results =
    elim (verified_results (verify_pending 0 answers pending)) [
      | throw e ↦ some (throw e)
      | ok rs ↦ elim (settle_deferred cs get_challenge deferred (hydrate rs partial_results)) [
        | none ↦ none
        | some r ↦ some (do results ← r; classify_answers names cs results)
      ]
    ]
