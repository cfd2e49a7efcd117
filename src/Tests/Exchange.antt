-- ===== src/Tests/Exchange.antt =====
-- Runs of the challenge exchange and of the exclude rules.
use pkc_js.Base.{
  ℕ, zero, suc, ◌≡◌, ◌≢◌, ◌↔◌, refl, Bool, true, false, Option, none, some, List, [], ◌∷◌, Result,
  ok, Any, All, Returns,
}
use pkc_js.Challenges.{success, failure, Outcome, answered, Error, call_get_challenge}
use pkc_js.Challenges.Dependencies.{
  exclude, outcome_at, rule_verdict, pending_deps, can_failed_challenge_still_be_excluded,
  is_pending, challenge_at, evaluate_phase2_exclusion, should_exclude_challenge_success,
}
use pkc_js.Challenges.Resolve.{run_rounds, round, try_index, Board, resolve, start_board, indexes}
use pkc_js.Challenges.Answers.{
  get_challenge_verification_from_challenge_answers, verify_pending, resolve_deferred,
  classify_answers, settle_deferred, tally_answers, verified_results, answer_board, try_deferred,
  decide_deferred, verdict_of_answers, hydrate, tally_answer,
}
use pkc_js.Challenges.Extras.{accumulate_challenge_result_extras}
use pkc_js.Challenges.Classify.{
  tally, tally_index, verified, classify, get_pending_challenges_or_challenge_verification,
}
use pkc_js.Challenges.Verification.{verify_answers, get_challenge_verification}
use pkc_js.Challenges.Proofs.Request.{resolve-IsResolved}
use pkc_js.Challenges.Proofs.Request.{IsResolved}
use pkc_js.Challenges.Proofs.Total.{get_challenge_verification_ends}
use pkc_js.Challenges.Proofs.Verdicts.{Describes, classify-Describes}
use pkc_js.Challenges.Proofs.Rules.{
  IsMet, IsEvaluable, evaluate-eq-exclude_iff, evaluate-eq-ready, final_failure_stands,
}
use pkc_js.Tests.Data.{
  rule, cyclic, joined, chained, first_asks, all_ask, nobody, no_cids, no_names, right_then_wrong,
}

-- A request verified while challenge 2 waits: 0 asks, 1 succeeds, which spares 0, and 2 never runs.
verified_with_one_waiting :
    get_pending_challenges_or_challenge_verification no_names first_asks nobody no_cids
      (some cyclic)
    ≡ some (ok (verified false none none))
unfolding get_pending_challenges_or_challenge_verification resolve run_rounds round try_index
    start_board evaluate_phase2_exclusion rule_verdict call_get_challenge pending_deps tally
    tally_index should_exclude_challenge_success
verified_with_one_waiting = refl

-- An exchange verified though challenge 1 has asked nobody: 0 is answered rightly and spares 2, whose
-- answer is wrong, and 1 asks when the answers are already in.
verified_unasked :
    get_challenge_verification no_names true all_ask all_ask nobody no_cids right_then_wrong
      (some joined)
    ≡ some (
        ok (
          record {
            challenge_success = true;
            challenge_errors = [];
            comment = none;
            comment_update = none;
            reason = none;
            pending_approval = false;
          },
          true,
        ))
unfolding get_challenge_verification verify_answers get_pending_challenges_or_challenge_verification
    resolve run_rounds round try_index start_board evaluate_phase2_exclusion rule_verdict
    call_get_challenge pending_deps tally tally_index should_exclude_challenge_success
    get_challenge_verification_from_challenge_answers verify_pending resolve_deferred
    classify_answers settle_deferred tally_answers verified_results answer_board try_deferred
    decide_deferred verdict_of_answers hydrate tally_answer accumulate_challenge_result_extras
verified_unasked = refl

get_challenge_verification_ends_example :
    get_challenge_verification no_names true all_ask all_ask nobody no_cids right_then_wrong
      (some joined)
    ≢ none
get_challenge_verification_ends_example =
    get_challenge_verification_ends no_names true all_ask all_ask nobody no_cids right_then_wrong
      joined

resolve-IsResolved_example :
    (r : Result Error Board) × (resolve cyclic first_asks 4 (start_board nobody no_cids 3) ≡ some r)
    × Returns (λ s. All (IsResolved nobody no_cids 3 s) (indexes 0 3)) r
resolve-IsResolved_example = resolve-IsResolved nobody no_cids cyclic first_asks

-- The board of `chained` after both of its challenges have failed.
abbrev wrong : Outcome
wrong = answered (failure "wrong" none)

abbrev right : Outcome
right = answered (success none none)

abbrev both_failed : List (Option Outcome)
both_failed = some wrong ∷ some wrong ∷ []

abbrev both_decided : List Bool
both_decided = true ∷ true ∷ []

abbrev failed_board : Board
failed_board = record {
  decided = both_decided;
  results = both_failed;
  deferred = false ∷ false ∷ [];
  calls = 0 ∷ 1 ∷ [];
}

classify-Describes_example :
    Returns (Describes 2 chained both_failed) (classify no_names chained [] failed_board)
classify-Describes_example = classify-Describes no_names chained [] failed_board

none_pending : (j : ℕ) → is_pending (outcome_at both_failed j) ≡ false
none_pending zero = refl
none_pending (suc zero) = refl
none_pending (suc (suc j)) = refl

final_failure_stands_example :
    should_exclude_challenge_success (challenge_at chained 0) 0 both_failed ≡ ok false
unfolding can_failed_challenge_still_be_excluded
final_failure_stands_example =
    final_failure_stands both_decided both_failed both_failed (λ j d. refl) none_pending chained 0
      refl refl refl

evaluate-eq-exclude_iff_example :
    (evaluate_phase2_exclusion chained (false ∷ true ∷ []) (none ∷ some right ∷ []) 0 ≡ exclude)
    ↔ Any (IsMet (false ∷ true ∷ []) (none ∷ some right ∷ [])) (rule (1 ∷ []) ∷ [])
evaluate-eq-exclude_iff_example =
    evaluate-eq-exclude_iff chained (false ∷ true ∷ []) (none ∷ some right ∷ []) 0

evaluate-eq-ready_example :
    All (IsEvaluable chained (false ∷ true ∷ []) (none ∷ some wrong ∷ []) 0) (rule (1 ∷ []) ∷ [])
    × (¬ Any (IsMet (false ∷ true ∷ []) (none ∷ some wrong ∷ [])) (rule (1 ∷ []) ∷ []))
unfolding evaluate_phase2_exclusion rule_verdict pending_deps
evaluate-eq-ready_example =
    evaluate-eq-ready chained (false ∷ true ∷ []) (none ∷ some wrong ∷ []) 0 refl
