-- ===== src/Challenges/Resolve.antt =====
-- The request-time resolution of challenges/index.ts, phases 1 to 4 of
-- `getPendingChallengesOrChallengeVerification`: which challenges are called, excluded or
-- deferred, with exclude rules that name other challenges and may form cycles.
use pkc_js.Base.{
  ℕ, zero, suc, Bool, true, false, not, ◌&&◌, ◌||◌, Option, none, some, List, [], ◌∷◌, map, set,
  any, length, replicate, if◌then◌else◌, Result, ok, throw, ◌>>=◌,
}
use pkc_js.Excludes.{CommunityChallenge, NameFailure, ShouldExclude}
use pkc_js.Challenges.{RawOutcome, Outcome, Error, call_get_challenge}
use pkc_js.Challenges.Dependencies.{
  is_decided, outcome_at, is_failure, is_pending, exclude, defer, ready, skip,
  evaluate_phase2_exclusion, can_failed_challenge_still_be_excluded,
}

-- The arrays of the function; `calls` lists the indexes whose `getChallenge` ran, the last first.
pub record Board : Type 0 where
  pub decided : List Bool
  pub deferred : List Bool
  pub results : List (Option Outcome)
  pub calls : List ℕ

-- The indexes `from`, `from + 1`, … of `count` challenges.
abbrev pub indexes : ℕ → ℕ → List ℕ
indexes from zero = []
indexes from (suc count) = from ∷ indexes (suc from) count

abbrev pub find_undecided : ℕ → List Bool → Option ℕ
find_undecided from [] = none
find_undecided from (d ∷ ds) = if d then find_undecided (suc from) ds else some from

abbrev pub defer_undecided : List Bool → List Bool → List Bool
defer_undecided (d ∷ ds) (f ∷ fs) = (not d || f) ∷ defer_undecided ds fs
defer_undecided [] fs = fs
defer_undecided (d ∷ ds) [] = []

unfoldable pub exclude_index : Board → ℕ → Board
exclude_index s i = record s { decided = set s.decided i true }

unfoldable pub defer_index : Board → ℕ → Board
defer_index s i = record s { decided = set s.decided i true; deferred = set s.deferred i true }

unfoldable pub record_outcome : Board → ℕ → Outcome → Board
record_outcome s i o = record s {
  decided = set s.decided i true;
  results = set s.results i (some o);
  calls = i ∷ s.calls;
}

-- Both loops that mark what is left as decided and deferred.
unfoldable pub defer_rest : Board → Board
defer_rest s = record s {
  decided = map (λ _. true) s.decided;
  deferred = defer_undecided s.decided s.deferred;
}

unfoldable pub call_index : (ℕ → RawOutcome) → Board → ℕ → Result Error Board
unfolding record_outcome
call_index get_challenge s i = do o ← call_get_challenge get_challenge i; ok (record_outcome s i o)

-- The `while (true)` loop, which request time and answer time share: rounds of `turn` over the
-- indexes `is` while they make progress; then either all is decided, or the loop stops and marks
-- what is left by `give_up`, or the first undecided challenge is called to break the cycle. `none`
-- means that the fuel ran out.
module _ (get_challenge : ℕ → RawOutcome) (turn : Board → ℕ → Result Error (Board × Bool))
    (stop : Board → Bool) (give_up : Board → Board) (is : List ℕ) where
  unfoldable pub round : List ℕ → Board → Result Error (Board × Bool)
  round [] s = ok (s, false)
  round (i ∷ rest) s = do
    (s', first) ← turn s i
    (s'', later) ← round rest s'
    ok (s'', first || later)

  unfoldable pub run_rounds : ℕ → Board → Option (Result Error Board)
  run_rounds zero s = none
  run_rounds (suc fuel) s = elim (round is s) [
    | throw e ↦ some (throw e)
    | ok (s', true) ↦ run_rounds fuel s'
    | ok (s', false) ↦ elim (find_undecided 0 s'.decided) [
      | none ↦ some (ok s')
      | some k ↦ elim (stop s') [
        | true ↦ some (ok (give_up s'))
        | false ↦ elim (call_index get_challenge s' k) [
          | throw e ↦ some (throw e)
          | ok s'' ↦ run_rounds fuel s''
        ]
      ]
    ]
  ]

module _ (cs : List CommunityChallenge) (get_challenge : ℕ → RawOutcome) where
  -- One turn of the `for` loop: the board, and whether there was progress.
  unfoldable pub try_index : Board → ℕ → Result Error (Board × Bool)
  unfolding exclude_index defer_index call_index
  try_index s i =
      if is_decided s.decided i
      then ok (s, false)
      else elim (evaluate_phase2_exclusion cs s.decided s.results i) [
        | skip ↦ ok (s, false)
        | exclude ↦ ok (exclude_index s i, true)
        | defer ↦ ok (defer_index s i, true)
        | ready ↦ do s' ← call_index get_challenge s i; ok (s', true)
      ]

  -- `anyDecidedFailureIsFinal`
  unfoldable pub any_decided_failure_is_final : Board → Bool
  any_decided_failure_is_final s =
      any
        (λ k.
          is_decided s.decided k
          && is_failure (outcome_at s.results k)
          && not (can_failed_challenge_still_be_excluded k cs s.decided s.results))
        (indexes 0 (length cs))

  -- The request-time loop, with the deferrals that follow it.
  unfoldable pub resolve : ℕ → Board → Option (Result Error Board)
  unfolding any_decided_failure_is_final
  resolve =
      run_rounds get_challenge try_index
        (λ s. any is_pending (Board.results s) || any_decided_failure_is_final s) defer_rest
        (indexes 0 (length cs))

-- Phase 1. `excluded` is `shouldExcludePublication` for each challenge and `cids_exclude` is
-- `shouldExcludeChallengeCommentCids`, both for the request at hand.
module _ (excluded : ℕ → ShouldExclude) (cids_exclude : ℕ → Bool) where
  unfoldable pub phase1_decided : ℕ → ℕ → List Bool
  phase1_decided from zero = []
  phase1_decided from (suc count) =
      (ShouldExclude.should_exclude (excluded from) || cids_exclude from)
      ∷ phase1_decided (suc from) count

  unfoldable pub phase1_name_failures : ℕ → ℕ → List (Option NameFailure)
  phase1_name_failures from zero = []
  phase1_name_failures from (suc count) =
      (if ShouldExclude.should_exclude (excluded from) || cids_exclude from
        then none
        else ShouldExclude.name_failure (excluded from))
      ∷ phase1_name_failures (suc from) count

  unfoldable pub start_board : ℕ → Board
  unfolding phase1_decided
  start_board count = record {
    decided = phase1_decided 0 count;
    deferred = replicate count false;
    results = replicate count none;
    calls = [];
  }
