-- ===== src/Challenges/Dependencies.antt =====
-- How the exclude rules of one challenge read the outcomes of the others:
-- `evaluatePhase2Exclusion` and `canFailedChallengeStillBeExcluded` of challenges/index.ts, and
-- `shouldExcludeChallengeSuccess` of challenges/exclude/exclude.ts.
use mathlib.Core.Option
use pkc_js.Base.{
  ℕ, Bool, true, false, not, ◌&&◌, ◌||◌, Option, none, some, List, [], ◌∷◌, ◌==◌, every, any,
  is_empty, get_or, if◌then◌else◌, Result, ok, throw,
}
use pkc_js.Excludes.{Exclude, CommunityChallenge}
use pkc_js.Challenges.{success, failure, Outcome, answered, asked, Error, invalid_exclusion_index}

-- `results[i]`, where a slot is empty for an index that is excluded, undecided or out of range.
abbrev pub outcome_at : List (Option Outcome) → ℕ → Option Outcome
outcome_at results i = get_or results i none

abbrev pub is_decided : List Bool → ℕ → Bool
is_decided decided i = get_or decided i false

abbrev pub no_rules : CommunityChallenge
no_rules = record { exclude = []; pending_approval = false }

abbrev pub challenge_at : List CommunityChallenge → ℕ → CommunityChallenge
challenge_at cs i = get_or cs i no_rules

abbrev pub is_success : Option Outcome → Bool
is_success (some (answered (success _ _))) = true
is_success _ = false

abbrev pub is_failure : Option Outcome → Bool
is_failure (some (answered (failure _ _))) = true
is_failure _ = false

abbrev pub is_pending : Option Outcome → Bool
is_pending (some (asked _)) = true
is_pending _ = false

pub data Decision : Type 0 where
  exclude defer ready skip : Decision

-- The inner loop over one rule's challenges: `none` if one has neither succeeded nor is pending,
-- else those that are pending.
unfoldable pub pending_deps : List (Option Outcome) → List ℕ → Option (List ℕ)
pending_deps results [] = some []
pending_deps results (j ∷ js) = elim (outcome_at results j) [
  | none ↦ none
  | some (answered (success _ _)) ↦ pending_deps results js
  | some (answered (failure _ _)) ↦ none
  | some (asked _) ↦ Option.map (◌∷◌ j) (pending_deps results js)
]

-- Challenge `j` names `i` in one of its own rules.
abbrev pub refers_to : List CommunityChallenge → ℕ → ℕ → Bool
refers_to cs i j =
    any (λ item. any (λ k. k == i) (Exclude.challenges item))
      (CommunityChallenge.exclude (challenge_at cs j))

-- What one rule of challenge `i` says while some challenges may be undecided.
pub data RuleVerdict : Type 0 where
  silent undecided matches : RuleVerdict
  tentative : (one_way : Bool) → RuleVerdict

unfoldable pub verdict_of_deps : List CommunityChallenge → ℕ → Option (List ℕ) → RuleVerdict
verdict_of_deps cs i none = silent
verdict_of_deps cs i (some []) = matches
verdict_of_deps cs i (some (j ∷ js)) = tentative (every (λ k. not (refers_to cs i k)) (j ∷ js))

unfoldable pub rule_verdict :
    List CommunityChallenge → List Bool → List (Option Outcome) → ℕ → List ℕ → RuleVerdict
unfolding verdict_of_deps
rule_verdict cs decided results i [] = silent
rule_verdict cs decided results i (j ∷ js) =
    if every (is_decided decided) (j ∷ js)
    then verdict_of_deps cs i (pending_deps results (j ∷ js))
    else undecided

-- The loop over the rules, with its two flags.
unfoldable pub decide_rules :
    List CommunityChallenge
    → List Bool
    → List (Option Outcome)
    → ℕ
    → Bool
    → Bool
    → List Exclude
    → Decision
decide_rules cs decided results i evaluable deferrable [] =
    if deferrable then defer else if evaluable then ready else skip
decide_rules cs decided results i evaluable deferrable (item ∷ items) =
    elim (rule_verdict cs decided results i item.challenges) [
      | silent ↦ decide_rules cs decided results i evaluable deferrable items
      | undecided ↦ decide_rules cs decided results i false deferrable items
      | matches ↦ exclude
      | tentative one_way ↦
          decide_rules cs decided results i evaluable (deferrable || one_way) items
    ]

-- `evaluatePhase2Exclusion`
unfoldable pub evaluate_phase2_exclusion :
    List CommunityChallenge → List Bool → List (Option Outcome) → ℕ → Decision
unfolding decide_rules
evaluate_phase2_exclusion cs decided results i =
    if is_empty (CommunityChallenge.exclude (challenge_at cs i))
    then ready
    else decide_rules cs decided results i true false
        (CommunityChallenge.exclude (challenge_at cs i))

-- `canFailedChallengeStillBeExcluded`
unfoldable pub can_failed_challenge_still_be_excluded :
    ℕ → List CommunityChallenge → List Bool → List (Option Outcome) → Bool
can_failed_challenge_still_be_excluded i cs decided results =
    any
      (λ item.
        not (is_empty (Exclude.challenges item))
        && every (λ j. not (is_decided decided j) || is_success (outcome_at results j))
            (Exclude.challenges item))
      (CommunityChallenge.exclude (challenge_at cs i))

-- One dependency of a rule of `shouldExcludeChallengeSuccess`: a success excludes, and a pending
-- one excludes a challenge that is not pending itself.
unfoldable pub dep_excludes : Bool → Option Outcome → Bool
dep_excludes self_pending none = false
dep_excludes self_pending (some (answered (success _ _))) = true
dep_excludes self_pending (some (answered (failure _ _))) = false
dep_excludes self_pending (some (asked _)) = not self_pending

-- `shouldExcludeChallengeSuccess`
unfoldable pub should_exclude_challenge_success :
    CommunityChallenge → ℕ → List (Option Outcome) → Result Error Bool
unfolding dep_excludes
should_exclude_challenge_success cc i results =
    if is_empty results || is_empty (CommunityChallenge.exclude cc)
    then ok false
    else elim (outcome_at results i) [
      | none ↦ throw (invalid_exclusion_index i)
      | some self ↦ ok (
          any
            (λ item.
              not (is_empty (Exclude.challenges item))
              && every (λ j. dep_excludes (is_pending (some self)) (outcome_at results j))
                  (Exclude.challenges item))
            (CommunityChallenge.exclude cc))
    ]
