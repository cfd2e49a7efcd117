-- ===== src/Challenges/Proofs/Rules.antt =====
-- What the exclude rules that name other challenges mean, against the code that evaluates them.
use pkc_js.Base.{
  ℕ, ◌≡◌, ◌≢◌, ◌↔◌, Bool, true, false, not, ◌&&◌, ◌||◌, Option, some, List, [], ◌∷◌, arith, inl,
  inr, All, Any, every, any, is_empty, ok, Option-cases, every_iff, if◌then◌else◌,
}
use pkc_js.Excludes.{Exclude, CommunityChallenge}
use pkc_js.Challenges.{failure, Outcome, answered}
use pkc_js.Challenges.Dependencies.{
  outcome_at, is_decided, is_success, is_failure, is_pending, challenge_at, exclude, ready,
  pending_deps, undecided, matches, rule_verdict, decide_rules, evaluate_phase2_exclusion,
  can_failed_challenge_still_be_excluded, should_exclude_challenge_success, dep_excludes,
}

-- A rule is met when it names challenges and all of them are decided and have succeeded.
pub record IsMet (decided : List Bool) (results : List (Option Outcome)) (item : Exclude)
    : Type 0 where
  pub names_some : Exclude.challenges item ≢ []
  pub all_decided : All (λ j. is_decided decided j ≡ true) (Exclude.challenges item)
  pub all_succeeded : All (λ j. is_success (outcome_at results j) ≡ true) (Exclude.challenges item)

module _ (cs : List CommunityChallenge) (decided : List Bool) (results : List (Option Outcome))
    (i : ℕ) where
  pending_deps-eq-nil :
      (js : List ℕ)
      → (pending_deps results js ≡ some []) ↔ All (λ j. is_success (outcome_at results j) ≡ true) js
  unfolding pending_deps
  pending_deps-eq-nil [] = ground arith
  pending_deps-eq-nil (j ∷ js) = ground (arith, pending_deps-eq-nil js)

  decided_iff :
      (js : List ℕ)
      → (every (is_decided decided) js ≡ true) ↔ All (λ j. is_decided decided j ≡ true) js
  decided_iff js = every_iff (is_decided decided) js

  -- The verdict over a rule's challenges, by the list.
  matches_iff :
      (js : List ℕ)
      → (rule_verdict cs decided results i js ≡ matches) ↔ (
          (js ≢ [])
          × All (λ j. is_decided decided j ≡ true) js
          × All (λ j. is_success (outcome_at results j) ≡ true) js)
  unfolding rule_verdict
  matches_iff [] = ground arith
  matches_iff (j ∷ js) = elim (Option-cases (pending_deps results (j ∷ js))) [
    | inl blocked ↦ ground (arith, decided_iff (j ∷ js), pending_deps-eq-nil (j ∷ js))
    | inr ([], clear) ↦ ground (arith, decided_iff (j ∷ js), pending_deps-eq-nil (j ∷ js))
    | inr (k ∷ ks, waits) ↦ ground (arith, decided_iff (j ∷ js), pending_deps-eq-nil (j ∷ js))
  ]

  decide_rules-eq-exclude :
      (items : List Exclude) (evaluable deferrable : Bool)
      → (decide_rules cs decided results i evaluable deferrable items ≡ exclude)
        ↔ Any (IsMet decided results) items
  unfolding decide_rules
  decide_rules-eq-exclude [] evaluable deferrable = ground arith
  decide_rules-eq-exclude (item ∷ items) evaluable deferrable = ground (
    arith,
    matches_iff item.challenges,
    decide_rules-eq-exclude items evaluable deferrable,
    decide_rules-eq-exclude items false deferrable,
    decide_rules-eq-exclude items evaluable true,
    decide_rules-eq-exclude items evaluable false,
  )

  guarded-eq-exclude :
      (items : List Exclude)
      → ((if is_empty items then ready else decide_rules cs decided results i true false items)
          ≡ exclude)
        ↔ Any (IsMet decided results) items
  guarded-eq-exclude [] = ground arith
  guarded-eq-exclude (item ∷ items) = decide_rules-eq-exclude (item ∷ items) true false

  -- At its turn a challenge is excluded exactly when one of its rules is met: the rule names
  -- challenges, and all of them are decided and have succeeded.
  pub evaluate-eq-exclude_iff :
      (evaluate_phase2_exclusion cs decided results i ≡ exclude)
      ↔ Any (IsMet decided results) (CommunityChallenge.exclude (challenge_at cs i))
  unfolding evaluate_phase2_exclusion
  evaluate-eq-exclude_iff = guarded-eq-exclude (CommunityChallenge.exclude (challenge_at cs i))

  abbrev pub IsEvaluable : Exclude → Type 0
  IsEvaluable item = All (λ j. is_decided decided j ≡ true) (Exclude.challenges item)

  undecided_iff :
      (js : List ℕ)
      → (rule_verdict cs decided results i js ≢ undecided)
      → All (λ j. is_decided decided j ≡ true) js
  unfolding rule_verdict
  undecided_iff [] h = tt
  undecided_iff (j ∷ js) h = ground (arith, decided_iff (j ∷ js))

  decide_rules-eq-ready :
      (items : List Exclude) (evaluable deferrable : Bool)
      → decide_rules cs decided results i evaluable deferrable items ≡ ready
      → (evaluable ≡ true) × All IsEvaluable items
  unfolding decide_rules
  decide_rules-eq-ready [] evaluable deferrable h = ground arith
  decide_rules-eq-ready (item ∷ items) evaluable deferrable h = ground (
    arith,
    undecided_iff item.challenges,
    decide_rules-eq-ready items evaluable deferrable,
    decide_rules-eq-ready items false deferrable,
    decide_rules-eq-ready items evaluable true,
    decide_rules-eq-ready items evaluable false,
  )

  guarded-eq-ready :
      (items : List Exclude)
      → (if is_empty items then ready else decide_rules cs decided results i true false items)
        ≡ ready
      → All IsEvaluable items × (¬ Any (IsMet decided results) items)
  guarded-eq-ready [] h = ground arith
  guarded-eq-ready (item ∷ items) h = (
    (decide_rules-eq-ready (item ∷ items) true false h).1,
    λ met. cc (h, (decide_rules-eq-exclude (item ∷ items) true false).1 met),
  )

  -- A challenge's code is called at its turn only when all challenges that its rules name are
  -- decided and none of its rules is met.
  pub evaluate-eq-ready :
      evaluate_phase2_exclusion cs decided results i ≡ ready
      → All IsEvaluable (CommunityChallenge.exclude (challenge_at cs i))
        × (¬ Any (IsMet decided results) (CommunityChallenge.exclude (challenge_at cs i)))
  unfolding evaluate_phase2_exclusion
  evaluate-eq-ready h = guarded-eq-ready (CommunityChallenge.exclude (challenge_at cs i)) h

-- A later state of the results: what was decided before has kept its outcome.
abbrev pub Extends : List Bool → List (Option Outcome) → List (Option Outcome) → Type 0
Extends decided results later =
    (j : ℕ) → is_decided decided j ≡ true → outcome_at later j ≡ outcome_at results j

module _ (decided : List Bool) (results later : List (Option Outcome))
    (extends : Extends decided results later)
    (settled : (j : ℕ) → is_pending (outcome_at later j) ≡ false) where
  -- A dependency that blocks now blocks at the end.
  blocked_later :
      (j : ℕ)
      → (not (is_decided decided j) || is_success (outcome_at results j)) ≡ false
      → dep_excludes false (outcome_at later j) ≡ false
  unfolding dep_excludes
  blocked_later j h = ground (arith, extends j, settled j)

  blocked_rule :
      (js : List ℕ)
      → every (λ j. not (is_decided decided j) || is_success (outcome_at results j)) js ≡ false
      → every (λ j. dep_excludes false (outcome_at later j)) js ≡ false
  blocked_rule [] h = h
  blocked_rule (j ∷ js) h = ground (arith, blocked_later j, blocked_rule js)

  blocked_rules :
      (items : List Exclude)
      → any
          (λ item.
            not (is_empty (Exclude.challenges item))
            && every
                (λ j. not (is_decided decided j) || is_success (outcome_at results j))
                (Exclude.challenges item))
          items
        ≡ false
      → any
          (λ item.
            not (is_empty (Exclude.challenges item))
            && every (λ j. dep_excludes false (outcome_at later j)) (Exclude.challenges item))
          items
        ≡ false
  blocked_rules [] h = h
  blocked_rules (item ∷ items) h = ground (arith, blocked_rule item.challenges, blocked_rules items)

  failure_stands :
      (cs : List CommunityChallenge) (i : ℕ) (o : Option Outcome)
      → outcome_at later i ≡ o
      → is_failure o ≡ true
      → can_failed_challenge_still_be_excluded i cs decided results ≡ false
      → should_exclude_challenge_success (challenge_at cs i) i later ≡ ok false
  unfolding can_failed_challenge_still_be_excluded should_exclude_challenge_success
  failure_stands cs i (some (answered (failure error reason))) here f final =
      rw (here, should_exclude_challenge_success)
        (ground (arith, blocked_rules (CommunityChallenge.exclude (challenge_at cs i)) final))
  failure_stands cs i _ here f final = cc

  -- Stopping early is safe: a decided failure that the loop takes as final is excluded by no rule at
  -- the end, whatever the undecided challenges come to, as long as what was decided has kept its
  -- outcome and no result is left pending.
  pub final_failure_stands :
      (cs : List CommunityChallenge) (i : ℕ)
      → is_decided decided i ≡ true
      → is_failure (outcome_at results i) ≡ true
      → can_failed_challenge_still_be_excluded i cs decided results ≡ false
      → should_exclude_challenge_success (challenge_at cs i) i later ≡ ok false
  final_failure_stands cs i d f final =
      failure_stands cs i (outcome_at results i) (extends i d) f final
