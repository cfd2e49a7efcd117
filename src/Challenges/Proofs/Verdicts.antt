-- ===== src/Challenges/Proofs/Verdicts.antt =====
-- What the verdict of a request says of the single challenges.
use mathlib.Core.List.{append_assoc, append-nil}
use pkc_js.Base.{
  ℕ, ◌≡◌, ◌≢◌, refl, String, Bool, true, false, ◌&&◌, ◌||◌, Option, none, some, List, [], ◌∷◌, ◌++◌,
  arith, sym, ap, ◌∙◌, inl, inr, ◌⊎◌, length, is_empty, Result, ok, throw, ◌>>=◌, Returns,
  Returns->>=, if◌then◌else◌,
}
use pkc_js.Excludes.{CommunityChallenge, NameFailure}
use pkc_js.Challenges.{success, failure, Challenge, Outcome, answered, asked, Error}
use pkc_js.Challenges.Extras.{ReservedNames, accumulate_challenge_result_extras}
use pkc_js.Challenges.Dependencies.{outcome_at, challenge_at, should_exclude_challenge_success}
use pkc_js.Challenges.Resolve.{Board, indexes}
use pkc_js.Challenges.Classify.{
  Tally, empty_tally, count_outcome, tally_index, tally, Verdict, verified, rejected, awaiting,
  verdict_of_tally, classify,
}

is_empty-cases {ℓ} : {A : Type ℓ} (xs : List A) → (xs ≡ []) ⊎ ((is_empty xs ≡ false) × (xs ≢ []))
is_empty-cases [] = inl refl
is_empty-cases (x ∷ xs) = inr (refl, λ e. cc)

Returns-map :
    {P Q : Tally → Type 0} (r : Result Error Tally)
    → Returns P r
    → ((t : Tally) → P t → Q t)
    → Returns Q r
Returns-map (ok t) h f = f t h
Returns-map (throw e) h f = tt

module _ (cs : List CommunityChallenge) (results : List (Option Outcome)) where
  abbrev unless_excluded : Result Error Bool → Outcome → Option Outcome
  unless_excluded (ok false) o = some o
  unless_excluded (ok true) o = none
  unless_excluded (throw e) o = none

  -- The outcome of challenge `i` that counts: it has one, and no rule excludes the challenge.
  abbrev pub counted : ℕ → Option Outcome
  counted i = elim (outcome_at results i) [
    | none ↦ none
    | some o ↦ unless_excluded (should_exclude_challenge_success (challenge_at cs i) i results) o
  ]

  abbrev failure_of : ℕ → Option Outcome → List (ℕ × String)
  failure_of i (some (answered (failure error reason))) = (i, error) ∷ []
  failure_of i _ = []

  abbrev pending_of : ℕ → Option Outcome → List (ℕ × Challenge)
  pending_of i (some (asked c)) = (i, c) ∷ []
  pending_of i _ = []

  abbrev succeeds : Option Outcome → Bool
  succeeds (some (answered (success c u))) = true
  succeeds _ = false

  -- The counted failures, the counted pending challenges, and whether a counted success wants the
  -- owner's approval.
  abbrev pub failures : List ℕ → List (ℕ × String)
  failures [] = []
  failures (i ∷ is) = failure_of i (counted i) ++ failures is

  abbrev pub pendings : List ℕ → List (ℕ × Challenge)
  pendings [] = []
  pendings (i ∷ is) = pending_of i (counted i) ++ pendings is

  abbrev pub wants_approval : List ℕ → Bool
  wants_approval [] = false
  wants_approval (i ∷ is) =
      (succeeds (counted i) && CommunityChallenge.pending_approval (challenge_at cs i))
      || wants_approval is

  -- The tally with the given failures, pending challenges and approval added.
  record Adds (t : Tally) (more : List (ℕ × String)) (waits : List (ℕ × Challenge))
      (approves : Bool) (t' : Tally) : Type 0 where
    errors : t'.errors ≡ t.errors ++ more
    pending : t'.pending ≡ t.pending ++ waits
    approval : t'.pending_approval ≡ (t.pending_approval || approves)

  abbrev AddsOutcome : ℕ → Option Outcome → Tally → Tally → Type 0
  AddsOutcome i o t t' =
      Adds t (failure_of i o) (pending_of i o)
        (succeeds o && CommunityChallenge.pending_approval (challenge_at cs i)) t'

  or_false : (b : Bool) → b ≡ (b || false)
  or_false b = ground arith

  module _ (names : ReservedNames) where
    count_outcome-Adds :
        (i : ℕ) (o : Outcome) (t : Tally)
        → Returns (AddsOutcome i (some o) t) (count_outcome names cs results i o t)
    unfolding count_outcome
    count_outcome-Adds i (answered (failure error reason)) t =
        elim (accumulate_challenge_result_extras names (failure error reason) i t.agg)
          as (λ r.
            Returns (AddsOutcome i (some (answered (failure error reason))) t)
              (r >>= λ agg. ok (record t { errors = t.errors ++ (i, error) ∷ []; agg = agg }))) [
                | ok agg ↦ record {
                  errors = refl;
                  pending = sym (append-nil _);
                  approval = or_false _;
                }
                | throw e ↦ tt
              ]
    count_outcome-Adds i (answered (success c u)) t =
        elim (accumulate_challenge_result_extras names (success c u) i t.agg)
          as (λ r. Returns (AddsOutcome i (some (answered (success c u))) t) (
            r >>= λ agg. ok (record t {
              pending_approval =
                  t.pending_approval || CommunityChallenge.pending_approval (challenge_at cs i);
              agg = agg;
            }))) [
              | ok agg ↦ record {
                errors = sym (append-nil _);
                pending = sym (append-nil _);
                approval = refl;
              }
              | throw e ↦ tt
            ]
    count_outcome-Adds i (asked c) t = record {
      errors = sym (append-nil _);
      pending = refl;
      approval = or_false _;
    }

    adds_nothing : (i : ℕ) (t : Tally) → AddsOutcome i none t t
    adds_nothing i t = record {
      errors = sym (append-nil _);
      pending = sym (append-nil _);
      approval = or_false _;
    }

    tally_outcome :
        (i : ℕ) (t : Tally) (o : Outcome) (r : Result Error Bool)
        → Returns
            (AddsOutcome i (unless_excluded r o) t)
            (r >>= λ excluded. if excluded then ok t else count_outcome names cs results i o t)
    tally_outcome i t o (ok true) = adds_nothing i t
    tally_outcome i t o (ok false) = count_outcome-Adds i o t
    tally_outcome i t o (throw e) = tt

    tally_index-Adds :
        (i : ℕ) (t : Tally)
        → Returns (AddsOutcome i (counted i) t) (tally_index names cs results i t)
    unfolding tally_index
    tally_index-Adds i t =
        elim (outcome_at results i)
          as (λ slot.
            Returns
              (AddsOutcome i
                (elim slot [
                  | none ↦ none
                  | some o ↦
                      unless_excluded
                        (should_exclude_challenge_success (challenge_at cs i) i results) o
                ])
                t)
              (elim slot [
                | none ↦ ok t
                | some o ↦
                    should_exclude_challenge_success (challenge_at cs i) i results >>= λ excluded.
                    if excluded then ok t else count_outcome names cs results i o t
              ])) [
                | none ↦ adds_nothing i t
                | some o ↦
                    tally_outcome i t o
                      (should_exclude_challenge_success (challenge_at cs i) i results)
              ]

    tally-Adds :
        (is : List ℕ) (t : Tally)
        → Returns
            (Adds t (failures is) (pendings is) (wants_approval is))
            (tally names cs results is t)
    unfolding tally
    tally-Adds [] t = record {
      errors = sym (append-nil _);
      pending = sym (append-nil _);
      approval = or_false _;
    }
    tally-Adds (i ∷ is) t =
        Returns->>= (AddsOutcome i (counted i) t)
          (Adds t (failures (i ∷ is)) (pendings (i ∷ is)) (wants_approval (i ∷ is)))
          (tally_index names cs results i t) _ (tally_index-Adds i t)
          (λ t' h. Returns-map (tally names cs results is t') (tally-Adds is t') (λ t'' k. record {
            errors = k.errors ∙ ap (λ l. l ++ failures is) h.errors ∙ append_assoc t.errors _ _;
            pending = k.pending ∙ ap (λ l. l ++ pendings is) h.pending ∙ append_assoc t.pending _ _;
            approval = ground (arith, h.approval, k.approval);
          }))

-- What a verdict about `n` challenges with these results says of each of them.
abbrev pub Describes : ℕ → List CommunityChallenge → List (Option Outcome) → Verdict → Type 0
Describes n cs results (verified approval comment update) =
    (failures cs results (indexes 0 n) ≡ [])
    × (pendings cs results (indexes 0 n) ≡ [])
    × (approval ≡ wants_approval cs results (indexes 0 n))
Describes n cs results (rejected errors reason name_failures) =
    (errors ≢ []) × (errors ≡ failures cs results (indexes 0 n))
Describes n cs results (awaiting pending approval deferred kept name_failures) =
    (failures cs results (indexes 0 n) ≡ [])
    × (pending ≢ [])
    × (pending ≡ pendings cs results (indexes 0 n))
    × (approval ≡ wants_approval cs results (indexes 0 n))
    × (kept ≡ results)

tally-Describes :
    (cs : List CommunityChallenge) (s : Board) (name_failures : List (Option NameFailure))
    (t : Tally)
    → Adds cs s.results empty_tally
        (failures cs s.results (indexes 0 (length cs)))
        (pendings cs s.results (indexes 0 (length cs)))
        (wants_approval cs s.results (indexes 0 (length cs)))
        t
    → Describes (length cs) cs s.results (verdict_of_tally s name_failures t)
unfolding verdict_of_tally
tally-Describes cs s name_failures t h = elim (is_empty-cases t.errors) [
  | inr (failed, some_error) ↦ rw failed (some_error, h.errors)
  | inl clean ↦ elim (is_empty-cases t.pending) [
    | inl done ↦
        rw (ap is_empty clean, ap is_empty done)
          (cc (h.errors, clean), cc (h.pending, done), h.approval)
    | inr (waits, some_pending) ↦
        rw (ap is_empty clean, waits)
          (cc (h.errors, clean), some_pending, h.pending, h.approval, refl)
  ]
]

-- The verdict of a request that did not throw: it is rejected exactly with the errors of the
-- failed challenges that no rule excludes, if there are any; else it waits for exactly the pending
-- challenges that no rule excludes, if there are any; else it is verified. A verified or waiting
-- one carries whether a success that counts wants the owner's approval.
pub classify-Describes :
    (names : ReservedNames) (cs : List CommunityChallenge)
    (name_failures : List (Option NameFailure)) (s : Board)
    → Returns (Describes (length cs) cs s.results) (classify names cs name_failures s)
unfolding classify
classify-Describes names cs name_failures s =
    Returns->>= _ (Describes (length cs) cs s.results)
      (tally names cs s.results (indexes 0 (length cs)) empty_tally) _
      (tally-Adds cs s.results names (indexes 0 (length cs)) empty_tally)
      (λ t h. tally-Describes cs s name_failures t h)
