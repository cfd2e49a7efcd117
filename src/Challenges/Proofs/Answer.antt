-- ===== src/Challenges/Proofs/Answer.antt =====
-- Answer time: the resolution of the deferred challenges ends, and so does the whole exchange.
use pkc_js.Base.{
  ℕ, zero, suc, ◌+◌, ◌≤◌, ◌<◌, ◌≡◌, ◌≢◌, refl, Bool, true, false, Option, none, some, List, [], ◌∷◌,
  String, length, arith, Bool-cases, inl, inr, All, Result, ok, Returns, Returns->>=, replicate,
  set, length-set, subst, Result-cases,
}
use pkc_js.Excludes.{CommunityChallenge}
use pkc_js.Challenges.{Outcome, RawOutcome, Challenge, Error}
use pkc_js.Challenges.Extras.{ReservedNames}
use pkc_js.Challenges.Dependencies.{
  is_decided, Decision, exclude, defer, ready, skip, evaluate_phase2_exclusion,
}
use pkc_js.Challenges.Resolve.{Board, exclude_index, record_outcome, any_decided_failure_is_final}
use pkc_js.Challenges.Answers.{
  try_deferred, resolve_deferred, decide, undecide, decide_deferred, answer_board, settle_deferred,
  hydrate, verify_pending, verified_results, get_challenge_verification_from_challenge_answers,
}
use pkc_js.Challenges.Classify.{deferred_indexes}
use pkc_js.Challenges.Proofs.Boards.{remaining, remaining-set}
use pkc_js.Challenges.Proofs.Resolution.{Progress, call_index-Progress, stays, run_rounds-Ends}

abbrev Sized : ℕ → Board → Type 0
Sized n s = length s.decided ≡ n

module _ (n : ℕ) (cs : List CommunityChallenge) (get_challenge : ℕ → RawOutcome) where
  excludes :
      (s : Board) (i : ℕ)
      → Sized n s
      → i < n
      → is_decided s.decided i ≡ false
      → Progress (Sized n) s (exclude_index s i) true
  unfolding exclude_index
  excludes s i c lt u = record {
    kept = omega (arith, length-set s.decided i true);
    falls = omega (arith, remaining-set s.decided i u (omega arith));
  }

  records :
      (s : Board) (i : ℕ) (o : Outcome)
      → Sized n s
      → i < n
      → is_decided s.decided i ≡ false
      → Sized n (record_outcome s i o)
  unfolding record_outcome
  records s i o c lt u = omega (arith, length-set s.decided i true)

  try_decision-Progress :
      (s : Board) (i : ℕ) (d : Decision)
      → evaluate_phase2_exclusion cs s.decided s.results i ≡ d
      → Sized n s
      → i < n
      → is_decided s.decided i ≡ false
      → Returns (λ p. Progress (Sized n) s p.0 p.1) (try_deferred cs get_challenge s i)
  unfolding try_deferred
  try_decision-Progress s i skip e c lt u = rw (u, e) (stays (Sized n) s c)
  try_decision-Progress s i exclude e c lt u = rw (u, e) (excludes s i c lt u)
  try_decision-Progress s i defer e c lt u = rw (u, e) (excludes s i c lt u)
  try_decision-Progress s i ready e c lt u =
      rw (u, e)
        (Returns->>= (λ s'. Progress (Sized n) s s' true) (λ p. Progress (Sized n) s p.0 p.1) _
          (λ s'. ok (s', true))
          (call_index-Progress (Sized n) get_challenge s i (omega arith) u
            (λ o. records s i o c lt u))
          (λ s' h. h))

  try_deferred-Progress :
      (s : Board) (i : ℕ)
      → Sized n s
      → i < n
      → Returns (λ p. Progress (Sized n) s p.0 p.1) (try_deferred cs get_challenge s i)
  unfolding try_deferred
  try_deferred-Progress s i c lt = elim (Bool-cases (is_decided s.decided i)) [
    | inl done ↦ rw done (stays (Sized n) s c)
    | inr u ↦
        try_decision-Progress s i (evaluate_phase2_exclusion cs s.decided s.results i) refl c lt u
  ]

length-decide : (is : List ℕ) (ds : List Bool) → length (decide is ds) ≡ length ds
length-decide [] ds = refl
length-decide (i ∷ is) ds = omega (arith, length-decide is (set ds i true), length-set ds i true)

length-undecide : (is : List ℕ) (ds : List Bool) → length (undecide is ds) ≡ length ds
length-undecide [] ds = refl
length-undecide (i ∷ is) ds =
    omega (arith, length-undecide is (set ds i false), length-set ds i false)

remaining-le-length : (ds : List Bool) → remaining ds ≤ length ds
remaining-le-length [] = omega arith
remaining-le-length (d ∷ ds) = ground (arith, remaining-le-length ds)

length-replicate : (n : ℕ) (b : Bool) → length (replicate n b) ≡ n
length-replicate zero b = refl
length-replicate (suc n) b = omega (arith, length-replicate n b)

module _ (cs : List CommunityChallenge) (get_challenge : ℕ → RawOutcome) (deferred : List ℕ)
    (in_range : All (λ i. i < length cs) deferred) where
  resolve_deferred_ends :
      (results : List (Option Outcome))
      → (r : Result Error Board) × (resolve_deferred cs get_challenge deferred
            (suc (length cs))
            (answer_board (length cs) deferred results)
          ≡ some r)
        × Returns (Sized (length cs)) r
  unfolding resolve_deferred answer_board
  resolve_deferred_ends results =
      let n : ℕ = length cs in
      let start : Board = answer_board n deferred results in
      let size : Sized n start =
        omega (arith, length-undecide deferred (replicate n true), length-replicate n true) in
      run_rounds-Ends (Sized n) (Sized n) n (λ s c. c) get_challenge (try_deferred cs get_challenge)
        (any_decided_failure_is_final cs get_challenge) (decide_deferred deferred) deferred
        (records n cs get_challenge) (try_deferred-Progress n cs get_challenge)
        (λ s c. unfold decide_deferred in omega (arith, length-decide deferred s.decided))
        (λ s c e. c) in_range (suc n) start size
        (omega (arith, remaining-le-length (undecide deferred (replicate n true)), size))

  settle_deferred-ne-none :
      (results : List (Option Outcome)) → settle_deferred cs get_challenge deferred results ≢ none
  unfolding settle_deferred
  settle_deferred-ne-none results =
      let (r, run, size) = resolve_deferred_ends results in ground (arith, run)

  pub answers_end :
      (names : ReservedNames) (pending : List (ℕ × Challenge)) (answers : List (Option String))
      (results : List (Option Outcome))
      → get_challenge_verification_from_challenge_answers names cs get_challenge pending answers
          deferred results
        ≢ none
  unfolding get_challenge_verification_from_challenge_answers
  answers_end names pending answers results =
      elim (Result-cases (verified_results (verify_pending 0 answers pending))) [
        | inr (e, failed) ↦ ground arith
        | inl (rs, good) ↦ ground (arith, settle_deferred-ne-none (hydrate rs results))
      ]

pub deferred_indexes-lt :
    (from : ℕ) (fs : List Bool) → All (λ i. i < from + length fs) (deferred_indexes from fs)
deferred_indexes-lt from [] = tt
deferred_indexes-lt from (f ∷ fs) =
    let later : All (λ i. i < from + suc (length fs)) (deferred_indexes (suc from) fs) =
      subst (λ m. All (λ i. i < m) (deferred_indexes (suc from) fs)) (omega arith)
        (deferred_indexes-lt (suc from) fs) in
    elim (Bool-cases f) [ inl put_off ↦ rw put_off (omega arith, later) | inr kept ↦ rw kept later ]
