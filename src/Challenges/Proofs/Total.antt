-- ===== src/Challenges/Proofs/Total.antt =====
-- Every exchange ends: the fuel of neither loop runs out.
use pkc_js.Base.{
  ℕ, ◌<◌, ◌≡◌, ◌≢◌, Bool, Option, none, some, List, [], String, length, arith, inl, inr, All,
  Result, ok, throw, ◌>>=◌, Returns, Returns->>=, subst, Result-cases, Option-cases, is_empty,
  Bool-cases,
}
use pkc_js.Excludes.{CommunityChallenge, ShouldExclude, NameFailure}
use pkc_js.Challenges.{RawOutcome, Challenge, Error}
use pkc_js.Challenges.Extras.{ReservedNames}
use pkc_js.Challenges.Resolve.{Board, indexes, phase1_name_failures, phase1_decided}
use pkc_js.Challenges.Classify.{
  Tally, Verdict, verified, rejected, awaiting, tally, classify, verdict_of_tally, empty_tally,
  deferred_indexes, get_pending_challenges_or_challenge_verification,
}
use pkc_js.Challenges.Verification.{verify_answers, get_challenge_verification}
use pkc_js.Challenges.Proofs.Request.{Settled, resolve-Settled}
use pkc_js.Challenges.Proofs.Boards.{Consistent}
use pkc_js.Challenges.Proofs.Answer.{answers_end, deferred_indexes-lt}

-- The deferred challenges of a pending verdict are among the `n` of the request.
abbrev InRange : ℕ → Verdict → Type 0
InRange n (awaiting pending approval deferred results failures) = All (λ i. i < n) deferred
InRange n _ = Unit

verdict_of_tally-InRange :
    (n : ℕ) (s : Board) (failures : List (Option NameFailure)) (t : Tally)
    → length s.deferred ≡ n
    → InRange n (verdict_of_tally s failures t)
unfolding verdict_of_tally
verdict_of_tally-InRange n s failures t e =
    let bound : All (λ i. i < n) (deferred_indexes 0 s.deferred) =
      subst (λ m. All (λ i. i < m) (deferred_indexes 0 s.deferred)) (omega arith)
        (deferred_indexes-lt 0 s.deferred) in
    elim (Bool-cases (is_empty t.errors)) [
      | inr failed ↦ rw failed tt
      | inl clean ↦ elim (Bool-cases (is_empty t.pending)) [
        | inl done ↦ rw (clean, done) tt
        | inr waits ↦ rw (clean, waits) bound
      ]
    ]

classify-InRange :
    (names : ReservedNames) (cs : List CommunityChallenge) (failures : List (Option NameFailure))
    (s : Board)
    → length s.deferred ≡ length cs
    → Returns (InRange (length cs)) (classify names cs failures s)
unfolding classify
classify-InRange names cs failures s e =
    elim (tally names cs s.results (indexes 0 (length cs)) empty_tally)
      as (λ r. Returns (InRange (length cs)) (r >>= λ t. ok (verdict_of_tally s failures t))) [
        | ok t ↦ verdict_of_tally-InRange (length cs) s failures t e
        | throw err ↦ tt
      ]

module _ (names : ReservedNames) (is_comment : Bool)
    (get_challenge get_challenge_after : ℕ → RawOutcome) (excluded : ℕ → ShouldExclude)
    (cids_exclude : ℕ → Bool)
    (get_challenge_answers : List (ℕ × Challenge) → Option (List (Option String)))
    (cs : List CommunityChallenge) where
  request_ends :
      (r : Result Error Verdict) × (get_pending_challenges_or_challenge_verification names
          get_challenge excluded cids_exclude
          (some cs)
        ≡ some r)
      × Returns (InRange (length cs)) r
  unfolding get_pending_challenges_or_challenge_verification
  request_ends =
      let (b, run, settled) = resolve-Settled excluded cids_exclude cs get_challenge in
      (
        (do s ← b; classify names cs (phase1_name_failures excluded cids_exclude 0 (length cs)) s),
        rw (run, get_pending_challenges_or_challenge_verification),
        Returns->>=
            (Settled
              (Consistent (length cs) (phase1_decided excluded cids_exclude 0 (length cs)) []))
            (InRange (length cs)) b _ settled
            (λ s h. classify-InRange names cs _ s h.kept.deferred_length),
      )

  verify_answers-ne-none :
      (v : Verdict)
      → InRange (length cs) v
      → verify_answers names is_comment get_challenge get_challenge_after excluded cids_exclude
          get_challenge_answers cs v
        ≢ none
  unfolding verify_answers
  verify_answers-ne-none (verified a c u) h = cc
  verify_answers-ne-none (rejected e r f) h = cc
  verify_answers-ne-none (awaiting pending approval deferred results failures) h =
      elim (Option-cases (get_challenge_answers pending)) [
        | inl missing ↦ ground arith
        | inr (answers, given) ↦
            ground
              (arith, answers_end cs get_challenge_after deferred h names pending answers results)
      ]

  -- Every exchange about a request ends with a verification or an error, however the exclude rules
  -- of the challenges name one another, whatever the challenges return before and after the
  -- answers, and whatever the answers are: the fuel of the two loops never runs out.
  pub get_challenge_verification_ends :
      get_challenge_verification names is_comment get_challenge get_challenge_after excluded
        cids_exclude get_challenge_answers
        (some cs)
      ≢ none
  unfolding get_challenge_verification
  get_challenge_verification_ends =
      let (r, run, bound) = request_ends in
      elim (Result-cases r) [
        | inr (e, failed) ↦ ground (arith, run)
        | inl (v, good) ↦ ground (
          arith,
          run,
          verify_answers-ne-none v (subst (Returns (InRange (length cs))) good bound),
        )
      ]
