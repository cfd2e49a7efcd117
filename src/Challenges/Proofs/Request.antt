-- ===== src/Challenges/Proofs/Request.antt =====
-- Request time: the resolution of all challenges of a request.
use pkc_js.Base.{
  ℕ, zero, suc, ◌+◌, ◌≤◌, ◌<◌, ◌≡◌, refl, Bool, true, false, ◌||◌, Option, none, some, List, [],
  ◌∷◌, length, bit, arith, Bool-cases, inl, inr, All, Result, ok, throw, any, Returns, Returns->>=,
  replicate, subst, is_some,
}
use pkc_js.Excludes.{CommunityChallenge, ShouldExclude}
use pkc_js.Challenges.{Outcome, RawOutcome, Error}
use pkc_js.Challenges.Dependencies.{
  is_decided, outcome_at, is_pending, Decision, exclude, defer, ready, skip,
  evaluate_phase2_exclusion,
}
use pkc_js.Challenges.Resolve.{
  Board, indexes, call_index, defer_rest, try_index, resolve, any_decided_failure_is_final,
  start_board, phase1_decided,
}
use pkc_js.Challenges.Proofs.Boards.{
  times_called, remaining, Consistent, remaining-set, remaining_of_map, remaining-eq-zero,
  exclude_index-Consistent, defer_index-Consistent, record_outcome-Consistent,
  defer_rest-Consistent,
}
use pkc_js.Challenges.Proofs.Resolution.{Progress, call_index-Progress, stays, run_rounds-Ends}

module _ (n : ℕ) (first : List Bool) (before : List (Option Outcome)) (cs : List CommunityChallenge)
    (get_challenge : ℕ → RawOutcome) where
  try_decision-Progress :
      (s : Board) (i : ℕ) (d : Decision)
      → evaluate_phase2_exclusion cs s.decided s.results i ≡ d
      → Consistent n first before s
      → i < n
      → is_decided s.decided i ≡ false
      → Returns
          (λ p. Progress (Consistent n first before) s p.0 p.1)
          (try_index cs get_challenge s i)
  unfolding try_index
  try_decision-Progress s i skip e c lt u = rw (u, e) (stays (Consistent n first before) s c)
  try_decision-Progress s i exclude e c lt u =
      rw (u, e)
        (record {
          kept = exclude_index-Consistent n first before s c i lt u;
          falls = omega (arith, remaining-set s.decided i u (omega (arith, c.decided_length)));
        })
  try_decision-Progress s i defer e c lt u =
      rw (u, e)
        (record {
          kept = defer_index-Consistent n first before s c i lt u;
          falls = omega (arith, remaining-set s.decided i u (omega (arith, c.decided_length)));
        })
  try_decision-Progress s i ready e c lt u =
      rw (u, e)
        (Returns->>= (λ s'. Progress (Consistent n first before) s s' true)
          (λ p. Progress (Consistent n first before) s p.0 p.1) (call_index get_challenge s i)
          (λ s'. ok (s', true))
          (call_index-Progress (Consistent n first before) get_challenge s i
            (omega (arith, c.decided_length)) u
            (record_outcome-Consistent n first before s c i lt u))
          (λ s' h. h))

  try_index-Progress :
      (s : Board) (i : ℕ)
      → Consistent n first before s
      → i < n
      → Returns
          (λ p. Progress (Consistent n first before) s p.0 p.1)
          (try_index cs get_challenge s i)
  unfolding try_index
  try_index-Progress s i c lt = elim (Bool-cases (is_decided s.decided i)) [
    | inl done ↦ rw done (stays (Consistent n first before) s c)
    | inr u ↦
        try_decision-Progress s i (evaluate_phase2_exclusion cs s.decided s.results i) refl c lt u
  ]

-- A board that is consistent and has every challenge decided.
pub record Settled (Inv : Board → Type 0) (s : Board) : Type 0 where
  pub kept : Inv s
  pub complete : remaining s.decided ≡ 0

defer_rest-Settled :
    (n : ℕ) (first : List Bool) (before : List (Option Outcome)) (s : Board)
    → Consistent n first before s
    → Settled (Consistent n first before) (defer_rest s)
defer_rest-Settled n first before s c = record {
  kept = defer_rest-Consistent n first before s c;
  complete = unfold defer_rest in remaining_of_map s.decided;
}

All-indexes :
    {P : ℕ → Type 0} (from n : ℕ)
    → ((k : ℕ) → from ≤ k → k < from + n → P k)
    → All P (indexes from n)
All-indexes from zero h = tt
All-indexes from (suc n) h = (
  h from (omega arith) (omega arith),
  All-indexes (suc from) n (λ k a b. h k (omega arith) (omega arith)),
)

indexes_below : (n : ℕ) → All (λ i. i < n) (indexes 0 n)
indexes_below n = All-indexes 0 n (λ k a b. omega arith)

Returns-map :
    (P Q : Board → Type 0) (r : Result Error Board)
    → Returns P r
    → ((s : Board) → P s → Q s)
    → Returns Q r
Returns-map P Q (ok s) h f = f s h
Returns-map P Q (throw e) h f = tt

length-replicate {ℓ} : {A : Type ℓ} (n : ℕ) (a : A) → length (replicate n a) ≡ n
length-replicate zero a = refl
length-replicate (suc n) a = omega (arith, length-replicate n a)

get_or-replicate : (n : ℕ) (k : ℕ) → is_decided (replicate n false) k ≡ false
get_or-replicate zero k = refl
get_or-replicate (suc n) zero = refl
get_or-replicate (suc n) (suc k) = get_or-replicate n k

outcome_at-replicate : (n : ℕ) (k : ℕ) → outcome_at (replicate n none) k ≡ none
outcome_at-replicate zero k = refl
outcome_at-replicate (suc n) zero = refl
outcome_at-replicate (suc n) (suc k) = outcome_at-replicate n k

remaining-le-length : (ds : List Bool) → remaining ds ≤ length ds
remaining-le-length [] = omega arith
remaining-le-length (d ∷ ds) = ground (arith, remaining-le-length ds)

module _ (excluded : ℕ → ShouldExclude) (cids_exclude : ℕ → Bool) where
  length-phase1_decided : (from n : ℕ) → length (phase1_decided excluded cids_exclude from n) ≡ n
  unfolding phase1_decided
  length-phase1_decided from zero = refl
  length-phase1_decided from (suc n) = omega (arith, length-phase1_decided (suc from) n)

  -- The request excludes challenge `k` on its own, by its author or by its comment cids.
  abbrev pub excludes_alone : ℕ → Bool
  excludes_alone k = ShouldExclude.should_exclude (excluded k) || cids_exclude k

  is_decided-phase1_decided :
      (from n k : ℕ)
      → k < n
      → is_decided (phase1_decided excluded cids_exclude from n) k ≡ excludes_alone (from + k)
  unfolding phase1_decided
  is_decided-phase1_decided from zero k lt = absurd (omega arith)
  is_decided-phase1_decided from (suc n) zero lt = let e : from + 0 ≡ from = omega arith in rw e
  is_decided-phase1_decided from (suc n) (suc k) lt =
      let e : from + suc k ≡ suc from + k = omega arith in
      rw e (is_decided-phase1_decided (suc from) n k (omega arith))

  start_board-Consistent :
      (n : ℕ)
      → Consistent n
          (phase1_decided excluded cids_exclude 0 n)
          []
          (start_board excluded cids_exclude n)
  unfolding start_board
  start_board-Consistent n = record {
    decided_length = length-phase1_decided 0 n;
    deferred_length = length-replicate n false;
    results_length = length-replicate n none;
    exclusive = λ k. rw (get_or-replicate n k) (omega arith);
    prior = λ k. omega arith;
    filled = λ k. rw (outcome_at-replicate n k);
  }

  -- The outcome of a whole resolution, for each challenge `k`.
  pub record IsResolved (n : ℕ) (s : Board) (k : ℕ) : Type 0 where
    pub decided : is_decided s.decided k ≡ true
    pub exclusive :
        bit (excludes_alone k) + (bit (is_decided s.deferred k) + times_called k s.calls) ≤ 1
    pub called_for_result : bit (is_some (outcome_at s.results k)) ≡ times_called k s.calls

  phase1_decides :
      (n k : ℕ) → k < n → is_decided (phase1_decided excluded cids_exclude 0 n) k ≡ excludes_alone k
  phase1_decides n k lt =
      subst (λ m. is_decided (phase1_decided excluded cids_exclude 0 n) k ≡ excludes_alone m)
        (omega arith) (is_decided-phase1_decided 0 n k lt)

  start_board-remaining :
      (n : ℕ) → remaining (Board.decided (start_board excluded cids_exclude n)) < suc n
  unfolding start_board
  start_board-remaining n = omega (
    arith,
    remaining-le-length (phase1_decided excluded cids_exclude 0 n),
    length-phase1_decided 0 n,
  )

  Settled-IsResolved :
      (n : ℕ) (s : Board) (k : ℕ)
      → Settled (Consistent n (phase1_decided excluded cids_exclude 0 n) []) s
      → k < n
      → IsResolved n s k
  Settled-IsResolved n s k h lt =
      let c = h.kept in
      let d = remaining-eq-zero s.decided k h.complete (omega (arith, c.decided_length)) in
      record {
        decided = d;
        exclusive =
            subst (λ b. bit b + (bit (is_decided s.deferred k) + times_called k s.calls) ≤ 1)
              (phase1_decides n k lt) (ground (arith, c.exclusive k));
        called_for_result = ground (arith, c.filled k);
      }

  module _ (cs : List CommunityChallenge) (get_challenge : ℕ → RawOutcome) where
    -- The loop's end, with all that the boards keep.
    pub resolve-Settled :
        (r : Result Error Board) × (resolve cs get_challenge
            (suc (length cs))
            (start_board excluded cids_exclude (length cs))
          ≡ some r)
        × Returns
            (Settled
              (Consistent (length cs) (phase1_decided excluded cids_exclude 0 (length cs)) []))
            r
    unfolding resolve
    resolve-Settled =
        let n : ℕ = length cs in
        let first : List Bool = phase1_decided excluded cids_exclude 0 n in
        let start : Board = start_board excluded cids_exclude n in
        let c : Consistent n first [] start = start_board-Consistent n in
        run_rounds-Ends (Consistent n first []) (Settled (Consistent n first [])) n
          (λ s h. h.decided_length) get_challenge (try_index cs get_challenge)
          (λ s. any is_pending (Board.results s) || any_decided_failure_is_final cs get_challenge s)
          defer_rest (indexes 0 n)
          (λ s i o h lt u. record_outcome-Consistent n first [] s h i lt u o)
          (try_index-Progress n first [] cs get_challenge) (defer_rest-Settled n first [])
          (λ s c e. record { kept = c; complete = e }) (indexes_below n) (suc n) start c
          (start_board-remaining n)

    -- With one more round of fuel than there are challenges, the resolution of a request ends: a
    -- challenge's code throws, or every challenge is decided. Then each is at most one of excluded
    -- by the request alone, deferred, and called, its code ran at most once, and it has a result
    -- just when its code ran.
    pub resolve-IsResolved :
        (r : Result Error Board) × (resolve cs get_challenge
            (suc (length cs))
            (start_board excluded cids_exclude (length cs))
          ≡ some r)
        × Returns (λ s. All (IsResolved (length cs) s) (indexes 0 (length cs))) r
    resolve-IsResolved =
        let n : ℕ = length cs in
        let (r, run, settled) = resolve-Settled in
        (
          r,
          run,
          Returns-map (Settled (Consistent n (phase1_decided excluded cids_exclude 0 n) []))
              (λ s. All (IsResolved n s) (indexes 0 n)) r settled
              (λ s h. All-indexes 0 n (λ k from_zero lt. Settled-IsResolved n s k h (omega arith))),
        )
