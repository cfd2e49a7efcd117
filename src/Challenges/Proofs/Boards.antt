-- ===== src/Challenges/Proofs/Boards.antt =====
-- What each change of the board keeps: a challenge is decided at most once, in one way.
use pkc_js.Base.{
  ℕ, zero, suc, ◌+◌, ◌≤◌, ◌<◌, ◌≡◌, refl, Bool, true, false, not, ◌||◌, Option, none, some, List,
  [], ◌∷◌, map, set, length, ◌==◌, bit, is_some, arith, length-set,
}
use pkc_js.Challenges.{Outcome}
use pkc_js.Challenges.Dependencies.{is_decided, outcome_at}
use pkc_js.Challenges.Resolve.{
  Board, exclude_index, defer_index, record_outcome, defer_rest, defer_undecided, find_undecided,
}

-- How often `getChallenge` ran for challenge `k`.
abbrev pub times_called : ℕ → List ℕ → ℕ
times_called k [] = 0
times_called k (i ∷ is) = bit (i == k) + times_called k is

-- How many challenges are undecided.
abbrev pub remaining : List Bool → ℕ
remaining [] = 0
remaining (d ∷ ds) = bit (not d) + remaining ds

-- The board of `n` challenges, of which those of `first` were decided at the start, with the
-- results `before`. Each challenge is at most one of decided then, called and deferred, and is
-- decided if it is one; its slot is filled just when it was filled before or the challenge called.
pub record Consistent (n : ℕ) (first : List Bool) (before : List (Option Outcome)) (s : Board)
    : Type 0 where
  pub decided_length : length s.decided ≡ n
  pub deferred_length : length s.deferred ≡ n
  pub results_length : length s.results ≡ n
  pub exclusive :
      (k : ℕ)
      → bit (is_decided first k) + (bit (is_decided s.deferred k) + times_called k s.calls)
        ≤ bit (is_decided s.decided k)
  pub prior : (k : ℕ) → bit (is_some (outcome_at before k)) ≤ bit (is_decided first k)
  pub filled :
      (k : ℕ)
      → bit (is_some (outcome_at before k)) + times_called k s.calls
        ≡ bit (is_some (outcome_at s.results k))

pub remaining-set :
    (ds : List Bool) (i : ℕ)
    → is_decided ds i ≡ false
    → i < length ds
    → remaining (set ds i true) + 1 ≡ remaining ds
remaining-set [] i h lt = absurd (omega arith)
remaining-set (d ∷ ds) zero h lt = ground arith
remaining-set (d ∷ ds) (suc i) h lt = omega (arith, remaining-set ds i h (omega arith))

pub find_undecided-eq-none :
    (from : ℕ) (ds : List Bool) → find_undecided from ds ≡ none → remaining ds ≡ 0
find_undecided-eq-none from [] h = refl
find_undecided-eq-none from (d ∷ ds) h = ground (arith, find_undecided-eq-none (suc from) ds)

pub find_undecided-eq-some :
    (from : ℕ) (ds : List Bool) (k : ℕ)
    → find_undecided from ds ≡ some k
    → (j : ℕ) × (k ≡ from + j) × (j < length ds) × (is_decided ds j ≡ false)
find_undecided-eq-some from [] k h = cc
find_undecided-eq-some from (true ∷ ds) k h =
    let (j, e, lt, u) = find_undecided-eq-some (suc from) ds k h in
    (suc j, omega arith, omega arith, u)
find_undecided-eq-some from (false ∷ ds) k h = (0, ground arith, omega arith, refl)

pub remaining_of_map : (ds : List Bool) → remaining (map (λ _. true) ds) ≡ 0
remaining_of_map [] = refl
remaining_of_map (d ∷ ds) = omega (arith, remaining_of_map ds)

pub remaining-eq-zero :
    (ds : List Bool) (k : ℕ) → remaining ds ≡ 0 → k < length ds → is_decided ds k ≡ true
remaining-eq-zero [] k h lt = absurd (omega arith)
remaining-eq-zero (d ∷ ds) zero h lt = ground arith
remaining-eq-zero (d ∷ ds) (suc k) h lt = remaining-eq-zero ds k (omega arith) (omega arith)

is_decided-set :
    (ds : List Bool) (i k : ℕ)
    → i < length ds
    → is_decided (set ds i true) k ≡ (i == k || is_decided ds k)
is_decided-set [] i k lt = absurd (omega arith)
is_decided-set (d ∷ ds) zero zero lt = refl
is_decided-set (d ∷ ds) zero (suc k) lt = ground arith
is_decided-set (d ∷ ds) (suc i) zero lt = ground arith
is_decided-set (d ∷ ds) (suc i) (suc k) lt = ground (arith, is_decided-set ds i k (omega arith))

outcome_at-set :
    (rs : List (Option Outcome)) (i k : ℕ) (o : Outcome)
    → i < length rs
    → is_some (outcome_at (set rs i (some o)) k) ≡ (i == k || is_some (outcome_at rs k))
outcome_at-set [] i k o lt = absurd (omega arith)
outcome_at-set (r ∷ rs) zero zero o lt = refl
outcome_at-set (r ∷ rs) zero (suc k) o lt = ground arith
outcome_at-set (r ∷ rs) (suc i) zero o lt = ground arith
outcome_at-set (r ∷ rs) (suc i) (suc k) o lt = ground (arith, outcome_at-set rs i k o (omega arith))

length-map-true : (ds : List Bool) → length (map (λ _. true) ds) ≡ length ds
length-map-true [] = refl
length-map-true (d ∷ ds) = omega (arith, length-map-true ds)

length-defer_undecided :
    (ds fs : List Bool) → length ds ≡ length fs → length (defer_undecided ds fs) ≡ length fs
length-defer_undecided [] fs e = refl
length-defer_undecided (d ∷ ds) [] e = refl
length-defer_undecided (d ∷ ds) (f ∷ fs) e =
    omega (arith, length-defer_undecided ds fs (omega arith))

-- Deferring what is left: a decided challenge keeps its flag, and an open one gets it.
defer_rest_bits :
    (ds fs : List Bool) (k m : ℕ)
    → length ds ≡ length fs
    → m + bit (is_decided fs k) ≤ bit (is_decided ds k)
    → m + bit (is_decided (defer_undecided ds fs) k) ≤ bit (is_decided (map (λ _. true) ds) k)
defer_rest_bits [] [] k m e h = h
defer_rest_bits [] (f ∷ fs) k m e h = absurd (omega arith)
defer_rest_bits (d ∷ ds) [] k m e h = absurd (omega arith)
defer_rest_bits (d ∷ ds) (f ∷ fs) zero m e h = ground arith
defer_rest_bits (d ∷ ds) (f ∷ fs) (suc k) m e h = defer_rest_bits ds fs k m (omega arith) h

module _ (n : ℕ) (first : List Bool) (before : List (Option Outcome)) (s : Board)
    (c : Consistent n first before s) where
  module _ (i : ℕ) (lt : i < n) (open_index : is_decided s.decided i ≡ false) where
    pub exclude_index-Consistent : Consistent n first before (exclude_index s i)
    unfolding exclude_index
    exclude_index-Consistent = record {
      decided_length = omega (arith, length-set s.decided i true, c.decided_length);
      deferred_length = c.deferred_length;
      results_length = c.results_length;
      exclusive = λ k.
          ground
            (arith, is_decided-set s.decided i k (omega (arith, c.decided_length)), c.exclusive k);
      prior = c.prior;
      filled = c.filled;
    }

    pub defer_index-Consistent : Consistent n first before (defer_index s i)
    unfolding defer_index
    defer_index-Consistent = record {
      decided_length = omega (arith, length-set s.decided i true, c.decided_length);
      deferred_length = omega (arith, length-set s.deferred i true, c.deferred_length);
      results_length = c.results_length;
      exclusive = λ k. ground (
        arith,
        is_decided-set s.decided i k (omega (arith, c.decided_length)),
        is_decided-set s.deferred i k (omega (arith, c.deferred_length)),
        c.exclusive k,
      );
      prior = c.prior;
      filled = c.filled;
    }

    pub record_outcome-Consistent : (o : Outcome) → Consistent n first before (record_outcome s i o)
    unfolding record_outcome
    record_outcome-Consistent o = record {
      decided_length = omega (arith, length-set s.decided i true, c.decided_length);
      deferred_length = c.deferred_length;
      results_length = omega (arith, length-set s.results i (some o), c.results_length);
      exclusive = λ k.
          ground
            (arith, is_decided-set s.decided i k (omega (arith, c.decided_length)), c.exclusive k);
      prior = c.prior;
      filled = λ k. ground (
        arith,
        outcome_at-set s.results i k o (omega (arith, c.results_length)),
        c.exclusive k,
        c.prior k,
        c.filled k,
      );
    }

  pub defer_rest-Consistent : Consistent n first before (defer_rest s)
  unfolding defer_rest
  defer_rest-Consistent = record {
    decided_length = omega (arith, length-map-true s.decided, c.decided_length);
    deferred_length = omega (
      arith,
      length-defer_undecided s.decided s.deferred
          (omega (arith, c.decided_length, c.deferred_length)),
      c.deferred_length,
    );
    results_length = c.results_length;
    exclusive = λ k. omega (
      arith,
      defer_rest_bits s.decided s.deferred k (bit (is_decided first k) + times_called k s.calls)
          (omega (arith, c.decided_length, c.deferred_length)) (omega (arith, c.exclusive k)),
    );
    prior = c.prior;
    filled = c.filled;
  }
