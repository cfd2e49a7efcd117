-- ===== src/Challenges/Proofs/Resolution.antt =====
-- The resolution loop ends, decides every challenge, and calls none twice.
use pkc_js.Base.{
  subst, ℕ, zero, suc, ◌+◌, ◌≤◌, ◌<◌, ◌≡◌, Bool, true, false, ◌||◌, some, List, [], ◌∷◌, length,
  bit, arith, Bool-cases, inl, inr, All, Result, ok, throw, Option-cases, ◌>>=◌, Returns,
  Returns->>=, Result-cases,
}
use pkc_js.Challenges.{Outcome, RawOutcome, Error, call_get_challenge}
use pkc_js.Challenges.Dependencies.{is_decided}
use pkc_js.Challenges.Resolve.{Board, record_outcome, call_index, find_undecided, round, run_rounds}
use pkc_js.Challenges.Proofs.Boards.{
  remaining, remaining-set, find_undecided-eq-none, find_undecided-eq-some,
}

-- What a turn and a round do to a board, for an invariant `Inv` of boards: they keep it, and the
-- number of undecided challenges falls if there was progress.
pub record Progress (Inv : Board → Type 0) (s s' : Board) (moved : Bool) : Type 0 where
  pub kept : Inv s'
  pub falls : remaining s'.decided + bit moved ≤ remaining s.decided

pub stays : (Inv : Board → Type 0) (s : Board) → Inv s → Progress Inv s s false
stays Inv s c = record { kept = c; falls = omega arith }

pub call_index-Progress :
    (Inv : Board → Type 0) (get_challenge : ℕ → RawOutcome) (s : Board) (i : ℕ)
    → i < length s.decided
    → is_decided s.decided i ≡ false
    → ((o : Outcome) → Inv (record_outcome s i o))
    → Returns (λ s'. Progress Inv s s' true) (call_index get_challenge s i)
unfolding call_index record_outcome
call_index-Progress Inv get_challenge s i lt u keep =
    elim (call_get_challenge get_challenge i)
      as (λ r. Returns (λ s'. Progress Inv s s' true) (r >>= λ o. ok (record_outcome s i o))) [
        | ok o ↦ record { kept = keep o; falls = omega (arith, remaining-set s.decided i u lt) }
        | throw e ↦ tt
      ]

module _ (Inv Done : Board → Type 0) (n : ℕ) (measured : (s : Board) → Inv s → length s.decided ≡ n)
    (get_challenge : ℕ → RawOutcome) (turn : Board → ℕ → Result Error (Board × Bool))
    (stop : Board → Bool) (give_up : Board → Board) (is : List ℕ)
    (call_ok : (s : Board) (i : ℕ) (o : Outcome)
      → Inv s
      → i < n
      → is_decided s.decided i ≡ false
      → Inv (record_outcome s i o))
    (turn_ok : (s : Board) (i : ℕ)
      → Inv s
      → i < n
      → Returns (λ p. Progress Inv s p.0 p.1) (turn s i))
    (give_up_ok : (s : Board) → Inv s → Done (give_up s))
    (end_ok : (s : Board) → Inv s → remaining s.decided ≡ 0 → Done s)
    (is_ok : All (λ i. i < n) is) where
  joins :
      (s s' s'' : Board) (p q : Bool)
      → Progress Inv s s' p
      → Progress Inv s' s'' q
      → Progress Inv s s'' (p || q)
  joins s s' s'' p q h k = record { kept = k.kept; falls = ground (arith, h.falls, k.falls) }

  round-Progress :
      (rest : List ℕ) (s : Board)
      → Inv s
      → All (λ i. i < n) rest
      → Returns (λ p. Progress Inv s p.0 p.1) (round get_challenge turn stop give_up is rest s)
  unfolding round
  round-Progress [] s c h = record { kept = c; falls = omega arith }
  round-Progress (i ∷ rest) s c (lt, h) =
      Returns->>= (λ p. Progress Inv s p.0 p.1) (λ p. Progress Inv s p.0 p.1) (turn s i) _
        (turn_ok s i c lt)
        (λ p hp.
          Returns->>= (λ q. Progress Inv p.0 q.0 q.1) (λ q. Progress Inv s q.0 q.1)
            (round get_challenge turn stop give_up is rest p.0) _
            (round-Progress rest p.0 hp.kept h) (λ q hq. joins s p.0 q.0 p.1 q.1 hp hq))

  abbrev Ends : Board → ℕ → Type 0
  Ends s fuel =
      (r : Result Error Board) × (run_rounds get_challenge turn stop give_up is fuel s ≡ some r)
      × Returns Done r

  -- A round without progress, and what follows it.
  stalled :
      (fuel : ℕ) (s s' : Board)
      → round get_challenge turn stop give_up is is s ≡ ok (s', false)
      → Inv s'
      → remaining s'.decided < suc fuel
      → ((s'' : Board) → Inv s'' → remaining s''.decided < fuel → Ends s'' fuel)
      → Ends s (suc fuel)
  unfolding run_rounds
  stalled fuel s s' e c lt ih = elim (Option-cases (find_undecided 0 s'.decided)) [
    | inl none_left ↦
        (ok s', ground arith, end_ok s' c (find_undecided-eq-none 0 s'.decided none_left))
    | inr (k, found) ↦ elim (Bool-cases (stop s')) [
      | inl stops ↦ (ok (give_up s'), ground arith, give_up_ok s' c)
      | inr goes ↦
          let (j, same, below, u) = find_undecided-eq-some 0 s'.decided k found in
          let here : k ≡ j = omega arith in
          let open_k : is_decided s'.decided k ≡ false = rw here u in
          let lt_k : k < n = omega (arith, measured s' c) in
          elim (Result-cases (call_index get_challenge s' k)) [
            | inl (s'', called) ↦
                let p : Progress Inv s' s'' true =
                  subst (Returns (λ t. Progress Inv s' t true)) called (
                    call_index-Progress Inv get_challenge s' k (omega (arith, measured s' c)) open_k
                      (λ o. call_ok s' k o c lt_k open_k)) in
                let (r, run, settled) = ih s'' p.kept (omega arith) in
                (r, ground (arith, run), settled)
            | inr (err, failed) ↦ (throw err, ground arith, tt)
          ]
    ]
  ]

  -- With more fuel than undecided challenges the loop ends, and it decides them all or throws.
  pub run_rounds-Ends : (fuel : ℕ) (s : Board) → Inv s → remaining s.decided < fuel → Ends s fuel
  unfolding run_rounds
  run_rounds-Ends zero s c lt = absurd (omega arith)
  run_rounds-Ends (suc fuel) s c lt =
      elim (Result-cases (round get_challenge turn stop give_up is is s)) [
        | inr (err, failed) ↦ (throw err, ground arith, tt)
        | inl ((s', moved), went) ↦
            let p : Progress Inv s s' moved =
              subst (Returns (λ t. Progress Inv s t.0 t.1)) went (round-Progress is s c is_ok) in
            elim (Bool-cases moved) [
              | inl yes_moved ↦
                  let (r, run, settled) =
                    run_rounds-Ends fuel s' p.kept (ground (arith, p.falls)) in
                  (r, ground (arith, run), settled)
              | inr no_move ↦
                  stalled fuel s s' (cc (went, no_move)) p.kept (ground (arith, p.falls))
                    (run_rounds-Ends fuel)
            ]
      ]
