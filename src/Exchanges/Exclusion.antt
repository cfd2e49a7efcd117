-- ===== src/Exchanges/Exclusion.antt =====
-- One exchange at a time per signed publication in
-- src/runtime/node/community/local-community/challenges.ts, as long as no wait for the lock times out.
use pkc_js.Base.{
  ℕ, ◌≡◌, ◌∙◌, ◌⊎◌, inl, inr, refl, sym, ap, subst, String, true, ◌&&◌, ◌==◌, none, some, length,
  str_eq, eq_iff, if◌then◌else◌, arith, Bool-cases,
}
use pkc_js.Exchanges.{Exchanges, Phase, verifying, waiting, ended, phase_at}
use pkc_js.Exchanges.Steps.{Reachable, start, next}
use pkc_js.Exchanges.Effects.{
  Effect, quiet, began, moved, queued, locked, released, cleared, Moves, holds, lock_of,
}
use pkc_js.Exchanges.Moving.{is_orderly}
use pkc_js.Exchanges.Stepping.{step-Effect}
use pkc_js.Exchanges.Phases.{Moves-cases, not_both, some_number, none_number}

-- A handler at work on a signature has its lock.
IsExclusive : Exchanges → Type 0
IsExclusive s = (n : String) (i : ℕ) → holds n (phase_at i s) ≡ true → lock_of n s ≡ some i

-- The handler that moved, where it does not hold the lock now, and the others.
others_keep :
    (i j : ℕ) (n : String) (new : Phase) (s t : Exchanges)
    → IsExclusive s
    → Moves i new s t
    → holds n (phase_at j t) ≡ true
    → ((i ≡ j) × (holds n new ≡ true)) ⊎ ((i ≡ j → ⊥) × (lock_of n s ≡ some j))
unfolding IsExclusive
others_keep i j n new s t h m holding = elim (Moves-cases i j new s t m) [
  | inl (same, e) ↦ inl (same, sym (ap (holds n) e) ∙ holding)
  | inr (differ, e) ↦ inr (differ, h n j (sym (ap (holds n) e) ∙ holding))
]

Effect-IsExclusive : (s t : Exchanges) → Effect true s t → IsExclusive s → IsExclusive t
unfolding IsExclusive
Effect-IsExclusive s t (quiet phases _ locks) h n j holding =
    locks n ∙ h n j (sym (ap (holds n) (phases j)) ∙ holding)
Effect-IsExclusive s t (cleared orderly _ _ _) h n j holding = absurd (not_both true refl orderly)
Effect-IsExclusive s t (began phases _ locks) h n j holding =
    elim (Bool-cases (length s.handlers == j)) [
      | inl e ↦
          let fresh : phase_at j t ≡ verifying =
            phases j ∙ ap (λ b. if b then verifying else phase_at j s) e in
          absurd (not_both true refl (sym holding ∙ ap (holds n) fresh))
      | inr e ↦
          let kept : phase_at j t ≡ phase_at j s =
            phases j ∙ ap (λ b. if b then verifying else phase_at j s) e in
          locks n ∙ h n j (sym (ap (holds n) kept) ∙ holding)
    ]
Effect-IsExclusive s t (moved i new m same past idle locks) h n j holding =
    locks n ∙ (elim (others_keep i j n new s t h m holding) [
      | inl (alike, its) ↦ h n j (ap (λ k. holds n (phase_at k s)) (sym alike) ∙ sym (same n) ∙ its)
      | inr (differ, lock) ↦ lock
    ])
Effect-IsExclusive s t (queued i signature other m idle lock locks) h n j holding =
    locks n ∙ (elim (others_keep i j n (waiting signature other) s t h m holding) [
      | inl (alike, its) ↦ absurd (not_both true refl (sym its))
      | inr (differ, lock) ↦ lock
    ])
Effect-IsExclusive s t (locked i signature new m idle same past free locks) h n j holding =
    elim (others_keep i j n new s t h m holding) [
      | inl (alike, its) ↦
          let mine : str_eq signature n ≡ true = sym (same n) ∙ its in
          locks n ∙ ap (λ b. if b then some i else lock_of n s) mine ∙ ap some alike
      | inr (differ, lock) ↦ elim (Bool-cases (str_eq signature n)) [
        | inl e ↦ absurd (
            none_number j
              (sym (free refl) ∙ ap (λ k. lock_of k s) ((eq_iff signature n).0 e) ∙ lock))
        | inr e ↦ locks n ∙ ap (λ b. if b then some i else lock_of n s) e ∙ lock
      ]
    ]
Effect-IsExclusive s t (released i signature m had own own_iff locks) h n j holding =
    elim (others_keep i j n ended s t h m holding) [
      | inl (alike, its) ↦ absurd (not_both true refl (sym its))
      | inr (differ, lock) ↦ elim (Bool-cases (str_eq signature n && own)) [
        | inl e ↦
            let both : (str_eq signature n ≡ true) × (own ≡ true) = ground (arith, e) in
            absurd (
              differ (
                some_number i j (
                  sym (own_iff.0 both.1)
                  ∙ ap (λ k. lock_of k s) ((eq_iff signature n).0 both.0)
                  ∙ lock)))
        | inr e ↦ locks n ∙ ap (λ b. if b then none else lock_of n s) e ∙ lock
      ]
    ]

Reachable-IsExclusive : (s : Exchanges) → Reachable is_orderly s → IsExclusive s
unfolding IsExclusive
Reachable-IsExclusive s start n i holding = absurd (not_both true refl (sym holding))
Reachable-IsExclusive _ (next s t event before orderly e) n i holding =
    Effect-IsExclusive s t (subst (λ b. Effect b s t) orderly (step-Effect event s t e))
      (Reachable-IsExclusive s before) n i holding

-- As long as no wait for the lock times out and the community is not stopped, at most one handler is
-- at work on a signed publication, whatever requests, answers and failures come in whatever order, and
-- the lock names that handler.
pub one_exchange_at_a_time :
    (s : Exchanges) (n : String) (i j : ℕ)
    → Reachable is_orderly s
    → holds n (phase_at i s) ≡ true
    → holds n (phase_at j s) ≡ true
    → (i ≡ j) × (lock_of n s ≡ some i)
unfolding IsExclusive
one_exchange_at_a_time s n i j reachable first second =
    let owner = Reachable-IsExclusive s reachable n i first in
    (some_number i j (sym owner ∙ Reachable-IsExclusive s reachable n j second), owner)
