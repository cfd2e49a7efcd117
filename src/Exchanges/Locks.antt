-- ===== src/Exchanges/Locks.antt =====
-- The lock of src/runtime/node/community/local-community/challenges.ts, `_inFlightPublicationExchanges`:
-- its entries belong to handlers that are at work, and nobody waits for one that waits.
use pkc_js.Base.{
  ℕ, ◌<◌, ◌≡◌, ◌∙◌, inl, inr, refl, sym, ap, subst, String, Bool, true, ◌&&◌, ◌==◌, none, some,
  length, str_eq, eq_iff, if◌then◌else◌, arith, Bool-cases,
}
use pkc_js.Exchanges.{Exchanges, Phase, verifying, waiting, ended, phase_at}
use pkc_js.Exchanges.Steps.{Event, Reachable, start, next, no_exchanges}
use pkc_js.Exchanges.Effects.{
  Effect, quiet, began, moved, queued, locked, released, cleared, Moves, holds, is_past, lock_of,
  is_running,
}
use pkc_js.Exchanges.Moving.{is_orderly}
use pkc_js.Exchanges.Stepping.{step-Effect}
use pkc_js.Exchanges.Phases.{
  holds-is_past, holds_not_ended, not_both, Moves-cases, not_waiting, past_not_waiting, some_number,
  none_number, verifying_not_waiting, same_number, began_before, phase_of_self,
}

-- A lock belongs to a handler that is at work on its signature, and who waits, waits for a handler
-- that has its lock or has ended.
pub record IsSound (s : Exchanges) : Type 0 where
  pub owned : (n : String) (i : ℕ) → lock_of n s ≡ some i → holds n (phase_at i s) ≡ true
  pub behind :
      (i : ℕ) (n : String) (other : ℕ)
      → phase_at i s ≡ waiting n other
      → (other < length s.handlers) × (is_past (phase_at other s) ≡ true)

-- The phase of the handler that another waits for stays past.
past_after :
    (i other : ℕ) (new : Phase) (s t : Exchanges)
    → Moves i new s t
    → (is_past (phase_at i s) ≡ true → is_past new ≡ true)
    → is_past (phase_at other s) ≡ true
    → is_past (phase_at other t) ≡ true
past_after i other new s t m past h = elim (Moves-cases i other new s t m) [
  | inl (same, e) ↦ ap is_past e ∙ past (ap (λ k. is_past (phase_at k s)) same ∙ h)
  | inr (differ, e) ↦ ap is_past e ∙ h
]

behind_after :
    (i : ℕ) (new : Phase) (s t : Exchanges)
    → IsSound s
    → Moves i new s t
    → (is_past (phase_at i s) ≡ true → is_past new ≡ true)
    → ((n : String) (other : ℕ)
        → new ≡ waiting n other
        → (other < length s.handlers) × (is_past (phase_at other s) ≡ true))
    → (j : ℕ) (n : String) (other : ℕ) → phase_at j t ≡ waiting n other
    → (other < length t.handlers) × (is_past (phase_at other t) ≡ true)
behind_after i new s t h m past queue j n other at =
    let old : (other < length s.handlers) × (is_past (phase_at other s) ≡ true) =
      elim (Moves-cases i j new s t m) [
        | inl (same, e) ↦ queue n other (sym e ∙ at)
        | inr (differ, e) ↦ h.behind j n other (sym e ∙ at)
      ] in
    (omega (arith, old.0, m.same_length), past_after i other new s t m past old.1)

-- The owner of a lock that did not change is not the handler that moved, or holds the lock still.
owned_after :
    (i j : ℕ) (n : String) (new : Phase) (s t : Exchanges)
    → IsSound s
    → Moves i new s t
    → (i ≡ j → holds n new ≡ true)
    → lock_of n s ≡ some j
    → holds n (phase_at j t) ≡ true
owned_after i j n new s t h m still e = elim (Moves-cases i j new s t m) [
  | inl (same, f) ↦ ap (holds n) f ∙ still same
  | inr (differ, f) ↦ ap (holds n) f ∙ h.owned n j e
]

pub Effect-IsSound : (orderly : Bool) (s t : Exchanges) → Effect orderly s t → IsSound s → IsSound t
Effect-IsSound orderly s t (quiet phases same_length locks) h = record {
  owned = λ n i e. ap (holds n) (phases i) ∙ h.owned n i (sym (locks n) ∙ e);
  behind = λ i n other at.
      let old = h.behind i n other (sym (phases i) ∙ at) in
      (omega (arith, old.0, same_length), ap is_past (phases other) ∙ old.1);
}
Effect-IsSound orderly s t (cleared _ phases same_length locks) h = record {
  owned = λ n i e. absurd (none_number i (sym (locks n) ∙ e));
  behind = λ i n other at.
      let old = h.behind i n other (sym (phases i) ∙ at) in
      (omega (arith, old.0, same_length), ap is_past (phases other) ∙ old.1);
}
Effect-IsSound orderly s t (began phases longer locks) h = record {
  owned = λ n i e.
      let before = h.owned n i (sym (locks n) ∙ e) in
      let there = is_running i s (holds_not_ended n (phase_at i s) before) in
      ap (holds n) (began_before i s t phases there) ∙ before;
  behind = λ i n other at. elim (Bool-cases (length s.handlers == i)) [
    | inl e ↦ absurd (
        verifying_not_waiting n other
          (sym (phases i ∙ ap (λ b. if b then verifying else phase_at i s) e) ∙ at))
    | inr e ↦
        let old =
          h.behind i n other
            (sym (phases i ∙ ap (λ b. if b then verifying else phase_at i s) e) ∙ at) in
        (omega (arith, old.0, longer), ap is_past (began_before other s t phases old.0) ∙ old.1)
  ];
}
Effect-IsSound orderly s t (moved i new m same past idle locks) h = record {
  owned = λ n j e.
      let before : lock_of n s ≡ some j = sym (locks n) ∙ e in
      owned_after i j n new s t h m
        (λ alike. same n ∙ ap (λ k. holds n (phase_at k s)) alike ∙ h.owned n j before) before;
  behind = behind_after i new s t h m past (λ n other e. absurd (not_waiting new idle n other e));
}
Effect-IsSound orderly s t (queued i signature other m idle lock locks) h = record {
  owned = λ n j e.
      let before : lock_of n s ≡ some j = sym (locks n) ∙ e in
      owned_after i j n (waiting signature other) s t h m
        (λ alike. absurd (
          not_both (is_past (phase_at i s))
            (ap (λ k. is_past (phase_at k s)) alike
              ∙ holds-is_past n (phase_at j s) (h.owned n j before))
            idle))
        before;
  behind =
      behind_after i (waiting signature other) s t h m
        (λ past. absurd (not_both (is_past (phase_at i s)) past idle))
        (λ n k e.
          let owner = h.owned signature other lock in
          subst (λ j. (j < length s.handlers) × (is_past (phase_at j s) ≡ true))
            (same_number signature n other k e)
            (
              is_running other s (holds_not_ended signature (phase_at other s) owner),
              holds-is_past signature (phase_at other s) owner,
            ));
}
Effect-IsSound orderly s t (locked i signature new m idle same past free locks) h = record {
  owned = λ n j e. elim (Bool-cases (str_eq signature n)) [
    | inl f ↦
        let alike : i ≡ j =
          some_number i j (sym (locks n ∙ ap (λ b. if b then some i else lock_of n s) f) ∙ e) in
        ap (holds n) (phase_of_self i j new s t m alike) ∙ same n ∙ f
    | inr f ↦
        let before : lock_of n s ≡ some j =
          sym (locks n ∙ ap (λ b. if b then some i else lock_of n s) f) ∙ e in
        owned_after i j n new s t h m
          (λ alike. absurd (
            not_both (is_past (phase_at i s))
              (ap (λ k. is_past (phase_at k s)) alike
                ∙ holds-is_past n (phase_at j s) (h.owned n j before))
              idle))
          before
  ];
  behind =
      behind_after i new s t h m (λ old. past)
        (λ n other e. absurd (past_not_waiting new past n other e));
}
Effect-IsSound orderly s t (released i signature m holding own own_iff locks) h = record {
  owned = λ n j e. elim (Bool-cases (str_eq signature n && own)) [
    | inl f ↦
        absurd (none_number j (sym (locks n ∙ ap (λ b. if b then none else lock_of n s) f) ∙ e))
    | inr f ↦
        let before : lock_of n s ≡ some j =
          sym (locks n ∙ ap (λ b. if b then none else lock_of n s) f) ∙ e in
        owned_after i j n ended s t h m
          (λ alike.
            let mine : str_eq signature n ≡ true =
              sym (holding n) ∙ ap (λ k. holds n (phase_at k s)) alike ∙ h.owned n j before in
            let found : lock_of signature s ≡ some i =
              ap (λ k. lock_of k s) ((eq_iff signature n).0 mine) ∙ before ∙ ap some (sym alike) in
            absurd (not_both (str_eq signature n && own) (ground (arith, mine, own_iff.1 found)) f))
          before
  ];
  behind =
      behind_after i ended s t h m (λ old. refl)
        (λ n other e. absurd (past_not_waiting ended refl n other e));
}

no_exchanges-IsSound : IsSound no_exchanges
no_exchanges-IsSound = record {
  owned = λ n i e. absurd (none_number i e);
  behind =
      λ i n other at. absurd (past_not_waiting ended refl n other (sym (ap (λ p. p) refl) ∙ at));
}

-- In every state that comes about, whatever the order of the requests, answers, timeouts, failures and
-- stops, an entry of `_inFlightPublicationExchanges` belongs to a handler that is at work on that
-- signature, so no lock is left behind by a handler that has ended; and a handler that waits, waits for
-- one that is at work or has ended, so none waits for another that waits.
pub Reachable-IsSound : (allowed : Event → Bool) (s : Exchanges) → Reachable allowed s → IsSound s
Reachable-IsSound allowed s start = no_exchanges-IsSound
Reachable-IsSound allowed _ (next s t event before _ e) =
    Effect-IsSound (is_orderly event) s t (step-Effect event s t e)
      (Reachable-IsSound allowed s before)
