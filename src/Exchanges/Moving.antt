-- ===== src/Exchanges/Moving.antt =====
-- Changes of one phase or one lock in src/runtime/node/community/local-community/challenges.ts, as effects.
use pkc_js.Base.{
  ℕ, ◌≡◌, ◌∙◌, ◌↔◌, refl, sym, ap, subst, String, Bool, true, false, ◌&&◌, ◌==◌, Option, none, some,
  List, str_eq, eq_iff, lookup, assign, erase, lookup-assign, lookup-erase, if◌then◌else◌, arith,
  Option-cases, inl, inr,
}
use pkc_js.Exchanges.{
  Exchanges, Phase, verifying, parsing, waiting, validating, deciding, asking, publishing, ended,
  phase_at, set_phase, claim_or_wait, register, finish,
}
use pkc_js.Exchanges.Steps.{Event, timed_out, stopped, is_ended}
use pkc_js.Exchanges.Effects.{
  Effect, moved, queued, locked, released, holds, is_past, is_waiting, lock_of,
  set_phase-Moves_after,
}

-- Without a timeout of the lock and without `stop`.
abbrev pub is_orderly : Event → Bool
is_orderly (timed_out i) = false
is_orderly stopped = false
is_orderly _ = true

-- The effect of a state that is the result of a step.
unfoldable pub Comes : Bool → Exchanges → Option Exchanges → Type 0
Comes orderly s result = (t : Exchanges) → result ≡ some t → Effect orderly s t

pub some_inj : (x y : Exchanges) → some x ≡ some y → x ≡ y
some_inj x y f = cc

pub Comes-some : (orderly : Bool) (s t : Exchanges) → Effect orderly s t → Comes orderly s (some t)
unfolding Comes
Comes-some orderly s t effect u e = subst (Effect orderly s) (some_inj t u e) effect

pub Comes-none : (orderly : Bool) (s : Exchanges) → Comes orderly s none
unfolding Comes
Comes-none orderly s u e = cc

-- A change of the phase that keeps the locks.
pub goes_to :
    (i : ℕ) (old new : Phase) (s u : Exchanges)
    → phase_at i s ≡ old
    → is_ended old ≡ false
    → u.handlers ≡ s.handlers
    → u.in_flight ≡ s.in_flight
    → ((n : String) → holds n new ≡ holds n old)
    → (is_past old ≡ true → is_past new ≡ true)
    → is_waiting new ≡ false
    → Comes true s (some (set_phase i new u))
goes_to i old new s u at running handlers locks same past idle =
    Comes-some true s (set_phase i new u) (
      moved i new (set_phase-Moves_after i new s u handlers (ap is_ended at ∙ running))
        (λ n. same n ∙ sym (ap (holds n) at)) (λ e. past (sym (ap is_past at) ∙ e)) idle
        (λ n. ap (lookup str_eq n) locks))

pub not_ended : (phase : Phase) → is_past phase ≡ false → is_ended phase ≡ false
not_ended verifying h = refl
not_ended parsing h = refl
not_ended (waiting sig other) h = refl
not_ended (validating sig waited) h = refl
not_ended (deciding sig) h = refl
not_ended (asking sig) h = refl
not_ended (publishing sig success) h = refl
not_ended ended h = cc

pub register-Comes :
    (orderly waited : Bool) (i : ℕ) (signature : String) (s : Exchanges)
    → is_past (phase_at i s) ≡ false
    → (orderly ≡ true → lock_of signature s ≡ none)
    → Comes orderly s (some (register i signature waited s))
unfolding register
register-Comes orderly waited i signature s idle free =
    Comes-some orderly s (register i signature waited s) (
      locked i signature (validating signature waited)
        (set_phase-Moves_after i (validating signature waited) s
          (record s { in_flight = assign str_eq signature i s.in_flight }) refl
          (not_ended (phase_at i s) idle))
        idle (λ n. refl) refl free (λ n. lookup-assign str_eq eq_iff signature n i s.in_flight))

pub claim_or_wait-Comes :
    (waited : Bool) (i : ℕ) (signature : String) (s : Exchanges)
    → is_past (phase_at i s) ≡ false
    → Comes true s (some (claim_or_wait i signature waited s))
unfolding claim_or_wait
claim_or_wait-Comes waited i signature s idle = elim (Option-cases (lock_of signature s)) [
  | inl e ↦ rw (claim_or_wait, e) (register-Comes true waited i signature s idle (λ h. e))
  | inr (other, e) ↦
      rw (claim_or_wait, e)
        (Comes-some true s (set_phase i (waiting signature other) s) (
          queued i signature other
            (set_phase-Moves_after i (waiting signature other) s s refl
              (not_ended (phase_at i s) idle))
            idle e (λ n. refl)))
]

abbrev pub is_own : ℕ → Option ℕ → Bool
is_own i none = false
is_own i (some j) = i == j

pub is_own_iff : (i : ℕ) (found : Option ℕ) → (is_own i found ≡ true) ↔ (found ≡ some i)
is_own_iff i none = ground arith
is_own_iff i (some j) = ground arith

pub erased :
    (own : Bool) (signature n : String) (locks : List (String × ℕ))
    → lookup str_eq n (if own then erase str_eq signature locks else locks)
      ≡ (if str_eq signature n && own then none else lookup str_eq n locks)
erased true signature n locks =
    let same : str_eq signature n ≡ str_eq signature n && true = ground arith in
    lookup-erase str_eq eq_iff signature n locks
    ∙ ap (λ b. if b then none else lookup str_eq n locks) same
erased false signature n locks =
    let never : false ≡ str_eq signature n && false = ground arith in
    ap (λ b. if b then none else lookup str_eq n locks) never

-- `u` is the state before the `finally`.
pub finish-Comes :
    (i : ℕ) (signature : String) (s u : Exchanges)
    → is_ended (phase_at i s) ≡ false
    → ((n : String) → holds n (phase_at i s) ≡ str_eq signature n)
    → u.handlers ≡ s.handlers
    → u.in_flight ≡ s.in_flight
    → Comes true s (some (finish i signature u))
unfolding finish
finish-Comes i signature s u running holding handlers locks =
    Comes-some true s (finish i signature u) (
      released i signature
        (set_phase-Moves_after i ended s
          (record u {
            in_flight =
                if is_own i (lock_of signature u)
                then erase str_eq signature u.in_flight
                else u.in_flight;
          })
          handlers running)
        holding (is_own i (lock_of signature u))
        (subst (λ found. (is_own i (lock_of signature u) ≡ true) ↔ (found ≡ some i))
          (ap (lookup str_eq signature) locks) (is_own_iff i (lock_of signature u)))
        (λ n.
          erased (is_own i (lock_of signature u)) signature n u.in_flight
          ∙ ap
              (λ found.
                if str_eq signature n && is_own i (lock_of signature u) then none else found)
              (ap (lookup str_eq n) locks)))
