-- ===== src/Exchanges/Progress.antt =====
-- No handler of src/runtime/node/community/local-community/challenges.ts is stuck: when the calls that
-- they wait for return, all come to their end.
use pkc_js.Base.{
  ℕ, zero, suc, ◌<◌, ◌≡◌, ◌∙◌, ◌⊎◌, inl, inr, refl, sym, ap, String, Bool, true, false, not, none,
  some, List, [], ◌∷◌, every, if◌then◌else◌, arith, Option-cases,
}
use pkc_js.Exchanges.{
  Exchanges, Phase, verifying, parsing, waiting, validating, deciding, asking, publishing, ended,
  phase_at, claim_or_wait, register,
}
use pkc_js.Exchanges.Steps.{Event, woken, step, is_ended, woken_at, Reachable}
use pkc_js.Exchanges.Effects.{holds, is_past, lock_of}
use pkc_js.Exchanges.Moving.{is_orderly}
use pkc_js.Exchanges.Stepping.{step-Effect}
use pkc_js.Exchanges.Locks.{IsSound, Effect-IsSound, Reachable-IsSound}
use pkc_js.Exchanges.Phases.{not_both}
use pkc_js.Exchanges.Measure.{
  is_return, run_events, total, is_active, find_phase, Return, nearer_end, active-Return,
}

holds_active : (n : String) (phase : Phase) → holds n phase ≡ true → is_active phase ≡ true
holds_active n verifying h = refl
holds_active n parsing h = refl
holds_active n (waiting sig other) h = cc
holds_active n (validating sig waited) h = refl
holds_active n (deciding sig) h = refl
holds_active n (asking sig) h = refl
holds_active n (publishing sig success) h = refl
holds_active n ended h = cc

past_and_idle :
    (phase : Phase) → is_past phase ≡ true → is_active phase ≡ false → is_ended phase ≡ true
past_and_idle verifying past idle = cc
past_and_idle parsing past idle = cc
past_and_idle (waiting sig other) past idle = cc
past_and_idle (validating sig waited) past idle = cc
past_and_idle (deciding sig) past idle = cc
past_and_idle (asking sig) past idle = cc
past_and_idle (publishing sig success) past idle = cc
past_and_idle ended past idle = refl

-- Where no handler is active, no lock is taken.
unlocked :
    (s : Exchanges) (n : String)
    → IsSound s
    → ((i : ℕ) → is_active (phase_at i s) ≡ false)
    → lock_of n s ≡ none
unlocked s n sound idle = elim (Option-cases (lock_of n s)) [
  | inl e ↦ e
  | inr (i, e) ↦ absurd (
      not_both (is_active (phase_at i s)) (holds_active n (phase_at i s) (sound.owned n i e))
        (idle i))
]

claimed :
    (i : ℕ) (sig : String) (s : Exchanges)
    → lock_of sig s ≡ none
    → claim_or_wait i sig true s ≡ register i sig true s
unfolding claim_or_wait
claimed i sig s free = rw (claim_or_wait, free) refl

woken-Return :
    (i : ℕ) (sig : String) (other : ℕ) (s : Exchanges)
    → IsSound s
    → ((j : ℕ) → is_active (phase_at j s) ≡ false)
    → phase_at i s ≡ waiting sig other
    → Return s
unfolding step claim_or_wait register
woken-Return i sig other s sound idle at =
    let settled : is_ended (phase_at other s) ≡ true =
      past_and_idle (phase_at other s) (sound.behind i sig other at).1 (idle other) in
    let free = unlocked s sig sound idle in
    record {
      event = woken i;
      after = register i sig true s;
      returns = refl;
      steps =
          ap (λ p. woken_at i p s) at
          ∙ ap (λ b. if b then some (claim_or_wait i sig true s) else none) settled
          ∙ ap some (claimed i sig s free);
      nearer =
          nearer_end i (waiting sig other) (validating sig true) s
            (record s { in_flight = Exchanges.in_flight (register i sig true s) }) at refl refl
            (omega arith);
    }

waiter-Return :
    (i : ℕ) (phase : Phase) (s : Exchanges)
    → IsSound s
    → ((j : ℕ) → is_active (phase_at j s) ≡ false)
    → phase_at i s ≡ phase
    → not (is_ended phase) ≡ true
    → Return s
waiter-Return i verifying s sound idle at h =
    absurd (not_both true refl (ap is_active (sym at) ∙ idle i))
waiter-Return i parsing s sound idle at h =
    absurd (not_both true refl (ap is_active (sym at) ∙ idle i))
waiter-Return i (waiting sig other) s sound idle at h = woken-Return i sig other s sound idle at
waiter-Return i (validating sig waited) s sound idle at h =
    absurd (not_both true refl (ap is_active (sym at) ∙ idle i))
waiter-Return i (deciding sig) s sound idle at h =
    absurd (not_both true refl (ap is_active (sym at) ∙ idle i))
waiter-Return i (asking sig) s sound idle at h =
    absurd (not_both true refl (ap is_active (sym at) ∙ idle i))
waiter-Return i (publishing sig success) s sound idle at h =
    absurd (not_both true refl (ap is_active (sym at) ∙ idle i))
waiter-Return i ended s sound idle at h = cc

-- Some call returns, or all handlers have ended.
progress : (s : Exchanges) → IsSound s → Return s ⊎ ((i : ℕ) → is_ended (phase_at i s) ≡ true)
progress s sound = elim (find_phase is_active s.handlers refl) [
  | inl (i, active) ↦ inl (active-Return i (phase_at i s) s refl active)
  | inr idle ↦ elim (find_phase (λ p. not (is_ended p)) s.handlers refl) [
    | inl (i, e) ↦ inl (waiter-Return i (phase_at i s) s sound idle refl e)
    | inr done ↦ inr (λ i. ground (arith, done i))
  ]
]

ended_idle : (phase : Phase) → is_ended phase ≡ true → is_active phase ≡ false
ended_idle verifying h = cc
ended_idle parsing h = cc
ended_idle (waiting sig other) h = refl
ended_idle (validating sig waited) h = cc
ended_idle (deciding sig) h = cc
ended_idle (asking sig) h = cc
ended_idle (publishing sig success) h = cc
ended_idle ended h = refl

-- The returns of calls that end all handlers.
pub record Settles (s : Exchanges) : Type 0 where
  pub events : List Event
  pub after : Exchanges
  pub only_returns : every is_return events ≡ true
  pub runs : run_events events s ≡ some after
  pub all_ended : (i : ℕ) → is_ended (phase_at i after) ≡ true
  pub unlocked_all : (n : String) → lock_of n after ≡ none

run_after :
    (event : Event) (events : List Event) (s t u : Exchanges)
    → step event s ≡ some t
    → run_events events t ≡ some u
    → run_events (event ∷ events) s ≡ some u
run_after event events s t u e rest = rw (run_events, e) rest

Settles-after : (s : Exchanges) (return : Return s) → Settles return.after → Settles s
Settles-after s return rest = record {
  events = return.event ∷ rest.events;
  after = rest.after;
  only_returns = ground (arith, return.returns, rest.only_returns);
  runs = run_after return.event rest.events s return.after rest.after return.steps rest.runs;
  all_ended = rest.all_ended;
  unlocked_all = rest.unlocked_all;
}

Settles-within : (k : ℕ) (s : Exchanges) → IsSound s → total s.handlers < k → Settles s
Settles-within zero s sound h = absurd (omega (arith, h))
Settles-within (suc k) s sound h = elim (progress s sound) [
  | inr done ↦ record {
    events = [];
    after = s;
    only_returns = refl;
    runs = refl;
    all_ended = done;
    unlocked_all = λ n. unlocked s n sound (λ i. ended_idle (phase_at i s) (done i));
  }
  | inl return ↦ Settles-after s return (
      Settles-within k return.after
        (Effect-IsSound (is_orderly return.event) s return.after
          (step-Effect return.event s return.after return.steps) sound)
        (omega (arith, h, return.nearer)))
]

-- From every state that comes about, with whatever timeouts, exceptions and stops before, there are
-- returns of the awaited calls that end all handlers and leave no signature locked: no handler needs a
-- timeout of the lock, an exception or a stop to come to its end.
pub all_handlers_settle : (allowed : Event → Bool) (s : Exchanges) → Reachable allowed s → Settles s
all_handlers_settle allowed s reachable =
    Settles-within (suc (total s.handlers)) s (Reachable-IsSound allowed s reachable) (omega arith)
