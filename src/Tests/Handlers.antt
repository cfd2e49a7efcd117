-- ===== src/Tests/Handlers.antt =====
-- Runs of the handlers of challenge requests.
use pkc_js.Base.{
  ℕ, ◌≡◌, ◌∙◌, refl, sym, ap, subst, Bool, true, false, Option, none, some, List, [], ◌∷◌, every,
  Option-cases, inl, inr, arith,
}
use pkc_js.Exchanges.{
  Exchanges, begin_request, claim_or_wait, validated, ask, register, published, waiting, validating,
  asking, publishing, phase_at, valid, duplicate,
}
use pkc_js.Exchanges.Steps.{
  Event, request, verified, parsed, signed, woken, timed_out, checked, asked, decided,
  verification_published, answered, readable, expired, step, Reachable, start, next, no_exchanges,
  handle_challenge_answer,
}
use pkc_js.Exchanges.Effects.{holds, lock_of}
use pkc_js.Exchanges.Moving.{is_orderly}
use pkc_js.Exchanges.Measure.{run_events}
use pkc_js.Exchanges.Locks.{IsSound, Reachable-IsSound}
use pkc_js.Exchanges.Exclusion.{one_exchange_at_a_time}
use pkc_js.Exchanges.Progress.{Settles, all_handlers_settle}

abbrev or_none : Option Exchanges → Exchanges
or_none none = no_exchanges
or_none (some s) = s

some_inj : (x y : Exchanges) → some x ≡ some y → x ≡ y
some_inj x y e = cc

none_ne_some : (x : Exchanges) → none ≡ some x → ⊥
none_ne_some x e = cc

run_none :
    (event : Event) (events : List Event) (s : Exchanges)
    → step event s ≡ none
    → run_events (event ∷ events) s ≡ none
run_none event events s e = rw (run_events, e) refl

run_some :
    (event : Event) (events : List Event) (s t : Exchanges)
    → step event s ≡ some t
    → run_events (event ∷ events) s ≡ run_events events t
run_some event events s t e = rw (run_events, e) refl

run-Reachable :
    (allowed : Event → Bool) (events : List Event) (s t : Exchanges)
    → Reachable allowed s
    → every allowed events ≡ true
    → run_events events s ≡ some t
    → Reachable allowed t
run-Reachable allowed [] s t before e runs = subst (Reachable allowed) (some_inj s t runs) before
run-Reachable allowed (event ∷ events) s t before e runs = elim (Option-cases (step event s)) [
  | inl f ↦ absurd (none_ne_some t (sym (run_none event events s f) ∙ runs))
  | inr (u, f) ↦
      run-Reachable allowed events u t (next s u event before (ground (arith, e)) f)
        (ground (arith, e)) (sym (run_some event events s u f) ∙ runs)
]

-- Two requests for one signed publication: the second waits, and the first asks the author.
abbrev two_requests : List Event
two_requests =
    request "r1" false
    ∷ verified 0 true
    ∷ request "r2" false
    ∷ parsed 0 (signed "S")
    ∷ verified 1 true
    ∷ parsed 1 (signed "S")
    ∷ checked 0 valid
    ∷ asked 0
    ∷ []

abbrev asking_one : Exchanges
asking_one = or_none (run_events two_requests no_exchanges)

two_requests_run :
    (run_events two_requests no_exchanges ≡ some asking_one)
    × (phase_at 0 asking_one ≡ asking "S")
    × (phase_at 1 asking_one ≡ waiting "S" 0)
unfolding step begin_request claim_or_wait validated ask
two_requests_run = (refl, refl, refl)

asking_one-Reachable : Reachable is_orderly asking_one
asking_one-Reachable =
    run-Reachable is_orderly two_requests no_exchanges asking_one start refl two_requests_run.0

-- The author answers, the first is published, and the second gets the idempotent success.
abbrev answered_both : List Event
answered_both =
    answered "r1" readable
    ∷ decided 0 true
    ∷ verification_published 0
    ∷ woken 1
    ∷ checked 1 duplicate
    ∷ []

answered_both_run : phase_at 1 (or_none (run_events answered_both asking_one)) ≡ publishing "S" true
unfolding step begin_request claim_or_wait validated ask handle_challenge_answer published
answered_both_run = refl

-- Two requests wait; both stop waiting, and both are at work beside the first.
abbrev three_requests : List Event
three_requests =
    request "r3" false ∷ verified 2 true ∷ parsed 2 (signed "S") ∷ timed_out 1 ∷ timed_out 2 ∷ []

three_at_work :
    (phase_at 1 (or_none (run_events three_requests asking_one)) ≡ validating "S" true)
    × (phase_at 2 (or_none (run_events three_requests asking_one)) ≡ validating "S" true)
unfolding step begin_request claim_or_wait validated ask register
three_at_work = (refl, refl)

-- A local publisher's request with a bad signature leaves its mark, also when its entry has expired.
abbrev bad_request : List Event
bad_request = request "r1" true ∷ verified 0 false ∷ expired "r1" ∷ []

mark_left :
    Exchanges.from_local_publishers (or_none (run_events bad_request no_exchanges)) ≡ "r1" ∷ []
unfolding step begin_request
mark_left = refl

Reachable-IsSound_example : IsSound asking_one
Reachable-IsSound_example = Reachable-IsSound is_orderly asking_one asking_one-Reachable

abbrev first_handler : ℕ
first_handler = 0

one_exchange_at_a_time_example : (first_handler ≡ first_handler) × (lock_of "S" asking_one ≡ some 0)
one_exchange_at_a_time_example =
    one_exchange_at_a_time asking_one "S" first_handler first_handler asking_one-Reachable
      (ap (holds "S") two_requests_run.1) (ap (holds "S") two_requests_run.1)

all_handlers_settle_example : Settles asking_one
all_handlers_settle_example = all_handlers_settle is_orderly asking_one asking_one-Reachable
