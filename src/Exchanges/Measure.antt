-- ===== src/Exchanges/Measure.antt =====
-- How far the handlers of src/runtime/node/community/local-community/challenges.ts are from their end.
use pkc_js.Base.{
  ℕ, zero, suc, ◌+◌, ◌<◌, ◌≡◌, ◌∙◌, ◌⊎◌, inl, inr, refl, ap, Bool, true, false, Option, none, some,
  List, [], ◌∷◌, length, get_or, set, arith, Bool-cases,
}
use pkc_js.Exchanges.{
  Exchanges, Handler, Phase, verifying, parsing, waiting, validating, deciding, asking, publishing,
  ended, no_handler, phase_at, set_phase, request_id_at, invalid, validated, published, finish,
  close_exchange, clean_up_challenge_answer_promise,
}
use pkc_js.Exchanges.Steps.{
  Event, verified, parsed, woken, checked, answer_timed_out, decided, verification_published,
  unusable, step, is_ended, verified_at, parsed_at, checked_at, answer_timed_out_at, decided_at,
  published_at,
}
use pkc_js.Exchanges.Effects.{is_running}

-- The returns of awaited calls, but for exceptions: no new request, no timeout of the lock, no stop.
abbrev pub is_return : Event → Bool
is_return (verified i authentic) = true
is_return (parsed i outcome) = true
is_return (woken i) = true
is_return (checked i validity) = true
is_return (answer_timed_out i) = true
is_return (decided i success) = true
is_return (verification_published i) = true
is_return _ = false

abbrev pub run_events : List Event → Exchanges → Option Exchanges
run_events [] s = some s
run_events (event ∷ events) s = elim (step event s) [ none ↦ none | some t ↦ run_events events t ]

-- How many returns a handler is away from its end, at most.
abbrev pub weight : Phase → ℕ
weight verifying = 5
weight parsing = 4
weight (waiting sig other) = 4
weight (validating sig waited) = 3
weight (deciding sig) = 2
weight (asking sig) = 3
weight (publishing sig success) = 1
weight ended = 0

abbrev pub total : List Handler → ℕ
total [] = 0
total (handler ∷ handlers) = weight handler.phase + total handlers

pub total-set :
    (handlers : List Handler) (i : ℕ) (new : Handler)
    → i < length handlers
    → total (set handlers i new) + weight (Handler.phase (get_or handlers i no_handler))
      ≡ total handlers + weight new.phase
total-set [] i new h = absurd (omega (arith, h))
total-set (handler ∷ handlers) zero new h = omega arith
total-set (handler ∷ handlers) (suc i) new h =
    let rest = total-set handlers i new (omega (arith, h)) in omega (arith, rest)

-- The handler waits for a call, not for another handler.
abbrev pub is_active : Phase → Bool
is_active verifying = true
is_active parsing = true
is_active (waiting sig other) = false
is_active (validating sig waited) = true
is_active (deciding sig) = true
is_active (asking sig) = true
is_active (publishing sig success) = true
is_active ended = false

pub find_phase :
    (test : Phase → Bool) (handlers : List Handler)
    → test ended ≡ false
    → ((i : ℕ) × (test (Handler.phase (get_or handlers i no_handler)) ≡ true))
      ⊎ ((i : ℕ) → test (Handler.phase (get_or handlers i no_handler)) ≡ false)
find_phase test [] outside = inr (λ i. outside)
find_phase test (handler ∷ handlers) outside = elim (Bool-cases (test handler.phase)) [
  | inl e ↦ inl (0, e)
  | inr e ↦ elim (find_phase test handlers outside) [
    | inl (i, f) ↦ inl (suc i, f)
    | inr f ↦ inr (λ i. at_each test handler handlers i e f)
  ]
]
  where
    at_each :
        (test : Phase → Bool) (handler : Handler) (handlers : List Handler) (i : ℕ)
        → test handler.phase ≡ false
        → ((j : ℕ) → test (Handler.phase (get_or handlers j no_handler)) ≡ false)
        → test (Handler.phase (get_or (handler ∷ handlers) i no_handler)) ≡ false
    at_each test handler handlers zero e f = e
    at_each test handler handlers (suc i) e f = f i

-- A return that brings the handlers nearer to their end.
pub record Return (s : Exchanges) : Type 0 where
  pub event : Event
  pub after : Exchanges
  pub returns : is_return event ≡ true
  pub steps : step event s ≡ some after
  pub nearer : total after.handlers < total s.handlers

pub nearer_end :
    (i : ℕ) (old new : Phase) (s u : Exchanges)
    → phase_at i s ≡ old
    → is_ended old ≡ false
    → u.handlers ≡ s.handlers
    → weight new < weight old
    → total (Exchanges.handlers (set_phase i new u)) < total s.handlers
nearer_end i old new s u at running same less =
    let there : i < length s.handlers = is_running i s (ap is_ended at ∙ running) in
    let changed : Handler = record { request_id = request_id_at i u; phase = new } in
    let sum = total-set s.handlers i changed there in
    let moved : total (set u.handlers i changed) ≡ total (set s.handlers i changed) =
      ap (λ hs. total (set hs i changed)) same in
    omega (arith, sum, moved, less, ap weight at)

pub active-Return :
    (i : ℕ) (phase : Phase) (s : Exchanges)
    → phase_at i s ≡ phase
    → is_active phase ≡ true
    → Return s
unfolding step validated published finish close_exchange clean_up_challenge_answer_promise
active-Return i verifying s at h = record {
  event = verified i true;
  after = set_phase i parsing s;
  returns = refl;
  steps = ap (λ p. verified_at i true p s) at;
  nearer = nearer_end i verifying parsing s s at refl refl (omega arith);
}
active-Return i parsing s at h = record {
  event = parsed i unusable;
  after = set_phase i ended (close_exchange (request_id_at i s) s);
  returns = refl;
  steps = ap (λ p. parsed_at i unusable p s) at;
  nearer =
      nearer_end i parsing ended s (close_exchange (request_id_at i s) s) at refl refl
        (omega arith);
}
active-Return i (waiting sig other) s at h = cc
active-Return i (validating sig waited) s at h = record {
  event = checked i invalid;
  after = set_phase i (publishing sig false) s;
  returns = refl;
  steps = ap (λ p. checked_at i invalid p s) at;
  nearer =
      nearer_end i (validating sig waited) (publishing sig false) s s at refl refl (omega arith);
}
active-Return i (deciding sig) s at h = record {
  event = decided i false;
  after = set_phase i (publishing sig false) s;
  returns = refl;
  steps = ap (λ p. decided_at i false p s) at;
  nearer = nearer_end i (deciding sig) (publishing sig false) s s at refl refl (omega arith);
}
active-Return i (asking sig) s at h = record {
  event = answer_timed_out i;
  after =
      set_phase i (publishing sig false) (clean_up_challenge_answer_promise (request_id_at i s) s);
  returns = refl;
  steps = ap (λ p. answer_timed_out_at i p s) at;
  nearer =
      nearer_end i (asking sig) (publishing sig false) s
        (clean_up_challenge_answer_promise (request_id_at i s) s) at refl refl (omega arith);
}
active-Return i (publishing sig success) s at h = record {
  event = verification_published i;
  after = published i sig s;
  returns = refl;
  steps = ap (λ p. published_at i p s) at;
  nearer =
      nearer_end i (publishing sig success) ended s
        (record (close_exchange (request_id_at i s) s) {
          in_flight = Exchanges.in_flight (published i sig s);
        })
        at refl refl (omega arith);
}
active-Return i ended s at h = cc
