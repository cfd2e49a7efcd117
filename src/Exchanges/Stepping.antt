-- ===== src/Exchanges/Stepping.antt =====
-- Every step of src/runtime/node/community/local-community/challenges.ts has one of the effects.
use pkc_js.Base.{
  ℕ, suc, ◌≡◌, ◌∙◌, refl, ap, subst, String, Bool, true, false, Option, none, some, List, [], ◌∷◌,
  ◌++◌, length, str_eq, lookup, erase, contains, discard, get_or, Bool-cases, inl, inr,
}
use pkc_js.Exchanges.{
  Exchanges, Handler, Phase, verifying, parsing, waiting, validating, deciding, asking, publishing,
  ended, phase_at, no_handler, request_id_at, clean_up_challenge_answer_promise, close_exchange,
  begin_request,
}
use pkc_js.Exchanges.Steps.{
  Event, request, verified, parsed, woken, timed_out, checked, asked, answered, answer_timed_out,
  decided, verification_published, threw, expired, stopped, Answer, readable, unreadable,
  bad_signature, step, resolved_at, resolved, answer_exchange, handle_challenge_answer,
}
use pkc_js.Exchanges.Effects.{Effect, quiet, began, cleared, get_or-append}
use pkc_js.Exchanges.Moving.{is_orderly, Comes, some_inj, Comes-some, goes_to}
use pkc_js.Exchanges.Handling.{
  verified_at-Comes, parsed_at-Comes, woken_at-Comes, timed_out_at-Comes, asked_at-Comes,
  answer_timed_out_at-Comes, published_at-Comes, threw_at-Comes, checked_at-Comes, decided_at-Comes,
}

length-append : (xs : List Handler) (new : Handler) → length (xs ++ new ∷ []) ≡ suc (length xs)
length-append [] new = refl
length-append (x ∷ xs) new = ap suc (length-append xs new)

-- A step that changes neither the phases nor the locks.
stays :
    (s u : Exchanges) → u.handlers ≡ s.handlers → u.in_flight ≡ s.in_flight → Comes true s (some u)
stays s u handlers locks = Comes-some true s u (
    quiet (λ j. ap (λ hs. Handler.phase (get_or hs j no_handler)) handlers) (ap length handlers)
      (λ n. ap (lookup str_eq n) locks))

resolved_at-Comes :
    (i : ℕ) (phase : Phase) (s : Exchanges)
    → phase_at i s ≡ phase
    → Comes true s (some (resolved_at i phase s))
unfolding clean_up_challenge_answer_promise
resolved_at-Comes i verifying s at = stays s s refl refl
resolved_at-Comes i parsing s at = stays s s refl refl
resolved_at-Comes i (waiting sig other) s at = stays s s refl refl
resolved_at-Comes i (validating sig waited) s at = stays s s refl refl
resolved_at-Comes i (deciding sig) s at = stays s s refl refl
resolved_at-Comes i (asking sig) s at =
    goes_to i (asking sig) (deciding sig) s
      (clean_up_challenge_answer_promise (request_id_at i s) s) at refl refl refl (λ n. refl)
      (λ e. e) refl
resolved_at-Comes i (publishing sig success) s at = stays s s refl refl
resolved_at-Comes i ended s at = stays s s refl refl

resolved-Comes : (found : Option ℕ) (s : Exchanges) → Comes true s (some (resolved found s))
resolved-Comes none s = stays s s refl refl
resolved-Comes (some i) s = resolved_at-Comes i (phase_at i s) s refl

answer-Comes :
    (id : String) (answer : Answer) (s : Exchanges)
    → Comes true s (some (handle_challenge_answer id answer s))
unfolding handle_challenge_answer answer_exchange close_exchange clean_up_challenge_answer_promise
answer-Comes id answer s = elim (Bool-cases (contains str_eq id s.ongoing)) [
  | inr e ↦ rw e (stays s (close_exchange id s) refl refl)
  | inl e ↦ rw e (of_answer answer)
]
  where
    of_answer : (a : Answer) → Comes true s (some (answer_exchange id a s))
    of_answer readable = resolved-Comes (lookup str_eq id s.answer_resolvers) s
    of_answer unreadable = stays s (close_exchange id s) refl refl
    of_answer bad_signature = stays s (answer_exchange id bad_signature s) refl refl

begins :
    (u : Exchanges) (id : String) (s : Exchanges)
    → u.handlers ≡ s.handlers ++ record { request_id = id; phase = verifying } ∷ []
    → u.in_flight ≡ s.in_flight
    → Comes true s (some u)
begins u id s handlers locks =
    let new : Handler = record { request_id = id; phase = verifying } in
    Comes-some true s u (
      began
        (λ j.
          ap (λ hs. Handler.phase (get_or hs j no_handler)) handlers
          ∙ get_or-append s.handlers new j)
        (ap length handlers ∙ length-append s.handlers new) (λ n. ap (lookup str_eq n) locks))

request-Comes :
    (id : String) (is_local : Bool) (s : Exchanges)
    → Comes true s (some (begin_request id is_local s))
unfolding begin_request
request-Comes id is_local s = elim (Bool-cases (contains str_eq id s.ongoing)) [
  | inl e ↦ rw e (stays s s refl refl)
  | inr e ↦ rw e (begins _ id s refl refl)
]

-- Every step has an effect.
pub step-Effect :
    (event : Event) (s t : Exchanges) → step event s ≡ some t → Effect (is_orderly event) s t
unfolding step Comes
step-Effect (request id is_local) s t e = request-Comes id is_local s t e
step-Effect (verified i authentic) s t e = verified_at-Comes i authentic (phase_at i s) s refl t e
step-Effect (parsed i outcome) s t e = parsed_at-Comes i outcome (phase_at i s) s refl t e
step-Effect (woken i) s t e = woken_at-Comes i (phase_at i s) s refl t e
step-Effect (timed_out i) s t e = timed_out_at-Comes i (phase_at i s) s refl t e
step-Effect (checked i validity) s t e = checked_at-Comes i validity (phase_at i s) s refl t e
step-Effect (asked i) s t e = asked_at-Comes i (phase_at i s) s refl t e
step-Effect (answered id answer) s t e = answer-Comes id answer s t e
step-Effect (answer_timed_out i) s t e = answer_timed_out_at-Comes i (phase_at i s) s refl t e
step-Effect (decided i success) s t e = decided_at-Comes i success (phase_at i s) s refl t e
step-Effect (verification_published i) s t e = published_at-Comes i (phase_at i s) s refl t e
step-Effect (threw i) s t e = threw_at-Comes i (phase_at i s) s refl t e
step-Effect (expired id) s t e =
    stays s
      (record s {
        ongoing = discard str_eq id s.ongoing;
        answer_promises = discard str_eq id s.answer_promises;
        answer_resolvers = erase str_eq id s.answer_resolvers;
      })
      refl refl t e
step-Effect stopped s t e =
    subst (Effect false s) (some_inj (record s { duplicate_attempts = []; in_flight = [] }) t e)
      (cleared refl (λ j. refl) refl (λ n. refl))
