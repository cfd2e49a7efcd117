-- ===== src/Exchanges/Handling.antt =====
-- Every step of src/runtime/node/community/local-community/challenges.ts that an awaited call starts has an effect.
use pkc_js.Base.{
  ℕ, ◌≡◌, refl, ap, String, Bool, true, false, some, str_eq, assign, insert, Bool-cases, inl, inr,
}
use pkc_js.Exchanges.{
  Exchanges, Phase, verifying, parsing, waiting, validating, deciding, asking, publishing, ended,
  phase_at, Validity, valid, duplicate, invalid, request_id_at, clean_up_challenge_answer_promise,
  close_exchange, validated, count_attempt, ask, published,
}
use pkc_js.Exchanges.Steps.{
  Parsed, unusable, crashed, signed, is_ended, verified_at, parsed_at, woken_at, timed_out_at,
  checked_at, asked_at, answer_timed_out_at, decided_at, published_at, threw_at,
}
use pkc_js.Exchanges.Effects.{holds, is_past}
use pkc_js.Exchanges.Moving.{
  Comes, Comes-none, goes_to, register-Comes, claim_or_wait-Comes, finish-Comes,
}

pub verified_at-Comes :
    (i : ℕ) (authentic : Bool) (phase : Phase) (s : Exchanges)
    → phase_at i s ≡ phase
    → Comes true s (verified_at i authentic phase s)
verified_at-Comes i true verifying s at =
    goes_to i verifying parsing s s at refl refl refl (λ n. refl) (λ e. e) refl
verified_at-Comes i false verifying s at =
    goes_to i verifying ended s s at refl refl refl (λ n. refl) (λ e. refl) refl
verified_at-Comes i true parsing s at = Comes-none true s
verified_at-Comes i false parsing s at = Comes-none true s
verified_at-Comes i true (waiting sig other) s at = Comes-none true s
verified_at-Comes i false (waiting sig other) s at = Comes-none true s
verified_at-Comes i true (validating sig waited) s at = Comes-none true s
verified_at-Comes i false (validating sig waited) s at = Comes-none true s
verified_at-Comes i true (deciding sig) s at = Comes-none true s
verified_at-Comes i false (deciding sig) s at = Comes-none true s
verified_at-Comes i true (asking sig) s at = Comes-none true s
verified_at-Comes i false (asking sig) s at = Comes-none true s
verified_at-Comes i true (publishing sig success) s at = Comes-none true s
verified_at-Comes i false (publishing sig success) s at = Comes-none true s
verified_at-Comes i true ended s at = Comes-none true s
verified_at-Comes i false ended s at = Comes-none true s

pub parsed_at-Comes :
    (i : ℕ) (outcome : Parsed) (phase : Phase) (s : Exchanges)
    → phase_at i s ≡ phase
    → Comes true s (parsed_at i outcome phase s)
unfolding close_exchange clean_up_challenge_answer_promise
parsed_at-Comes i unusable verifying s at = Comes-none true s
parsed_at-Comes i crashed verifying s at = Comes-none true s
parsed_at-Comes i (signed signature) verifying s at = Comes-none true s
parsed_at-Comes i unusable parsing s at =
    goes_to i parsing ended s (close_exchange (request_id_at i s) s) at refl refl refl (λ n. refl)
      (λ e. refl) refl
parsed_at-Comes i crashed parsing s at =
    goes_to i parsing ended s s at refl refl refl (λ n. refl) (λ e. refl) refl
parsed_at-Comes i (signed signature) parsing s at =
    claim_or_wait-Comes false i signature s (ap is_past at)
parsed_at-Comes i unusable (waiting sig other) s at = Comes-none true s
parsed_at-Comes i crashed (waiting sig other) s at = Comes-none true s
parsed_at-Comes i (signed signature) (waiting sig other) s at = Comes-none true s
parsed_at-Comes i unusable (validating sig waited) s at = Comes-none true s
parsed_at-Comes i crashed (validating sig waited) s at = Comes-none true s
parsed_at-Comes i (signed signature) (validating sig waited) s at = Comes-none true s
parsed_at-Comes i unusable (deciding sig) s at = Comes-none true s
parsed_at-Comes i crashed (deciding sig) s at = Comes-none true s
parsed_at-Comes i (signed signature) (deciding sig) s at = Comes-none true s
parsed_at-Comes i unusable (asking sig) s at = Comes-none true s
parsed_at-Comes i crashed (asking sig) s at = Comes-none true s
parsed_at-Comes i (signed signature) (asking sig) s at = Comes-none true s
parsed_at-Comes i unusable (publishing sig success) s at = Comes-none true s
parsed_at-Comes i crashed (publishing sig success) s at = Comes-none true s
parsed_at-Comes i (signed signature) (publishing sig success) s at = Comes-none true s
parsed_at-Comes i unusable ended s at = Comes-none true s
parsed_at-Comes i crashed ended s at = Comes-none true s
parsed_at-Comes i (signed signature) ended s at = Comes-none true s

pub ask-Comes :
    (i : ℕ) (sig : String) (s : Exchanges)
    → phase_at i s ≡ deciding sig
    → Comes true s (some (ask i sig s))
unfolding ask
ask-Comes i sig s at =
    goes_to i (deciding sig) (asking sig) s
      (record s {
        ongoing = insert str_eq (request_id_at i s) s.ongoing;
        answer_resolvers = assign str_eq (request_id_at i s) i s.answer_resolvers;
        answer_promises = insert str_eq (request_id_at i s) s.answer_promises;
      })
      at refl refl refl (λ n. refl) (λ e. e) refl

pub woken_at-Comes :
    (i : ℕ) (phase : Phase) (s : Exchanges)
    → phase_at i s ≡ phase
    → Comes true s (woken_at i phase s)
woken_at-Comes i verifying s at = Comes-none true s
woken_at-Comes i parsing s at = Comes-none true s
woken_at-Comes i (waiting sig other) s at = elim (Bool-cases (is_ended (phase_at other s))) [
  | inl e ↦ rw e (claim_or_wait-Comes true i sig s (ap is_past at))
  | inr e ↦ rw e (Comes-none true s)
]
woken_at-Comes i (validating sig waited) s at = Comes-none true s
woken_at-Comes i (deciding sig) s at = Comes-none true s
woken_at-Comes i (asking sig) s at = Comes-none true s
woken_at-Comes i (publishing sig success) s at = Comes-none true s
woken_at-Comes i ended s at = Comes-none true s

pub timed_out_at-Comes :
    (i : ℕ) (phase : Phase) (s : Exchanges)
    → phase_at i s ≡ phase
    → Comes false s (timed_out_at i phase s)
timed_out_at-Comes i verifying s at = Comes-none false s
timed_out_at-Comes i parsing s at = Comes-none false s
timed_out_at-Comes i (waiting sig other) s at =
    register-Comes false true i sig s (ap is_past at) (λ e. cc)
timed_out_at-Comes i (validating sig waited) s at = Comes-none false s
timed_out_at-Comes i (deciding sig) s at = Comes-none false s
timed_out_at-Comes i (asking sig) s at = Comes-none false s
timed_out_at-Comes i (publishing sig success) s at = Comes-none false s
timed_out_at-Comes i ended s at = Comes-none false s

pub asked_at-Comes :
    (i : ℕ) (phase : Phase) (s : Exchanges)
    → phase_at i s ≡ phase
    → Comes true s (asked_at i phase s)
asked_at-Comes i verifying s at = Comes-none true s
asked_at-Comes i parsing s at = Comes-none true s
asked_at-Comes i (waiting sig other) s at = Comes-none true s
asked_at-Comes i (validating sig waited) s at = Comes-none true s
asked_at-Comes i (deciding sig) s at = ask-Comes i sig s at
asked_at-Comes i (asking sig) s at = Comes-none true s
asked_at-Comes i (publishing sig success) s at = Comes-none true s
asked_at-Comes i ended s at = Comes-none true s

pub answer_timed_out_at-Comes :
    (i : ℕ) (phase : Phase) (s : Exchanges)
    → phase_at i s ≡ phase
    → Comes true s (answer_timed_out_at i phase s)
unfolding clean_up_challenge_answer_promise
answer_timed_out_at-Comes i verifying s at = Comes-none true s
answer_timed_out_at-Comes i parsing s at = Comes-none true s
answer_timed_out_at-Comes i (waiting sig other) s at = Comes-none true s
answer_timed_out_at-Comes i (validating sig waited) s at = Comes-none true s
answer_timed_out_at-Comes i (deciding sig) s at = Comes-none true s
answer_timed_out_at-Comes i (asking sig) s at =
    goes_to i (asking sig) (publishing sig false) s
      (clean_up_challenge_answer_promise (request_id_at i s) s) at refl refl refl (λ n. refl)
      (λ e. e) refl
answer_timed_out_at-Comes i (publishing sig success) s at = Comes-none true s
answer_timed_out_at-Comes i ended s at = Comes-none true s

pub published_at-Comes :
    (i : ℕ) (phase : Phase) (s : Exchanges)
    → phase_at i s ≡ phase
    → Comes true s (published_at i phase s)
unfolding published close_exchange clean_up_challenge_answer_promise
published_at-Comes i verifying s at = Comes-none true s
published_at-Comes i parsing s at = Comes-none true s
published_at-Comes i (waiting sig other) s at = Comes-none true s
published_at-Comes i (validating sig waited) s at = Comes-none true s
published_at-Comes i (deciding sig) s at = Comes-none true s
published_at-Comes i (asking sig) s at = Comes-none true s
published_at-Comes i (publishing sig success) s at =
    finish-Comes i sig s (close_exchange (request_id_at i s) s) (ap is_ended at)
      (λ n. ap (holds n) at) refl refl
published_at-Comes i ended s at = Comes-none true s

pub threw_at-Comes :
    (i : ℕ) (phase : Phase) (s : Exchanges)
    → phase_at i s ≡ phase
    → Comes true s (threw_at i phase s)
threw_at-Comes i verifying s at = Comes-none true s
threw_at-Comes i parsing s at = Comes-none true s
threw_at-Comes i (waiting sig other) s at = Comes-none true s
threw_at-Comes i (validating sig waited) s at =
    finish-Comes i sig s s (ap is_ended at) (λ n. ap (holds n) at) refl refl
threw_at-Comes i (deciding sig) s at =
    goes_to i (deciding sig) (publishing sig false) s s at refl refl refl (λ n. refl) (λ e. e) refl
threw_at-Comes i (asking sig) s at = Comes-none true s
threw_at-Comes i (publishing sig success) s at =
    finish-Comes i sig s s (ap is_ended at) (λ n. ap (holds n) at) refl refl
threw_at-Comes i ended s at = Comes-none true s

pub counted_same :
    (signature : String) (waited : Bool) (s : Exchanges)
    → (Exchanges.handlers (count_attempt signature waited s).1 ≡ s.handlers)
      × (Exchanges.in_flight (count_attempt signature waited s).1 ≡ s.in_flight)
unfolding count_attempt
counted_same signature true s = (refl, refl)
counted_same signature false s = (refl, refl)

pub validated-Comes :
    (i : ℕ) (sig : String) (waited : Bool) (validity : Validity) (s : Exchanges)
    → phase_at i s ≡ validating sig waited
    → Comes true s (some (validated i sig waited validity s))
unfolding validated
validated-Comes i sig waited valid s at =
    goes_to i (validating sig waited) (deciding sig) s s at refl refl refl (λ n. refl) (λ e. e) refl
validated-Comes i sig waited invalid s at =
    goes_to i (validating sig waited) (publishing sig false) s s at refl refl refl (λ n. refl)
      (λ e. e) refl
validated-Comes i sig waited duplicate s at =
    let counted : Bool × Exchanges = count_attempt sig waited s in
    let same = counted_same sig waited s in
    goes_to i (validating sig waited) (publishing sig counted.0) s counted.1 at refl same.0 same.1
      (λ n. refl) (λ e. e) refl

pub checked_at-Comes :
    (i : ℕ) (validity : Validity) (phase : Phase) (s : Exchanges)
    → phase_at i s ≡ phase
    → Comes true s (checked_at i validity phase s)
checked_at-Comes i validity verifying s at = Comes-none true s
checked_at-Comes i validity parsing s at = Comes-none true s
checked_at-Comes i validity (waiting sig other) s at = Comes-none true s
checked_at-Comes i validity (validating sig waited) s at =
    validated-Comes i sig waited validity s at
checked_at-Comes i validity (deciding sig) s at = Comes-none true s
checked_at-Comes i validity (asking sig) s at = Comes-none true s
checked_at-Comes i validity (publishing sig success) s at = Comes-none true s
checked_at-Comes i validity ended s at = Comes-none true s

pub decided_at-Comes :
    (i : ℕ) (decision : Bool) (phase : Phase) (s : Exchanges)
    → phase_at i s ≡ phase
    → Comes true s (decided_at i decision phase s)
decided_at-Comes i decision verifying s at = Comes-none true s
decided_at-Comes i decision parsing s at = Comes-none true s
decided_at-Comes i decision (waiting sig other) s at = Comes-none true s
decided_at-Comes i decision (validating sig waited) s at = Comes-none true s
decided_at-Comes i decision (deciding sig) s at =
    goes_to i (deciding sig) (publishing sig decision) s s at refl refl refl (λ n. refl) (λ e. e)
      refl
decided_at-Comes i decision (asking sig) s at = Comes-none true s
decided_at-Comes i decision (publishing sig success) s at = Comes-none true s
decided_at-Comes i decision ended s at = Comes-none true s
