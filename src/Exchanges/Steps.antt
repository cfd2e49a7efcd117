-- ===== src/Exchanges/Steps.antt =====
-- The steps of the handlers of src/runtime/node/community/local-community/challenges.ts: a step is what
-- a handler does from the return of one awaited call to the next awaited call.
use pkc_js.Base.{
  ℕ, ◌≡◌, String, Bool, true, false, Option, none, some, [], str_eq, lookup, discard, contains,
  if◌then◌else◌, erase,
}
use pkc_js.Exchanges.{
  Exchanges, Phase, verifying, parsing, waiting, validating, deciding, asking, publishing, ended,
  Validity, phase_at, request_id_at, set_phase, clean_up_challenge_answer_promise, close_exchange,
  begin_request, claim_or_wait, register, finish, validated, ask, published,
}

-- What the decryption, the parsing and the signature check of a request come to.
pub data Parsed : Type 0 where
  -- a failure was published
  unusable : Parsed
  crashed : Parsed
  signed : (signature : String) → Parsed

-- What an answer is: `unreadable` if it is not decrypted or not parsed.
pub data Answer : Type 0 where
  readable : Answer
  unreadable : Answer
  bad_signature : Answer

-- The returns of the awaited calls, and what arrives.
pub data Event : Type 0 where
  request : (id : String) → (is_local_publisher : Bool) → Event
  verified : (i : ℕ) → (authentic : Bool) → Event
  parsed : (i : ℕ) → (outcome : Parsed) → Event
  woken : (i : ℕ) → Event
  timed_out : (i : ℕ) → Event
  checked : (i : ℕ) → (validity : Validity) → Event
  asked : (i : ℕ) → Event
  answered : (id : String) → (answer : Answer) → Event
  answer_timed_out : (i : ℕ) → Event
  decided : (i : ℕ) → (success : Bool) → Event
  verification_published : (i : ℕ) → Event
  -- an awaited call threw
  threw : (i : ℕ) → Event
  -- the time to live of an entry is over
  expired : (id : String) → Event
  -- `stop`
  stopped : Event

abbrev pub is_ended : Phase → Bool
is_ended ended = true
is_ended _ = false

abbrev pub verified_at : ℕ → Bool → Phase → Exchanges → Option Exchanges
verified_at i true verifying s = some (set_phase i parsing s)
verified_at i false verifying s = some (set_phase i ended s)
verified_at i authentic _ s = none

abbrev pub parsed_at : ℕ → Parsed → Phase → Exchanges → Option Exchanges
parsed_at i unusable parsing s = some (set_phase i ended (close_exchange (request_id_at i s) s))
parsed_at i crashed parsing s = some (set_phase i ended s)
parsed_at i (signed signature) parsing s = some (claim_or_wait i signature false s)
parsed_at i outcome _ s = none

-- The promise is settled when its handler has ended.
abbrev pub woken_at : ℕ → Phase → Exchanges → Option Exchanges
woken_at i (waiting signature other) s =
    if is_ended (phase_at other s) then some (claim_or_wait i signature true s) else none
woken_at i _ s = none

abbrev pub timed_out_at : ℕ → Phase → Exchanges → Option Exchanges
timed_out_at i (waiting signature other) s = some (register i signature true s)
timed_out_at i _ s = none

abbrev pub checked_at : ℕ → Validity → Phase → Exchanges → Option Exchanges
checked_at i validity (validating signature waited) s =
    some (validated i signature waited validity s)
checked_at i validity _ s = none

abbrev pub asked_at : ℕ → Phase → Exchanges → Option Exchanges
asked_at i (deciding signature) s = some (ask i signature s)
asked_at i _ s = none

-- The handler that waits for the answers goes on with them.
abbrev pub resolved_at : ℕ → Phase → Exchanges → Exchanges
resolved_at i (asking signature) s =
    set_phase i (deciding signature) (clean_up_challenge_answer_promise (request_id_at i s) s)
resolved_at i _ s = s

-- Without a resolver the handler of the answer throws.
abbrev pub resolved : Option ℕ → Exchanges → Exchanges
resolved none s = s
resolved (some i) s = resolved_at i (phase_at i s) s

unfoldable pub answer_exchange : String → Answer → Exchanges → Exchanges
answer_exchange id readable s = resolved (lookup str_eq id s.answer_resolvers) s
answer_exchange id unreadable s = close_exchange id s
answer_exchange id bad_signature s =
    let cleaned : Exchanges = clean_up_challenge_answer_promise id s in
    record cleaned {
      ongoing = discard str_eq id cleaned.ongoing;
      from_local_publishers = discard str_eq id cleaned.from_local_publishers;
    }

unfoldable pub handle_challenge_answer : String → Answer → Exchanges → Exchanges
unfolding answer_exchange
handle_challenge_answer id answer s =
    if contains str_eq id s.ongoing then answer_exchange id answer s else close_exchange id s

abbrev pub answer_timed_out_at : ℕ → Phase → Exchanges → Option Exchanges
answer_timed_out_at i (asking signature) s = some (
    set_phase i (publishing signature false)
      (clean_up_challenge_answer_promise (request_id_at i s) s))
answer_timed_out_at i _ s = none

abbrev pub decided_at : ℕ → Bool → Phase → Exchanges → Option Exchanges
decided_at i success (deciding signature) s = some (set_phase i (publishing signature success) s)
decided_at i success _ s = none

abbrev pub published_at : ℕ → Phase → Exchanges → Option Exchanges
published_at i (publishing signature success) s = some (published i signature s)
published_at i _ s = none

-- A call that throws in `getChallengeVerification` fails the exchange; elsewhere it ends the handler.
abbrev pub threw_at : ℕ → Phase → Exchanges → Option Exchanges
threw_at i (validating signature waited) s = some (finish i signature s)
threw_at i (deciding signature) s = some (set_phase i (publishing signature false) s)
threw_at i (publishing signature success) s = some (finish i signature s)
threw_at i _ s = none

-- A step, where the handler waits for what the event brings.
unfoldable pub step : Event → Exchanges → Option Exchanges
step (request id is_local_publisher) s = some (begin_request id is_local_publisher s)
step (verified i authentic) s = verified_at i authentic (phase_at i s) s
step (parsed i outcome) s = parsed_at i outcome (phase_at i s) s
step (woken i) s = woken_at i (phase_at i s) s
step (timed_out i) s = timed_out_at i (phase_at i s) s
step (checked i validity) s = checked_at i validity (phase_at i s) s
step (asked i) s = asked_at i (phase_at i s) s
step (answered id answer) s = some (handle_challenge_answer id answer s)
step (answer_timed_out i) s = answer_timed_out_at i (phase_at i s) s
step (decided i success) s = decided_at i success (phase_at i s) s
step (verification_published i) s = published_at i (phase_at i s) s
step (threw i) s = threw_at i (phase_at i s) s
step (expired id) s = some (record s {
  ongoing = discard str_eq id s.ongoing;
  answer_promises = discard str_eq id s.answer_promises;
  answer_resolvers = erase str_eq id s.answer_resolvers;
})
step stopped s = some (record s { duplicate_attempts = []; in_flight = [] })

abbrev pub no_exchanges : Exchanges
no_exchanges = record {
  ongoing = [];
  from_local_publishers = [];
  answer_promises = [];
  answer_resolvers = [];
  duplicate_attempts = [];
  in_flight = [];
  handlers = [];
}

-- The states that come about, with the events that may happen given by `allowed`.
pub data Reachable (allowed : Event → Bool) : Exchanges → Type 0 where
  start : Reachable allowed no_exchanges
  next :
      (s t : Exchanges)
      → (event : Event) → Reachable allowed s
      → allowed event ≡ true
      → step event s ≡ some t
      → Reachable allowed t
