-- ===== src/Exchanges.antt =====
-- src/runtime/node/community/local-community/challenges.ts: the handlers of a community's challenge
-- requests and answers, which run side by side over maps that they share. The children have the steps
-- and the proofs.
pub mod Steps
pub mod Effects
pub mod Moving
mod Handling
mod Stepping
pub mod Phases
pub mod Locks
pub mod Pubsub
pub mod Exclusion
pub mod Measure
pub mod Progress
use pkc_js.Base.{
  ℕ, suc, ◌+◌, String, Bool, true, false, not, ◌&&◌, ◌||◌, ◌==◌, leb, ltb, Option, none, some, List,
  [], ◌∷◌, ◌++◌, length, get_or, set, if◌then◌else◌, str_eq, lookup, assign, erase, insert, discard,
  contains,
}

-- What a handler is waiting for. From `validating` on it holds the lock of its signature.
pub data Phase : Type 0 where
  -- the signature of the request
  verifying : Phase
  -- the decryption, the parsing and the signature of the publication
  parsing : Phase
  -- the exchange of another handler for the same signed publication
  waiting : (signature : String) → (in_flight : ℕ) → Phase
  -- `checkPublicationValidity`
  validating : (signature : String) → (waited : Bool) → Phase
  -- `getChallengeVerification`
  deciding : (signature : String) → Phase
  -- the author's answers
  asking : (signature : String) → Phase
  -- the publishing of a verification, and before that of a challenge success the storing
  publishing : (signature : String) → (success : Bool) → Phase
  -- nothing any more
  ended : Phase

pub record Handler : Type 0 where
  pub request_id : String
  pub phase : Phase

-- The maps of the community, and the handlers in the order in which they began. A promise is the
-- number of the handler that settles it.
pub record Exchanges : Type 0 where
  pub ongoing : List String
  pub from_local_publishers : List String
  pub answer_promises : List String
  pub answer_resolvers : List (String × ℕ)
  pub duplicate_attempts : List (String × ℕ)
  pub in_flight : List (String × ℕ)
  pub handlers : List Handler

abbrev pub no_handler : Handler
no_handler = record { request_id = ""; phase = ended }

abbrev pub phase_at : ℕ → Exchanges → Phase
phase_at i s = Handler.phase (get_or s.handlers i no_handler)

abbrev pub request_id_at : ℕ → Exchanges → String
request_id_at i s = Handler.request_id (get_or s.handlers i no_handler)

abbrev pub set_phase : ℕ → Phase → Exchanges → Exchanges
set_phase i phase s = record s {
  handlers = set s.handlers i (record { request_id = request_id_at i s; phase = phase });
}

unfoldable pub clean_up_challenge_answer_promise : String → Exchanges → Exchanges
clean_up_challenge_answer_promise id s = record s {
  answer_promises = discard str_eq id s.answer_promises;
  answer_resolvers = erase str_eq id s.answer_resolvers;
  from_local_publishers = discard str_eq id s.from_local_publishers;
}

-- The end of the functions that publish a verification.
unfoldable pub close_exchange : String → Exchanges → Exchanges
unfolding clean_up_challenge_answer_promise
close_exchange id s = clean_up_challenge_answer_promise id (record s {
  ongoing = discard str_eq id s.ongoing;
  from_local_publishers = discard str_eq id s.from_local_publishers;
})

-- A request up to the verification of its signature; a duplicate is dropped.
unfoldable pub begin_request : String → Bool → Exchanges → Exchanges
begin_request id is_local_publisher s = if contains str_eq id s.ongoing then s else record s {
  from_local_publishers =
      if is_local_publisher
      then insert str_eq id s.from_local_publishers
      else s.from_local_publishers;
  ongoing = insert str_eq id s.ongoing;
  handlers = s.handlers ++ record { request_id = id; phase = verifying } ∷ [];
}

-- The entry of the handler in `_inFlightPublicationExchanges`.
unfoldable pub register : ℕ → String → Bool → Exchanges → Exchanges
register i signature waited s =
    set_phase i (validating signature waited)
      (record s { in_flight = assign str_eq signature i s.in_flight })

-- The head of the loop that waits for the exchange in flight.
unfoldable pub claim_or_wait : ℕ → String → Bool → Exchanges → Exchanges
unfolding register
claim_or_wait i signature waited s = elim (lookup str_eq signature s.in_flight) [
  | some other ↦ set_phase i (waiting signature other) s
  | none ↦ register i signature waited s
]

-- The `finally` of the exchange: its own entry goes, and its promise is settled.
unfoldable pub finish : ℕ → String → Exchanges → Exchanges
finish i signature s =
    let own : Bool = elim (lookup str_eq signature s.in_flight) [
      | none ↦ false
      | some j ↦ i == j
    ] in
    set_phase i ended
      (record s { in_flight = if own then erase str_eq signature s.in_flight else s.in_flight })

abbrev pub number_of : Option ℕ → ℕ
number_of none = 0
number_of (some n) = n

pub data Validity : Type 0 where
  valid : Validity
  duplicate : Validity
  invalid : Validity

-- Is the answer to a duplicate the idempotent success? The attempts are counted, but not those of
-- a request that waited.
unfoldable pub count_attempt : String → Bool → Exchanges → Bool × Exchanges
count_attempt signature waited s =
    let attempts : ℕ = number_of (lookup str_eq signature s.duplicate_attempts) + 1 in
    if waited then (true, s) else (
      leb attempts 1,
      record s { duplicate_attempts = assign str_eq signature attempts s.duplicate_attempts },
    )

unfoldable pub validated : ℕ → String → Bool → Validity → Exchanges → Exchanges
unfolding count_attempt
validated i signature waited valid s = set_phase i (deciding signature) s
validated i signature waited duplicate s =
    let counted : Bool × Exchanges = count_attempt signature waited s in
    set_phase i (publishing signature counted.0) counted.1
validated i signature waited invalid s = set_phase i (publishing signature false) s

-- `getChallengeAnswers` once the challenges are published.
unfoldable pub ask : ℕ → String → Exchanges → Exchanges
ask i signature s = set_phase i (asking signature) (record s {
  ongoing = insert str_eq (request_id_at i s) s.ongoing;
  answer_resolvers = assign str_eq (request_id_at i s) i s.answer_resolvers;
  answer_promises = insert str_eq (request_id_at i s) s.answer_promises;
})

-- A verification is published, and the exchange closed.
unfoldable pub published : ℕ → String → Exchanges → Exchanges
unfolding close_exchange finish
published i signature s = finish i signature (close_exchange (request_id_at i s) s)
