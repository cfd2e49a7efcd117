-- ===== src/Exchanges/Pubsub.antt =====
-- What src/runtime/node/community/local-community/challenges.ts does with a message of the pubsub topic.
use pkc_js.Base.{ℕ, refl, String, false, ltb, if◌then◌else◌, Bool-cases, inl, inr}
use pkc_js.Exchanges.{Exchanges, begin_request}
use pkc_js.Exchanges.Steps.{
  Answer, request, answered, step, Reachable, next, handle_challenge_answer,
}
use pkc_js.Exchanges.Moving.{is_orderly}

-- A message that one of the schemas accepts.
pub data PubsubMessage : Type 0 where
  challenge_request : (id : String) → PubsubMessage
  challenge : PubsubMessage
  challenge_answer : (id : String) → (answer : Answer) → PubsubMessage
  challenge_verification : PubsubMessage

-- What the bytes are.
pub data Decoded : Type 0 where
  not_cbor : Decoded
  no_schema : Decoded
  message : (content : PubsubMessage) → Decoded

unfoldable pub process : PubsubMessage → Exchanges → Exchanges
process challenge s = s
process challenge_verification s = s
process (challenge_request id) s = begin_request id false s
process (challenge_answer id answer) s = handle_challenge_answer id answer s

abbrev process_decoded : Decoded → Exchanges → Exchanges
process_decoded not_cbor s = s
process_decoded no_schema s = s
process_decoded (message content) s = process content s

-- A message of more than 80 kilobytes is dropped.
unfoldable pub handle_challenge_exchange : ℕ → Decoded → Exchanges → Exchanges
unfolding process
handle_challenge_exchange bytes decoded s = if ltb 80000 bytes then s else process_decoded decoded s

process-Reachable :
    (content : PubsubMessage) (s : Exchanges)
    → Reachable is_orderly s
    → Reachable is_orderly (process content s)
unfolding process step
process-Reachable challenge s h = h
process-Reachable challenge_verification s h = h
process-Reachable (challenge_request id) s h =
    next s (begin_request id false s) (request id false) h refl refl
process-Reachable (challenge_answer id answer) s h =
    next s (handle_challenge_answer id answer s) (answered id answer) h refl refl

decoded-Reachable :
    (decoded : Decoded) (s : Exchanges)
    → Reachable is_orderly s
    → Reachable is_orderly (process_decoded decoded s)
decoded-Reachable not_cbor s h = h
decoded-Reachable no_schema s h = h
decoded-Reachable (message content) s h = process-Reachable content s h

-- Whatever arrives on the pubsub topic is a step of the handlers or no change at all, so what holds in
-- every state that comes about holds after it.
pub handle_challenge_exchange-Reachable :
    (bytes : ℕ) (decoded : Decoded) (s : Exchanges)
    → Reachable is_orderly s
    → Reachable is_orderly (handle_challenge_exchange bytes decoded s)
unfolding handle_challenge_exchange
handle_challenge_exchange-Reachable bytes decoded s h = elim (Bool-cases (ltb 80000 bytes)) [
  | inl e ↦ rw e h
  | inr e ↦ rw e (decoded-Reachable decoded s h)
]
