-- ===== src/Lib.antt =====
-- pkc-js: may a community accept a publication? The models cover the part of a community node
-- that decides on an incoming challenge request: it validates the publication, lets exclude
-- rules spare the author some of the challenges, runs the challenges in the order of their
-- dependencies, and turns the results and the author's answers into a verification. Beside it
-- stand parts with a contract of their own: the order of a page, the registry of the instances
-- in use, a cache of the browser, and a bounded set.
--
-- The parts, with their files below and the files of the repository:
-- * Challenges (src/runtime/node/community/challenges/index.ts and
--   validate-challenge-result.ts): `getPendingChallengesOrChallengeVerification` is
--   Challenges/Resolve and Challenges/Classify, `evaluatePhase2Exclusion` and
--   `canFailedChallengeStillBeExcluded` are Challenges/Dependencies,
--   `getChallengeVerificationFromChallengeAnswers` is Challenges/Answers,
--   `getChallengeVerification` is Challenges/Verification, and the extras are Challenges/Extras.
--   The arrays of the functions are the record `Board`, passed from step to step, with a list of
--   the calls of `getChallenge`. Challenges/Proofs has the theorems.
-- * Excludes (src/runtime/node/community/challenges/exclude): the rules and, in
--   Excludes/Publication, `shouldExcludePublication`; `shouldExcludeChallengeSuccess` is in
--   Challenges/Dependencies, beside the code that it has to agree with.
--   Excludes/Asked spells out what a rule asks, for the theorems of Excludes/Sparing.
--   Excludes/RateLimits names the limiters that lose a token when an exchange is over.
-- * Identity (src/runtime/node/community/local-community/author-identity.ts): the matcher that
--   binds a claimed name to the signer, as explicit state with the remembered verdict. Names has
--   src/domain-util.ts and the wire fields that hold names.
-- * Validation (src/runtime/node/community/local-community/publication-validation.ts):
--   `checkPublicationValidity` is Validation/Validity, and its checks are Validation/Wire,
--   Parents, Comments and Others. A check is a chain of rejections, up to the first that does
--   not pass; a read of a missing value is the outcome `crash`. Validation/Guarantees has the
--   theorems.
-- * Crossposts (src/publications/comment/crosspost-depth.ts): the depth of a chain, over Json.
-- * LimitedSet (src/general-util/limited-set.ts): a set of bounded size, with the list of the
--   insertion order that it keeps beside it.
-- * Exchanges (src/runtime/node/community/local-community/challenges.ts): the handlers of
--   challenge requests and answers. They run side by side, so Exchanges has what a handler does
--   from the return of one awaited call to the next, over the maps of the community, and
--   Exchanges/Steps the events that make these steps and the states that come about;
--   Exchanges/Pubsub hands them the messages of the pubsub topic. A promise
--   of the lock `_inFlightPublicationExchanges` is the number of the handler that settles it.
-- * PageScoring (src/pages/page-sort-scoring.ts): what a page sort leaves out, the pinned
--   comments and the window of time, the order by score, and the replies under a comment.
-- * Registry (src/pkc/tracked-instance-registry.ts): the instances in use by their aliases, and
--   in Registry/Owners what it promises without its two maps.
-- * LocalForageLru (src/runtime/browser/localforage-lru.ts): the cache over two databases of the
--   browser. Its calls are taken one after the other.
-- * Messages has the messages of src/errors.ts, and Base the shared helpers. Tests has the runs.
--
-- The validation and the exclude rules both take an identity matcher as a function from a list
-- of identities to an outcome; Identity supplies it. Exchanges takes what
-- `checkPublicationValidity` and `getChallengeVerification` come to as the outcome of an event:
-- Validation and Challenges are these. The exchange takes the exclusions by the request alone as
-- functions of the index of a challenge; Excludes/Publication supplies the first.
--
-- Fuel: the loop over the challenges, at request time and after the answers, takes one round
-- more than there are challenges. That is enough, because a round without progress ends the loop
-- or calls one more challenge, and every call, exclusion or deferral decides a challenge for
-- good. The loop that collects the replies under a comment takes the rounds that its theorem
-- names. The walk along a crosspost chain takes as many rounds as its own bound `stopAt`.
--
-- Parameters, since they are no code of the repository or reach outside of it: what a
-- challenge's code returns and whether its `verify` throws, the limiter package, the resolver of
-- names, the queries of the database, the tests of links and markdown, deep equality, the clock,
-- the address of a key, `toLowerCase`, and the databases of the localforage package with the
-- laws that LocalForageLru/Contract states. Entries of the caches with a time to live may go at
-- any time. Times and counts are natural numbers; scores may be negative.
--
-- Not modelled: the loading of challenge files and settings, the comment cids that an author may
-- show to be excluded, the verification of signatures, the walk
-- over reply pages for crossposts, the contents of the messages of an exchange, logging, and all
-- other parts of the library (clients, pages, RPC, storage).
pub mod Base
pub mod Json
pub mod Messages
pub mod Names
pub mod Excludes
pub mod Identity
pub mod Crossposts
pub mod LimitedSet
pub mod Validation
pub mod Challenges
pub mod Exchanges
pub mod PageScoring
pub mod Registry
pub mod LocalForageLru
pub mod Tests
