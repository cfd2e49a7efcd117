-- ===== src/Tests/Data.antt =====
-- The test data: challenges, a community, and the publications sent to it.
use pkc_js.Base.{
  ℕ, Bool, false, String, Option, none, some, List, [], ◌∷◌, zero, suc, str_eq, if◌then◌else◌,
}
use pkc_js.Excludes.{Exclude, CommunityChallenge, ShouldExclude}
use pkc_js.Challenges.{
  success, failure, RawResult, result, RawOutcome, raw_result, raw_challenge, Challenge,
}
use pkc_js.Challenges.Extras.{ReservedNames}

abbrev pub rule : List ℕ → Exclude
rule js = record {
  post_score = none;
  reply_score = none;
  post_count = none;
  reply_count = none;
  first_comment_timestamp = none;
  public_keys = none;
  names = none;
  publication_type = none;
  rate_limit = none;
  rate_limit_challenge_success = none;
  roles = none;
  challenges = js;
}

abbrev pub challenge_of : List Exclude → CommunityChallenge
challenge_of rules = record { exclude = rules; pending_approval = false }

-- 0 is spared by 1, and 1 and 2 by 0.
abbrev pub cyclic : List CommunityChallenge
cyclic =
    challenge_of (rule (1 ∷ []) ∷ [])
    ∷ challenge_of (rule (0 ∷ []) ∷ [])
    ∷ challenge_of (rule (0 ∷ []) ∷ [])
    ∷ []

-- 0 is spared by 2, 2 by 0, and 1 by both together.
abbrev pub joined : List CommunityChallenge
joined =
    challenge_of (rule (2 ∷ []) ∷ [])
    ∷ challenge_of (rule (0 ∷ 2 ∷ []) ∷ [])
    ∷ challenge_of (rule (0 ∷ []) ∷ [])
    ∷ []

-- 0 is spared by 1, which is spared by nothing.
abbrev pub chained : List CommunityChallenge
chained = challenge_of (rule (1 ∷ []) ∷ []) ∷ challenge_of [] ∷ []

abbrev pub is_right : Option String → RawResult
is_right none = result (failure "no answer" none)
is_right (some s) =
    if str_eq s "right" then result (success none none) else result (failure "wrong" none)

abbrev pub asks : RawOutcome
asks = raw_challenge (some "2 + 2") (some "text/plain") (some is_right)

abbrev pub succeeds : RawOutcome
succeeds = raw_result (result (success none none))

-- 0 asks, and the others succeed.
abbrev pub first_asks : ℕ → RawOutcome
first_asks zero = asks
first_asks (suc i) = succeeds

abbrev pub all_ask : ℕ → RawOutcome
all_ask _ = asks

abbrev pub nobody : ℕ → ShouldExclude
nobody i = record { should_exclude = false; name_failure = none }

abbrev pub no_cids : ℕ → Bool
no_cids i = false

abbrev pub no_names : ReservedNames
no_names = record { comment_signed = []; comment_update = []; community_author = [] }

abbrev pub right_then_wrong : List (ℕ × Challenge) → Option (List (Option String))
right_then_wrong pending = some (some "right" ∷ some "wrong" ∷ [])
