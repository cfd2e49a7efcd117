-- ===== src/Excludes/Publication.antt =====
-- src/runtime/node/community/challenges/exclude: does an exclude rule spare the author of a publication
-- a challenge? (`shouldExcludePublication`, with utils.ts and the test of rate-limiter.ts)
use pkc_js.Base.{
  ℕ, ◌+◌, String, Bool, true, false, not, ◌&&◌, ◌||◌, Option, none, some, List, [], ◌∷◌, map,
  filter_by, leb, ◌==◌, includes, is_empty, is_some, if◌then◌else◌,
}
use pkc_js.Excludes.{
  Score, plus, score_le, PublicationTypes, Exclude, CommunityChallenge, NameFailure, MatchOutcome,
  matched, unmatched, ShouldExclude,
}

-- What a request is a publication of.
pub record Kinds : Type 0 where
  pub is_post : Bool
  pub is_reply : Bool
  pub is_vote : Bool
  pub is_comment_edit : Bool
  pub is_comment_moderation : Bool
  pub is_community_edit : Bool

-- The author as the community knows it: `author.community`, and the counts of the database.
pub record Standing : Type 0 where
  pub post_score : Option Score
  pub reply_score : Option Score
  pub first_comment_timestamp : Option ℕ
  pub post_count : ℕ
  pub reply_count : ℕ

-- `authorScore || 0`
abbrev pub score_or_zero : Option Score → Score
score_or_zero none = plus 0
score_or_zero (some s) = s

-- `testScore`
unfoldable pub test_score : Option Score → Option Score → Bool
test_score none author_score = true
test_score (some s) author_score = score_le s (score_or_zero author_score)

-- `testFirstCommentTimestamp`; a time of 0 reads as none, which is never long enough ago.
unfoldable pub test_first_comment_timestamp : ℕ → Option ℕ → Option ℕ → Bool
test_first_comment_timestamp now none first = true
test_first_comment_timestamp now (some seconds) none = false
test_first_comment_timestamp now (some seconds) (some first) =
    not (first == 0) && leb (first + seconds) now

-- `testPublicationType`
unfoldable pub test_publication_type : Option PublicationTypes → Kinds → Bool
test_publication_type none kinds = true
test_publication_type (some types) kinds =
    PublicationTypes.post types && kinds.is_post
    || PublicationTypes.reply types && kinds.is_reply
    || PublicationTypes.vote types && kinds.is_vote
    || PublicationTypes.comment_edit types && kinds.is_comment_edit
    || PublicationTypes.comment_moderation types && kinds.is_comment_moderation
    || PublicationTypes.community_edit types && kinds.is_community_edit

pub data PublicationType : Type 0 where
  post reply vote comment_edit comment_moderation community_edit : PublicationType

-- `getPublicationType`
unfoldable pub get_publication_type : Kinds → Option PublicationType
get_publication_type kinds =
    if kinds.is_post
    then some post
    else if kinds.is_reply
    then some reply
    else if kinds.is_vote
    then some vote
    else if kinds.is_comment_edit
    then some comment_edit
    else if kinds.is_comment_moderation
    then some comment_moderation
    else if kinds.is_community_edit
    then some community_edit
    else none

-- `exclude.rateLimitChallengeSuccess === false` picks the limiters of failed challenges.
abbrev pub limits_success : Option Bool → Bool
limits_success none = true
limits_success (some b) = b

-- `has_token` is the limiter package's: a limiter of so many tokens an hour, for this author, kind
-- and success, has a token left.
module _ (now : ℕ) (has_token : ℕ → PublicationType → Bool → Bool) (signer : String)
    (standing : Standing) (kinds : Kinds) (community_roles : Option (List (String × String)))
    (matches_any : List String → MatchOutcome) where
  abbrev pub has_token? : ℕ → Bool → Option PublicationType → Bool
  has_token? limit succeeded none = true
  has_token? limit succeeded (some kind) = has_token limit kind succeeded

  -- `testRateLimit`
  unfoldable pub test_rate_limit : Exclude → Bool
  test_rate_limit e = elim (Exclude.rate_limit e) [
    | none ↦ true
    | some limit ↦
        if test_publication_type e.publication_type kinds
        then has_token? limit (limits_success e.rate_limit_challenge_success)
            (get_publication_type kinds)
        else true
  ]

  abbrev pub listed : Option (List String) → Bool
  listed none = true
  listed (some keys) = includes keys signer

  abbrev pub has_some : Option (List String) → Bool
  has_some none = false
  has_some (some xs) = not (is_empty xs)

  -- The rule says something about the author or the publication.
  unfoldable pub has_author_excludes : Exclude → Bool
  has_author_excludes e =
      is_some e.post_score
      || is_some e.reply_score
      || is_some e.post_count
      || is_some e.reply_count
      || is_some e.first_comment_timestamp
      || has_some e.public_keys
      || has_some e.names
      || is_some e.publication_type
      || is_some e.rate_limit
      || has_some e.roles

  -- The tests that ask no resolver.
  unfoldable pub passes_cheap_tests : Exclude → Bool
  unfolding test_rate_limit
  passes_cheap_tests e =
      test_score e.post_score standing.post_score
      && test_score e.reply_score standing.reply_score
      && test_first_comment_timestamp now e.first_comment_timestamp standing.first_comment_timestamp
      && test_publication_type e.publication_type kinds
      && test_rate_limit e
      && listed e.public_keys
      && test_score e.post_count (some (plus standing.post_count))
      && test_score e.reply_count (some (plus standing.reply_count))

  -- `testRole`
  unfoldable pub test_role : List String → MatchOutcome
  test_role exclude_role = elim community_roles [
    | none ↦ unmatched none
    | some roles ↦
        let keys = map (λ r. r.0) (filter_by (λ r. includes exclude_role r.1) roles) in
        if is_empty keys then unmatched none else matches_any keys
  ]

  abbrev pub match_names : Option (List String) → MatchOutcome
  match_names none = matched
  match_names (some names) = matches_any names

  abbrev pub match_roles : Option (List String) → MatchOutcome
  match_roles none = matched
  match_roles (some roles) = test_role roles

  abbrev pub and_then : MatchOutcome → MatchOutcome → MatchOutcome
  and_then matched o = o
  and_then (unmatched f) o = unmatched f

  -- The body of the loop: does this rule spare the author, or which failure stands in the way?
  unfoldable pub test_exclude : Exclude → MatchOutcome
  unfolding has_author_excludes passes_cheap_tests test_role
  test_exclude e =
      if has_author_excludes e && passes_cheap_tests e
      then and_then (match_names e.names) (match_roles e.roles)
      else unmatched none

  -- `nameFailure ??= ...`
  abbrev pub first_failure : Option NameFailure → Option NameFailure → Option NameFailure
  first_failure none f = f
  first_failure (some g) f = some g

  abbrev pub after_test :
      MatchOutcome → Option NameFailure → (Option NameFailure → ShouldExclude) → ShouldExclude
  after_test matched failure rest = record { should_exclude = true; name_failure = none }
  after_test (unmatched f) failure rest = rest (first_failure failure f)

  -- The loop over the rules, up to the first that spares the author.
  unfoldable pub scan_excludes : Option NameFailure → List Exclude → ShouldExclude
  scan_excludes failure [] = record { should_exclude = false; name_failure = failure }
  scan_excludes failure (e ∷ es) =
      after_test (test_exclude e) failure (λ later. scan_excludes later es)

  -- `shouldExcludePublication`
  unfoldable pub should_exclude_publication : CommunityChallenge → ShouldExclude
  unfolding scan_excludes
  should_exclude_publication challenge = scan_excludes none (CommunityChallenge.exclude challenge)
