-- ===== src/Excludes/RateLimits.antt =====
-- src/runtime/node/community/challenges/exclude/rate-limiter.ts: which limiters lose a token when a
-- challenge exchange is over. The limiters themselves are the limiter package's.
pub mod Tested
use pkc_js.Base.{
  ℕ, ◌≡◌, ◌≢◌, ◌∙◌, ◌↔◌, inl, inr, refl, sym, ap, subst, Bool, true, false, not, ◌&&◌, ◌||◌, ◌==◌,
  Option, none, some, List, [], ◌∷◌, ◌++◌, Any, if◌then◌else◌, insert, contains, contains-insert,
  eq_refl, is_empty, arith, Bool-cases,
}
use pkc_js.Excludes.{Exclude, CommunityChallenge}
use pkc_js.Excludes.Publication.{
  Kinds, PublicationType, post, reply, vote, comment_edit, comment_moderation, community_edit,
  get_publication_type,
}

-- The name of a limiter, for the author of one request.
pub record LimiterName : Type 0 where
  pub rate_limit : ℕ
  pub publication_type : PublicationType
  pub challenge_success : Bool

abbrev pub limiter_name : ℕ → PublicationType → Bool → LimiterName
limiter_name limit kind success = record {
  rate_limit = limit;
  publication_type = kind;
  challenge_success = success;
}

abbrev pub number_of : PublicationType → ℕ
number_of post = 0
number_of reply = 1
number_of vote = 2
number_of comment_edit = 3
number_of comment_moderation = 4
number_of community_edit = 5

abbrev pub same_bool : Bool → Bool → Bool
same_bool true b = b
same_bool false b = not b

abbrev pub same_name : LimiterName → LimiterName → Bool
same_name a b =
    a.rate_limit == b.rate_limit
    && number_of a.publication_type == number_of b.publication_type
    && same_bool a.challenge_success b.challenge_success

-- `addFilteredRateLimiter`: a name that is there is entered again, which changes nothing.
unfoldable pub add_filtered_rate_limiter :
    ℕ → PublicationType → Bool → List LimiterName → List LimiterName
add_filtered_rate_limiter limit kind success names =
    insert same_name (limiter_name limit kind success) names

abbrev pub add_if : Bool → ℕ → PublicationType → Bool → List LimiterName → List LimiterName
add_if b limit kind success names =
    if b then add_filtered_rate_limiter limit kind success names else names

abbrev pub add_type : Option PublicationType → ℕ → Bool → List LimiterName → List LimiterName
add_type none limit success names = names
add_type (some kind) limit success names = add_filtered_rate_limiter limit kind success names

abbrev pub add_limit : Option ℕ → Kinds → Bool → List LimiterName → List LimiterName
add_limit none kinds success names = names
add_limit (some limit) kinds success names =
    add_if kinds.is_community_edit limit community_edit success (
      add_if kinds.is_comment_moderation limit comment_moderation success (
        add_if kinds.is_comment_edit limit comment_edit success
          (add_type (get_publication_type kinds) limit success names)))

unfoldable pub get_rate_limiters_to_add_to :
    List Exclude → Kinds → Bool → List LimiterName → List LimiterName
get_rate_limiters_to_add_to [] kinds success names = names
get_rate_limiters_to_add_to (exclude ∷ excludes) kinds success names =
    get_rate_limiters_to_add_to excludes kinds success
      (add_limit exclude.rate_limit kinds success names)

abbrev all_excludes : List CommunityChallenge → List Exclude
all_excludes [] = []
all_excludes (challenge ∷ challenges) = challenge.exclude ++ all_excludes challenges

abbrev take_tokens : {L : Type 0} → (LimiterName → L → L) → List LimiterName → L → L
take_tokens try_remove_token [] limiters = limiters
take_tokens try_remove_token (name ∷ names) limiters =
    take_tokens try_remove_token names (try_remove_token name limiters)

-- `try_remove_token` is the limiter package's `tryRemoveTokens(1)`, in the limiters of the author.
unfoldable pub add_to_rate_limiter :
    {L : Type 0} → (LimiterName → L → L) → List CommunityChallenge → Kinds → Bool → L → L
unfolding get_rate_limiters_to_add_to
add_to_rate_limiter try_remove_token challenges kinds success limiters =
    let excludes : List Exclude = all_excludes challenges in
    if is_empty excludes
    then limiters
    else take_tokens try_remove_token (get_rate_limiters_to_add_to excludes kinds success [])
        limiters
