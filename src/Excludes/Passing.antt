-- ===== src/Excludes/Passing.antt =====
-- What a rule of src/runtime/node/community/challenges/exclude/exclude.ts asks beside names and roles.
use pkc_js.Base.{
  ℕ, ◌≡◌, ◌≢◌, ◌↔◌, String, Bool, true, ◌&&◌, Option, none, some, List, [], ◌∷◌, is_some,
  includes_sound, includes_complete, arith, inl, inr, Option-cases,
}
use pkc_js.Excludes.{Score, plus, PublicationTypes, Exclude, MatchOutcome}
use pkc_js.Excludes.Publication.{
  Kinds, Standing, PublicationType, test_score, test_first_comment_timestamp, test_publication_type,
  test_rate_limit, get_publication_type, listed, has_author_excludes, has_some, passes_cheap_tests,
}
use pkc_js.Excludes.Asked.{
  HasSome, SaysSomething, Reaches, IsOldEnough, IsOfType, HasToken, IsListed, PassesOthers,
}

score_iff : (asked score : Option Score) → (test_score asked score ≡ true) ↔ Reaches asked score
unfolding test_score
score_iff none score = ground arith
score_iff (some asked) none = ground arith
score_iff (some asked) (some score) = ground arith

age_iff :
    (now : ℕ) (asked first : Option ℕ)
    → (test_first_comment_timestamp now asked first ≡ true) ↔ IsOldEnough now asked first
unfolding test_first_comment_timestamp
age_iff now none first = ground arith
age_iff now (some seconds) none = ground arith
age_iff now (some seconds) (some first) = ground arith

type_iff :
    (asked : Option PublicationTypes) (kinds : Kinds)
    → (test_publication_type asked kinds ≡ true) ↔ IsOfType asked kinds
unfolding test_publication_type
type_iff none kinds = ground arith
type_iff (some types) kinds = ground arith

some_iff : {A : Type 0} (o : Option A) → (is_some o ≡ true) ↔ (o ≢ none)
some_iff none = ground arith
some_iff (some a) = ground arith

all_true :
    (a b c d e f g h i : Bool)
    → (a && (b && c && d && e && f && g && h && i) ≡ true) ↔ (
        (a ≡ true)
        × (b ≡ true)
        × (c ≡ true)
        × (d ≡ true)
        × (e ≡ true)
        × (f ≡ true)
        × (g ≡ true)
        × (h ≡ true)
        × (i ≡ true))
all_true a b c d e f g h i = ground arith

module _ (now : ℕ) (has_token : ℕ → PublicationType → Bool → Bool) (signer : String)
    (standing : Standing) (kinds : Kinds) (community_roles : Option (List (String × String)))
    (matches_any : List String → MatchOutcome) where
  has_some_iff :
      (xs : Option (List String))
      → (has_some now has_token signer standing kinds community_roles matches_any xs ≡ true)
        ↔ HasSome xs
  has_some_iff none = ground arith
  has_some_iff (some []) = ground arith
  has_some_iff (some (x ∷ xs)) = ground arith

  abbrev pub says : Exclude → Bool
  says e = has_author_excludes now has_token signer standing kinds community_roles matches_any e

  says_iff : (e : Exclude) → (says e ≡ true) ↔ SaysSomething e
  unfolding has_author_excludes
  says_iff e = ground (
    arith,
    some_iff e.post_score,
    some_iff e.reply_score,
    some_iff e.post_count,
    some_iff e.reply_count,
    some_iff e.first_comment_timestamp,
    some_iff e.publication_type,
    some_iff e.rate_limit,
    has_some_iff e.public_keys,
    has_some_iff e.names,
    has_some_iff e.roles,
  )

  abbrev rate_passes : Exclude → Bool
  rate_passes e = test_rate_limit now has_token signer standing kinds community_roles matches_any e

  token_iff :
      (e : Exclude)
      → test_publication_type e.publication_type kinds ≡ true
      → (rate_passes e ≡ true)
        ↔ HasToken now has_token signer standing kinds community_roles matches_any e.rate_limit
            e.rate_limit_challenge_success
  unfolding test_rate_limit
  token_iff e h = elim (Option-cases e.rate_limit) [
    | inl absent ↦ ground arith
    | inr (limit, there) ↦ elim (Option-cases (get_publication_type kinds)) [
      | inl other ↦ elim (Option-cases e.rate_limit_challenge_success) [
        | inl any ↦ ground arith
        | inr (succeeded, picked) ↦ ground arith
      ]
      | inr (kind, of) ↦ elim (Option-cases e.rate_limit_challenge_success) [
        | inl any ↦ ground arith
        | inr (succeeded, picked) ↦ ground arith
      ]
    ]
  ]

  listed_iff :
      (keys : Option (List String))
      → (listed now has_token signer standing kinds community_roles matches_any keys ≡ true)
        ↔ IsListed now has_token signer standing kinds community_roles matches_any keys
  listed_iff none = ground arith
  listed_iff (some keys) = (includes_sound keys signer, includes_complete keys signer)

  abbrev pub passes_cheaply : Exclude → Bool
  passes_cheaply e =
      passes_cheap_tests now has_token signer standing kinds community_roles matches_any e

  pub passes_iff :
      (e : Exclude)
      → (says e && passes_cheaply e ≡ true)
        ↔ PassesOthers now has_token signer standing kinds community_roles matches_any e
  unfolding passes_cheap_tests
  passes_iff e =
      let says_so = says_iff e in
      let posts = score_iff e.post_score standing.post_score in
      let replies = score_iff e.reply_score standing.reply_score in
      let age = age_iff now e.first_comment_timestamp standing.first_comment_timestamp in
      let of_type = type_iff e.publication_type kinds in
      let token = token_iff e in
      let signed = listed_iff e.public_keys in
      let post_count = score_iff e.post_count (some (plus standing.post_count)) in
      let reply_count = score_iff e.reply_count (some (plus standing.reply_count)) in
      let all =
        all_true (says e) (test_score e.post_score standing.post_score)
          (test_score e.reply_score standing.reply_score)
          (test_first_comment_timestamp now e.first_comment_timestamp
            standing.first_comment_timestamp)
          (test_publication_type e.publication_type kinds) (rate_passes e)
          (listed now has_token signer standing kinds community_roles matches_any e.public_keys)
          (test_score e.post_count (some (plus standing.post_count)))
          (test_score e.reply_count (some (plus standing.reply_count))) in
      (
        (λ h.
            let (a, b, c, d, t, r, k, m, n) = all.0 h in
            record {
              says_something = says_so.0 a;
              has_post_score = posts.0 b;
              has_reply_score = replies.0 c;
              is_old_enough = age.0 d;
              is_of_type = of_type.0 t;
              has_token_left = (token t).0 r;
              is_listed = signed.0 k;
              has_posts = post_count.0 m;
              has_replies = reply_count.0 n;
            }),
        λ p.
            let t = of_type.1 p.is_of_type in
            all.1 (
              says_so.1 p.says_something,
              posts.1 p.has_post_score,
              replies.1 p.has_reply_score,
              age.1 p.is_old_enough,
              t,
              (token t).1 p.has_token_left,
              signed.1 p.is_listed,
              post_count.1 p.has_posts,
              reply_count.1 p.has_replies,
            ),
      )
