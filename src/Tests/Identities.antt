-- ===== src/Tests/Identities.antt =====
-- Runs of the identity matcher and of the exclude rules over the author.
use pkc_js.Base.{
  ℕ, zero, suc, ◌≡◌, ◌↔◌, ◌⊎◌, ◌≤◌, refl, inl, inr, Bool, true, false, String, none, some, List, [],
  ◌∷◌, Any, map,
}
use pkc_js.Excludes.{
  MatchOutcome, matched, unmatched, NameFailure, Exclude, CommunityChallenge, ShouldExclude, plus,
}
use pkc_js.Excludes.Publication.{
  Kinds, Standing, PublicationType, test_exclude, test_role, test_score,
  test_first_comment_timestamp, test_publication_type, get_publication_type,
  should_exclude_publication,
}
use pkc_js.Excludes.Asked.{Spares, FirstBlocks}
use pkc_js.Excludes.Sparing.{should_exclude_publication_iff, should_exclude_publication-FirstBlocks}
use pkc_js.Messages.{err_author_name_has_no_record}
use pkc_js.Identity.{Resolved, no_record, new_matcher, matches_any_identity}
use pkc_js.Identity.Laws.{
  matches_any-eq-matched_iff, matches_any_by_key, ask_all_once, NameIsOwned, one, many, ask,
  ask_all,
}
use pkc_js.Tests.Sample.{resolve_name}

abbrev same : String → String
same s = s

-- The first call finds the key of `alice.eth`, and a later one finds none.
abbrev flaky : ℕ → String → Resolved
flaky zero name = resolve_name name
flaky (suc n) name = no_record

matches_any-eq-matched_iff_example :
    ((matches_any_identity same flaky "alice"
        (some "alice.eth")
        ("bob" ∷ "alice.bso" ∷ [])
        new_matcher).0
      ≡ matched)
    ↔ (Any (λ (x : String). x ≡ "alice") ("bob" ∷ "alice.bso" ∷ [])
        ⊎ NameIsOwned same flaky "alice" (some "alice.eth") ("bob" ∷ "alice.bso" ∷ []))
matches_any-eq-matched_iff_example =
    matches_any-eq-matched_iff same flaky "alice" (some "alice.eth") ("bob" ∷ "alice.bso" ∷ [])

matches_any_by_key_example :
    matches_any_identity same flaky "alice" (some "alice.eth") ("bob" ∷ "alice" ∷ []) new_matcher
    ≡ (matched, new_matcher)
matches_any_by_key_example =
    matches_any_by_key same flaky "alice" (some "alice.eth") ("bob" ∷ "alice" ∷ []) new_matcher
      (inr (inl refl))

ask_all_once_example :
    ((ask_all same flaky "alice"
        (some "alice.eth")
        (one "alice.eth" ∷ many ("alice.bso" ∷ []) ∷ [])
        new_matcher).0
      ≡ map
          (λ q. (ask same flaky "alice" (some "alice.eth") q new_matcher).0)
          (one "alice.eth" ∷ many ("alice.bso" ∷ []) ∷ []))
    × ((ask_all same flaky "alice"
          (some "alice.eth")
          (one "alice.eth" ∷ many ("alice.bso" ∷ []) ∷ [])
          new_matcher).1.resolves
        ≤ 1)
ask_all_once_example =
    ask_all_once same flaky "alice" (some "alice.eth")
      (one "alice.eth" ∷ many ("alice.bso" ∷ []) ∷ [])

-- A reply of somebody with ten posts.
abbrev kinds : Kinds
kinds = record {
  is_post = false;
  is_reply = true;
  is_vote = false;
  is_comment_edit = false;
  is_comment_moderation = false;
  is_community_edit = false;
}

abbrev standing : Standing
standing = record {
  post_score = some (plus 5);
  reply_score = none;
  first_comment_timestamp = some 100;
  post_count = 10;
  reply_count = 0;
}

abbrev names_carol : Exclude
names_carol = record {
  post_score = some (plus 3);
  reply_score = none;
  post_count = some (plus 10);
  reply_count = none;
  first_comment_timestamp = some 60;
  public_keys = none;
  names = some ("carol.eth" ∷ []);
  publication_type = none;
  rate_limit = some 5;
  rate_limit_challenge_success = none;
  roles = none;
  challenges = [];
}

abbrev spares_carol : CommunityChallenge
spares_carol = record { exclude = names_carol ∷ []; pending_approval = false }

abbrev has_token : ℕ → PublicationType → Bool → Bool
has_token limit kind succeeded = true

abbrev unverified : NameFailure
unverified = record { reason = err_author_name_has_no_record }

abbrev carol_unverified : List String → MatchOutcome
carol_unverified ids = unmatched (some unverified)

abbrev carol_verified : List String → MatchOutcome
carol_verified ids = matched

should_exclude_publication_iff_example :
    (ShouldExclude.should_exclude (
        should_exclude_publication 1000 has_token "carol" standing kinds none carol_verified
          spares_carol)
      ≡ true)
    ↔ Any (Spares 1000 has_token "carol" standing kinds none carol_verified) (names_carol ∷ [])
should_exclude_publication_iff_example =
    should_exclude_publication_iff 1000 has_token "carol" standing kinds none carol_verified
      spares_carol

should_exclude_publication-FirstBlocks_example :
    (ShouldExclude.name_failure (
        should_exclude_publication 1000 has_token "carol" standing kinds none carol_unverified
          spares_carol)
      ≡ some unverified)
    ↔ ((¬ Any
          (Spares 1000 has_token "carol" standing kinds none carol_unverified)
          (names_carol ∷ []))
        × FirstBlocks 1000 has_token "carol" standing kinds none carol_unverified unverified
            (names_carol ∷ []))
should_exclude_publication-FirstBlocks_example =
    should_exclude_publication-FirstBlocks 1000 has_token "carol" standing kinds none
      carol_unverified spares_carol unverified

-- The failure is reported for a rule that asks for a role too, which the author has not.
reported_without_role :
    ShouldExclude.name_failure (
      should_exclude_publication 1000 has_token "carol" standing kinds none carol_unverified
        (record {
          exclude = (record names_carol { roles = some ("moderator" ∷ []) }) ∷ [];
          pending_approval = false;
        }))
    ≡ some unverified
unfolding should_exclude_publication test_exclude test_score test_first_comment_timestamp
    test_publication_type get_publication_type test_role
reported_without_role = refl

-- And with the name verified that rule does not spare the author.
not_spared_without_role :
    ShouldExclude.should_exclude (
      should_exclude_publication 1000 has_token "carol" standing kinds none carol_verified (record {
        exclude = (record names_carol { roles = some ("moderator" ∷ []) }) ∷ [];
        pending_approval = false;
      }))
    ≡ false
unfolding should_exclude_publication test_exclude test_score test_first_comment_timestamp
    test_publication_type get_publication_type test_role
not_spared_without_role = refl
