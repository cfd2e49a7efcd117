-- ===== src/Tests/Publications.antt =====
-- Runs of the checks of publications.
use pkc_js.Base.{◌∷◌, ◌≡◌, ◌≢◌, refl, true, false, String, none, some, [], arith}
use pkc_js.Validation.{
  pass, crash, CommentRow, Db, Request, ModFlags, VotePublication, Publication, Community,
}
use pkc_js.Validation.Validity.{check_publication_validity}
use pkc_js.Validation.Guarantees.Accepted.{accepted_under_lock}
use pkc_js.Validation.Guarantees.Parents.{IsModerator}
use pkc_js.Validation.Guarantees.Safety.{NamesParent, check_publication_validity-ne-crash}
use pkc_js.Validation.Parents.{about_cid}
use pkc_js.Json.{find}
use pkc_js.Names.{
  get_community_public_key_from_wire, get_community_name_from_wire, get_author_name_from_wire,
  is_string_domain, are_equivalent_names,
}
use pkc_js.Identity.{matches_any_identity}
use pkc_js.Crossposts.{prop, crosspost_chain_depth_up_to, effective_max_crosspost_depth}
use pkc_js.Validation.{match_publication_author_against_roles}
use pkc_js.Validation.Wire.{
  check_wire_format_and_community_author, check_author_identity,
  does_domain_address_have_capital_letter,
}
use pkc_js.Validation.Parents.{check_parent_and_post_state}
use pkc_js.Validation.Comments.{
  check_comment_publication, check_comment_flairs, check_flairs, is_flair_in_allowed_list,
  check_post_cid, check_crosspost, check_quoted_cids,
}
use pkc_js.Validation.Comments.Media.{check_comment_media}
use pkc_js.Validation.Others.{
  check_vote_publication, check_comment_moderation_publication, check_community_edit_publication,
  check_comment_edit_publication,
}
use pkc_js.Tests.Sample.{
  community, db, outside, reserved, request, publication, matches_alice, stored, vote,
}

-- The reply is accepted under the locked post, since its author owns the community.
accepted :
    check_publication_validity outside reserved community request publication none matches_alice
    ≡ pass
unfolding check_publication_validity check_wire_format_and_community_author
    get_community_public_key_from_wire get_community_name_from_wire check_author_identity
    get_author_name_from_wire is_string_domain does_domain_address_have_capital_letter
    check_parent_and_post_state match_publication_author_against_roles matches_any_identity
    are_equivalent_names check_comment_publication check_comment_media check_comment_flairs
    check_flairs is_flair_in_allowed_list check_post_cid check_crosspost check_quoted_cids
    check_vote_publication check_comment_moderation_publication check_community_edit_publication
    check_comment_edit_publication prop crosspost_chain_depth_up_to effective_max_crosspost_depth
    find
accepted = refl

accepted_under_lock_example :
    (parent_cid : String) × (parent : CommentRow) × (about_cid publication ≡ some parent_cid)
    × (stored parent_cid ≡ some parent)
    × (ModFlags.locked (Db.query_comment_flags db (CommentRow.post_cid parent)) ≡ true
        → (Request.vote request ≡ none) × IsModerator community matches_alice)
accepted_under_lock_example =
    accepted_under_lock outside reserved community request publication none matches_alice accepted
      refl refl

-- Every comment of the sample has parents.
has_parents :
    (cid : String) (row : CommentRow) → stored cid ≡ some row → Db.query_parents_cids db cid ≢ []
has_parents cid row h = ground arith

names_parent : NamesParent outside reserved community request publication none matches_alice
names_parent = ((λ v e. absurd (ground arith)), λ c e reply. (refl, ground arith))

check_publication_validity-ne-crash_example :
    check_publication_validity outside reserved community request publication none matches_alice
    ≢ crash
check_publication_validity-ne-crash_example =
    check_publication_validity-ne-crash outside reserved community request publication none
      matches_alice has_parents names_parent

-- A vote on a comment that is not stored, with the parent of another publication beside it.
abbrev stray_vote : VotePublication
stray_vote = record vote { comment_cid = "missing"; own_keys = "commentCid" ∷ "parentCid" ∷ [] }

abbrev stray_publication : Publication
stray_publication = record publication {
  own_keys = "commentCid" ∷ "parentCid" ∷ "author" ∷ [];
  comment_cid = some "missing";
}

abbrev stray_request : Request
stray_request = record request { comment = none; vote = some stray_vote }

abbrev unlocked : Community
unlocked = record community {
  db = record db {
    query_comment_flags = λ cid. record { removed = false; locked = false; archived = false };
  };
}

-- The parent passes, and the comment that the vote is on is read although it is not there.
stray_parent :
    check_publication_validity outside reserved unlocked stray_request stray_publication none
      matches_alice
    ≡ crash
unfolding check_publication_validity check_wire_format_and_community_author
    get_community_public_key_from_wire get_community_name_from_wire check_author_identity
    get_author_name_from_wire is_string_domain does_domain_address_have_capital_letter
    check_parent_and_post_state match_publication_author_against_roles matches_any_identity
    are_equivalent_names check_comment_publication check_vote_publication
stray_parent = refl
