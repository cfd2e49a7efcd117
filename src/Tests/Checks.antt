-- ===== src/Tests/Checks.antt =====
-- Each check of publications, at the sample.
use pkc_js.Base.{
  ◌≡◌, ◌↔◌, ◌⊎◌, arith, ◌≤◌, true, false, false, some, [], ◌∷◌, All, truthy, ◌+◌, includes,
}
use pkc_js.Names.{
  get_community_public_key_from_wire, get_community_name_from_wire, get_author_name_from_wire,
}
use pkc_js.Crossposts.{
  prop, Embeds, crosspost_chain_depth_up_to, crosspost_chain_depth_exact,
  effective_max_crosspost_depth,
}
use pkc_js.Validation.{pass, CommentRow, Outside, Community, Features}
use pkc_js.Validation.Wire.{check_wire_format_and_community_author, check_author_identity}
use pkc_js.Validation.Parents.{check_parent_and_post_state, is_about_comment}
use pkc_js.Validation.Comments.{
  check_post_flairs, check_post_cid, check_crosspost, check_quoted_cids, is_present,
}
use pkc_js.Validation.Comments.Media.{check_comment_gallery, is_reply}
use pkc_js.Validation.Others.{check_vote, check_moderation, check_edit, check_comment_edit}
use pkc_js.Validation.Guarantees.Wire.{
  Disjoint, IsIdentityKey, IsCommunityName, IsBanned, HasWireFormat, IsRecent, HasAuthorFields,
  HasOwnName, check_wire_format_iff, check_author_identity_iff,
}
use pkc_js.Validation.Guarantees.Parents.{FollowsParent, check_parent_and_post_state_iff}
use pkc_js.Validation.Guarantees.Comments.{
  IsGallery, IsAllowed, Ends, IsQuotable, check_comment_gallery_iff, check_post_flairs_iff,
  check_post_cid_iff, check_crosspost_iff, check_quoted_cids_iff,
}
use pkc_js.Validation.Guarantees.Others.{
  ChangesOwnerProps, VotesOn, IsMod, Moderates, HoldsRole, Edits, check_vote_iff,
  check_moderation_iff, check_edit_iff, check_comment_edit_iff,
}
use pkc_js.Tests.Sample.{
  community, db, outside, reserved, request, publication, matches_alice, vote, moderation,
  community_edit, comment_edit, comment, stored,
}

check_wire_format_iff_example :
    (check_wire_format_and_community_author outside community publication (some 1990) ≡ pass) ↔ (
      HasWireFormat outside publication
      × IsIdentityKey community (some "anchor")
      × IsCommunityName community (some "news.eth")
      × IsRecent outside publication
      × (¬ IsBanned 2000 (some 1990)))
unfolding get_community_public_key_from_wire get_community_name_from_wire
check_wire_format_iff_example = check_wire_format_iff outside community publication (some 1990)

check_author_identity_iff_example :
    (check_author_identity outside reserved community publication ≡ pass) ↔ (
      HasAuthorFields reserved publication.author
      × HasOwnName outside community publication (some "alice.eth"))
unfolding get_author_name_from_wire
check_author_identity_iff_example = check_author_identity_iff outside reserved community publication

check_parent_and_post_state_iff_example :
    (check_parent_and_post_state community request publication matches_alice ≡ pass) ↔ (
      is_about_comment publication ≡ true
      → FollowsParent community request publication matches_alice)
check_parent_and_post_state_iff_example =
    check_parent_and_post_state_iff community request publication matches_alice

check_comment_gallery_iff_example : (check_comment_gallery outside community comment ≡ pass) ↔ (
    (truthy comment.parent_cid ≡ true
      → IsGallery outside
          (Features.max_reply_gallery_items (Community.features community))
          comment.gallery)
    × (truthy comment.parent_cid ≡ false
        → IsGallery outside
            (Features.max_post_gallery_items (Community.features community))
            comment.gallery))
check_comment_gallery_iff_example = check_comment_gallery_iff outside community comment

check_post_flairs_iff_example : (check_post_flairs outside community comment.flairs ≡ pass) ↔ (
    (comment.flairs ≡ [])
    ⊎ ((Features.post_flairs (Community.features community) ≡ true)
        × All
            (IsAllowed (Outside.is_deep_equal outside) (Community.post_flairs community))
            comment.flairs))
check_post_flairs_iff_example = check_post_flairs_iff outside community comment.flairs

check_post_cid_iff_example :
    (check_post_cid community comment ≡ pass)
    ↔ (is_reply comment ≡ true → (truthy (some "post") ≡ true) × Ends ("post" ∷ []) (some "post"))
check_post_cid_iff_example = check_post_cid_iff community comment

check_crosspost_iff_example : (check_crosspost community comment ≡ pass) ↔ (
    is_present (prop (some comment.raw) "crosspost") ≡ true
    → (Features.no_crossposts (Community.features community) ≡ false)
      × (¬ Embeds
          (effective_max_crosspost_depth
              (Features.max_crosspost_depth (Community.features community))
            + 1)
          (prop (some comment.raw) "crosspost")))
check_crosspost_iff_example = check_crosspost_iff community comment

check_quoted_cids_iff_example : (check_quoted_cids community comment ≡ pass) ↔ (
    (comment.quoted_cids ≡ [])
    ⊎ ((is_reply comment ≡ true) × All (IsQuotable db (some "post")) ("reply" ∷ [])))
check_quoted_cids_iff_example = check_quoted_cids_iff community comment

check_vote_iff_example : (check_vote outside reserved community vote ≡ pass) ↔ (
    Disjoint ("community" ∷ []) vote.own_keys
    × (target : CommentRow) × (stored "reply" ≡ some target)
    × VotesOn outside community vote target)
check_vote_iff_example = check_vote_iff outside reserved community vote

check_moderation_iff_example :
    (check_moderation reserved community matches_alice moderation ≡ pass) ↔ (
      Disjoint ("community" ∷ []) moderation.own_keys
      × IsMod community matches_alice
      × (target : CommentRow) × (stored "post" ≡ some target)
      × Moderates community moderation target)
check_moderation_iff_example = check_moderation_iff reserved community matches_alice moderation

check_edit_iff_example : (check_edit reserved community matches_alice community_edit ≡ pass) ↔ (
    Disjoint ("community" ∷ []) community_edit.own_keys
    × (ChangesOwnerProps community_edit → HoldsRole community ("owner" ∷ []) matches_alice)
    × HoldsRole community ("owner" ∷ "admin" ∷ []) matches_alice
    × All
        (λ key. (includes ("title" ∷ "roles" ∷ []) key ≡ true) ⊎ (key ≡ "address"))
        ("roles" ∷ "title" ∷ []))
check_edit_iff_example = check_edit_iff reserved community matches_alice community_edit

check_comment_edit_iff_example :
    (check_comment_edit outside reserved community comment_edit ≡ pass) ↔ (
      Disjoint ("community" ∷ []) comment_edit.own_keys
      × (target : CommentRow) × (stored "reply" ≡ some target)
      × Edits outside community comment_edit target)
check_comment_edit_iff_example = check_comment_edit_iff outside reserved community comment_edit

crosspost_chain_depth_exact_example :
    (crosspost_chain_depth_up_to (some comment.raw) 3 ≤ 3)
    × ((2 ≤ crosspost_chain_depth_up_to (some comment.raw) 3)
        ↔ Embeds 2 (prop (some comment.raw) "crosspost"))
crosspost_chain_depth_exact_example =
    crosspost_chain_depth_exact (some comment.raw) 3 2 (omega arith)
