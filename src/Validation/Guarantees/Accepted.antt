-- ===== src/Validation/Guarantees/Accepted.antt =====
-- When `checkPublicationValidity` accepts a publication, and what follows for a locked post.
use pkc_js.Base.{◌≡◌, ◌↔◌, ◌≤◌, ℕ, String, true, Option, none, some, List, arith}
use pkc_js.Excludes.{MatchOutcome}
use pkc_js.Validation.{
  pass, Publication, Request, Outside, Community, CommentRow, ModFlags, Db, ReservedFields,
}
use pkc_js.Validation.Wire.{check_wire_format_and_community_author, check_author_identity}
use pkc_js.Validation.Parents.{check_parent_and_post_state, about_cid, is_about_comment}
use pkc_js.Validation.Comments.{check_comment_publication}
use pkc_js.Validation.Others.{
  check_vote_publication, check_comment_moderation_publication, check_community_edit_publication,
  check_comment_edit_publication,
}
use pkc_js.Validation.Validity.{check_publication_validity}
use pkc_js.Validation.Guarantees.Parents.{IsModerator, check_parent_and_post_state_iff}

module _ (outside : Outside) (reserved : ReservedFields) (community : Community) (request : Request)
    (p : Publication) (ban_expires_at : Option ℕ) (matches_any : List String → MatchOutcome) where
  -- A publication is accepted just when its nine checks pass and it has at most 40000 bytes.
  pub check_publication_validity_iff :
      (check_publication_validity outside reserved community request p ban_expires_at matches_any
        ≡ pass)
      ↔ ((check_wire_format_and_community_author outside community p ban_expires_at ≡ pass)
          × (check_author_identity outside reserved community p ≡ pass)
          × (check_parent_and_post_state community request p matches_any ≡ pass)
          × (Outside.publication_bytes outside ≤ 40000)
          × (check_comment_publication outside reserved community request ≡ pass)
          × (check_vote_publication outside reserved community request ≡ pass)
          × (check_comment_moderation_publication reserved community request matches_any ≡ pass)
          × (check_community_edit_publication reserved community request matches_any ≡ pass)
          × (check_comment_edit_publication outside reserved community request ≡ pass))
  unfolding check_publication_validity
  check_publication_validity_iff = ground arith

  -- An accepted publication that is about a comment, in a request that is no moderation, is about a
  -- stored comment; where the post of that comment is locked, the request is no vote and its author
  -- holds the role of an owner, admin or moderator.
  pub accepted_under_lock :
      check_publication_validity outside reserved community request p ban_expires_at matches_any
        ≡ pass
      → Request.comment_moderation request ≡ none
      → is_about_comment p ≡ true
      → (parent_cid : String) × (parent : CommentRow) × (about_cid p ≡ some parent_cid)
        × (Db.query_comment (Community.db community) parent_cid ≡ some parent)
        × (ModFlags.locked
                (Db.query_comment_flags (Community.db community) (CommentRow.post_cid parent))
              ≡ true
            → (Request.vote request ≡ none) × IsModerator community matches_any)
  accepted_under_lock h no_moderation about =
      let passes = (check_publication_validity_iff.0 h).2 in
      let (cid, parent, e, r, follows) =
        (check_parent_and_post_state_iff community request p matches_any).0 passes about in
      (cid, parent, e, r, (follows.1 no_moderation).4)
