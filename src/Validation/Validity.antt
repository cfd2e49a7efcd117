-- ===== src/Validation/Validity.antt =====
-- publication-validation.ts: `checkPublicationValidity`, the checks of all kinds in their order.
use pkc_js.Base.{ℕ, String, Option, List, ltb}
use pkc_js.Messages.{err_request_publication_over_allowed_size}
use pkc_js.Excludes.{MatchOutcome}
use pkc_js.Validation.{
  Check, ◌>>◌, reject_if, Publication, Request, Outside, Community, ReservedFields,
}
use pkc_js.Validation.Wire.{check_wire_format_and_community_author, check_author_identity}
use pkc_js.Validation.Parents.{check_parent_and_post_state}
use pkc_js.Validation.Comments.{check_comment_publication}
use pkc_js.Validation.Others.{
  check_vote_publication, check_comment_moderation_publication, check_community_edit_publication,
  check_comment_edit_publication,
}

-- `matches_any` is the request's identity matcher: it resolves the author's name at most once.
unfoldable pub check_publication_validity :
    Outside
    → ReservedFields
    → Community
    → Request
    → Publication
    → Option ℕ
    → (List String → MatchOutcome)
    → Check
check_publication_validity outside reserved community request p ban_expires_at matches_any =
    check_wire_format_and_community_author outside community p ban_expires_at
    >> check_author_identity outside reserved community p
    >> check_parent_and_post_state community request p matches_any
    >> reject_if (ltb 40000 (Outside.publication_bytes outside))
        err_request_publication_over_allowed_size
    >> check_comment_publication outside reserved community request
    >> check_vote_publication outside reserved community request
    >> check_comment_moderation_publication reserved community request matches_any
    >> check_community_edit_publication reserved community request matches_any
    >> check_comment_edit_publication outside reserved community request
