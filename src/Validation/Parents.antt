-- ===== src/Validation/Parents.antt =====
-- publication-validation.ts: the checks of the comment that a publication is about, and of its post.
use pkc_js.Base.{
  String, Bool, false, not, ◌&&◌, ◌||◌, Option, none, some, List, [], ◌∷◌, ltb, truthy, includes,
  is_some, if◌then◌else◌,
}
use pkc_js.Messages.{
  Message, err_community_publication_parent_cid_not_defined,
  err_publication_parent_does_not_exist_in_community,
  err_community_publication_parent_has_been_removed,
  err_community_publication_parent_has_been_deleted,
  err_community_publication_post_has_been_removed, err_community_publication_post_has_been_deleted,
  err_community_publication_post_is_locked, err_community_publication_post_is_archived,
  err_community_comment_timestamp_is_earlier_than_parent, err_user_published_under_pending_comment,
  err_user_published_under_disapproved_comment,
}
use pkc_js.Excludes.{NameFailure, MatchOutcome, matched, unmatched}
use pkc_js.Validation.{
  Check, pass, reject, ◌>>◌, reject_if, Publication, Request, CommentEdit, Community, CommentRow,
  ModFlags, Db, match_publication_author_against_roles,
}

-- A failed match is rejected with the failure of the author's name, where that is the cause.
abbrev pub require_match : MatchOutcome → Message → Check
require_match matched m = pass
require_match (unmatched none) m = reject m
require_match (unmatched (some failure)) m = reject (NameFailure.reason failure)

abbrev pub is_true : Option Bool → Bool
is_true none = false
is_true (some b) = b

-- `request.commentEdit?.deleted === true`
abbrev pub is_deletion : Option CommentEdit → Bool
is_deletion none = false
is_deletion (some edit) = is_true (CommentEdit.deleted edit)

-- `isCommentDisapproved && !isCommentDisapproved.approved`
abbrev pub is_disapproved : Option Bool → Bool
is_disapproved none = false
is_disapproved (some approved) = not approved

-- Voting under a locked post is closed to moderators too.
unfoldable pub lock_bypass : Community → Request → (List String → MatchOutcome) → MatchOutcome
lock_bypass community request matches_any =
    if is_some (Request.vote request)
    then unmatched none
    else match_publication_author_against_roles community ("owner" ∷ "admin" ∷ "moderator" ∷ [])
        matches_any

-- The checks once the parent is known.
unfoldable pub check_parent :
    Community → Request → Publication → (List String → MatchOutcome) → String → CommentRow → Check
unfolding lock_bypass
check_parent community request p matches_any parent_cid parent =
    let db = Community.db community in
    let by_user = not (is_some (Request.comment_moderation request)) in
    let parent_flags = Db.query_comment_flags db parent_cid in
    let post_flags = Db.query_comment_flags db (CommentRow.post_cid parent) in
    let acts_on_content = by_user && not (is_deletion (Request.comment_edit request)) in
    reject_if (ModFlags.removed parent_flags && by_user)
      err_community_publication_parent_has_been_removed
    >> reject_if (Db.is_author_deleted db parent_cid && by_user)
        err_community_publication_parent_has_been_deleted
    >> reject_if (ModFlags.removed post_flags && by_user)
        err_community_publication_post_has_been_removed
    >> reject_if (Db.is_author_deleted db (CommentRow.post_cid parent) && by_user)
        err_community_publication_post_has_been_deleted
    >> (if ModFlags.locked post_flags && by_user
        then require_match (lock_bypass community request matches_any)
            err_community_publication_post_is_locked
        else pass)
    >> reject_if (ModFlags.archived post_flags && by_user)
        err_community_publication_post_is_archived
    >> reject_if (ltb p.timestamp (CommentRow.timestamp parent))
        err_community_comment_timestamp_is_earlier_than_parent
    >> reject_if (CommentRow.pending_approval parent && acts_on_content)
        err_user_published_under_pending_comment
    >> reject_if (is_disapproved (Db.query_is_comment_approved db parent) && acts_on_content)
        err_user_published_under_disapproved_comment

-- `publication.parentCid || publication.commentCid`
abbrev pub about_cid : Publication → Option String
about_cid p = if truthy p.parent_cid then p.parent_cid else p.comment_cid

abbrev pub is_about_comment : Publication → Bool
is_about_comment p = includes p.own_keys "commentCid" || includes p.own_keys "parentCid"

-- `checkParentAndPostState`
unfoldable pub check_parent_and_post_state :
    Community → Request → Publication → (List String → MatchOutcome) → Check
unfolding check_parent
check_parent_and_post_state community request p matches_any =
    if is_about_comment p
    then elim (about_cid p) [
      | none ↦ reject err_community_publication_parent_cid_not_defined
      | some parent_cid ↦ elim (Db.query_comment (Community.db community) parent_cid) [
        | none ↦ reject err_publication_parent_does_not_exist_in_community
        | some parent ↦ check_parent community request p matches_any parent_cid parent
      ]
    ]
    else pass
