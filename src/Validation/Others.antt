-- ===== src/Validation/Others.antt =====
-- publication-validation.ts: the checks of votes, comment moderations, community edits and comment
-- edits.
use pkc_js.Base.{
  String, Bool, true, false, not, ◌&&◌, ◌||◌, none, some, List, [], ◌∷◌, ltb, ◌==◌, every, str_eq,
  truthy, includes, is_some, if◌then◌else◌,
}
use pkc_js.Messages.{
  err_vote_has_reserved_field, err_not_allowed_to_publish_upvotes,
  err_not_allowed_to_publish_downvotes, err_not_allowed_to_publish_post_downvotes,
  err_not_allowed_to_publish_post_upvotes, err_not_allowed_to_publish_reply_downvotes,
  err_not_allowed_to_publish_reply_upvotes, err_there_is_no_previous_vote_to_cancel,
  err_comment_moderation_has_reserved_field,
  err_comment_moderation_attempted_without_being_moderator,
  err_comment_moderation_no_comment_to_edit, err_community_comment_mod_can_not_lock_reply,
  err_not_allowed_to_archive_posts, err_community_comment_mod_can_not_archive_reply,
  err_duplicate_comment_moderation,
  err_mod_attempting_to_approve_or_disapprove_comment_that_is_not_pending,
  err_community_edit_has_reserved_field,
  err_community_edit_attempted_to_modify_owner_exclusive_props,
  err_community_edit_attempted_to_modify_community_without_being_owner_or_admin,
  err_community_edit_attempted_to_non_public_props, err_comment_edit_has_reserved_field,
  err_comment_edit_no_comment_to_edit, err_duplicate_comment_edit,
  err_comment_edit_can_not_edit_comment_if_not_original_author, err_comment_has_spoiler_enabled,
  err_reply_has_spoiler_enabled,
}
use pkc_js.Excludes.{MatchOutcome}
use pkc_js.Validation.{
  Check, pass, reject, crash, ◌>>◌, reject_if, VoteValue, up, down, cancel, VotePublication,
  CommentModeration, CommunityEdit, CommentEdit, Request, Outside, Community, Features, CommentRow,
  ModFlags, Db, ReservedFields, intersects, match_publication_author_against_roles, on_stored,
}
use pkc_js.Validation.Parents.{require_match, is_true}
use pkc_js.Validation.Comments.{check_post_flairs}
use pkc_js.Validation.Comments.Media.{check_markdown, is_spoiler}

abbrev pub is_up : VoteValue → Bool
is_up up = true
is_up _ = false

abbrev pub is_down : VoteValue → Bool
is_down down = true
is_down _ = false

abbrev pub is_cancel : VoteValue → Bool
is_cancel cancel = true
is_cancel _ = false

-- The checks against the comment that the vote is on.
unfoldable pub check_vote_on : Outside → Community → VotePublication → CommentRow → Check
check_vote_on outside community v target =
    let features = Community.features community in
    let on_post = CommentRow.depth target == 0 in
    let on_reply = ltb 0 (CommentRow.depth target) in
    let voter = Outside.address_of_public_key outside v.signature_public_key in
    reject_if (Features.no_post_downvotes features && on_post && is_down v.vote)
      err_not_allowed_to_publish_post_downvotes
    >> reject_if (Features.no_post_upvotes features && on_post && is_up v.vote)
        err_not_allowed_to_publish_post_upvotes
    >> reject_if (Features.no_reply_downvotes features && on_reply && is_down v.vote)
        err_not_allowed_to_publish_reply_downvotes
    >> reject_if (Features.no_reply_upvotes features && on_reply && is_up v.vote)
        err_not_allowed_to_publish_reply_upvotes
    >> reject_if
        (not (Db.query_vote (Community.db community) (CommentRow.cid target) voter)
          && is_cancel v.vote)
        err_there_is_no_previous_vote_to_cancel

-- A vote on a comment that is not stored reads `cid` of `undefined`.
unfoldable pub check_vote : Outside → ReservedFields → Community → VotePublication → Check
unfolding check_vote_on
check_vote outside reserved community v =
    let features = Community.features community in
    reject_if (intersects (ReservedFields.vote reserved) v.own_keys) err_vote_has_reserved_field
    >> reject_if (Features.no_upvotes features && is_up v.vote) err_not_allowed_to_publish_upvotes
    >> reject_if (Features.no_downvotes features && is_down v.vote)
        err_not_allowed_to_publish_downvotes
    >> on_stored (crash) (check_vote_on outside community v)
        (Db.query_comment (Community.db community) v.comment_cid)

-- `checkVotePublication`
unfoldable pub check_vote_publication : Outside → ReservedFields → Community → Request → Check
unfolding check_vote
check_vote_publication outside reserved community request = elim (Request.vote request) [
  | none ↦ pass
  | some v ↦ check_vote outside reserved community v
]

-- The checks against the comment that is moderated.
unfoldable pub check_moderated : Community → CommentModeration → CommentRow → Check
check_moderated community m target =
    let db = Community.db community in
    let on_reply = not (CommentRow.depth target == 0) in
    reject_if (is_true m.locked && on_reply) err_community_comment_mod_can_not_lock_reply
    >> reject_if
        (Features.no_archive (Community.features community)
          && is_true m.archived
          && not (ModFlags.archived (Db.query_comment_flags db (CommentRow.cid target))))
        err_not_allowed_to_archive_posts
    >> reject_if (is_true m.archived && on_reply) err_community_comment_mod_can_not_archive_reply
    >> reject_if (Db.has_comment_moderation db m.signature) err_duplicate_comment_moderation
    >> reject_if (is_some m.approved && not (CommentRow.pending_approval target))
        err_mod_attempting_to_approve_or_disapprove_comment_that_is_not_pending

unfoldable pub check_moderation :
    ReservedFields → Community → (List String → MatchOutcome) → CommentModeration → Check
unfolding check_moderated
check_moderation reserved community matches_any m =
    reject_if (intersects (ReservedFields.comment_moderation reserved) m.own_keys)
      err_comment_moderation_has_reserved_field
    >> require_match
        (match_publication_author_against_roles community ("owner" ∷ "moderator" ∷ "admin" ∷ [])
          matches_any)
        err_comment_moderation_attempted_without_being_moderator
    >> on_stored (reject err_comment_moderation_no_comment_to_edit) (check_moderated community m)
        (Db.query_comment (Community.db community) m.comment_cid)

-- `checkCommentModerationPublication`
unfoldable pub check_comment_moderation_publication :
    ReservedFields → Community → Request → (List String → MatchOutcome) → Check
unfolding check_moderation
check_comment_moderation_publication reserved community request matches_any =
    elim (Request.comment_moderation request) [
      | none ↦ pass
      | some m ↦ check_moderation reserved community matches_any m
    ]

abbrev pub is_owner_exclusive : CommunityEdit → Bool
is_owner_exclusive e = e.roles || truthy e.address || truthy e.name

unfoldable pub check_edit :
    ReservedFields → Community → (List String → MatchOutcome) → CommunityEdit → Check
check_edit reserved community matches_any e =
    reject_if (intersects (ReservedFields.community_edit reserved) e.own_keys)
      err_community_edit_has_reserved_field
    >> (if is_owner_exclusive e
        then require_match
            (match_publication_author_against_roles community ("owner" ∷ []) matches_any)
            err_community_edit_attempted_to_modify_owner_exclusive_props
        else pass)
    >> require_match
        (match_publication_author_against_roles community ("owner" ∷ "admin" ∷ []) matches_any)
        err_community_edit_attempted_to_modify_community_without_being_owner_or_admin
    >> reject_if
        (not (
          every
            (λ key. includes (ReservedFields.community_ipfs reserved) key || str_eq key "address")
            e.edit_keys))
        err_community_edit_attempted_to_non_public_props

-- `checkCommunityEditPublication`
unfoldable pub check_community_edit_publication :
    ReservedFields → Community → Request → (List String → MatchOutcome) → Check
unfolding check_edit
check_community_edit_publication reserved community request matches_any =
    elim (Request.community_edit request) [
      | none ↦ pass
      | some e ↦ check_edit reserved community matches_any e
    ]

-- The key that an edit must be signed with: the original author's, where the comment has an alias.
unfoldable pub original_author : Db → CommentRow → String
original_author db target = elim (Db.query_pseudonymity_alias db (CommentRow.cid target)) [
  | some public_key ↦ public_key
  | none ↦ CommentRow.signature_public_key target
]

-- The checks against the comment that is edited.
unfoldable pub check_edited : Outside → Community → CommentEdit → CommentRow → Check
unfolding original_author
check_edited outside community e target =
    let db = Community.db community in
    let features = Community.features community in
    reject_if (Db.has_comment_edit db e.signature) err_duplicate_comment_edit
    >> reject_if (not (str_eq e.signature_public_key (original_author db target)))
        err_comment_edit_can_not_edit_comment_if_not_original_author
    >> check_markdown outside features e.content
    >> reject_if (Features.no_spoilers features && is_spoiler e.spoiler)
        err_comment_has_spoiler_enabled
    >> reject_if
        (Features.no_spoiler_replies features
          && ltb 0 (CommentRow.depth target)
          && is_spoiler e.spoiler)
        err_reply_has_spoiler_enabled
    >> check_post_flairs outside community e.flairs

unfoldable pub check_comment_edit : Outside → ReservedFields → Community → CommentEdit → Check
unfolding check_edited
check_comment_edit outside reserved community e =
    reject_if (intersects (ReservedFields.comment_edit reserved) e.own_keys)
      err_comment_edit_has_reserved_field
    >> on_stored (reject err_comment_edit_no_comment_to_edit) (check_edited outside community e)
        (Db.query_comment (Community.db community) e.comment_cid)

-- `checkCommentEditPublication`
unfoldable pub check_comment_edit_publication :
    Outside → ReservedFields → Community → Request → Check
unfolding check_comment_edit
check_comment_edit_publication outside reserved community request =
    elim (Request.comment_edit request) [
      | none ↦ pass
      | some e ↦ check_comment_edit outside reserved community e
    ]
