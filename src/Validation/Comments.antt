-- ===== src/Validation/Comments.antt =====
-- publication-validation.ts: the checks of a comment publication.
pub mod Media
use pkc_js.Base.{
  ℕ, ◌+◌, String, Bool, true, false, not, ◌&&◌, ◌||◌, Option, none, some, List, [], ◌∷◌, length,
  any, ltb, str_eq, ◌==◌, truthy, same_text, includes, is_empty, is_some, if◌then◌else◌,
}
use pkc_js.Json.{Json, null, scalar, arr, obj}
use pkc_js.Crossposts.{prop, crosspost_chain_depth_up_to, effective_max_crosspost_depth}
use pkc_js.Messages.{
  Message, err_comment_has_reserved_field, err_nested_replies_not_allowed,
  err_post_flairs_not_allowed, err_post_flair_not_in_allowed_flairs, err_post_flairs_required,
  err_author_flairs_not_allowed, err_author_flair_not_in_allowed_flairs, err_author_flairs_required,
  err_reply_has_not_defined_post_cid, err_reply_post_cid_is_not_parent_of_reply,
  err_not_allowed_to_publish_crossposts, err_crosspost_chain_exceeds_community_max_depth,
  err_post_cannot_have_quoted_cids, err_quoted_cid_does_not_exist, err_quoted_cid_not_under_post,
  err_quoted_cid_is_pending_approval, err_duplicate_comment,
}
use pkc_js.Validation.{
  Check, pass, reject, crash, ◌>>◌, reject_if, CommentPublication, Request, Outside, Community,
  Features, CommentRow, Db, ReservedFields, intersects,
}
use pkc_js.Validation.Comments.Media.{check_comment_media, is_reply}

-- `isFlairInAllowedList`
unfoldable pub is_flair_in_allowed_list : (Json → Json → Bool) → Json → List Json → Bool
is_flair_in_allowed_list is_deep_equal flair allowed_flairs =
    any (λ allowed. is_deep_equal allowed flair) allowed_flairs

-- The loop over the flairs, up to the first that is not allowed.
unfoldable pub check_flairs : (Json → Json → Bool) → List Json → Message → List Json → Check
unfolding is_flair_in_allowed_list
check_flairs is_deep_equal allowed m [] = pass
check_flairs is_deep_equal allowed m (flair ∷ flairs) =
    reject_if (not (is_flair_in_allowed_list is_deep_equal flair allowed)) m
    >> check_flairs is_deep_equal allowed m flairs

unfoldable pub check_post_flairs : Outside → Community → List Json → Check
check_post_flairs outside community flairs =
    if is_empty flairs
    then pass
    else reject_if (not (Features.post_flairs (Community.features community)))
        err_post_flairs_not_allowed
      >> check_flairs (Outside.is_deep_equal outside) (Community.post_flairs community)
          err_post_flair_not_in_allowed_flairs flairs

unfoldable pub check_author_flairs : Outside → Community → List Json → Check
check_author_flairs outside community flairs =
    let features = Community.features community in
    if is_empty flairs || Features.pseudonymity_mode features
    then pass
    else reject_if (not (Features.author_flairs features)) err_author_flairs_not_allowed
      >> check_flairs (Outside.is_deep_equal outside) (Community.author_flairs community)
          err_author_flair_not_in_allowed_flairs flairs

unfoldable pub check_comment_flairs : Outside → Community → CommentPublication → Check
unfolding check_post_flairs check_author_flairs
check_comment_flairs outside community c =
    let features = Community.features community in
    check_post_flairs outside community c.flairs
    >> reject_if (Features.require_post_flairs features && not (is_reply c) && is_empty c.flairs)
        err_post_flairs_required
    >> check_author_flairs outside community c.author_flairs
    >> reject_if
        (Features.require_author_flairs features
          && not (Features.pseudonymity_mode features)
          && is_empty c.author_flairs)
        err_author_flairs_required

abbrev pub parent_is_reply : Db → Option String → Bool
parent_is_reply db none = false
parent_is_reply db (some cid) = elim (Db.query_comment db cid) [
  | none ↦ false
  | some parent ↦ ltb 0 (CommentRow.depth parent)
]

unfoldable pub check_nesting : Community → CommentPublication → Check
check_nesting community c =
    reject_if
      (Features.no_nested_replies (Community.features community)
        && is_reply c
        && parent_is_reply (Community.db community) c.parent_cid)
      err_nested_replies_not_allowed

-- `parents[parents.length - 1].cid` throws when there is no parent.
unfoldable pub check_last_parent : Option String → List String → Check
check_last_parent post_cid [] = crash
check_last_parent post_cid (cid ∷ []) =
    reject_if (not (same_text (some cid) post_cid)) err_reply_post_cid_is_not_parent_of_reply
check_last_parent post_cid (cid ∷ next ∷ rest) = check_last_parent post_cid (next ∷ rest)

abbrev pub parents_of : Db → Option String → List String
parents_of db none = []
parents_of db (some cid) = Db.query_parents_cids db cid

unfoldable pub check_post_cid : Community → CommentPublication → Check
unfolding check_last_parent
check_post_cid community c =
    reject_if (is_reply c && not (truthy c.post_cid)) err_reply_has_not_defined_post_cid
    >> (if is_reply c
        then check_last_parent c.post_cid (parents_of (Community.db community) c.parent_cid)
        else pass)

-- `if (commentPublication.crosspost)`: absent and `null` are falsy.
abbrev pub is_present : Option Json → Bool
is_present none = false
is_present (some null) = false
is_present _ = true

unfoldable pub check_crosspost : Community → CommentPublication → Check
check_crosspost community c =
    let features = Community.features community in
    let max_depth = effective_max_crosspost_depth (Features.max_crosspost_depth features) in
    if is_present (prop (some c.raw) "crosspost")
    then (reject_if (Features.no_crossposts features) err_not_allowed_to_publish_crossposts
        >> reject_if (ltb max_depth (crosspost_chain_depth_up_to (some c.raw) (max_depth + 1)))
            err_crosspost_chain_exceeds_community_max_depth)
    else pass

abbrev pub thread_of : CommentRow → String
thread_of q = if q.depth == 0 then q.cid else q.post_cid

-- The body of the loop over the quoted cids.
unfoldable pub check_quoted_cid : Db → Option String → String → Check
check_quoted_cid db thread_post_cid cid = elim (Db.query_comment db cid) [
  | none ↦ reject err_quoted_cid_does_not_exist
  | some quoted ↦
      reject_if (not (same_text (some (thread_of quoted)) thread_post_cid))
        err_quoted_cid_not_under_post
      >> reject_if (CommentRow.pending_approval quoted) err_quoted_cid_is_pending_approval
]

unfoldable pub check_each_quoted : Db → Option String → List String → Check
unfolding check_quoted_cid
check_each_quoted db thread_post_cid [] = pass
check_each_quoted db thread_post_cid (cid ∷ cids) =
    check_quoted_cid db thread_post_cid cid >> check_each_quoted db thread_post_cid cids

unfoldable pub check_quoted_cids : Community → CommentPublication → Check
unfolding check_each_quoted
check_quoted_cids community c =
    if is_empty c.quoted_cids
    then pass
    else reject_if (not (is_reply c)) err_post_cannot_have_quoted_cids
      >> check_each_quoted (Community.db community) c.post_cid c.quoted_cids

-- `checkCommentPublication`, of the comment of a request.
unfoldable pub check_comment : Outside → ReservedFields → Community → CommentPublication → Check
unfolding check_comment_flairs check_nesting check_post_cid check_crosspost check_quoted_cids
check_comment outside reserved community c =
    reject_if (intersects c.own_keys (ReservedFields.comment reserved))
      err_comment_has_reserved_field
    >> check_comment_media outside community c
    >> check_nesting community c
    >> check_comment_flairs outside community c
    >> check_post_cid community c
    >> check_crosspost community c
    >> check_quoted_cids community c
    >> reject_if (Db.has_comment (Community.db community) c.signature) err_duplicate_comment

unfoldable pub check_comment_publication : Outside → ReservedFields → Community → Request → Check
unfolding check_comment
check_comment_publication outside reserved community request = elim (Request.comment request) [
  | none ↦ pass
  | some c ↦ check_comment outside reserved community c
]
