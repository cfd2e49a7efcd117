-- ===== src/Validation/Guarantees/Safety.antt =====
-- `checkPublicationValidity` never reads a field of a missing comment.
use pkc_js.Base.{
  ◌≡◌, ◌≢◌, refl, inl, inr, ℕ, String, Bool, true, Option, none, some, List, [], ◌∷◌, arith,
  Option-cases, Bool-cases, ap, subst, ◌∙◌, sym,
}
use pkc_js.Json.{Json}
use pkc_js.Messages.{
  Message, err_post_flair_not_in_allowed_flairs, err_author_flair_not_in_allowed_flairs,
}
use pkc_js.Excludes.{MatchOutcome}
use pkc_js.Validation.{
  pass, crash, Publication, VotePublication, CommentPublication, CommentEdit, GalleryItem, Request,
  Outside, Community, CommentRow, Db, ReservedFields,
}
use pkc_js.Validation.Wire.{
  check_community_key, check_community_name, check_author_name, check_resolved,
  check_wire_format_and_community_author, check_author_identity,
}
use pkc_js.Validation.Parents.{
  check_parent, check_parent_and_post_state, about_cid, is_about_comment,
}
use pkc_js.Validation.Comments.Media.{
  check_comment_media, check_links, check_comment_gallery, check_gallery?, check_gallery,
  check_gallery_items, check_markdown, check_media, is_reply, max_items,
}
use pkc_js.Validation.Comments.{
  check_flairs, check_post_flairs, check_author_flairs, check_comment_flairs, check_nesting,
  check_last_parent, parents_of, check_post_cid, check_crosspost, check_quoted_cid,
  check_each_quoted, check_quoted_cids, check_comment, check_comment_publication,
}
use pkc_js.Validation.Others.{
  check_vote, check_vote_on, check_vote_publication, check_moderation, check_moderated,
  check_comment_moderation_publication, check_edit, check_community_edit_publication, check_edited,
  check_comment_edit, check_comment_edit_publication,
}
use pkc_js.Validation.Validity.{check_publication_validity}
use pkc_js.Validation.Passing.{>>-ne-crash, >>reject-ne-crash, reject_if-ne-crash}
use pkc_js.Validation.Guarantees.Parents.{check_parent_and_post_state_iff}

gallery_items-ne-crash :
    (outside : Outside) (items : List GalleryItem) → check_gallery_items outside items ≢ crash
unfolding check_gallery_items
gallery_items-ne-crash outside [] e = ground arith
gallery_items-ne-crash outside (item ∷ items) e =
    ground (arith, gallery_items-ne-crash outside items)

gallery-ne-crash :
    (outside : Outside) (most : ℕ) (reply : Bool) (gallery : Option (List GalleryItem))
    → check_gallery? outside most reply gallery ≢ crash
unfolding check_gallery
gallery-ne-crash outside most reply none e = ground arith
gallery-ne-crash outside most reply (some gallery) e =
    ground (arith, gallery_items-ne-crash outside gallery)

flairs-ne-crash :
    (is_deep_equal : Json → Json → Bool) (allowed : List Json) (m : Message) (flairs : List Json)
    → check_flairs is_deep_equal allowed m flairs ≢ crash
unfolding check_flairs
flairs-ne-crash is_deep_equal allowed m [] e = ground arith
flairs-ne-crash is_deep_equal allowed m (flair ∷ flairs) e =
    ground (arith, flairs-ne-crash is_deep_equal allowed m flairs)

quoted-ne-crash :
    (db : Db) (post_cid : Option String) (cids : List String)
    → check_each_quoted db post_cid cids ≢ crash
unfolding check_each_quoted check_quoted_cid
quoted-ne-crash db post_cid [] e = ground arith
quoted-ne-crash db post_cid (cid ∷ cids) e = ground (arith, quoted-ne-crash db post_cid cids)

last_parent-ne-crash :
    (post_cid : Option String) (parents : List String)
    → parents ≢ []
    → check_last_parent post_cid parents ≢ crash
unfolding check_last_parent
last_parent-ne-crash post_cid [] h e = h refl
last_parent-ne-crash post_cid (cid ∷ []) h e = ground arith
last_parent-ne-crash post_cid (cid ∷ next ∷ rest) h e =
    last_parent-ne-crash post_cid (next ∷ rest) (λ k. ground arith) e

module _ (outside : Outside) (reserved : ReservedFields) (community : Community) (request : Request)
    (p : Publication) (ban_expires_at : Option ℕ) (matches_any : List String → MatchOutcome) where
  wire-ne-crash : check_wire_format_and_community_author outside community p ban_expires_at ≢ crash
  unfolding check_wire_format_and_community_author check_community_key check_community_name
  wire-ne-crash e = ground arith

  author-ne-crash : check_author_identity outside reserved community p ≢ crash
  unfolding check_author_identity check_author_name check_resolved
  author-ne-crash e = ground arith

  parent-ne-crash : check_parent_and_post_state community request p matches_any ≢ crash
  unfolding check_parent_and_post_state check_parent
  parent-ne-crash e = ground arith

  moderation-ne-crash :
      check_comment_moderation_publication reserved community request matches_any ≢ crash
  unfolding check_comment_moderation_publication check_moderation check_moderated
  moderation-ne-crash e = ground arith

  community_edit-ne-crash :
      check_community_edit_publication reserved community request matches_any ≢ crash
  unfolding check_community_edit_publication check_edit
  community_edit-ne-crash e = ground arith

  links-ne-crash :
      (c : CommentPublication) → check_links outside (Community.features community) c ≢ crash
  unfolding check_links
  links-ne-crash c e = ground arith

  markdown-ne-crash :
      (content : Option String)
      → check_markdown outside (Community.features community) content ≢ crash
  unfolding check_markdown
  markdown-ne-crash content e = ground arith

  features_media-ne-crash :
      (c : CommentPublication) → check_media outside (Community.features community) c ≢ crash
  unfolding check_media
  features_media-ne-crash c =
      let one = reject_if-ne-crash _ _ in
      let three = >>reject-ne-crash _ _ _ (>>reject-ne-crash _ _ _ one) in
      let six = >>reject-ne-crash _ _ _ (>>reject-ne-crash _ _ _ (>>reject-ne-crash _ _ _ three)) in
      >>reject-ne-crash _ _ _ (>>reject-ne-crash _ _ _ (>>reject-ne-crash _ _ _ six))

  media-ne-crash : (c : CommentPublication) → check_comment_media outside community c ≢ crash
  unfolding check_comment_media check_comment_gallery
  media-ne-crash c =
      let gallery =
        gallery-ne-crash outside (max_items (Community.features community) c) (is_reply c)
          c.gallery in
      let a = links-ne-crash c in
      let b = markdown-ne-crash c.content in
      let d = features_media-ne-crash c in
      >>-ne-crash _ _ (>>-ne-crash _ _ (>>-ne-crash _ _ a (λ _. gallery)) (λ _. b)) (λ _. d)

  post_flairs-ne-crash : (flairs : List Json) → check_post_flairs outside community flairs ≢ crash
  unfolding check_post_flairs
  post_flairs-ne-crash [] e = ground arith
  post_flairs-ne-crash (flair ∷ flairs) e = ground (
    arith,
    flairs-ne-crash (Outside.is_deep_equal outside) (Community.post_flairs community)
        err_post_flair_not_in_allowed_flairs (flair ∷ flairs),
  )

  author_flairs-ne-crash :
      (flairs : List Json) → check_author_flairs outside community flairs ≢ crash
  unfolding check_author_flairs
  author_flairs-ne-crash [] e = ground arith
  author_flairs-ne-crash (flair ∷ flairs) e = ground (
    arith,
    flairs-ne-crash (Outside.is_deep_equal outside) (Community.author_flairs community)
        err_author_flair_not_in_allowed_flairs (flair ∷ flairs),
  )

  comment_flairs-ne-crash :
      (c : CommentPublication) → check_comment_flairs outside community c ≢ crash
  unfolding check_comment_flairs
  comment_flairs-ne-crash c =
      let a = >>reject-ne-crash _ _ _ (post_flairs-ne-crash c.flairs) in
      >>reject-ne-crash _ _ _ (>>-ne-crash _ _ a (λ _. author_flairs-ne-crash c.author_flairs))

  edited-ne-crash :
      (e : CommentEdit) (target : CommentRow) → check_edited outside community e target ≢ crash
  unfolding check_edited
  edited-ne-crash e target =
      let signed = >>reject-ne-crash _ _ _ (reject_if-ne-crash _ _) in
      let marked = >>-ne-crash _ _ signed (λ _. markdown-ne-crash e.content) in
      let spoilers = >>reject-ne-crash _ _ _ (>>reject-ne-crash _ _ _ marked) in
      >>-ne-crash _ _ spoilers (λ _. post_flairs-ne-crash e.flairs)

  edit_on-ne-crash : (e : CommentEdit) → check_comment_edit outside reserved community e ≢ crash
  unfolding check_comment_edit
  edit_on-ne-crash e k =
      elim (Option-cases (Db.query_comment (Community.db community) e.comment_cid)) [
        | inl r ↦ ground arith
        | inr (target, r) ↦ ground (arith, edited-ne-crash e target)
      ]

  edit-ne-crash : check_comment_edit_publication outside reserved community request ≢ crash
  unfolding check_comment_edit_publication
  edit-ne-crash k = elim (Option-cases (Request.comment_edit request)) [
    | inl r ↦ ground arith
    | inr (e, r) ↦ ground (arith, edit_on-ne-crash e)
  ]

  -- The vote, or the reply, is about the comment that it names.
  abbrev pub NamesParent : Type 0
  NamesParent =
      ((v : VotePublication)
        → Request.vote request ≡ some v
        → (is_about_comment p ≡ true) × (about_cid p ≡ some v.comment_cid))
      × ((c : CommentPublication)
          → Request.comment request ≡ some c
          → is_reply c ≡ true
          → (is_about_comment p ≡ true) × (about_cid p ≡ c.parent_cid))

  -- Every stored comment has a list of parents that is not empty.
  abbrev pub HasParents : Type 0
  HasParents =
      (cid : String) (row : CommentRow)
      → Db.query_comment (Community.db community) cid ≡ some row
      → Db.query_parents_cids (Community.db community) cid ≢ []

  -- A publication about a comment whose parent check passes is about a stored one.
  abbrev IsStored : Option String → Type 0
  IsStored cid? =
      (cid : String) × (row : CommentRow) × (cid? ≡ some cid)
      × (Db.query_comment (Community.db community) cid ≡ some row)

  parent_IsStored :
      check_parent_and_post_state community request p matches_any ≡ pass
      → is_about_comment p ≡ true
      → IsStored (about_cid p)
  parent_IsStored h about =
      let (cid, parent, e, r, _) =
        (check_parent_and_post_state_iff community request p matches_any).0 h about in
      (cid, parent, e, r)

  post_cid-ne-crash :
      HasParents
      → (c : CommentPublication) → (is_reply c ≡ true → IsStored c.parent_cid)
      → check_post_cid community c ≢ crash
  unfolding check_post_cid
  post_cid-ne-crash has c stored k = elim (Bool-cases (is_reply c)) [
    | inl reply ↦
        let (cid, row, e, r) = stored reply in
        let parents = parents_of (Community.db community) c.parent_cid in
        let some_parent : parents ≢ [] = (λ none_left.
          has cid row r (sym (ap (parents_of (Community.db community)) e) ∙ none_left)) in
        ground (arith, last_parent-ne-crash c.post_cid parents some_parent)
    | inr post ↦ ground arith
  ]

  crosspost-ne-crash : (c : CommentPublication) → check_crosspost community c ≢ crash
  unfolding check_crosspost
  crosspost-ne-crash c e = ground arith

  nesting-ne-crash : (c : CommentPublication) → check_nesting community c ≢ crash
  unfolding check_nesting
  nesting-ne-crash c = reject_if-ne-crash _ _

  quoted_cids-ne-crash : (c : CommentPublication) → check_quoted_cids community c ≢ crash
  unfolding check_quoted_cids
  quoted_cids-ne-crash c e =
      ground (arith, quoted-ne-crash (Community.db community) c.post_cid c.quoted_cids)

  comment_on-ne-crash :
      HasParents
      → (c : CommentPublication) → (is_reply c ≡ true → IsStored c.parent_cid)
      → check_comment outside reserved community c ≢ crash
  unfolding check_comment
  comment_on-ne-crash has c stored =
      let media = >>-ne-crash _ _ (reject_if-ne-crash _ _) (λ _. media-ne-crash c) in
      let nesting = >>-ne-crash _ _ media (λ _. nesting-ne-crash c) in
      let flairs = >>-ne-crash _ _ nesting (λ _. comment_flairs-ne-crash c) in
      let post = >>-ne-crash _ _ flairs (λ _. post_cid-ne-crash has c stored) in
      let crosspost = >>-ne-crash _ _ post (λ _. crosspost-ne-crash c) in
      >>reject-ne-crash _ _ _ (>>-ne-crash _ _ crosspost (λ _. quoted_cids-ne-crash c))

  comment-ne-crash :
      HasParents
      → NamesParent
      → check_parent_and_post_state community request p matches_any ≡ pass
      → check_comment_publication outside reserved community request ≢ crash
  unfolding check_comment_publication
  comment-ne-crash has names h k = elim (Option-cases (Request.comment request)) [
    | inl r ↦ ground arith
    | inr (c, r) ↦
        let stored = comment_on-ne-crash has c (λ reply.
          let (about, e) = names.1 c r reply in subst IsStored e (parent_IsStored h about)) in
        ground (arith, stored)
  ]

  vote_on-ne-crash :
      (v : VotePublication)
      → IsStored (some v.comment_cid)
      → check_vote outside reserved community v ≢ crash
  unfolding check_vote check_vote_on
  vote_on-ne-crash v (cid, row, e, r) k = ground arith

  vote-ne-crash :
      NamesParent
      → check_parent_and_post_state community request p matches_any ≡ pass
      → check_vote_publication outside reserved community request ≢ crash
  unfolding check_vote_publication
  vote-ne-crash names h k = elim (Option-cases (Request.vote request)) [
    | inl r ↦ ground arith
    | inr (v, r) ↦
        let (about, e) = names.0 v r in
        ground (arith, vote_on-ne-crash v (subst IsStored e (parent_IsStored h about)))
  ]

  -- If the vote or the reply of the request names the comment that the publication is about, and every
  -- stored comment has a list of parents that is not empty, then the validity check throws nowhere:
  -- it never reads a field of a comment that is not stored, nor the last of no parents.
  pub check_publication_validity-ne-crash :
      HasParents
      → NamesParent
      → check_publication_validity outside reserved community request p ban_expires_at matches_any
        ≢ crash
  unfolding check_publication_validity
  check_publication_validity-ne-crash has names k =
      let wire = wire-ne-crash in
      let author = author-ne-crash in
      let parent = parent-ne-crash in
      let comment = comment-ne-crash has names in
      let vote = vote-ne-crash names in
      let moderation = moderation-ne-crash in
      let community_edit = community_edit-ne-crash in let edit = edit-ne-crash in ground arith
