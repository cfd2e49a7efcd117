-- ===== src/Validation/Guarantees/Comments.antt =====
-- When the checks of a comment pass.
use pkc_js.Base.{
  Bool-cases, str_eq, ◌≡◌, refl, ◌↔◌, ◌⊎◌, inl, inr, ◌≤◌, ◌<◌, ◌+◌, ℕ, String, Bool, true, false,
  Option, none, some, List, [], ◌∷◌, arith, All, Any, any_iff, length, truthy, eq_iff,
  same_text_iff, Option-cases,
}
use pkc_js.Json.{Json}
use pkc_js.Messages.{Message, err_post_flair_not_in_allowed_flairs}
use pkc_js.Crossposts.{prop, Embeds, crosspost_chain_depth_exact, effective_max_crosspost_depth}
use pkc_js.Validation.{
  pass, CommentPublication, GalleryItem, Outside, Community, Features, CommentRow, Db,
}
use pkc_js.Validation.Comments.{
  is_flair_in_allowed_list, check_flairs, check_post_flairs, check_last_parent, check_post_cid,
  parents_of, is_present, check_crosspost, thread_of, check_quoted_cid, check_each_quoted,
  check_quoted_cids,
}
use pkc_js.Validation.Comments.Media.{
  is_reply, tag_of, check_gallery_items, check_gallery, check_gallery?, check_comment_gallery,
}
use pkc_js.Validation.Passing.{>>-eq-pass}

-- The tag of a link: `img` for an image, `video` for a video that is no image, else `audio`.
abbrev pub HasTag : Outside → GalleryItem → Type 0
HasTag outside item =
    (Outside.is_link_of_image outside item.url ≡ true → item.html_tag_name ≡ "img")
    × (Outside.is_link_of_image outside item.url ≡ false
        → Outside.is_link_of_video outside item.url ≡ true
        → item.html_tag_name ≡ "video")
    × (Outside.is_link_of_image outside item.url ≡ false
        → Outside.is_link_of_video outside item.url ≡ false
        → item.html_tag_name ≡ "audio")

-- A valid link of media, with the tag of its kind.
abbrev pub IsGalleryItem : Outside → GalleryItem → Type 0
IsGalleryItem outside item =
    (Outside.is_link_valid outside item.url ≡ true)
    × (Outside.is_link_of_media outside item.url ≡ true)
    × HasTag outside item

tag_iff :
    (outside : Outside) (item : GalleryItem)
    → (str_eq item.html_tag_name (tag_of outside item.url) ≡ true) ↔ HasTag outside item
unfolding tag_of
tag_iff outside item = ground (
  arith,
  eq_iff item.html_tag_name "img",
  eq_iff item.html_tag_name "video",
  eq_iff item.html_tag_name "audio",
)

gallery_items_iff :
    (outside : Outside) (items : List GalleryItem)
    → (check_gallery_items outside items ≡ pass) ↔ All (IsGalleryItem outside) items
unfolding check_gallery_items
gallery_items_iff outside [] = ground arith
gallery_items_iff outside (item ∷ items) =
    ground (arith, gallery_items_iff outside items, tag_iff outside item)

abbrev pub IsGallery : Outside → ℕ → Option (List GalleryItem) → Type 0
IsGallery outside most none = Unit
IsGallery outside most (some gallery) =
    (0 < most) × (length gallery ≤ most) × All (IsGalleryItem outside) gallery

gallery?_iff :
    (outside : Outside) (most : ℕ) (reply : Bool) (gallery : Option (List GalleryItem))
    → (check_gallery? outside most reply gallery ≡ pass) ↔ IsGallery outside most gallery
unfolding check_gallery
gallery?_iff outside most reply none = ground arith
gallery?_iff outside most reply (some gallery) = ground (arith, gallery_items_iff outside gallery)

-- A gallery passes just when it is absent, or it has no more items than the community allows in a
-- gallery of a reply, for a comment with a parent, or of a post, for one without, which must not be
-- none, and each item is a valid link of media with the tag of its kind: `img` for an image, `video`
-- for a video that is no image, `audio` for any other.
pub check_comment_gallery_iff :
    (outside : Outside) (community : Community) (c : CommentPublication)
    → (check_comment_gallery outside community c ≡ pass) ↔ (
        (truthy c.parent_cid ≡ true
          → IsGallery outside
              (Features.max_reply_gallery_items (Community.features community))
              c.gallery)
        × (truthy c.parent_cid ≡ false
            → IsGallery outside
                (Features.max_post_gallery_items (Community.features community))
                c.gallery))
unfolding check_comment_gallery
check_comment_gallery_iff outside community c =
    let features = Community.features community in
    elim (Bool-cases (truthy c.parent_cid)) [
      | inl reply ↦
          let of_reply =
            gallery?_iff outside (Features.max_reply_gallery_items features) true c.gallery in
          rw reply ((λ h. (λ e. of_reply.0 h, λ e. absurd (cc))), λ (h, k). of_reply.1 (h refl))
      | inr post ↦
          let of_post =
            gallery?_iff outside (Features.max_post_gallery_items features) false c.gallery in
          rw post ((λ h. (λ e. absurd (cc), λ e. of_post.0 h)), λ (h, k). of_post.1 (k refl))
    ]

-- The flair deep-equals one of the allowed flairs.
abbrev pub IsAllowed : (Json → Json → Bool) → List Json → Json → Type 0
IsAllowed is_deep_equal allowed_flairs flair =
    Any (λ allowed. is_deep_equal allowed flair ≡ true) allowed_flairs

flairs_iff :
    (is_deep_equal : Json → Json → Bool) (allowed : List Json) (m : Message) (flairs : List Json)
    → (check_flairs is_deep_equal allowed m flairs ≡ pass)
      ↔ All (IsAllowed is_deep_equal allowed) flairs
unfolding check_flairs is_flair_in_allowed_list
flairs_iff is_deep_equal allowed m [] = ground arith
flairs_iff is_deep_equal allowed m (flair ∷ flairs) =
    ground (
      arith,
      flairs_iff is_deep_equal allowed m flairs,
      any_iff (λ a. is_deep_equal a flair) allowed,
    )

-- The flairs of a post pass just when there are none, or the community allows flairs and each of
-- them is one of its own.
pub check_post_flairs_iff :
    (outside : Outside) (community : Community) (flairs : List Json)
    → (check_post_flairs outside community flairs ≡ pass) ↔ (
        (flairs ≡ [])
        ⊎ ((Features.post_flairs (Community.features community) ≡ true)
            × All
                (IsAllowed (Outside.is_deep_equal outside) (Community.post_flairs community))
                flairs))
unfolding check_post_flairs
check_post_flairs_iff outside community [] = ground arith
check_post_flairs_iff outside community (flair ∷ flairs) = ground (
  arith,
  flairs_iff (Outside.is_deep_equal outside) (Community.post_flairs community)
      err_post_flair_not_in_allowed_flairs (flair ∷ flairs),
)

-- The last of the parents.
abbrev pub Ends : List String → Option String → Type 0
Ends [] post_cid = ⊥
Ends (cid ∷ []) post_cid = post_cid ≡ some cid
Ends (cid ∷ next ∷ rest) post_cid = Ends (next ∷ rest) post_cid

last_parent_iff :
    (post_cid : Option String) (parents : List String)
    → (check_last_parent post_cid parents ≡ pass) ↔ Ends parents post_cid
unfolding check_last_parent
last_parent_iff post_cid [] = ground arith
last_parent_iff post_cid (cid ∷ []) = ground (arith, same_text_iff (some cid) post_cid)
last_parent_iff post_cid (cid ∷ next ∷ rest) = last_parent_iff post_cid (next ∷ rest)

-- The post of a comment passes just when the comment is itself a post, or it names the last of its
-- parent's parents as its post.
pub check_post_cid_iff :
    (community : Community) (c : CommentPublication)
    → (check_post_cid community c ≡ pass) ↔ (
        is_reply c ≡ true
        → (truthy c.post_cid ≡ true)
          × Ends (parents_of (Community.db community) c.parent_cid) c.post_cid)
unfolding check_post_cid
check_post_cid_iff community c =
    ground (arith, last_parent_iff c.post_cid (parents_of (Community.db community) c.parent_cid))

-- A crosspost passes just when there is none, or the community takes crossposts and the chain
-- embeds no more records than the community's maximum.
pub check_crosspost_iff :
    (community : Community) (c : CommentPublication)
    → (check_crosspost community c ≡ pass) ↔ (
        is_present (prop (some c.raw) "crosspost") ≡ true
        → (Features.no_crossposts (Community.features community) ≡ false)
          × (¬ Embeds
              (effective_max_crosspost_depth
                  (Features.max_crosspost_depth (Community.features community))
                + 1)
              (prop (some c.raw) "crosspost")))
unfolding check_crosspost
check_crosspost_iff community c =
    let most =
      effective_max_crosspost_depth (Features.max_crosspost_depth (Community.features community)) in
    let exact = crosspost_chain_depth_exact (some c.raw) (most + 1) (most + 1) (omega arith) in
    ground (arith, exact)

-- A stored comment of the thread that is not pending.
abbrev pub IsQuotable : Db → Option String → String → Type 0
IsQuotable db thread_post_cid cid =
    (quoted : CommentRow) × (Db.query_comment db cid ≡ some quoted)
    × (thread_post_cid ≡ some (thread_of quoted))
    × (CommentRow.pending_approval quoted ≡ false)

quoted_cid_iff :
    (db : Db) (thread_post_cid : Option String) (cid : String)
    → (check_quoted_cid db thread_post_cid cid ≡ pass) ↔ IsQuotable db thread_post_cid cid
unfolding check_quoted_cid
quoted_cid_iff db thread_post_cid cid = (
  (λ h. elim (Option-cases (Db.query_comment db cid)) [
    | inl e ↦ absurd (ground arith)
    | inr (quoted, e) ↦
        let same = same_text_iff (some (thread_of quoted)) thread_post_cid in
        (quoted, e, ground (arith, same), ground (arith, same))
  ]),
  λ (quoted, e, t, a).
      let same = same_text_iff (some (thread_of quoted)) thread_post_cid in ground (arith, same),
)

each_quoted_iff :
    (db : Db) (thread_post_cid : Option String) (cids : List String)
    → (check_each_quoted db thread_post_cid cids ≡ pass) ↔ All (IsQuotable db thread_post_cid) cids
unfolding check_each_quoted
each_quoted_iff db thread_post_cid [] = ground arith
each_quoted_iff db thread_post_cid (cid ∷ cids) =
    let (to, from) = quoted_cid_iff db thread_post_cid cid in
    let (to', from') = each_quoted_iff db thread_post_cid cids in
    let (split, join) =
      >>-eq-pass (check_quoted_cid db thread_post_cid cid)
        (check_each_quoted db thread_post_cid cids) in
    ((λ h. (to (split h).0, to' (split h).1)), λ (a, b). join (from a, from' b))

quoted_list_iff :
    (community : Community) (c : CommentPublication) (cids : List String)
    → c.quoted_cids ≡ cids
    → (check_quoted_cids community c ≡ pass) ↔ (
        (c.quoted_cids ≡ [])
        ⊎ ((is_reply c ≡ true) × All (IsQuotable (Community.db community) c.post_cid) cids))
unfolding check_quoted_cids
quoted_list_iff community c [] e = ground arith
quoted_list_iff community c (cid ∷ cids) e =
    ground (arith, each_quoted_iff (Community.db community) c.post_cid (cid ∷ cids))

-- Quoted cids pass just when there are none, or the comment is a reply and each of them is stored,
-- belongs to the post that the reply names and is not pending approval.
pub check_quoted_cids_iff :
    (community : Community) (c : CommentPublication)
    → (check_quoted_cids community c ≡ pass) ↔ (
        (c.quoted_cids ≡ [])
        ⊎ ((is_reply c ≡ true)
            × All (IsQuotable (Community.db community) c.post_cid) c.quoted_cids))
check_quoted_cids_iff community c = quoted_list_iff community c c.quoted_cids refl
