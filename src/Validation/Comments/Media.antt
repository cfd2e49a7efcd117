-- ===== src/Validation/Comments/Media.antt =====
-- publication-validation.ts: the checks of a comment's link, gallery, markdown, media and spoiler.
use pkc_js.Base.{
  ℕ, String, Bool, false, not, ◌&&◌, ◌||◌, Option, none, some, List, [], ◌∷◌, ◌++◌, map, length,
  any, ltb, str_eq, ◌==◌, truthy, if◌then◌else◌,
}
use pkc_js.Messages.{
  err_comment_has_invalid_link_field, err_post_link_is_not_of_media,
  err_reply_has_invalid_link_field, err_reply_link_is_not_of_media, err_reply_gallery_not_allowed,
  err_post_gallery_not_allowed, err_reply_gallery_exceeds_max_items,
  err_post_gallery_exceeds_max_items, err_gallery_item_not_media,
  err_gallery_item_html_tag_name_mismatch, err_comment_content_contains_markdown_image,
  err_comment_content_contains_markdown_video, err_comment_content_contains_markdown_audio,
  err_comment_has_link_that_is_image, err_comment_has_link_that_is_video,
  err_comment_has_spoiler_enabled, err_reply_has_link_that_is_image,
  err_reply_has_link_that_is_video, err_reply_has_link, err_comment_has_link_that_is_audio,
  err_reply_has_link_that_is_audio, err_reply_has_spoiler_enabled,
}
use pkc_js.Validation.{
  Check, pass, ◌>>◌, reject_if, CommentPublication, GalleryItem, Outside, Community, Features,
}

abbrev pub is_reply : CommentPublication → Bool
is_reply c = truthy c.parent_cid

-- A test of a text that is there and not empty.
abbrev pub holds : (String → Bool) → Option String → Bool
holds test none = false
holds test (some s) = truthy (some s) && test s

abbrev pub bad_link : Outside → Bool → Option String → Bool
bad_link outside media_required link =
    not (truthy link) || not media_required && not (holds (Outside.is_link_valid outside) link)

abbrev pub not_of_media : Outside → Option String → Bool
not_of_media outside link =
    truthy link
    && (not (holds (Outside.is_link_valid outside) link)
        || not (holds (Outside.is_link_of_media outside) link))

unfoldable pub check_links : Outside → Features → CommentPublication → Check
check_links outside features c =
    let post_media = Features.require_post_link_is_media features in
    let reply_media = Features.require_reply_link_is_media features in
    reject_if
      (Features.require_post_link features
        && not (is_reply c)
        && bad_link outside post_media c.link)
      err_comment_has_invalid_link_field
    >> reject_if (post_media && not_of_media outside c.link) err_post_link_is_not_of_media
    >> reject_if
        (Features.require_reply_link features && is_reply c && bad_link outside reply_media c.link)
        err_reply_has_invalid_link_field
    >> reject_if (reply_media && is_reply c && not_of_media outside c.link)
        err_reply_link_is_not_of_media

-- `GALLERY_HTML_TAG_NAME_BY_MIME_CATEGORY` of the category of a url.
unfoldable pub tag_of : Outside → String → String
tag_of outside url =
    if Outside.is_link_of_image outside url
    then "img"
    else if Outside.is_link_of_video outside url
    then "video"
    else "audio"

unfoldable pub check_gallery_items : Outside → List GalleryItem → Check
unfolding tag_of
check_gallery_items outside [] = pass
check_gallery_items outside (item ∷ items) =
    reject_if
      (not (Outside.is_link_valid outside item.url)
        || not (Outside.is_link_of_media outside item.url))
      err_gallery_item_not_media
    >> reject_if (not (str_eq item.html_tag_name (tag_of outside item.url)))
        err_gallery_item_html_tag_name_mismatch
    >> check_gallery_items outside items

abbrev pub max_items : Features → CommentPublication → ℕ
max_items features c =
    if is_reply c
    then Features.max_reply_gallery_items features
    else Features.max_post_gallery_items features

-- A gallery that is there, against the most items that it may have.
unfoldable pub check_gallery : Outside → ℕ → Bool → List GalleryItem → Check
unfolding check_gallery_items
check_gallery outside most reply gallery =
    reject_if (most == 0)
      (if reply then err_reply_gallery_not_allowed else err_post_gallery_not_allowed)
    >> reject_if (ltb most (length gallery))
        (if reply then err_reply_gallery_exceeds_max_items else err_post_gallery_exceeds_max_items)
    >> check_gallery_items outside gallery

abbrev pub check_gallery? : Outside → ℕ → Bool → Option (List GalleryItem) → Check
check_gallery? outside most reply none = pass
check_gallery? outside most reply (some gallery) = check_gallery outside most reply gallery

-- `checkCommentGallery`
unfoldable pub check_comment_gallery : Outside → Community → CommentPublication → Check
unfolding check_gallery
check_comment_gallery outside community c =
    check_gallery? outside (max_items (Community.features community) c) (is_reply c) c.gallery

-- The markdown tests, of comments and of comment edits.
unfoldable pub check_markdown : Outside → Features → Option String → Check
check_markdown outside features content =
    reject_if
      (Features.no_markdown_images features
        && holds (Outside.contains_markdown_images outside) content)
      err_comment_content_contains_markdown_image
    >> reject_if
        (Features.no_markdown_videos features
          && holds (Outside.contains_markdown_videos outside) content)
        err_comment_content_contains_markdown_video
    >> reject_if
        (Features.no_markdown_audio features
          && holds (Outside.contains_markdown_audio outside) content)
        err_comment_content_contains_markdown_audio

abbrev pub link_urls : Option String → List String
link_urls none = []
link_urls (some link) = if truthy (some link) then link ∷ [] else []

abbrev pub gallery_urls : Option (List GalleryItem) → List String
gallery_urls none = []
gallery_urls (some gallery) = map (λ item. GalleryItem.url item) gallery

abbrev pub media_urls : CommentPublication → List String
media_urls c = link_urls c.link ++ gallery_urls c.gallery

abbrev pub is_spoiler : Option Bool → Bool
is_spoiler none = false
is_spoiler (some b) = b

unfoldable pub check_media : Outside → Features → CommentPublication → Check
check_media outside features c =
    let urls = media_urls c in
    let has_image = any (Outside.is_link_of_image outside) urls in
    let has_video =
      any
        (λ url.
          Outside.is_link_of_video outside url || Outside.is_link_of_animated_image outside url)
        urls in
    let has_audio = any (Outside.is_link_of_audio outside) urls in
    let spoiler = is_spoiler c.spoiler in
    reject_if (Features.no_images features && has_image) err_comment_has_link_that_is_image
    >> reject_if (Features.no_videos features && has_video) err_comment_has_link_that_is_video
    >> reject_if (Features.no_spoilers features && spoiler) err_comment_has_spoiler_enabled
    >> reject_if (Features.no_image_replies features && is_reply c && has_image)
        err_reply_has_link_that_is_image
    >> reject_if (Features.no_video_replies features && is_reply c && has_video)
        err_reply_has_link_that_is_video
    >> reject_if (Features.no_reply_links features && is_reply c && truthy c.link)
        err_reply_has_link
    >> reject_if (Features.no_audio features && has_audio) err_comment_has_link_that_is_audio
    >> reject_if (Features.no_audio_replies features && is_reply c && has_audio)
        err_reply_has_link_that_is_audio
    >> reject_if (Features.no_spoiler_replies features && is_reply c && spoiler)
        err_reply_has_spoiler_enabled

unfoldable pub check_comment_media : Outside → Community → CommentPublication → Check
unfolding check_links check_comment_gallery check_markdown check_media
check_comment_media outside community c =
    let features = Community.features community in
    check_links outside features c
    >> check_comment_gallery outside community c
    >> check_markdown outside features c.content
    >> check_media outside features c
