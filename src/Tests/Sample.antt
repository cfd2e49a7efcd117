-- ===== src/Tests/Sample.antt =====
-- A community with two comments, and publications sent to it.
use pkc_js.Base.{
  Bool, true, false, String, Option, none, some, List, [], ◌∷◌, str_eq, if◌then◌else◌,
}
use pkc_js.Json.{Json, obj, field, end, scalar}
use pkc_js.Excludes.{MatchOutcome}
use pkc_js.Identity.{Resolved, address, no_record, new_matcher, matches_any_identity}
use pkc_js.Crossposts.{natural}
use pkc_js.Validation.{
  Publication, CommentPublication, VotePublication, up, CommentModeration, CommunityEdit,
  CommentEdit, Request, Features, CommentRow, ModFlags, Db, ReservedFields, Outside, Community,
}

abbrev pub features : Features
features = record {
  require_post_link = false;
  require_post_link_is_media = false;
  require_reply_link = false;
  require_reply_link_is_media = false;
  no_markdown_images = true;
  no_markdown_videos = false;
  no_markdown_audio = false;
  no_images = false;
  no_videos = false;
  no_audio = false;
  no_spoilers = false;
  no_image_replies = false;
  no_video_replies = false;
  no_audio_replies = false;
  no_spoiler_replies = true;
  no_reply_links = false;
  no_nested_replies = false;
  post_flairs = true;
  require_post_flairs = false;
  author_flairs = false;
  require_author_flairs = false;
  pseudonymity_mode = false;
  no_crossposts = false;
  max_crosspost_depth = some (natural 2);
  max_post_gallery_items = 4;
  max_reply_gallery_items = 2;
  no_upvotes = false;
  no_downvotes = true;
  no_post_upvotes = false;
  no_post_downvotes = false;
  no_reply_upvotes = false;
  no_reply_downvotes = false;
  no_archive = true;
}

abbrev pub post : CommentRow
post = record {
  cid = "post";
  post_cid = "post";
  depth = 0;
  timestamp = 1000;
  pending_approval = false;
  signature_public_key = "alice_key";
}

abbrev pub reply : CommentRow
reply = record {
  cid = "reply";
  post_cid = "post";
  depth = 1;
  timestamp = 1100;
  pending_approval = false;
  signature_public_key = "bob_key";
}

abbrev pub stored : String → Option CommentRow
stored cid =
    if str_eq cid "post" then some post else if str_eq cid "reply" then some reply else none

-- The post is locked.
abbrev pub flags : String → ModFlags
flags cid = record { removed = false; locked = str_eq cid "post"; archived = false }

abbrev pub db : Db
db = record {
  query_comment = stored;
  query_comment_flags = flags;
  is_author_deleted = λ cid. false;
  query_is_comment_approved = λ row. none;
  query_parents_cids = λ cid. if str_eq cid "reply" then "reply" ∷ "post" ∷ [] else "post" ∷ [];
  has_comment = λ signature. false;
  has_comment_moderation = λ signature. false;
  has_comment_edit = λ signature. false;
  query_vote = λ cid voter. false;
  query_pseudonymity_alias = λ cid. none;
}

abbrev pub community : Community
community = record {
  address = "news.eth";
  anchor_public_key = some "anchor";
  signer_address = "minter";
  resolve_author_names = true;
  roles = some (("alice.eth", "owner") ∷ ("bob", "moderator") ∷ []);
  features = features;
  post_flairs = scalar "red" ∷ [];
  author_flairs = [];
  db = db;
}

abbrev pub resolve_name : String → Resolved
resolve_name name = if str_eq name "alice.eth" then address "alice" else no_record

-- Alice, who owns the community by her name.
abbrev pub matches_alice : List String → MatchOutcome
matches_alice ids =
    (matches_any_identity (λ s. s) (λ n. resolve_name) "alice" (some "alice.eth") ids new_matcher).0

abbrev pub same_scalar : Json → Json → Bool
same_scalar (scalar a) (scalar b) = str_eq a b
same_scalar _ _ = false

abbrev pub outside : Outside
outside = record {
  now = 2000;
  publication_bytes = 500;
  is_malformed = λ p. false;
  is_link_valid = λ url. true;
  is_link_of_media = λ url. true;
  is_link_of_image = λ url. str_eq url "https://a.org/b.png";
  is_link_of_video = λ url. false;
  is_link_of_audio = λ url. false;
  is_link_of_animated_image = λ url. false;
  contains_markdown_images = λ text. false;
  contains_markdown_videos = λ text. false;
  contains_markdown_audio = λ text. false;
  is_deep_equal = same_scalar;
  address_of_public_key = λ key. if str_eq key "alice_key" then "alice" else "bob";
  resolve_author_name = resolve_name;
}

abbrev pub reserved : ReservedFields
reserved = record {
  author = "community" ∷ [];
  comment = "depth" ∷ [];
  vote = "community" ∷ [];
  comment_moderation = "community" ∷ [];
  community_edit = "community" ∷ [];
  comment_edit = "community" ∷ [];
  community_ipfs = "title" ∷ "roles" ∷ [];
}

-- Alice's reply to the post, two crossposts deep.
abbrev pub comment : CommentPublication
comment = record {
  own_keys = "parentCid" ∷ "postCid" ∷ "content" ∷ [];
  raw =
      obj
        (field "crosspost" (obj (field "comment" (obj (field "crosspost" (obj end) end)) end)) end);
  parent_cid = some "post";
  post_cid = some "post";
  link = some "https://a.org/b.png";
  content = some "hello";
  spoiler = none;
  gallery = some (record { url = "https://a.org/b.png"; html_tag_name = "img" } ∷ []);
  flairs = scalar "red" ∷ [];
  author_flairs = [];
  quoted_cids = "reply" ∷ [];
  signature = "s1";
}

abbrev pub publication : Publication
publication = record {
  own_keys = "parentCid" ∷ "postCid" ∷ "content" ∷ "author" ∷ [];
  community_fields = record {
    community_public_key = some "anchor";
    community_name = some "news.eth";
    subplebbit_address = none;
  };
  author = some (record { own_keys = "name" ∷ []; name = some "alice.eth"; address = none });
  timestamp = 1900;
  parent_cid = some "post";
  comment_cid = none;
  signature_public_key = "alice_key";
}

abbrev pub request : Request
request = record {
  comment = some comment;
  comment_edit = none;
  vote = none;
  comment_moderation = none;
  community_edit = none;
}

abbrev pub vote : VotePublication
vote = record {
  own_keys = "commentCid" ∷ "vote" ∷ [];
  comment_cid = "reply";
  vote = up;
  signature_public_key = "alice_key";
}

abbrev pub moderation : CommentModeration
moderation = record {
  own_keys = "commentCid" ∷ [];
  comment_cid = "post";
  locked = some true;
  archived = none;
  approved = none;
  signature = "s2";
}

abbrev pub community_edit : CommunityEdit
community_edit = record {
  own_keys = "communityEdit" ∷ [];
  edit_keys = "roles" ∷ "title" ∷ [];
  roles = true;
  address = none;
  name = none;
}

abbrev pub comment_edit : CommentEdit
comment_edit = record {
  own_keys = "commentCid" ∷ [];
  comment_cid = "reply";
  content = some "bye";
  spoiler = some false;
  deleted = none;
  flairs = [];
  signature = "s3";
  signature_public_key = "bob_key";
}
