-- ===== src/Messages.antt =====
-- errors.ts: the reasons that publication validation and author identity give to a publisher, those
-- members of the enum `messages`.

pub data Message : Type 0 where
  err_author_domain_resolves_to_different_signer : Message
  err_author_flairs_not_allowed : Message
  err_author_flairs_required : Message
  err_author_flair_not_in_allowed_flairs : Message
  err_author_is_banned : Message
  err_author_name_has_capital_letter : Message
  err_author_name_has_no_record : Message
  err_author_name_must_be_a_domain : Message
  err_author_name_record_is_not_a_valid_key : Message
  err_comment_content_contains_markdown_audio : Message
  err_comment_content_contains_markdown_image : Message
  err_comment_content_contains_markdown_video : Message
  err_comment_edit_can_not_edit_comment_if_not_original_author : Message
  err_comment_edit_has_reserved_field : Message
  err_comment_edit_no_comment_to_edit : Message
  err_comment_has_invalid_link_field : Message
  err_comment_has_link_that_is_audio : Message
  err_comment_has_link_that_is_image : Message
  err_comment_has_link_that_is_video : Message
  err_comment_has_reserved_field : Message
  err_comment_has_spoiler_enabled : Message
  err_comment_moderation_attempted_without_being_moderator : Message
  err_comment_moderation_has_reserved_field : Message
  err_comment_moderation_no_comment_to_edit : Message
  err_community_comment_mod_can_not_archive_reply : Message
  err_community_comment_mod_can_not_lock_reply : Message
  err_community_comment_timestamp_is_earlier_than_parent : Message
  err_community_edit_attempted_to_modify_community_without_being_owner_or_admin : Message
  err_community_edit_attempted_to_modify_owner_exclusive_props : Message
  err_community_edit_attempted_to_non_public_props : Message
  err_community_edit_has_reserved_field : Message
  err_community_failed_to_resolve_author_name : Message
  err_community_has_no_resolver_for_author_name_tld : Message
  err_community_publication_parent_cid_not_defined : Message
  err_community_publication_parent_has_been_deleted : Message
  err_community_publication_parent_has_been_removed : Message
  err_community_publication_post_has_been_deleted : Message
  err_community_publication_post_has_been_removed : Message
  err_community_publication_post_is_archived : Message
  err_community_publication_post_is_locked : Message
  err_crosspost_chain_exceeds_community_max_depth : Message
  err_duplicate_comment : Message
  err_duplicate_comment_edit : Message
  err_duplicate_comment_moderation : Message
  err_gallery_item_html_tag_name_mismatch : Message
  err_gallery_item_not_media : Message
  err_mod_attempting_to_approve_or_disapprove_comment_that_is_not_pending : Message
  err_nested_replies_not_allowed : Message
  err_not_allowed_to_archive_posts : Message
  err_not_allowed_to_publish_crossposts : Message
  err_not_allowed_to_publish_downvotes : Message
  err_not_allowed_to_publish_post_downvotes : Message
  err_not_allowed_to_publish_post_upvotes : Message
  err_not_allowed_to_publish_reply_downvotes : Message
  err_not_allowed_to_publish_reply_upvotes : Message
  err_not_allowed_to_publish_upvotes : Message
  err_post_cannot_have_quoted_cids : Message
  err_post_flairs_not_allowed : Message
  err_post_flairs_required : Message
  err_post_flair_not_in_allowed_flairs : Message
  err_post_gallery_exceeds_max_items : Message
  err_post_gallery_not_allowed : Message
  err_post_link_is_not_of_media : Message
  err_publication_author_has_reserved_field : Message
  err_publication_author_is_an_empty_object : Message
  err_publication_has_malformed_unicode_string : Message
  err_publication_invalid_community_name : Message
  err_publication_invalid_community_public_key : Message
  err_publication_missing_community_name : Message
  err_publication_parent_does_not_exist_in_community : Message
  err_publication_signed_to_minter_instead_of_anchor : Message
  err_publication_timestamp_is_not_in_proper_range : Message
  err_publication_uses_deprecated_community_address : Message
  err_publication_uses_deprecated_subplebbit_address : Message
  err_quoted_cid_does_not_exist : Message
  err_quoted_cid_is_pending_approval : Message
  err_quoted_cid_not_under_post : Message
  err_reply_gallery_exceeds_max_items : Message
  err_reply_gallery_not_allowed : Message
  err_reply_has_invalid_link_field : Message
  err_reply_has_link : Message
  err_reply_has_link_that_is_audio : Message
  err_reply_has_link_that_is_image : Message
  err_reply_has_link_that_is_video : Message
  err_reply_has_not_defined_post_cid : Message
  err_reply_has_spoiler_enabled : Message
  err_reply_link_is_not_of_media : Message
  err_reply_post_cid_is_not_parent_of_reply : Message
  err_request_publication_over_allowed_size : Message
  err_there_is_no_previous_vote_to_cancel : Message
  err_user_published_under_disapproved_comment : Message
  err_user_published_under_pending_comment : Message
  err_vote_has_reserved_field : Message
