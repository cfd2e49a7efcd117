-- ===== src/Validation/Wire.antt =====
-- publication-validation.ts: the checks of the wire format and of the author's identity.
use pkc_js.Base.{
  ℕ, ◌+◌, String, Bool, false, not, ◌&&◌, ◌||◌, Option, none, some, List, [], ◌∷◌, ltb, leb, str_eq,
  truthy, same_text, includes, is_empty, is_some, if◌then◌else◌,
}
use pkc_js.Messages.{
  err_publication_uses_deprecated_subplebbit_address,
  err_publication_uses_deprecated_community_address, err_publication_has_malformed_unicode_string,
  err_publication_signed_to_minter_instead_of_anchor, err_publication_invalid_community_public_key,
  err_publication_invalid_community_name, err_publication_missing_community_name,
  err_publication_timestamp_is_not_in_proper_range, err_author_is_banned,
  err_publication_author_is_an_empty_object, err_publication_author_has_reserved_field,
  err_author_name_must_be_a_domain, err_author_name_has_capital_letter,
  err_author_domain_resolves_to_different_signer,
}
use pkc_js.Names.{
  is_string_domain, get_community_public_key_from_wire, get_community_name_from_wire,
  get_author_name_from_wire, Author, codes, has_dot,
}
use pkc_js.Identity.{Resolved, address, no_record, failed, author_name_resolve_failure_reason}
use pkc_js.Validation.{
  Check, pass, reject, ◌>>◌, reject_if, Publication, Outside, Community, ReservedFields, intersects,
}

-- `communityIdentityPublicKey`
unfoldable pub community_identity_public_key : Community → String
community_identity_public_key community = elim (Community.anchor_public_key community) [
  | some anchor ↦ anchor
  | none ↦ Community.signer_address community
]

unfoldable pub check_community_key : Community → Option String → Check
unfolding community_identity_public_key
check_community_key community key =
    if not (truthy key) || not (same_text key (some (community_identity_public_key community)))
    then (if is_some (Community.anchor_public_key community)
          && same_text key (some (Community.signer_address community))
        then reject err_publication_signed_to_minter_instead_of_anchor
        else reject err_publication_invalid_community_public_key)
    else pass

unfoldable pub check_community_name : Community → Option String → Check
check_community_name community name =
    reject_if (truthy name && not (same_text name (some (Community.address community))))
      err_publication_invalid_community_name
    >> reject_if (not (truthy name) && is_string_domain (Community.address community))
        err_publication_missing_community_name

-- `timestamp <= now - 5 * 60 || timestamp >= now + 5 * 60`, without a subtraction.
unfoldable pub out_of_range : ℕ → ℕ → Bool
out_of_range now timestamp = leb (timestamp + 300) now || leb (now + 300) timestamp

abbrev pub expires_after : ℕ → Option ℕ → Bool
expires_after now none = false
expires_after now (some t) = ltb now t

-- `checkWireFormatAndCommunityAuthor`; the last argument is `authorCommunity?.banExpiresAt`.
unfoldable pub check_wire_format_and_community_author :
    Outside → Community → Publication → Option ℕ → Check
unfolding check_community_key check_community_name out_of_range
check_wire_format_and_community_author outside community p ban_expires_at =
    reject_if (includes p.own_keys "subplebbitAddress")
      err_publication_uses_deprecated_subplebbit_address
    >> reject_if (includes p.own_keys "communityAddress")
        err_publication_uses_deprecated_community_address
    >> reject_if (Outside.is_malformed outside p) err_publication_has_malformed_unicode_string
    >> check_community_key community (get_community_public_key_from_wire p.community_fields)
    >> check_community_name community (get_community_name_from_wire p.community_fields)
    >> reject_if (out_of_range (Outside.now outside) p.timestamp)
        err_publication_timestamp_is_not_in_proper_range
    >> reject_if (expires_after (Outside.now outside) ban_expires_at) err_author_is_banned

abbrev pub has_capital_letter : List ℕ → Bool
has_capital_letter [] = false
has_capital_letter (c ∷ s) = leb 65 c && leb c 90 || has_capital_letter s

-- `doesDomainAddressHaveCapitalLetter`
unfoldable pub does_domain_address_have_capital_letter : String → Bool
does_domain_address_have_capital_letter s = has_dot (codes s) && has_capital_letter (codes s)

abbrev pub has_no_keys : Option Author → Bool
has_no_keys none = false
has_no_keys (some author) = is_empty (Author.own_keys author)

abbrev pub has_reserved_key : List String → Option Author → Bool
has_reserved_key reserved none = false
has_reserved_key reserved (some author) = intersects (Author.own_keys author) reserved

-- The answer of the resolver against the address of the signer.
unfoldable pub check_resolved : Resolved → String → Check
check_resolved (failed e) signer = reject (author_name_resolve_failure_reason (some e))
check_resolved no_record signer = reject (author_name_resolve_failure_reason none)
check_resolved (address a) signer =
    reject_if (not (str_eq a signer)) err_author_domain_resolves_to_different_signer

unfoldable pub check_author_name : Outside → Community → Publication → String → Check
unfolding check_resolved
check_author_name outside community p name =
    reject_if (not (is_string_domain name)) err_author_name_must_be_a_domain
    >> reject_if (does_domain_address_have_capital_letter name) err_author_name_has_capital_letter
    >> (if is_string_domain name && Community.resolve_author_names community
        then check_resolved (Outside.resolve_author_name outside name)
            (Outside.address_of_public_key outside p.signature_public_key)
        else pass)

abbrev pub check_author_name? : Outside → Community → Publication → Option String → Check
check_author_name? outside community p none = pass
check_author_name? outside community p (some name) =
    if truthy (some name) then check_author_name outside community p name else pass

-- `checkAuthorIdentity`
unfoldable pub check_author_identity : Outside → ReservedFields → Community → Publication → Check
unfolding check_author_name
check_author_identity outside reserved community p =
    reject_if (has_no_keys p.author) err_publication_author_is_an_empty_object
    >> reject_if (has_reserved_key (ReservedFields.author reserved) p.author)
        err_publication_author_has_reserved_field
    >> check_author_name? outside community p (get_author_name_from_wire p.author)
