-- ===== src/Validation/Guarantees/Wire.antt =====
-- When the checks of the wire format and of the author's identity pass.
use pkc_js.Base.{
  ◌≡◌, refl, ◌↔◌, ◌⊎◌, ◌<◌, ◌+◌, ℕ, String, true, false, Option, none, some, List, [], ◌∷◌, arith,
  All, Any, includes, is_empty, truthy, eq_iff, same_text_iff, includes_sound, includes_complete,
}
use pkc_js.Names.{
  Author, get_community_public_key_from_wire, get_community_name_from_wire,
  get_author_name_from_wire, is_string_domain,
}
use pkc_js.Identity.{Resolved, address, no_record, failed}
use pkc_js.Validation.{pass, Publication, Outside, Community, ReservedFields, intersects}
use pkc_js.Validation.Wire.{
  community_identity_public_key, check_community_key, check_community_name,
  check_wire_format_and_community_author, out_of_range, does_domain_address_have_capital_letter,
  check_resolved, check_author_name, check_author_name?, check_author_identity, has_no_keys,
  has_reserved_key,
}

abbrev pub Disjoint : List String → List String → Type 0
Disjoint a b = All (λ x. ¬ Any (λ y. y ≡ x) b) a

pub intersects_iff : (a b : List String) → (intersects a b ≡ false) ↔ Disjoint a b
intersects_iff [] b = ((λ _. tt), λ _. refl)
intersects_iff (x ∷ a) b =
    ground (arith, intersects_iff a b, includes_sound b x, includes_complete b x)

-- A key that is not empty: the one that the community is known by.
abbrev pub IsIdentityKey : Community → Option String → Type 0
IsIdentityKey community key =
    (truthy key ≡ true) × (key ≡ some (community_identity_public_key community))

-- A name is there and is the community's, or it is absent and the community has none.
abbrev pub IsCommunityName : Community → Option String → Type 0
IsCommunityName community name =
    ((truthy name ≡ true) × (name ≡ some (Community.address community)))
    ⊎ ((truthy name ≡ false) × (is_string_domain (Community.address community) ≡ false))

abbrev pub IsBanned : ℕ → Option ℕ → Type 0
IsBanned now none = ⊥
IsBanned now (some t) = now < t

abbrev pub HasWireFormat : Outside → Publication → Type 0
HasWireFormat outside p =
    (includes p.own_keys "subplebbitAddress" ≡ false)
    × (includes p.own_keys "communityAddress" ≡ false)
    × (Outside.is_malformed outside p ≡ false)

abbrev pub IsRecent : Outside → Publication → Type 0
IsRecent outside p =
    (Outside.now outside < p.timestamp + 300) × (p.timestamp < Outside.now outside + 300)

check_community_key_iff :
    (community : Community) (key : Option String)
    → (check_community_key community key ≡ pass) ↔ IsIdentityKey community key
unfolding check_community_key
check_community_key_iff community key =
    ground (arith, same_text_iff key (some (community_identity_public_key community)))

check_community_name_iff :
    (community : Community) (name : Option String)
    → (check_community_name community name ≡ pass) ↔ IsCommunityName community name
unfolding check_community_name
check_community_name_iff community name =
    ground (arith, same_text_iff name (some (Community.address community)))

-- The wire format is accepted just when the deprecated fields are absent and the text is well
-- formed, the publication is addressed to the key that the community is known by, it carries the
-- community's name if the community has one and no other name, its time is less than 300 seconds
-- from the clock on either side, and the author's ban, if any, is over.
pub check_wire_format_iff :
    (outside : Outside) (community : Community) (p : Publication) (ban_expires_at : Option ℕ)
    → (check_wire_format_and_community_author outside community p ban_expires_at ≡ pass) ↔ (
        HasWireFormat outside p
        × IsIdentityKey community (get_community_public_key_from_wire p.community_fields)
        × IsCommunityName community (get_community_name_from_wire p.community_fields)
        × IsRecent outside p
        × (¬ IsBanned (Outside.now outside) ban_expires_at))
unfolding check_wire_format_and_community_author out_of_range
check_wire_format_iff outside community p ban_expires_at =
    let key =
      check_community_key_iff community (get_community_public_key_from_wire p.community_fields) in
    let name =
      check_community_name_iff community (get_community_name_from_wire p.community_fields) in
    elim ban_expires_at [ none ↦ ground (arith, key, name) | some t ↦ ground (arith, key, name) ]

-- What is asked of a name that is there and not empty.
abbrev pub IsOwnName : Outside → Community → Publication → String → Type 0
IsOwnName outside community p name =
    (is_string_domain name ≡ true)
    × (does_domain_address_have_capital_letter name ≡ false)
    × (Community.resolve_author_names community ≡ true
        → Outside.resolve_author_name outside name
          ≡ address (Outside.address_of_public_key outside p.signature_public_key))

abbrev pub HasOwnName : Outside → Community → Publication → Option String → Type 0
HasOwnName outside community p none = Unit
HasOwnName outside community p (some name) =
    truthy (some name) ≡ true → IsOwnName outside community p name

abbrev pub HasAuthorFields : ReservedFields → Option Author → Type 0
HasAuthorFields reserved none = Unit
HasAuthorFields reserved (some author) =
    (is_empty (Author.own_keys author) ≡ false)
    × Disjoint (Author.own_keys author) (ReservedFields.author reserved)

check_resolved_iff :
    (r : Resolved) (signer : String) → (check_resolved r signer ≡ pass) ↔ (r ≡ address signer)
unfolding check_resolved
check_resolved_iff (address a) signer = ground (arith, eq_iff a signer)
check_resolved_iff no_record signer = ground arith
check_resolved_iff (failed e) signer = ground arith

check_author_name_iff :
    (outside : Outside) (community : Community) (p : Publication) (name : String)
    → (check_author_name outside community p name ≡ pass) ↔ IsOwnName outside community p name
unfolding check_author_name
check_author_name_iff outside community p name =
    let signer = Outside.address_of_public_key outside p.signature_public_key in
    ground (arith, check_resolved_iff (Outside.resolve_author_name outside name) signer)

check_author_name?_iff :
    (outside : Outside) (community : Community) (p : Publication) (name : Option String)
    → (check_author_name? outside community p name ≡ pass) ↔ HasOwnName outside community p name
check_author_name?_iff outside community p none = ground arith
check_author_name?_iff outside community p (some name) =
    ground (arith, check_author_name_iff outside community p name)

author_fields_iff :
    (reserved : ReservedFields) (author : Option Author)
    → ((has_no_keys author ≡ false)
        × (has_reserved_key (ReservedFields.author reserved) author ≡ false))
      ↔ HasAuthorFields reserved author
author_fields_iff reserved none = ground arith
author_fields_iff reserved (some author) =
    ground (arith, intersects_iff (Author.own_keys author) (ReservedFields.author reserved))

-- The author is accepted just when it is absent, or has a field and no reserved one, and its name is
-- absent or empty, or a domain without capital letters that, where the community resolves names,
-- resolves to the address of the key that signed the publication.
pub check_author_identity_iff :
    (outside : Outside) (reserved : ReservedFields) (community : Community) (p : Publication)
    → (check_author_identity outside reserved community p ≡ pass) ↔ (
        HasAuthorFields reserved p.author
        × HasOwnName outside community p (get_author_name_from_wire p.author))
unfolding check_author_identity
check_author_identity_iff outside reserved community p = ground (
  arith,
  author_fields_iff reserved p.author,
  check_author_name?_iff outside community p (get_author_name_from_wire p.author),
)
