-- ===== src/Names.antt =====
-- domain-util.ts, and the wire fields that name an author or a community:
-- publications/publication-author.ts and publications/publication-community.ts.
use Prim.Native.Char.{code}
use pkc_js.Base.{
  ℕ, String, Bool, true, false, not, ◌&&◌, ◌||◌, Option, none, some, List, [], ◌∷◌, ◌++◌, reverse,
  ◌==◌, str_eq, if◌then◌else◌,
}

abbrev pub codes : String → List ℕ
codes String.[] = []
codes (String.◌∷◌ c s) = code c ∷ codes s

abbrev pub same_codes : List ℕ → List ℕ → Bool
same_codes [] [] = true
same_codes (c ∷ s) (d ∷ t) = c == d && same_codes s t
same_codes _ _ = false

abbrev pub has_prefix : List ℕ → List ℕ → Bool
has_prefix [] s = true
has_prefix (c ∷ p) [] = false
has_prefix (c ∷ p) (d ∷ s) = c == d && has_prefix p s

-- `endsWith`, with the suffix given backwards.
abbrev pub ends_with : List ℕ → List ℕ → Bool
ends_with xiffus s = has_prefix xiffus (reverse s)

abbrev pub drop_code : List ℕ → List ℕ
drop_code [] = []
drop_code (c ∷ s) = s

abbrev pub has_dot : List ℕ → Bool
has_dot [] = false
has_dot (c ∷ s) = c == b'.' || has_dot s

-- `isStringDomain`
unfoldable pub is_string_domain : String → Bool
is_string_domain s = has_dot (codes s)

-- `isEthAliasDomain`, of a name in lower case.
unfoldable pub is_eth_alias_domain : List ℕ → Bool
is_eth_alias_domain lower =
    ends_with (reverse (codes ".eth")) lower || ends_with (reverse (codes ".bso")) lower

-- `normalizeEthAliasDomain`
unfoldable pub normalize_eth_alias_domain : List ℕ → List ℕ
normalize_eth_alias_domain s =
    if ends_with (reverse (codes ".bso")) s
    then reverse (drop_code (drop_code (drop_code (drop_code (reverse s))))) ++ codes ".eth"
    else s

-- `areEquivalentNames`; `to_lower_case` is the JavaScript runtime's.
unfoldable pub are_equivalent_names : (String → String) → String → String → Bool
unfolding is_eth_alias_domain normalize_eth_alias_domain
are_equivalent_names to_lower_case a b =
    let la = codes (to_lower_case a) in
    let lb = codes (to_lower_case b) in
    str_eq a b
    || is_eth_alias_domain la
      && is_eth_alias_domain lb
      && same_codes (normalize_eth_alias_domain la) (normalize_eth_alias_domain lb)

-- The wire fields of a publication that name its community; `none` is a field that is no text.
pub record CommunityFields : Type 0 where
  pub community_public_key : Option String
  pub community_name : Option String
  pub subplebbit_address : Option String

abbrev pub keep_if : Bool → String → Option String
keep_if b s = if b then some s else none

abbrev pub is_domain? : Option String → Option String
is_domain? none = none
is_domain? (some s) = keep_if (is_string_domain s) s

abbrev pub not_domain? : Option String → Option String
not_domain? none = none
not_domain? (some s) = keep_if (not (is_string_domain s)) s

abbrev pub or_else : Option String → Option String → Option String
or_else none b = b
or_else (some a) b = some a

-- `getCommunityPublicKeyFromWire`
unfoldable pub get_community_public_key_from_wire : CommunityFields → Option String
get_community_public_key_from_wire p =
    or_else p.community_public_key (not_domain? p.subplebbit_address)

-- `getCommunityNameFromWire`
unfoldable pub get_community_name_from_wire : CommunityFields → Option String
get_community_name_from_wire p = or_else p.community_name (is_domain? p.subplebbit_address)

-- The wire author: the names of its own fields, and those that are read.
pub record Author : Type 0 where
  pub own_keys : List String
  pub name : Option String
  pub address : Option String

-- `getAuthorNameFromWire`
unfoldable pub get_author_name_from_wire : Option Author → Option String
get_author_name_from_wire none = none
get_author_name_from_wire (some author) =
    or_else (Author.name author) (is_domain? (Author.address author))
