-- ===== src/Registry/Owners.antt =====
-- What a registry promises, without its two maps: which instances are tracked, and the one owner
-- that an alias has or has not.
use pkc_js.Base.{
  ◌≡◌, Bool, false, not, ◌&&◌, ◌||◌, String, Option, none, some, List, [], ◌∷◌, if◌then◌else◌,
  str_eq, is_some, lookup,
}
use pkc_js.Registry.{Registry}
use pkc_js.Registry.Lookups.{owns, holders}

pub record Owners (T : Type 0) : Type 0 where
  pub is_tracked : T → Bool
  pub owner : String → Option T

abbrev pub no_owners : (T : Type 0) → Owners T
no_owners T = record { is_tracked = λ value. false; owner = λ name. none }

abbrev pub listed_of : {A : Type 0} → Option A → List A
listed_of none = []
listed_of (some x) = x ∷ []

module _ {T : Type 0} (same : T → T → Bool) where
  abbrev pub is_it : T → Option T → Bool
  is_it value none = false
  is_it value (some holder) = same value holder

  -- The names, but for the empty one, belong to the value from now on.
  abbrev pub give_one : T → String → Owners T → Owners T
  give_one value name o = record o {
    owner = λ n. if str_eq name n && not (str_eq name "") then some value else o.owner n;
  }

  abbrev pub give : T → List String → Owners T → Owners T
  give value [] o = o
  give value (name ∷ names) o = give value names (give_one value name o)

  abbrev pub begin_tracking : T → Owners T → Owners T
  begin_tracking value o = record o { is_tracked = λ w. same value w || o.is_tracked w }

  -- The names that belong to the value are free from now on.
  abbrev pub free_one : T → String → Owners T → Owners T
  free_one value name o = record o {
    owner = λ n. if str_eq name n && is_it value (o.owner n) then none else o.owner n;
  }

  abbrev pub free : T → List String → Owners T → Owners T
  free value [] o = o
  free value (name ∷ names) o = free value names (free_one value name o)

  abbrev pub forget : T → Owners T → Owners T
  forget value o = record {
    is_tracked = λ w. not (same value w) && o.is_tracked w;
    owner = λ n. if is_it value (o.owner n) then none else o.owner n;
  }

  -- Who is left of at most one holder.
  abbrev pub left_of : T → Option T → Option T
  left_of value holder = if is_it value holder then none else holder

  -- The two maps tell what the owners are, and agree with each other.
  pub record Describes (o : Owners T) (r : Registry T) : Type 0 where
    pub tracked : (value : T) → is_some (lookup same value r.entries) ≡ o.is_tracked value
    pub names :
        (value : T) (name : String) → owns same r.entries value name ≡ is_it value (o.owner name)
    pub held : (name : String) → holders same r.aliases name ≡ listed_of (o.owner name)
    pub listed : (name : String) → is_some (lookup str_eq name r.aliases) ≡ is_some (o.owner name)
