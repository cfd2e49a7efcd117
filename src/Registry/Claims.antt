-- ===== src/Registry/Claims.antt =====
-- `addAliases` of src/pkc/tracked-instance-registry.ts takes a name from its owner, if it has another.
use pkc_js.Base.{
  ◌≡◌, ◌↔◌, ◌∙◌, refl, sym, subst, ap, Bool, true, false, not, ◌&&◌, ◌||◌, String, Option, none,
  some, List, [], ◌∷◌, if◌then◌else◌, arith, str_eq, eq_iff, Bool-cases, Option-cases, inl, inr,
  contains, insert, discard, lookup, assign, is_some, ap_if, lookup-assign, eq_refl, eq_sym,
}
use pkc_js.Registry.{Registry, add_alias, add_each, claim, revoke, drop_name, members_of}
use pkc_js.Registry.Lookups.{
  owns, holders, owns-insert, owns-drop_name, has-drop_name, IsLeft, IsLeft-assign,
}
use pkc_js.Registry.Owners.{Owners, Describes, is_it, give_one, give, listed_of}

module _ {T : Type 0} (same : T → T → Bool) (lawful : (x y : T) → (same x y ≡ true) ↔ (x ≡ y)) where
  -- The entries after `value` took the name from `holder`, if there is one.
  abbrev taken_from : Option T → String → List (T × List String) → List (T × List String)
  taken_from none name entries = entries
  taken_from (some w) name entries = drop_name same w name entries

  pub has-assign :
      (v w : T) (names : List String) (entries : List (T × List String))
      → is_some (lookup same w (assign same v names entries))
        ≡ same v w || is_some (lookup same w entries)
  has-assign v w names entries =
      rw (lookup-assign same lawful v w names entries)
        (elim (Bool-cases (same v w)) [ inl e ↦ rw e refl | inr e ↦ rw e refl ])

  has-taken_from :
      (holder : Option T) (v : T) (name : String) (entries : List (T × List String))
      → is_some (lookup same v (taken_from holder name entries)) ≡ is_some (lookup same v entries)
  has-taken_from none v name entries = refl
  has-taken_from (some w) v name entries = has-drop_name same lawful w v name entries

  owns-taken_from :
      (holder : Option T) (v : T) (name n : String) (entries : List (T × List String))
      → owns same (taken_from holder name entries) v n
        ≡ not (is_it same v holder && str_eq name n) && owns same entries v n
  owns-taken_from none v name n entries = refl
  owns-taken_from (some w) v name n entries =
      owns-drop_name same lawful w v name n entries
      ∙ ap (λ b. not (b && str_eq name n) && owns same entries v n) (eq_sym same lawful w v)

  discard_self : (w : T) → discard same w (w ∷ []) ≡ []
  discard_self w = rw (eq_refl same lawful w) refl

  revoke_one :
      (value w : T) (name : String) (entries : List (T × List String))
      → same value w ≡ false
      → revoke same value name (w ∷ []) (w ∷ [], entries) ≡ ([], drop_name same w name entries)
  unfolding revoke
  revoke_one value w name entries e =
      rw (eq_sym same lawful w value ∙ e)
        (ap (λ xs. (xs, drop_name same w name entries)) (discard_self w))

  claim_lem :
      (value : T) (name : String) (holder : Option T) (r : Registry T)
      → is_it same value holder ≡ false
      → holders same r.aliases name ≡ listed_of holder
      → is_some (lookup str_eq name r.aliases) ≡ is_some holder
      → claim same value name r ≡ record {
        entries = taken_from holder name r.entries;
        aliases = assign str_eq name (value ∷ []) r.aliases;
      }
  unfolding claim
  claim_lem value name none r other held listed =
      elim (Option-cases (lookup str_eq name r.aliases)) [
        | inl e ↦ rw (claim, e) refl
        | inr (hs, e) ↦ absurd (subst (λ x. is_some x ≡ false → ⊥) (sym e) (λ h. cc) listed)
      ]
  claim_lem value name (some w) r other held listed =
      elim (Option-cases (lookup str_eq name r.aliases)) [
        | inl e ↦ absurd (subst (λ x. is_some x ≡ true → ⊥) (sym e) (λ h. cc) listed)
        | inr (hs, e) ↦
            let single : hs ≡ w ∷ [] = sym (ap members_of e) ∙ held in
            rw (claim, e) (rw single (rw (revoke_one value w name r.entries other) refl))
      ]

  names_taken :
      (value v : T) (holder : Option T)
      → is_it same value holder ≡ false
      → not (is_it same v holder && true) && (same value v && true || is_it same v holder)
        ≡ same v value
  names_taken value v none h = ground (arith, eq_sym same lawful v value)
  names_taken value v (some w) h = elim (Bool-cases (same v value)) [
    | inl e ↦
        let alike : same value w ≡ same v w = sym (ap (λ z. same z w) ((lawful v value).0 e)) in
        ground (arith, eq_sym same lawful v value, alike)
    | inr e ↦ ground (arith, eq_sym same lawful v value)
  ]

  -- What the entries are after the claim, by the owner of each name.
  names_given :
      (value v : T) (name n : String) (o : Owners T)
      → is_it same value (o.owner name) ≡ false
      → not (is_it same v (o.owner name) && str_eq name n)
          && (same value v && str_eq name n || is_it same v (o.owner n))
        ≡ is_it same v (if str_eq name n then some value else o.owner n)
  names_given value v name n o other = elim (Bool-cases (str_eq name n)) [
    | inr e ↦ rw e (ground arith)
    | inl e ↦
        let alike : o.owner n ≡ o.owner name = sym (ap o.owner ((eq_iff name n).0 e)) in
        rw e (rw alike (names_taken value v (o.owner name) other))
  ]

  -- The names of the value after `entry.add(alias)`.
  abbrev with_name : T → String → List (T × List String) → List (T × List String)
  with_name value name entries =
      assign same value (insert str_eq name (members_of (lookup same value entries))) entries

  unless : (b c : Bool) → c ≡ false → b ≡ b && not c
  unless b c e = ground (arith, e)

  given_to :
      (value : T) (name n : String) (o : Owners T)
      → str_eq name "" ≡ false
      → (if str_eq name n then some value else o.owner n) ≡ (give_one same value name o).owner n
  given_to value name n o named =
      ap (λ b. if b then some value else o.owner n) (unless (str_eq name n) (str_eq name "") named)

  pub tracked_already :
      (value v : T) (o : Owners T) (r : Registry T)
      → Describes same o r
      → o.is_tracked value ≡ true
      → same value v || is_some (lookup same v r.entries) ≡ o.is_tracked v
  tracked_already value v o r h there = elim (Bool-cases (same value v)) [
    | inl e ↦ rw e (sym (sym (ap o.is_tracked ((lawful value v).0 e)) ∙ there))
    | inr e ↦ rw e (h.tracked v)
  ]

  claimed :
      (value : T) (name : String) (o : Owners T) (r : Registry T)
      → Describes same o r
      → o.is_tracked value ≡ true
      → str_eq name "" ≡ false
      → is_it same value (o.owner name) ≡ false
      → Describes same (give_one same value name o) (record {
        entries = taken_from (o.owner name) name (with_name value name r.entries);
        aliases = assign str_eq name (value ∷ []) r.aliases;
      })
  claimed value name o r h there named other = record {
    tracked = λ v.
        has-taken_from (o.owner name) v name (with_name value name r.entries)
        ∙ has-assign value v (insert str_eq name (members_of (lookup same value r.entries)))
            r.entries
        ∙ tracked_already value v o r h there;
    names = λ v n.
        owns-taken_from (o.owner name) v name n (with_name value name r.entries)
        ∙ ap (λ b. not (is_it same v (o.owner name) && str_eq name n) && b)
            (owns-insert same lawful value v name n r.entries
              ∙ ap (λ b. same value v && str_eq name n || b) (h.names v n))
        ∙ names_given value v name n o other
        ∙ ap (is_it same v) (given_to value name n o named);
    held = λ n.
        IsLeft.members (IsLeft-assign same name value [] r.aliases) n
        ∙ ap (λ xs. if str_eq name n then value ∷ [] else xs) (h.held n)
        ∙ sym (ap_if listed_of (str_eq name n) (some value) (o.owner n))
        ∙ ap listed_of (given_to value name n o named);
    listed = λ n.
        IsLeft.listed (IsLeft-assign same name value [] r.aliases) n
        ∙ ap (λ b. if str_eq name n then true else b) (h.listed n)
        ∙ sym (ap_if is_some (str_eq name n) (some value) (o.owner n))
        ∙ ap is_some (given_to value name n o named);
  }

  pub it_is : (value : T) (holder : Option T) → is_it same value holder ≡ true → holder ≡ some value
  it_is value none h = cc
  it_is value (some w) h = ap some (sym ((lawful value w).0 h))

  same_either_way :
      (b c : Bool) (x y : Option T)
      → (b ≡ true → c ≡ false → y ≡ x)
      → y ≡ (if b && not c then x else y)
  same_either_way true true x y h = refl
  same_either_way true false x y h = h refl refl
  same_either_way false c x y h = refl

  -- Nothing changes where the name is empty or the value's already.
  given_before :
      (value : T) (name n : String) (o : Owners T)
      → str_eq name "" || is_it same value (o.owner name) ≡ true
      → o.owner n ≡ (give_one same value name o).owner n
  given_before value name n o h =
      same_either_way (str_eq name n) (str_eq name "") (some value) (o.owner n) λ e f.
        let its : is_it same value (o.owner name) ≡ true = ground (arith, h, f) in
        sym (ap o.owner ((eq_iff name n).0 e)) ∙ it_is value (o.owner name) its

  pub Describes-same :
      (o o' : Owners T) (r : Registry T)
      → ((value : T) → o.is_tracked value ≡ o'.is_tracked value)
      → ((name : String) → o.owner name ≡ o'.owner name)
      → Describes same o r
      → Describes same o' r
  Describes-same o o' r tracked owner h = record {
    tracked = λ value. h.tracked value ∙ tracked value;
    names = λ value name. h.names value name ∙ ap (is_it same value) (owner name);
    held = λ name. h.held name ∙ ap listed_of (owner name);
    listed = λ name. h.listed name ∙ ap is_some (owner name);
  }

  pub add_alias-Describes :
      (value : T) (name : String) (o : Owners T) (r : Registry T)
      → Describes same o r
      → o.is_tracked value ≡ true
      → Describes same (give_one same value name o) (add_alias same value name r)
  unfolding add_alias
  add_alias-Describes value name o r h there =
      let names : List String = members_of (lookup same value r.entries) in
      let owned = h.names value name in
      elim (Bool-cases (str_eq name "" || contains str_eq name names)) [
        | inl e ↦
            let before : str_eq name "" || is_it same value (o.owner name) ≡ true =
              ground (arith, e, owned) in
            rw e (
              Describes-same o (give_one same value name o) r (λ v. refl)
                (λ n. given_before value name n o before) h)
        | inr e ↦
            let named : str_eq name "" ≡ false = ground (arith, e) in
            let other : is_it same value (o.owner name) ≡ false = ground (arith, e, owned) in
            let grown : Registry T = record r { entries = with_name value name r.entries } in
            rw e (
              rw (claim_lem value name (o.owner name) grown other (h.held name) (h.listed name))
                (claimed value name o r h there named other))
      ]

  pub add_each-Describes :
      (value : T) (names : List String) (o : Owners T) (r : Registry T)
      → Describes same o r
      → o.is_tracked value ≡ true
      → Describes same (give same value names o) (add_each same value names r)
  unfolding add_each
  add_each-Describes value [] o r h there = h
  add_each-Describes value (name ∷ names) o r h there =
      add_each-Describes value names (give_one same value name o) (add_alias same value name r)
        (add_alias-Describes value name o r h there) there
