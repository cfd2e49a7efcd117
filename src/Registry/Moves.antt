-- ===== src/Registry/Moves.antt =====
-- The operations of src/pkc/tracked-instance-registry.ts move the owners of the aliases as they say.
use pkc_js.Base.{
  ◌≡◌, ◌↔◌, ◌∙◌, refl, sym, ap, Bool, true, false, not, ◌&&◌, String, Option, none, some, List, [],
  ◌∷◌, if◌then◌else◌, ◌⊎◌, arith, str_eq, eq_iff, Bool-cases, Option-cases, inl, inr, contains,
  discard, lookup, is_some, ap_if, lookup-erase, eq_sym, is_some,
}
use pkc_js.Registry.{Registry, remove_alias, remove_each, untrack, members_of}
use pkc_js.Registry.Lookups.{owns-discard, owns-erase}
use pkc_js.Registry.Owners.{Owners, Describes, is_it, left_of, free_one, free, forget, listed_of}
use pkc_js.Registry.Releases.{Holds, release-Holds, release_each-Holds, free-owner}
use pkc_js.Registry.Claims.{has-assign, tracked_already, Describes-same}

module _ {T : Type 0} (same : T → T → Bool) (lawful : (x y : T) → (same x y ≡ true) ↔ (x ≡ y)) where
  owned_is_tracked :
      (value : T) (name : String) (found : Option (List String))
      → contains str_eq name (members_of found) ≡ true
      → is_some found ≡ true
  owned_is_tracked value name none h = cc
  owned_is_tracked value name (some names) h = refl

  is_it-left_of :
      (value v : T) (holder : Option T)
      → not (same value v) && is_it same v holder ≡ is_it same v (left_of same value holder)
  is_it-left_of value v none = ground arith
  is_it-left_of value v (some w) = elim (Bool-cases (same value w)) [
    | inl e ↦
        let alike : same v w ≡ same v value = sym (ap (same v) ((lawful value w).0 e)) in
        rw e (ground (arith, alike, eq_sym same lawful v value))
    | inr e ↦ rw e (elim (Bool-cases (same v w)) [
      | inl f ↦
          let alike : same value v ≡ same value w = ap (same value) ((lawful v w).0 f) in
          ground (arith, alike, e)
      | inr f ↦ ground arith
    ])
  ]

  is_it-freed :
      (value v : T) (b : Bool) (holder : Option T)
      → not (same value v && b) && is_it same v holder
        ≡ is_it same v (if b && is_it same value holder then none else holder)
  is_it-freed value v true holder =
      ap (λ c. not c && is_it same v holder) (ground arith) ∙ is_it-left_of value v holder
  is_it-freed value v false holder = ground arith

  twice : (b : Bool) → b && b ≡ b
  twice true = refl
  twice false = refl

  unless_same : (b c : Bool) → (if b then false else c) ≡ not b && c
  unless_same true c = refl
  unless_same false c = refl

  absent_untracked :
      (value v : T) (o : Owners T)
      → o.is_tracked value ≡ false
      → not (same value v) && o.is_tracked v ≡ o.is_tracked v
  absent_untracked value v o h = elim (Bool-cases (same value v)) [
    | inl e ↦ rw e (sym (sym (ap o.is_tracked ((lawful value v).0 e)) ∙ h))
    | inr e ↦ rw e refl
  ]

  pub untrack-Describes :
      (value : T) (o : Owners T) (r : Registry T)
      → Describes same o r
      → Describes same (forget same value o) (untrack same value r)
  unfolding untrack
  untrack-Describes value o r h = elim (Option-cases (lookup same value r.entries)) [
    | inl e ↦
        rw (untrack, e)
          (Describes-same same lawful o (forget same value o) r
            (λ v. sym (absent_untracked value v o (sym (h.tracked value) ∙ ap is_some e)))
            (λ n.
              ap (λ b. if b then none else o.owner n)
                (sym
                  (sym (h.names value n) ∙ ap (λ found. contains str_eq n (members_of found)) e)))
            h)
    | inr (names, e) ↦
        let freed =
          release_each-Holds same lawful value names o r.aliases
            (record { held = h.held; listed = h.listed }) in
        let all_names = λ (n : String).
          free-owner same lawful value names o n
          ∙ ap (λ b. if b && is_it same value (o.owner n) then none else o.owner n)
              (sym (ap (λ found. contains str_eq n (members_of found)) e) ∙ h.names value n)
          ∙ ap (λ b. if b then none else o.owner n) (twice (is_it same value (o.owner n))) in
        rw (untrack, e)
          (record {
            tracked = λ v.
                ap is_some (lookup-erase same lawful value v r.entries)
                ∙ ap_if is_some (same value v) none (lookup same v r.entries)
                ∙ ap (λ b. if same value v then false else b) (h.tracked v)
                ∙ unless_same (same value v) (o.is_tracked v);
            names = λ v n.
                owns-erase same lawful value v n r.entries
                ∙ ap (λ b. not (same value v) && b) (h.names v n)
                ∙ is_it-left_of value v (o.owner n);
            held = λ n. freed.held n ∙ ap listed_of (all_names n);
            listed = λ n. freed.listed n ∙ ap is_some (all_names n);
          })
  ]

  kept_by :
      (value : T) (name n : String) (o : Owners T)
      → is_it same value (o.owner name) ≡ false
      → o.owner n ≡ (free_one same value name o).owner n
  kept_by value name n o h =
      ap (λ b. if b then none else o.owner n) (unheld (Bool-cases (str_eq name n)))
    where
      unheld :
          (str_eq name n ≡ true) ⊎ (str_eq name n ≡ false)
          → false ≡ str_eq name n && is_it same value (o.owner n)
      unheld (inl e) =
          rw e (sym (ap (λ m. is_it same value (o.owner m)) (sym ((eq_iff name n).0 e)) ∙ h))
      unheld (inr e) = rw e refl

  pub remove_alias-Describes :
      (value : T) (name : String) (o : Owners T) (r : Registry T)
      → Describes same o r
      → Describes same (free_one same value name o) (remove_alias same value name r)
  unfolding remove_alias
  remove_alias-Describes value name o r h =
      let owned = h.names value name in
      elim (Bool-cases (contains str_eq name (members_of (lookup same value r.entries)))) [
        | inl e ↦ rw e (record {
          tracked = λ v.
              has-assign same lawful value v
                (discard str_eq name (members_of (lookup same value r.entries))) r.entries
              ∙ tracked_already same lawful value v o r h (
                  sym (h.tracked value)
                  ∙ owned_is_tracked value name (lookup same value r.entries) e);
          names = λ v n.
              owns-discard same lawful value v name n r.entries
              ∙ ap (λ b. not (same value v && str_eq name n) && b) (h.names v n)
              ∙ is_it-freed value v (str_eq name n) (o.owner n);
          held = Holds.held (
              release-Holds same lawful value name o r.aliases
                (record { held = h.held; listed = h.listed }));
          listed = Holds.listed (
              release-Holds same lawful value name o r.aliases
                (record { held = h.held; listed = h.listed }));
        })
        | inr e ↦ rw e (
            Describes-same same lawful o (free_one same value name o) r (λ v. refl)
              (λ n. kept_by value name n o (sym owned ∙ e)) h)
      ]

  pub remove_each-Describes :
      (value : T) (names : List String) (o : Owners T) (r : Registry T)
      → Describes same o r
      → Describes same (free same value names o) (remove_each same value names r)
  unfolding remove_each
  remove_each-Describes value [] o r h = h
  remove_each-Describes value (name ∷ names) o r h =
      remove_each-Describes value names (free_one same value name o)
        (remove_alias same value name r) (remove_alias-Describes value name o r h)
