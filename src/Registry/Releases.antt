-- ===== src/Registry/Releases.antt =====
-- Releasing the names of an instance in src/pkc/tracked-instance-registry.ts, in the second map.
use pkc_js.Base.{
  ◌≡◌, ◌↔◌, ◌∙◌, refl, sym, ap, Bool, true, false, not, ◌&&◌, ◌||◌, String, Option, none, some,
  List, [], ◌∷◌, if◌then◌else◌, arith, str_eq, eq_iff, Bool-cases, inl, inr, contains, discard,
  lookup, is_some, is_empty, ap_if, eq_sym, is_some,
}
use pkc_js.Registry.{release, release_each}
use pkc_js.Registry.Lookups.{holders, release-IsLeft}
use pkc_js.Registry.Owners.{Owners, is_it, left_of, free_one, free, listed_of}

module _ {T : Type 0} (same : T → T → Bool) (lawful : (x y : T) → (same x y ≡ true) ↔ (x ≡ y)) where
  -- The holders that the second map lists.
  pub record Holds (owner : String → Option T) (aliases : List (String × List T)) : Type 0 where
    pub held : (name : String) → holders same aliases name ≡ listed_of (owner name)
    pub listed : (name : String) → is_some (lookup str_eq name aliases) ≡ is_some (owner name)

  discard_lem :
      (value : T) (holder : Option T)
      → (discard same value (listed_of holder) ≡ listed_of (left_of same value holder))
        × (not (is_empty (discard same value (listed_of holder)))
            ≡ is_some (left_of same value holder))
  discard_lem value none = (refl, refl)
  discard_lem value (some w) = elim (Bool-cases (same value w)) [
    | inl e ↦ rw e (refl, refl)
    | inr e ↦ rw e (refl, refl)
  ]

  freed_to :
      (value : T) (name n : String) (owner : String → Option T)
      → (if str_eq name n then left_of same value (owner name) else owner n)
        ≡ (if str_eq name n && is_it same value (owner n) then none else owner n)
  freed_to value name n owner = elim (Bool-cases (str_eq name n)) [
    | inl e ↦ rw e (ap (λ m. left_of same value (owner m)) ((eq_iff name n).0 e))
    | inr e ↦ rw e refl
  ]

  pub release-Holds :
      (value : T) (name : String) (o : Owners T) (aliases : List (String × List T))
      → Holds o.owner aliases
      → Holds (Owners.owner (free_one same value name o)) (release same value name aliases)
  release-Holds value name o aliases h =
      let after = release-IsLeft same value name aliases in
      let gone = discard_lem value (o.owner name) in
      let left : Option T = left_of same value (o.owner name) in
      record {
        held = λ n.
            after.members n
            ∙ ap (λ xs. if str_eq name n then discard same value xs else holders same aliases n)
                (h.held name)
            ∙ ap (λ xs. if str_eq name n then xs else holders same aliases n) gone.0
            ∙ ap (λ xs. if str_eq name n then listed_of left else xs) (h.held n)
            ∙ sym (ap_if listed_of (str_eq name n) left (o.owner n))
            ∙ ap listed_of (freed_to value name n o.owner);
        listed = λ n.
            after.listed n
            ∙ ap
                (λ xs.
                  if str_eq name n
                  then not (is_empty (discard same value xs))
                  else is_some (lookup str_eq n aliases))
                (h.held name)
            ∙ ap (λ b. if str_eq name n then b else is_some (lookup str_eq n aliases)) gone.1
            ∙ ap (λ b. if str_eq name n then is_some left else b) (h.listed n)
            ∙ sym (ap_if is_some (str_eq name n) left (o.owner n))
            ∙ ap is_some (freed_to value name n o.owner);
      }

  pub release_each-Holds :
      (value : T) (names : List String) (o : Owners T) (aliases : List (String × List T))
      → Holds o.owner aliases
      → Holds (Owners.owner (free same value names o)) (release_each same value names aliases)
  unfolding release_each
  release_each-Holds value [] o aliases h = h
  release_each-Holds value (name ∷ names) o aliases h =
      release_each-Holds value names (free_one same value name o) (release same value name aliases)
        (release-Holds value name o aliases h)

  free_again :
      (value : T) (b c : Bool) (holder : Option T)
      → (let once : Option T = if b && is_it same value holder then none else holder in
          if c && is_it same value once then none else once)
        ≡ (if (b || c) && is_it same value holder then none else holder)
  free_again value true true none = refl
  free_again value true false none = refl
  free_again value false c none = refl
  free_again value true c (some w) = elim (Bool-cases (same value w)) [
    | inl e ↦ rw e (ground arith)
    | inr e ↦ rw e (elim (Bool-cases c) [ inl f ↦ rw f (rw e refl) | inr f ↦ rw f refl ])
  ]
  free_again value false c (some w) = refl

  pub free-owner :
      (value : T) (names : List String) (o : Owners T) (n : String)
      → Owners.owner (free same value names o) n
        ≡ (if contains str_eq n names && is_it same value (o.owner n) then none else o.owner n)
  free-owner value [] o n = refl
  free-owner value (name ∷ names) o n =
      free-owner value names (free_one same value name o) n
      ∙ free_again value (str_eq name n) (contains str_eq n names) (o.owner n)
      ∙ ap
          (λ b.
            if (b || contains str_eq n names) && is_it same value (o.owner n)
            then none
            else o.owner n)
          (eq_sym str_eq eq_iff name n)
