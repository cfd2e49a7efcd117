-- ===== src/Tests/Caches.antt =====
-- Runs of the cache over two databases that are lists.
use pkc_js.Base.{
  ℕ, suc, ◌≤◌, ◌≡◌, ◌∙◌, refl, ap, subst, Bool-cases, inl, inr, String, Bool, true, false, Option,
  none, some, Result, ok, List, [], ◌∷◌, map, length, str_eq, eq_iff, lookup, assign, erase,
  if◌then◌else◌, ap_if, lookup-assign, lookup-erase, arith,
}
use pkc_js.LocalForageLru.{Database, Lru, choose_active, remove_item, get_item, set_item, peek}
use pkc_js.LocalForageLru.Contract.{IsLawful}
use pkc_js.LocalForageLru.Lookups.{ReadsBack, get_item-set_item}
use pkc_js.LocalForageLru.Recency.{written_value_kept}
use pkc_js.LocalForageLru.Bounds.{IsBounded, run-IsBounded}
use pkc_js.LocalForageLru.Operations.{Operation, read, write, removal, reopening, run}

abbrev Entries : Type 0
Entries = List (String × Option ℕ)

abbrev joined : Option (Option ℕ) → Option ℕ
joined none = none
joined (some found) = found

abbrev memory : Database Entries ℕ String
memory = record {
  get_item = λ key d. joined (lookup str_eq key d);
  set_item = λ key value d. ok (assign str_eq key value d);
  remove_item = λ key d. erase str_eq key d;
  clear = λ d. [];
  keys = λ d. map (λ entry. entry.0) d;
  length_of = λ d. length d;
}

assign-get :
    (key l : String) (value : Option ℕ) (d : Entries)
    → joined (lookup str_eq l (assign str_eq key value d))
      ≡ (if str_eq key l then value else joined (lookup str_eq l d))
assign-get key l value d =
    ap joined (lookup-assign str_eq eq_iff key l value d)
    ∙ ap_if joined (str_eq key l) (some value) (lookup str_eq l d)

length-assign :
    (key : String) (value : Option ℕ) (d : Entries)
    → length (assign str_eq key value d) ≤ suc (length d)
length-assign key value [] = omega arith
length-assign key value ((l, v) ∷ d) = ground (arith, length-assign key value d)

length-assign_same :
    (key : String) (value : Option ℕ) (d : Entries)
    → (joined (lookup str_eq key d) ≡ none → ⊥)
    → length (assign str_eq key value d) ≤ length d
length-assign_same key value [] h = absurd (h refl)
length-assign_same key value ((l, v) ∷ d) h = elim (Bool-cases (str_eq key l)) [
  | inl e ↦ rw e (omega arith)
  | inr e ↦
      let rest =
        length-assign_same key value d
          (subst (λ b. joined (if b then some v else lookup str_eq key d) ≡ none → ⊥) e h) in
      rw e (omega (arith, rest))
]

length-erase : (key : String) (d : Entries) → length (erase str_eq key d) ≤ length d
length-erase key [] = omega arith
length-erase key ((l, v) ∷ d) = ground (arith, length-erase key d)

ok_inj : (x y : Entries) (e : Result String Entries) → e ≡ ok x → e ≡ ok y → x ≡ y
ok_inj x y e f g = cc

memory-IsLawful : IsLawful memory
memory-IsLawful = record {
  get-set = λ key l value d written e.
      subst
        (λ w.
          joined (lookup str_eq l w) ≡ (if str_eq key l then value else joined (lookup str_eq l d)))
        (ok_inj (assign str_eq key value d) written (ok (assign str_eq key value d)) refl e)
        (assign-get key l value d);
  get-remove = λ key l d.
      ap joined (lookup-erase str_eq eq_iff key l d)
      ∙ ap_if joined (str_eq key l) none (lookup str_eq l d);
  get-clear = λ l d. refl;
  length-set = λ key value d written e.
      subst (λ w. length w ≤ suc (length d))
        (ok_inj (assign str_eq key value d) written (ok (assign str_eq key value d)) refl e)
        (length-assign key value d);
  length-overwrite = λ key value d written there e.
      subst (λ w. length w ≤ length d)
        (ok_inj (assign str_eq key value d) written (ok (assign str_eq key value d)) refl e)
        (length-assign_same key value d there);
  length-remove = λ key d. length-erase key d;
  length-clear = λ d. refl;
}

abbrev fresh : Lru Entries
fresh = record { database1 = []; database2 = []; database_size = 0 }

abbrev no_quota : String → Bool
no_quota error = false

abbrev calls : List (Operation ℕ)
calls =
    write "a" (some 1)
    ∷ write "b" (some 2)
    ∷ write "c" (some 3)
    ∷ read "a"
    ∷ removal "b"
    ∷ reopening true
    ∷ []

calls_run : peek memory no_quota 3 "a" (run memory no_quota 3 calls fresh) ≡ some 1
unfolding run peek choose_active remove_item get_item set_item
calls_run = refl

fresh-IsBounded : IsBounded memory no_quota 3 memory-IsLawful fresh
fresh-IsBounded = record { counted = omega arith; room = omega arith; second = omega arith }

abbrev old : Lru Entries
old = record {
  database1 = ("x", some 7) ∷ ("y", none) ∷ [];
  database2 = ("a", some 9) ∷ [];
  database_size = 2;
}

-- The write fills the first database, so the value is promoted from the second when it is read.
get_item-set_item_example :
    (after : Lru Entries) × (set_item memory no_quota 3 "a" (some 1) old ≡ ok after)
    × ReadsBack memory no_quota 3 memory-IsLawful "a" 1 after
get_item-set_item_example =
    get_item-set_item memory no_quota 3 memory-IsLawful "a" 1 old
      (("x", some 7) ∷ ("y", none) ∷ ("a", some 1) ∷ []) refl

abbrev others : List (Operation ℕ)
others = write "b" (some 2) ∷ read "x" ∷ []

written_value_kept_example :
    (after : Lru Entries) × (set_item memory no_quota 3 "a" (some 1) old ≡ ok after)
    × (peek memory no_quota 3 "a" (run memory no_quota 3 others after) ≡ some 1)
written_value_kept_example =
    written_value_kept memory no_quota 3 memory-IsLawful "a" 1 others old
      (("x", some 7) ∷ ("y", none) ∷ ("a", some 1) ∷ []) refl refl (omega arith)

run-IsBounded_example :
    IsBounded memory no_quota 3 memory-IsLawful (run memory no_quota 3 calls fresh)
run-IsBounded_example = run-IsBounded memory no_quota 3 memory-IsLawful calls fresh fresh-IsBounded
