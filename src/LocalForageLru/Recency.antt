-- ===== src/LocalForageLru/Recency.antt =====
-- How long src/runtime/browser/localforage-lru.ts keeps a value that was written or read.
use pkc_js.Base.{
  ℕ, suc, ◌<◌, ◌≡◌, ◌∙◌, ◌⊎◌, inl, inr, refl, sym, ap, String, Bool, true, false, Option, none,
  some, Result, ok, throw, List, [], ◌∷◌, ◌>>=◌, Result-cases, Option-cases, Bool-cases,
  if◌then◌else◌, arith, length, every, str_eq, eq_iff,
}
use pkc_js.LocalForageLru.{
  Database, Lru, make_place, update_databases, promote, get_item, set_item, remove_item, peek,
}
use pkc_js.LocalForageLru.Contract.{IsLawful}
use pkc_js.LocalForageLru.Lookups.{peek_lem, first_of, get-set_self}
use pkc_js.LocalForageLru.Staying.{
  Stays, get-set_ne, make_place_first, later, update_databases-Stays,
}
use pkc_js.LocalForageLru.Operations.{
  Operation, read, write, removal, clearing, reopening, operate, run, kept_state, kept_read, spares,
}

module _ {D V E : Type 0} (db : Database D V E) (quota : E → Bool) (max_size : ℕ)
    (lawful : IsLawful db) where
  some_ne_none : (value : V) → some value ≡ none → ⊥
  some_ne_none value e = cc

  promoted :
      (found : Option V) (s : Lru D) (call : Result E (Lru D)) (key : String) (value : V) (n : ℕ)
      → Stays db quota max_size lawful key value n (kept_state db quota max_size s call)
      → Stays db quota max_size lawful key value n
          (kept_read db quota max_size s (call >>= λ updated. ok (found, updated)))
  promoted found s (throw error) key value n h = h
  promoted found s (ok after) key value n h = h

  unchanged :
      (key : String) (value : V) (n : ℕ) (s t : Lru D)
      → db.get_item key t.database1 ≡ db.get_item key s.database1
      → db.get_item key t.database2 ≡ db.get_item key s.database2
      → t.database_size ≡ s.database_size
      → Stays db quota max_size lawful key value n s
      → Stays db quota max_size lawful key value n t
  unchanged key value n s t e f g (inl (there, time)) = inl (e ∙ there, time)
  unchanged key value n s t e f g (inr (absent, there, time)) =
      inr (e ∙ absent, f ∙ there, omega (arith, g, time))

  -- What a read promotes is the value, if it reads the key.
  which_read :
      (key other : String) (value found : V) (n : ℕ) (s : Lru D)
      → db.get_item other s.database1 ≡ none
      → db.get_item other s.database2 ≡ some found
      → Stays db quota max_size lawful key value n s
      → (str_eq other key ≡ false) ⊎ ((str_eq other key ≡ true) × (some found ≡ some value))
  which_read key other value found n s e f h = elim (Bool-cases (str_eq other key)) [
    | inr differ ↦ inl differ
    | inl same ↦
        let alike : other ≡ key = (eq_iff other key).0 same in
        elim h [
          | inl (there, time) ↦
              absurd (
                some_ne_none value
                  (sym there ∙ ap (λ k. db.get_item k s.database1) (sym alike) ∙ e))
          | inr (absent, there, time) ↦
              inr (same, sym f ∙ ap (λ k. db.get_item k s.database2) alike ∙ there)
        ]
  ]

  get_item-Stays :
      (key other : String) (value : V) (n : ℕ) (s : Lru D)
      → Stays db quota max_size lawful key value (suc n) s
      → Stays db quota max_size lawful key value n
          (kept_read db quota max_size s (get_item db quota max_size other s))
  unfolding get_item promote
  get_item-Stays key other value n s h = elim (Option-cases (db.get_item other s.database1)) [
    | inr (found, e) ↦ rw (get_item, e) (later db quota max_size lawful key value n s h)
    | inl e ↦ elim (Option-cases (db.get_item other s.database2)) [
      | inl f ↦ rw (get_item, e) (rw f (later db quota max_size lawful key value n s h))
      | inr (found, f) ↦
          rw (get_item, e)
            (rw f (
              promoted (some found) s (update_databases db quota max_size other (some found) s) key
                value n
                (update_databases-Stays db quota max_size lawful key other value (some found) n s
                  (which_read key other value found (suc n) s e f h) h)))
    ]
  ]

  set_item-Stays :
      (key other : String) (value : V) (given : Option V) (n : ℕ) (s : Lru D)
      → str_eq other key ≡ false
      → Stays db quota max_size lawful key value (suc n) s
      → Stays db quota max_size lawful key value n
          (kept_state db quota max_size s (set_item db quota max_size other given s))
  unfolding set_item
  set_item-Stays key other value given n s differ h =
      elim (Option-cases (db.get_item other s.database1)) [
        | inl e ↦
            rw (set_item, e)
              (update_databases-Stays db quota max_size lawful key other value given n s
                (inl differ) h)
        | inr (old, e) ↦ elim (Result-cases (db.set_item other given s.database1)) [
          | inr (error, w) ↦
              rw (set_item, e) (rw w (later db quota max_size lawful key value n s h))
          | inl (written, w) ↦
              rw (set_item, e)
                (rw w (
                  unchanged key value n s (record s { database1 = written })
                    (get-set_ne db quota max_size lawful key other given s.database1 written differ
                      w)
                    refl refl (later db quota max_size lawful key value n s h)))
        ]
      ]

  remove_item-Stays :
      (key other : String) (value : V) (n : ℕ) (s : Lru D)
      → str_eq other key ≡ false
      → Stays db quota max_size lawful key value (suc n) s
      → Stays db quota max_size lawful key value n (remove_item db quota max_size other s)
  unfolding remove_item
  remove_item-Stays key other value n s differ h =
      let left = λ (d : D).
        lawful.get-remove other key d ∙ ap (λ b. if b then none else db.get_item key d) differ in
      unchanged key value n s
        (record s {
          database1 = db.remove_item other s.database1;
          database2 = db.remove_item other s.database2;
        })
        (left s.database1) (left s.database2) refl (later db quota max_size lawful key value n s h)

  operate-Stays :
      (key : String) (value : V) (n : ℕ) (operation : Operation V) (s : Lru D)
      → spares key operation ≡ true
      → Stays db quota max_size lawful key value (suc n) s
      → Stays db quota max_size lawful key value n (operate db quota max_size operation s)
  unfolding operate
  operate-Stays key value n (read other) s e h = get_item-Stays key other value n s h
  operate-Stays key value n (write other given) s e h =
      set_item-Stays key other value given n s (ground (arith, e)) h
  operate-Stays key value n (removal other) s e h =
      remove_item-Stays key other value n s (ground (arith, e)) h
  operate-Stays key value n clearing s e h = cc
  operate-Stays key value n (reopening swapped) s e h = cc

  peek-Stays :
      (key : String) (value : V) (n : ℕ) (s : Lru D)
      → Stays db quota max_size lawful key value n s
      → peek db quota max_size key s ≡ some value
  peek-Stays key value n s (inl (there, time)) =
      peek_lem db quota max_size lawful key s
      ∙ ap (λ x. first_of db quota max_size lawful x (db.get_item key s.database2)) there
  peek-Stays key value n s (inr (absent, there, time)) =
      peek_lem db quota max_size lawful key s
      ∙ ap (λ x. first_of db quota max_size lawful x (db.get_item key s.database2)) absent
      ∙ there

  run-Stays :
      (key : String) (value : V) (operations : List (Operation V)) (s : Lru D)
      → every (spares key) operations ≡ true
      → Stays db quota max_size lawful key value (length operations) s
      → peek db quota max_size key (run db quota max_size operations s) ≡ some value
  unfolding run
  run-Stays key value [] s e h = peek-Stays key value 0 s h
  run-Stays key value (operation ∷ operations) s e h =
      run-Stays key value operations (operate db quota max_size operation s) (ground (arith, e))
        (operate-Stays key value (length operations) operation s (ground (arith, e)) h)

  set_item-kept :
      (key : String) (value : V) (n : ℕ) (s : Lru D) (written : D)
      → db.set_item key (some value) s.database1 ≡ ok written
      → n < max_size
      → (after : Lru D) × (set_item db quota max_size key (some value) s ≡ ok after)
        × Stays db quota max_size lawful key value n after
  unfolding set_item update_databases
  set_item-kept key value n s written e time =
      let self = get-set_self db quota max_size lawful key (some value) s.database1 written e in
      elim (Option-cases (db.get_item key s.database1)) [
        | inl f ↦ (
          make_place db quota max_size written s,
          rw (set_item, f) (rw (update_databases, e) refl),
          make_place_first db quota max_size lawful key value n s written self time,
        )
        | inr (old, f) ↦ (
          record s { database1 = written },
          rw (set_item, f) (rw e refl),
          inl (self, omega (arith, time)),
        )
      ]

  -- A value that the database takes at a `setItem` is still in the cache after fewer operations than
  -- its size says, if none of them writes or removes its key, clears the cache or opens it again.
  -- Operations that throw count, and so do reads.
  pub written_value_kept :
      (key : String) (value : V) (operations : List (Operation V)) (s : Lru D) (written : D)
      → db.set_item key (some value) s.database1 ≡ ok written
      → every (spares key) operations ≡ true
      → length operations < max_size
      → (after : Lru D) × (set_item db quota max_size key (some value) s ≡ ok after)
        × (peek db quota max_size key (run db quota max_size operations after) ≡ some value)
  written_value_kept key value operations s written e spared short =
      let (after, set, stays) = set_item-kept key value (length operations) s written e short in
      (after, set, run-Stays key value operations after spared stays)
