-- ===== src/LocalForageLru/Bounds.antt =====
-- How large the two databases of src/runtime/browser/localforage-lru.ts become.
use pkc_js.Base.{
  ℕ, suc, ◌≤◌, ◌<◌, ◌≡◌, ◌∙◌, ◌&&◌, ◌||◌, ◌==◌, not, ◌⊎◌, inl, inr, sym, String, Bool, true, false,
  Option, none, some, Result, ok, throw, List, [], ◌∷◌, ◌>>=◌, Result-cases, Option-cases,
  Bool-cases, arith, leb,
}
use pkc_js.LocalForageLru.{
  Database, Lru, choose_active, make_place, update_databases, promote, get_item, set_item,
  remove_item, clear,
}
use pkc_js.LocalForageLru.Contract.{IsLawful}
use pkc_js.LocalForageLru.Operations.{
  Operation, read, write, removal, clearing, reopening, operate, run, kept_state, kept_read,
}

module _ {D V E : Type 0} (db : Database D V E) (quota : E → Bool) (max_size : ℕ)
    (lawful : IsLawful db) where
  -- The count of writes bounds the first database, and the size bounds both.
  pub record IsBounded (s : Lru D) : Type 0 where
    pub counted : db.length_of s.database1 ≤ s.database_size
    pub room : s.database_size < max_size
    pub second : db.length_of s.database2 ≤ max_size

  make_place-IsBounded :
      (s : Lru D) (written : D)
      → db.length_of written ≤ suc (db.length_of s.database1)
      → IsBounded s
      → IsBounded (make_place db quota max_size written s)
  unfolding make_place
  make_place-IsBounded s written grown h = elim (Bool-cases (leb max_size (suc s.database_size))) [
    | inl full ↦ rw full (record {
      counted = omega (arith, lawful.length-clear s.database2);
      room = omega (arith, h.room);
      second = omega (arith, grown, h.counted, h.room);
    })
    | inr roomy ↦ rw roomy (record {
      counted = omega (arith, grown, h.counted);
      room = ground (arith, roomy);
      second = h.second;
    })
  ]

  update_databases-IsBounded :
      (key : String) (value : Option V) (s : Lru D)
      → IsBounded s
      → IsBounded (kept_state db quota max_size s (update_databases db quota max_size key value s))
  unfolding update_databases
  update_databases-IsBounded key value s h =
      elim (Result-cases (db.set_item key value s.database1)) [
        | inl (written, w) ↦
            rw (update_databases, w)
              (make_place-IsBounded s written (lawful.length-set key value s.database1 written w) h)
        | inr (error, w) ↦ elim (Bool-cases (quota error)) [
          | inl q ↦ rw (update_databases, w) (rw q h)
          | inr q ↦ rw (update_databases, w) (rw q h)
        ]
      ]

  promoted :
      (value : Option V) (s : Lru D) (call : Result E (Lru D))
      → IsBounded (kept_state db quota max_size s call)
      → IsBounded (kept_read db quota max_size s (call >>= λ updated. ok (value, updated)))
  promoted value s (throw error) h = h
  promoted value s (ok after) h = h

  promote-IsBounded :
      (key : String) (value value2 : Option V) (s : Lru D)
      → IsBounded s
      → IsBounded (kept_read db quota max_size s (promote db quota max_size key value value2 s))
  unfolding promote
  promote-IsBounded key (some value) value2 s h = h
  promote-IsBounded key none none s h = h
  promote-IsBounded key none (some value) s h =
      promoted (some value) s (update_databases db quota max_size key (some value) s)
        (update_databases-IsBounded key (some value) s h)

  some_ne_none : {value : V} → some value ≡ none → ⊥
  some_ne_none e = cc

  set_item-IsBounded :
      (key : String) (value : Option V) (s : Lru D)
      → IsBounded s
      → IsBounded (kept_state db quota max_size s (set_item db quota max_size key value s))
  unfolding set_item
  set_item-IsBounded key value s h = elim (Option-cases (db.get_item key s.database1)) [
    | inl e ↦ rw (set_item, e) (update_databases-IsBounded key value s h)
    | inr (old, e) ↦ elim (Result-cases (db.set_item key value s.database1)) [
      | inl (written, w) ↦
          let there : db.get_item key s.database1 ≡ none → ⊥ = λ f. some_ne_none (sym e ∙ f) in
          rw (set_item, e)
            (rw w (record {
              counted =
                  omega (
                    arith,
                    h.counted,
                    lawful.length-overwrite key value s.database1 written there w,
                  );
              room = h.room;
              second = h.second;
            }))
      | inr (error, w) ↦ rw (set_item, e) (rw w h)
    ]
  ]

  -- One of two databases has room, and none is over the size.
  choose_active-IsBounded :
      (first second : D)
      → db.length_of first ≤ max_size
      → db.length_of second ≤ max_size
      → (db.length_of first < max_size) ⊎ (db.length_of second < max_size)
      → IsBounded (choose_active db max_size first second)
  unfolding choose_active
  choose_active-IsBounded first second h k either =
      let size1 : ℕ = db.length_of first in
      let size2 : ℕ = db.length_of second in
      elim (Bool-cases ((leb size2 size1 && not (size1 == max_size)) || size2 == max_size)) [
        | inl e ↦
            rw e
              (record { counted = omega arith; room = ground (arith, e, either, h, k); second = k })
        | inr e ↦
            rw e
              (record { counted = omega arith; room = ground (arith, e, either, h, k); second = h })
      ]

  operate-IsBounded :
      (operation : Operation V) (s : Lru D)
      → IsBounded s
      → IsBounded (operate db quota max_size operation s)
  unfolding operate get_item remove_item clear
  operate-IsBounded (read key) s h =
      promote-IsBounded key (db.get_item key s.database1) (db.get_item key s.database2) s h
  operate-IsBounded (write key value) s h = set_item-IsBounded key value s h
  operate-IsBounded (removal key) s h = record {
    counted = omega (arith, h.counted, lawful.length-remove key s.database1);
    room = h.room;
    second = omega (arith, h.second, lawful.length-remove key s.database2);
  }
  operate-IsBounded clearing s h = record {
    counted = omega (arith, lawful.length-clear s.database1);
    room = h.room;
    second = omega (arith, lawful.length-clear s.database2);
  }
  operate-IsBounded (reopening true) s h =
      choose_active-IsBounded s.database2 s.database1 h.second (omega (arith, h.counted, h.room))
        (inr (omega (arith, h.counted, h.room)))
  operate-IsBounded (reopening false) s h =
      choose_active-IsBounded s.database1 s.database2 (omega (arith, h.counted, h.room)) h.second
        (inl (omega (arith, h.counted, h.room)))

  -- Over reads, writes, removals, clearings and restarts, with writes that are rejected among them,
  -- the first database stays below the size and the second within it, and the count of the writes
  -- is never less than what the first database holds.
  pub run-IsBounded :
      (operations : List (Operation V)) (s : Lru D)
      → IsBounded s
      → IsBounded (run db quota max_size operations s)
  unfolding run
  run-IsBounded [] s h = h
  run-IsBounded (operation ∷ operations) s h =
      run-IsBounded operations (operate db quota max_size operation s)
        (operate-IsBounded operation s h)
