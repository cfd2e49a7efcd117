-- ===== src/LocalForageLru/Operations.antt =====
-- Sequences of calls of src/runtime/browser/localforage-lru.ts, one after the other.
use pkc_js.Base.{
  ℕ, String, Bool, true, false, not, Option, List, [], ◌∷◌, Result, ok, throw, str_eq,
}
use pkc_js.LocalForageLru.{Database, Lru, choose_active, get_item, set_item, remove_item, clear}

-- The calls of the object, and the next start of the program, which opens the two databases again.
pub data Operation (V : Type 0) : Type 0 where
  read : (key : String) → Operation V
  write : (key : String) → (value : Option V) → Operation V
  removal : (key : String) → Operation V
  clearing : Operation V
  reopening : (swapped : Bool) → Operation V

-- Does the operation leave the value of the key to the cache?
abbrev pub spares : {V : Type 0} → String → Operation V → Bool
spares key (read other) = true
spares key (write other value) = not (str_eq other key)
spares key (removal other) = not (str_eq other key)
spares key clearing = false
spares key (reopening swapped) = false

module _ {D V E : Type 0} (db : Database D V E) (quota : E → Bool) (max_size : ℕ) where
  -- A call that throws has changed nothing.
  abbrev pub kept_state : Lru D → Result E (Lru D) → Lru D
  kept_state s (throw error) = s
  kept_state s (ok after) = after

  abbrev pub kept_read : Lru D → Result E (Option V × Lru D) → Lru D
  kept_read s (throw error) = s
  kept_read s (ok (found, after)) = after

  unfoldable pub operate : Operation V → Lru D → Lru D
  operate (read key) s = kept_read s (get_item db quota max_size key s)
  operate (write key value) s = kept_state s (set_item db quota max_size key value s)
  operate (removal key) s = remove_item db quota max_size key s
  operate clearing s = clear db quota max_size s
  operate (reopening true) s = choose_active db max_size s.database2 s.database1
  operate (reopening false) s = choose_active db max_size s.database1 s.database2

  unfoldable pub run : List (Operation V) → Lru D → Lru D
  unfolding operate
  run [] s = s
  run (operation ∷ operations) s = run operations (operate operation s)
