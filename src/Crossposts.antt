-- ===== src/Crossposts.antt =====
-- src/publications/comment/crosspost-depth.ts: how deep a crosspost chain is, on raw JSON.
use pkc_js.Base.{
  ℕ, zero, suc, ◌+◌, ◌≤◌, min, ◌≡◌, ◌↔◌, String, Bool, true, false, Option, none, some, arith,
  if◌then◌else◌,
}
use pkc_js.Json.{Json, arr, obj, find}

abbrev pub max_crosspost_depth : ℕ
max_crosspost_depth = 10

-- `_isObject`; an array is an object too.
abbrev pub is_object : Option Json → Bool
is_object (some (arr _)) = true
is_object (some (obj _)) = true
is_object _ = false

-- `_prop`; the keys that are read are no keys of an array.
unfoldable pub prop : Option Json → String → Option Json
prop (some (obj fields)) key = find key fields
prop _ key = none

abbrev pub next_level : Option Json → Option Json
next_level level = prop (prop level "comment") "crosspost"

-- The `while` loop, with the rounds that `depth < stopAt` leaves it.
unfoldable pub walk_chain : ℕ → ℕ → Option Json → ℕ
walk_chain zero depth level = depth
walk_chain (suc rounds) depth level =
    let deeper = walk_chain rounds (depth + 1) (next_level level) in
    if is_object level then deeper else depth

-- `crosspostChainDepthUpTo`
unfoldable pub crosspost_chain_depth_up_to : Option Json → ℕ → ℕ
unfolding walk_chain
crosspost_chain_depth_up_to record_json stop_at =
    walk_chain stop_at 0 (prop record_json "crosspost")

-- A number as the feature may hold one; `other` is negative or no integer.
pub data Number : Type 0 where
  natural : ℕ → Number
  other : Number

-- `effectiveMaxCrosspostDepth`
unfoldable pub effective_max_crosspost_depth : Option Number → ℕ
effective_max_crosspost_depth (some (natural n)) = min n max_crosspost_depth
effective_max_crosspost_depth _ = max_crosspost_depth

-- The chain that starts at a level embeds at least `n` records.
abbrev pub Embeds : ℕ → Option Json → Type 0
Embeds zero level = Unit
Embeds (suc n) level = (is_object level ≡ true) × Embeds n (next_level level)

walk_chain_bounds :
    (rounds depth : ℕ) (level : Option Json)
    → (depth ≤ walk_chain rounds depth level) × (walk_chain rounds depth level ≤ depth + rounds)
unfolding walk_chain
walk_chain_bounds zero depth level = omega arith
walk_chain_bounds (suc rounds) depth level =
    ground (arith, walk_chain_bounds rounds (depth + 1) (next_level level))

walk_chain-Embeds :
    (n rounds depth : ℕ) (level : Option Json)
    → n ≤ rounds
    → (depth + n ≤ walk_chain rounds depth level) ↔ Embeds n level
unfolding walk_chain
walk_chain-Embeds zero rounds depth level h =
    ((λ _. tt), λ _. omega (arith, walk_chain_bounds rounds depth level))
walk_chain-Embeds (suc n) zero depth level h = absurd (omega arith)
walk_chain-Embeds (suc n) (suc rounds) depth level h = ground (
  arith,
  walk_chain-Embeds n rounds (depth + 1) (next_level level) (omega arith),
  walk_chain_bounds rounds (depth + 1) (next_level level),
)

-- The computed depth never exceeds `stop_at`, and up to there it is exact: it is at least `n`
-- just when the record's chain embeds at least `n` records.
pub crosspost_chain_depth_exact :
    (record_json : Option Json) (stop_at n : ℕ)
    → n ≤ stop_at
    → (crosspost_chain_depth_up_to record_json stop_at ≤ stop_at)
      × ((n ≤ crosspost_chain_depth_up_to record_json stop_at)
          ↔ Embeds n (prop record_json "crosspost"))
unfolding crosspost_chain_depth_up_to
crosspost_chain_depth_exact record_json stop_at n h =
    let level = prop record_json "crosspost" in
    let (to, from) = walk_chain-Embeds n stop_at 0 level h in
    (
      omega (arith, walk_chain_bounds stop_at 0 level),
      ((λ k. to (omega arith)), λ e. omega (arith, from e)),
    )
