-- ===== src/Exchanges/Phases.antt =====
-- The phases of the handlers of src/runtime/node/community/local-community/challenges.ts, told apart.
use pkc_js.Base.{
  ℕ, ◌<◌, ◌≡◌, ◌∙◌, ◌⊎◌, inl, inr, refl, sym, ap, String, Bool, true, false, ◌==◌, none, some,
  length, if◌then◌else◌, arith, Bool-cases,
}
use pkc_js.Exchanges.{
  Exchanges, Phase, verifying, parsing, waiting, validating, deciding, asking, publishing, ended,
  phase_at,
}
use pkc_js.Exchanges.Steps.{is_ended}
use pkc_js.Exchanges.Effects.{Moves, holds, is_past, is_waiting}

pub holds-is_past : (n : String) (phase : Phase) → holds n phase ≡ true → is_past phase ≡ true
holds-is_past n verifying h = cc
holds-is_past n parsing h = cc
holds-is_past n (waiting sig other) h = cc
holds-is_past n (validating sig waited) h = refl
holds-is_past n (deciding sig) h = refl
holds-is_past n (asking sig) h = refl
holds-is_past n (publishing sig success) h = refl
holds-is_past n ended h = refl

pub holds_not_ended : (n : String) (phase : Phase) → holds n phase ≡ true → is_ended phase ≡ false
holds_not_ended n verifying h = refl
holds_not_ended n parsing h = refl
holds_not_ended n (waiting sig other) h = refl
holds_not_ended n (validating sig waited) h = refl
holds_not_ended n (deciding sig) h = refl
holds_not_ended n (asking sig) h = refl
holds_not_ended n (publishing sig success) h = refl
holds_not_ended n ended h = cc

pub not_both : (b : Bool) → b ≡ true → b ≡ false → ⊥
not_both b e f = cc

pub waiting_not_past :
    (n : String) (other : ℕ) (phase : Phase) → phase ≡ waiting n other → is_past phase ≡ false
waiting_not_past n other phase e = ap is_past e

pub Moves-cases :
    (i j : ℕ) (new : Phase) (s t : Exchanges)
    → Moves i new s t
    → ((i ≡ j) × (phase_at j t ≡ new)) ⊎ ((i ≡ j → ⊥) × (phase_at j t ≡ phase_at j s))
Moves-cases i j new s t m = elim (Bool-cases (i == j)) [
  | inl e ↦ inl (ground (arith, e), m.phases j ∙ ap (λ b. if b then new else phase_at j s) e)
  | inr e ↦ inr (
    (λ same. absurd (ground (arith, e, same))),
    m.phases j ∙ ap (λ b. if b then new else phase_at j s) e,
  )
]

pub not_waiting :
    (new : Phase) → is_waiting new ≡ false → (n : String) (other : ℕ) → new ≡ waiting n other → ⊥
not_waiting new idle n other e = not_both true refl (ap is_waiting (sym e) ∙ idle)

pub past_not_waiting :
    (new : Phase) → is_past new ≡ true → (n : String) (other : ℕ) → new ≡ waiting n other → ⊥
past_not_waiting new past n other e = not_both true refl (sym past ∙ ap is_past e)

pub some_number : (i j : ℕ) → some i ≡ some j → i ≡ j
some_number i j e = cc

pub none_number : (j : ℕ) → none ≡ some j → ⊥
none_number j e = cc

pub verifying_not_waiting : (n : String) (other : ℕ) → verifying ≡ waiting n other → ⊥
verifying_not_waiting n other e = not_both true refl (ap is_waiting (sym e))

pub same_number : (a b : String) (i j : ℕ) → waiting a i ≡ waiting b j → i ≡ j
same_number a b i j e = cc

pub began_before :
    (j : ℕ) (s t : Exchanges)
    → ((k : ℕ) → phase_at k t ≡ (if length s.handlers == k then verifying else phase_at k s))
    → j < length s.handlers
    → phase_at j t ≡ phase_at j s
began_before j s t phases there =
    let differ : (length s.handlers == j) ≡ false = ground (arith, there) in
    phases j ∙ ap (λ b. if b then verifying else phase_at j s) differ

pub phase_of_self :
    (i j : ℕ) (new : Phase) (s t : Exchanges) → Moves i new s t → i ≡ j → phase_at j t ≡ new
phase_of_self i j new s t m alike =
    let same : (i == j) ≡ true = ground (arith, alike) in
    m.phases j ∙ ap (λ b. if b then new else phase_at j s) same
