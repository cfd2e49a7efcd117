-- ===== src/Base/Texts.antt =====
-- Texts as the source tests them: an optional text is truthy when it is there and not empty, and
-- `includes` compares whole texts.
use Prim.Native.String.{String}
use mathlib.Core.Path.{◌≡◌}
use mathlib.Core.Logic.{◌↔◌}
use mathlib.Core.Bool.{Bool, true, false, not}
use mathlib.Core.List.{List, [], ◌∷◌}
use mathlib.Core.Option.{Option, none, some}
use native.Mathlib.Omega.{arith}
use text.Mathlib.Text.{◌==◌}
use text.Mathlib.TextEquality.{eq_iff}
use pkc_js.Base.Lists.{Any, any}

abbrev pub str_eq : String → String → Bool
str_eq s t = s == t

-- `Boolean(s)` for an optional text.
abbrev pub truthy : Option String → Bool
truthy none = false
truthy (some s) = not (s == "")

-- `a === b` where either may be undefined.
abbrev pub same_text : Option String → Option String → Bool
same_text none none = true
same_text (some s) (some t) = s == t
same_text _ _ = false

abbrev pub includes : List String → String → Bool
includes xs s = any (λ x. x == s) xs

pub includes_sound : (xs : List String) (s : String) → includes xs s ≡ true → Any (λ x. x ≡ s) xs
includes_sound [] s h = cc
includes_sound (x ∷ xs) s h = ground (arith, eq_iff x s, includes_sound xs s)

pub includes_complete : (xs : List String) (s : String) → Any (λ x. x ≡ s) xs → includes xs s ≡ true
includes_complete [] s h = absurd h
includes_complete (x ∷ xs) s h = ground (arith, eq_iff x s, includes_complete xs s)

pub same_text_iff : (a b : Option String) → (same_text a b ≡ true) ↔ (a ≡ b)
same_text_iff none none = ground arith
same_text_iff none (some t) = ground arith
same_text_iff (some s) none = ground arith
same_text_iff (some s) (some t) = ground (arith, eq_iff s t)
