-- ===== src/Exchanges/Effects.antt =====
-- What the steps of src/runtime/node/community/local-community/challenges.ts do to the locks and to the
-- phases of the handlers, without the other maps.
use pkc_js.Base.{
  ltb, ◌↔◌, zero, ℕ, suc, ◌<◌, ◌≡◌, ◌∙◌, inl, inr, refl, sym, ap, String, Bool, true, false, ◌&&◌,
  ◌==◌, Option, none, some, List, [], ◌∷◌, ◌++◌, length, get_or, set, get_or-set_self,
  get_or-set_ne, length-set, get_or_past, str_eq, lookup, if◌then◌else◌, arith, Bool-cases,
}
use pkc_js.Exchanges.{
  Exchanges, Handler, Phase, verifying, parsing, waiting, validating, deciding, asking, publishing,
  ended, no_handler, phase_at, set_phase, request_id_at,
}
use pkc_js.Exchanges.Steps.{is_ended}

-- Does a handler in the phase hold the lock of the signature?
abbrev pub holds : String → Phase → Bool
holds n (validating signature waited) = str_eq signature n
holds n (deciding signature) = str_eq signature n
holds n (asking signature) = str_eq signature n
holds n (publishing signature success) = str_eq signature n
holds n _ = false

-- Has a handler in the phase done with waiting for others?
abbrev pub is_past : Phase → Bool
is_past verifying = false
is_past parsing = false
is_past (waiting signature in_flight) = false
is_past _ = true

abbrev pub is_waiting : Phase → Bool
is_waiting (waiting signature in_flight) = true
is_waiting _ = false

abbrev pub lock_of : String → Exchanges → Option ℕ
lock_of signature s = lookup str_eq signature s.in_flight

-- One handler goes to the phase.
pub record Moves (i : ℕ) (new : Phase) (s t : Exchanges) : Type 0 where
  pub phases : (j : ℕ) → phase_at j t ≡ (if i == j then new else phase_at j s)
  pub in_range : i < length s.handlers
  pub same_length : length t.handlers ≡ length s.handlers

abbrev pub SameLocks : Exchanges → Exchanges → Type 0
SameLocks s t = (n : String) → lock_of n t ≡ lock_of n s

-- `orderly` is false where a handler stopped waiting for the lock, or where the community stopped.
pub data Effect (orderly : Bool) (s t : Exchanges) : Type 0 where
  quiet :
      ((j : ℕ) → phase_at j t ≡ phase_at j s)
      → length t.handlers ≡ length s.handlers
      → SameLocks s t
      → Effect orderly s t
  began :
      ((j : ℕ) → phase_at j t ≡ (if length s.handlers == j then verifying else phase_at j s))
      → length t.handlers ≡ suc (length s.handlers)
      → SameLocks s t
      → Effect orderly s t
  moved :
      (i : ℕ)
      → (new : Phase) → Moves i new s t
      → ((n : String) → holds n new ≡ holds n (phase_at i s))
      → (is_past (phase_at i s) ≡ true → is_past new ≡ true)
      → is_waiting new ≡ false
      → SameLocks s t
      → Effect orderly s t
  queued :
      (i : ℕ)
      → (signature : String) → (other : ℕ) → Moves i (waiting signature other) s t
      → is_past (phase_at i s) ≡ false
      → lock_of signature s ≡ some other
      → SameLocks s t
      → Effect orderly s t
  locked :
      (i : ℕ)
      → (signature : String) → (new : Phase) → Moves i new s t
      → is_past (phase_at i s) ≡ false
      → ((n : String) → holds n new ≡ str_eq signature n)
      → is_past new ≡ true
      → (orderly ≡ true → lock_of signature s ≡ none)
      → ((n : String) → lock_of n t ≡ (if str_eq signature n then some i else lock_of n s))
      → Effect orderly s t
  released :
      (i : ℕ)
      → (signature : String) → Moves i ended s t
      → ((n : String) → holds n (phase_at i s) ≡ str_eq signature n)
      → (own : Bool) → ((own ≡ true) ↔ (lock_of signature s ≡ some i))
      → ((n : String) → lock_of n t ≡ (if str_eq signature n && own then none else lock_of n s))
      → Effect orderly s t
  cleared :
      orderly ≡ false
      → ((j : ℕ) → phase_at j t ≡ phase_at j s)
      → length t.handlers ≡ length s.handlers
      → ((n : String) → lock_of n t ≡ none)
      → Effect orderly s t

pub is_running : (i : ℕ) (s : Exchanges) → is_ended (phase_at i s) ≡ false → i < length s.handlers
is_running i s h = elim (Bool-cases (ltb i (length s.handlers))) [
  | inl e ↦ ground (arith, e)
  | inr e ↦
      let outside : get_or s.handlers i no_handler ≡ no_handler =
        get_or_past s.handlers i no_handler (ground (arith, e)) in
      absurd (true_ne_false (ap (λ handler. is_ended (Handler.phase handler)) (sym outside) ∙ h))
]
  where
    true_ne_false : true ≡ false → ⊥
    true_ne_false e = cc

pub set_phase-Moves :
    (i : ℕ) (new : Phase) (s : Exchanges)
    → is_ended (phase_at i s) ≡ false
    → Moves i new s (set_phase i new s)
set_phase-Moves i new s h =
    let there : i < length s.handlers = is_running i s h in
    let changed : Handler = record { request_id = request_id_at i s; phase = new } in
    record {
      phases = λ j. elim (Bool-cases (i == j)) [
        | inl e ↦
            let same : i ≡ j = ground (arith, e) in
            rw e (
              sym (ap (λ k. Handler.phase (get_or (set s.handlers i changed) k no_handler)) same)
              ∙ ap Handler.phase (get_or-set_self s.handlers i changed no_handler there))
        | inr e ↦ rw e (
            ap Handler.phase (
              get_or-set_ne s.handlers i j changed no_handler
                (λ same. absurd (ground (arith, e, same)))))
      ];
      in_range = there;
      same_length = length-set s.handlers i changed;
    }

pub get_or-append :
    (xs : List Handler) (new : Handler) (j : ℕ)
    → Handler.phase (get_or (xs ++ new ∷ []) j no_handler)
      ≡ (if length xs == j then new.phase else Handler.phase (get_or xs j no_handler))
get_or-append [] new zero = refl
get_or-append [] new (suc j) = ground arith
get_or-append (x ∷ xs) new zero = ground arith
get_or-append (x ∷ xs) new (suc j) =
    let same : (length xs == j) ≡ (suc (length xs) == suc j) = ground arith in
    get_or-append xs new j
    ∙ ap (λ b. if b then new.phase else Handler.phase (get_or xs j no_handler)) same

-- The same where other maps changed before.
pub set_phase-Moves_after :
    (i : ℕ) (new : Phase) (s u : Exchanges)
    → u.handlers ≡ s.handlers
    → is_ended (phase_at i s) ≡ false
    → Moves i new s (set_phase i new u)
set_phase-Moves_after i new s u e h =
    let running : is_ended (phase_at i u) ≡ false =
      ap (λ hs. is_ended (Handler.phase (get_or hs i no_handler))) e ∙ h in
    let there = set_phase-Moves i new u running in
    record {
      phases = λ j.
          there.phases j
          ∙ ap (λ hs. if i == j then new else Handler.phase (get_or hs j no_handler)) e;
      in_range = omega (arith, there.in_range, ap length e);
      same_length = there.same_length ∙ ap length e;
    }
