-- ===== src/LimitedSet.antt =====
-- src/general-util/limited-set.ts: a set of bounded size that forgets its oldest value first.
use pkc_js.Base.{
  ℕ, suc, ◌+◌, ◌≤◌, ◌≡◌, ◌↔◌, refl, Bool, true, false, List, [], ◌∷◌, ◌++◌, length, leb, any,
  if◌then◌else◌, arith, max, ap, bit, Bool-cases, inl, inr, ◌⊎◌, subst,
}

-- `set` in the order of the JavaScript `Set`, and the list beside it that is refreshed.
pub record LimitedSet (A : Type 0) : Type 0 where
  pub max_size : ℕ
  pub members : List A
  pub insertion_order : List A

-- `eq` is the equality of the JavaScript `Set`.
module _ {A : Type 0} (eq : A → A → Bool) where
  -- `splice(indexOf(value), 1)`, and the removal from a `Set`.
  abbrev pub remove : A → List A → List A
  remove v [] = []
  remove v (x ∷ xs) = let rest = remove v xs in if eq x v then xs else x ∷ rest

  unfoldable pub has : A → LimitedSet A → Bool
  has v s = any (λ x. eq x v) s.members

  -- `insertionOrder.shift()` and the removal of what it returns.
  unfoldable pub forget_oldest : List A → LimitedSet A → LimitedSet A
  forget_oldest [] s = s
  forget_oldest (oldest ∷ rest) s = record s {
    members = remove oldest s.members;
    insertion_order = rest;
  }

  unfoldable pub make_room : LimitedSet A → LimitedSet A
  unfolding forget_oldest
  make_room s = if leb s.max_size (length s.members) then forget_oldest s.insertion_order s else s

  unfoldable pub add : A → LimitedSet A → LimitedSet A
  unfolding has make_room
  add v s =
      if has v s
      then record s { insertion_order = remove v s.insertion_order ++ v ∷ [] }
      else (let roomy = make_room s in
          record roomy {
            members = roomy.members ++ v ∷ [];
            insertion_order = roomy.insertion_order ++ v ∷ [];
          })

  unfoldable pub delete : A → LimitedSet A → LimitedSet A × Bool
  unfolding has
  delete v s =
      if has v s
      then (
        record s { members = remove v s.members; insertion_order = remove v s.insertion_order },
        true,
      )
      else (s, false)

  unfoldable pub clear : LimitedSet A → LimitedSet A
  clear s = record s { members = []; insertion_order = [] }

  unfoldable pub size : LimitedSet A → ℕ
  size s = length s.members

  abbrev pub count : A → List A → ℕ
  count v [] = 0
  count v (x ∷ xs) = bit (eq x v) + count v xs

  -- Both lists hold the same values, each of them once.
  pub record IsValid (s : LimitedSet A) : Type 0 where
    pub same_length : length s.members ≡ length s.insertion_order
    pub same_values : (v : A) → count v s.members ≡ count v s.insertion_order
    pub once : (v : A) → count v s.members ≤ 1

  -- The value is the first in the order of the insertions.
  abbrev pub IsOldest : A → List A → Type 0
  IsOldest w [] = ⊥
  IsOldest w (oldest ∷ rest) = oldest ≡ w

  -- The value that goes when `v` is new and the set is full.
  abbrev pub IsForgotten : A → A → LimitedSet A → Type 0
  IsForgotten v w s = (has v s ≡ false) × (s.max_size ≤ size s) × IsOldest w s.insertion_order

  module _ (lawful : (x y : A) → (eq x y ≡ true) ↔ (x ≡ y)) where
    count-append : (v w : A) (xs : List A) → count v (xs ++ w ∷ []) ≡ count v xs + bit (eq w v)
    count-append v w [] = ground arith
    count-append v w (x ∷ xs) = ground (arith, count-append v w xs)

    length-append : (w : A) (xs : List A) → length (xs ++ w ∷ []) ≡ suc (length xs)
    length-append w [] = refl
    length-append w (x ∷ xs) = ground (arith, length-append w xs)

    has-count : (v : A) (xs : List A) → (any (λ x. eq x v) xs ≡ true) ↔ (1 ≤ count v xs)
    has-count v [] = ground arith
    has-count v (x ∷ xs) = ground (arith, has-count v xs)

    count-remove :
        (v w : A) (xs : List A) → 1 ≤ count w xs → count v (remove w xs) + bit (eq w v) ≡ count v xs
    count-remove v w [] h = ground arith
    count-remove v w (x ∷ xs) h = elim (Bool-cases (eq x w)) [
      | inl e ↦ let same : eq x v ≡ eq w v = ap (λ z. eq z v) ((lawful x w).0 e) in ground arith
      | inr e ↦ ground (arith, count-remove v w xs)
    ]

    length-remove : (w : A) (xs : List A) → 1 ≤ count w xs → suc (length (remove w xs)) ≡ length xs
    length-remove w [] h = ground arith
    length-remove w (x ∷ xs) h = ground (arith, length-remove w xs)

    count-ne-zero : (v : A) (xs : List A) → 1 ≤ count v (v ∷ xs)
    count-ne-zero v xs = ground (arith, lawful v v)

    -- What making room keeps: no value is won, and a value is lost only from a full set.
    record IsRoomy (s t : LimitedSet A) : Type 0 where
      pub valid : IsValid t
      pub same_max : t.max_size ≡ s.max_size
      pub no_more : (v : A) → count v t.members ≤ count v s.members
      pub shorter : (length t.members ≡ 0) ⊎ (suc (length t.members) ≡ length s.members)

    forget_oldest-IsRoomy :
        (order : List A) (s : LimitedSet A)
        → s.insertion_order ≡ order
        → IsValid s
        → IsRoomy s (forget_oldest order s)
    unfolding forget_oldest
    forget_oldest-IsRoomy [] s e h = record {
      valid = h;
      same_max = refl;
      no_more = λ v. omega arith;
      shorter = let empty = ap length e in inl (omega (arith, h.same_length));
    }
    forget_oldest-IsRoomy (o ∷ rest) s e h =
        let there : 1 ≤ count o s.members =
          omega (arith, h.same_values o, ap (count o) e, count-ne-zero o rest) in
        let cut = length-remove o s.members there in
        record {
          valid = record {
            same_length = omega (arith, h.same_length, ap length e, cut);
            same_values = λ v.
                omega (arith, h.same_values v, ap (count v) e, count-remove v o s.members there);
            once = λ v. omega (arith, h.once v, count-remove v o s.members there);
          };
          same_max = refl;
          no_more = λ v. omega (arith, count-remove v o s.members there);
          shorter = inr cut;
        }

    make_room-IsValid : (s : LimitedSet A) → IsValid s → IsValid (make_room s)
    unfolding make_room
    make_room-IsValid s h = elim (Bool-cases (leb s.max_size (length s.members))) [
      | inl full ↦ rw full (IsRoomy.valid (forget_oldest-IsRoomy s.insertion_order s refl h))
      | inr roomy ↦ rw roomy h
    ]

    make_room-length :
        (s : LimitedSet A)
        → IsValid s
        → length s.members ≤ max 1 s.max_size
        → suc (length (LimitedSet.members (make_room s))) ≤ max 1 s.max_size
    unfolding make_room
    make_room-length s h bound = elim (Bool-cases (leb s.max_size (length s.members))) [
      | inl full ↦
          let shorter = IsRoomy.shorter (forget_oldest-IsRoomy s.insertion_order s refl h) in
          rw full (ground (arith, shorter, bound))
      | inr roomy ↦ rw roomy (ground arith)
    ]

    make_room-count :
        (v : A) (s : LimitedSet A)
        → IsValid s
        → count v (LimitedSet.members (make_room s)) ≤ count v s.members
    unfolding make_room
    make_room-count v s h = elim (Bool-cases (leb s.max_size (length s.members))) [
      | inl full ↦ rw full (IsRoomy.no_more (forget_oldest-IsRoomy s.insertion_order s refl h) v)
      | inr roomy ↦ rw roomy (omega arith)
    ]

    once_more :
        (v : A) (s : LimitedSet A)
        → IsValid s
        → any (λ x. eq x v) s.members ≡ false
        → (w : A) → count w (LimitedSet.members (make_room s) ++ v ∷ []) ≤ 1
    once_more v s h new w =
        let t : LimitedSet A = make_room s in
        let kept = IsValid.once (make_room-IsValid s h) w in
        let none_before = has-count v s.members in
        let grown = count-append w v t.members in
        let fewer = make_room-count w s h in
        elim (Bool-cases (eq v w)) [
          | inl e ↦
              let same : count v s.members ≡ count w s.members =
                ap (λ z. count z s.members) ((lawful v w).0 e) in
              ground (arith, none_before, same, grown, fewer)
          | inr e ↦ ground (arith, grown, kept)
        ]

    -- Adding a value keeps the set and the list beside it in step: they hold the same values, each of
    -- them once.
    pub add-IsValid : (v : A) (s : LimitedSet A) → IsValid s → IsValid (add v s)
    unfolding add
    add-IsValid v s h = elim (Bool-cases (any (λ x. eq x v) s.members)) [
      | inl there ↦
          let listed : 1 ≤ count v s.insertion_order =
            omega (arith, (has-count v s.members).0 there, h.same_values v) in
          rw there (record {
            same_length = omega (
              arith,
              h.same_length,
              length-append v (remove v s.insertion_order),
              length-remove v s.insertion_order listed,
            );
            same_values = λ w. omega (
              arith,
              h.same_values w,
              count-append w v (remove v s.insertion_order),
              count-remove w v s.insertion_order listed,
            );
            once = h.once;
          })
      | inr new ↦
          let t : LimitedSet A = make_room s in
          let kept = make_room-IsValid s h in
          rw new (record {
            same_length = omega (
              arith,
              kept.same_length,
              length-append v t.members,
              length-append v t.insertion_order,
            );
            same_values = λ w. omega (
              arith,
              kept.same_values w,
              count-append w v t.members,
              count-append w v t.insertion_order,
            );
            once = λ w. once_more v s h new w;
          })
    ]

    forget_oldest-count :
        (w : A) (order : List A) (s : LimitedSet A)
        → s.insertion_order ≡ order
        → IsValid s
        → (1 ≤ count w (LimitedSet.members (forget_oldest order s)))
          ↔ ((1 ≤ count w s.members) × (¬ IsOldest w order))
    unfolding forget_oldest
    forget_oldest-count w [] s e h = ((λ there. (there, λ wrong. wrong)), λ (there, _). there)
    forget_oldest-count w (o ∷ rest) s e h =
        let there : 1 ≤ count o s.members =
          omega (arith, h.same_values o, ap (count o) e, count-ne-zero o rest) in
        let cut = count-remove w o s.members there in
        let alone = h.once w in
        (
          (λ left. (
            omega (arith, cut, left),
            λ oldest. let same = (lawful o w).1 oldest in ground (arith, same, cut, left, alone),
          )),
          λ (before, newer). elim (Bool-cases (eq o w)) [
            | inl same ↦ absurd (newer ((lawful o w).0 same))
            | inr other ↦ ground (arith, other, cut, before)
          ],
        )

    make_room-kept :
        (v w : A) (s : LimitedSet A)
        → IsValid s
        → has v s ≡ false
        → (1 ≤ count w (LimitedSet.members (make_room s)))
          ↔ ((has w s ≡ true) × (¬ IsForgotten v w s))
    unfolding make_room has size
    make_room-kept v w s h new =
        let found = has-count w s.members in
        elim (Bool-cases (leb s.max_size (length s.members))) [
          | inl full ↦
              let kept = forget_oldest-count w s.insertion_order s refl h in
              rw full (
                (λ left. (found.1 (kept.0 left).0, λ (_, _, oldest). (kept.0 left).1 oldest)),
                λ (before, stays).
                    kept.1 (found.0 before, λ oldest. stays (new, ground (arith, full), oldest)),
              )
          | inr roomy ↦ rw roomy (
            (λ left. (found.1 left, λ (_, full, _). ground (arith, full, roomy))),
            λ (before, _). found.0 before,
          )
        ]

    -- After a value was added, the set has it and the values that it had before, save one: where the
    -- value is new and the set is full, the first in the order of the insertions is gone. The added
    -- value is the last in that order, and a size within the maximum, or within 1 if that is 0,
    -- stays so.
    pub add-bounded :
        (v w : A) (s : LimitedSet A)
        → IsValid s
        → size s ≤ max 1 s.max_size
        → ((has w (add v s) ≡ true) ↔ ((v ≡ w) ⊎ ((has w s ≡ true) × (¬ IsForgotten v w s))))
          × ((older : List A) × (LimitedSet.insertion_order (add v s) ≡ older ++ v ∷ []))
          × (size (add v s) ≤ max 1 s.max_size)
    unfolding add size has
    add-bounded v w s h bound = elim (Bool-cases (any (λ x. eq x v) s.members)) [
      | inl there ↦ rw there (
        (
          (λ before. inr (before, λ (new, _, _). ground (arith, there, new))),
          λ which. elim which [
            | inl same ↦ subst (λ z. any (λ x. eq x z) s.members ≡ true) same there
            | inr (before, _) ↦ before
          ],
        ),
        (remove v s.insertion_order, refl),
        bound,
      )
      | inr new ↦
          let t : LimitedSet A = make_room s in
          let grown = count-append w v t.members in
          let same = lawful v w in
          let kept = make_room-kept v w s h new in
          let found = has-count w (t.members ++ v ∷ []) in
          let room = make_room-length s h bound in
          rw new (
            (
              (λ now. elim (Bool-cases (eq v w)) [
                | inl e ↦ inl (same.0 e)
                | inr e ↦
                    let (before, stays) = kept.0 (ground (arith, found.0 now, grown, e)) in
                    inr (before, λ (_, full, oldest). stays (new, full, oldest))
              ]),
              λ which. elim which [
                | inl e ↦ found.1 (ground (arith, grown, same.1 e))
                | inr (before, stays) ↦
                    let left = kept.1 (before, λ (_, full, oldest). stays (refl, full, oldest)) in
                    found.1 (omega (arith, grown, left))
              ],
            ),
            (t.insertion_order, refl),
            omega (arith, length-append v t.members, room),
          )
    ]

    -- After a deletion the set and the list beside it are in step, and the value is not in the set,
    -- whether it was before or not.
    pub delete-IsValid :
        (v : A) (s : LimitedSet A)
        → IsValid s
        → IsValid (delete v s).0 × (has v (delete v s).0 ≡ false)
    unfolding delete
    delete-IsValid v s h = elim (Bool-cases (any (λ x. eq x v) s.members)) [
      | inr absent ↦ rw absent (h, absent)
      | inl there ↦
          let listed : 1 ≤ count v s.members = (has-count v s.members).0 there in
          let queued : 1 ≤ count v s.insertion_order = omega (arith, listed, h.same_values v) in
          let gone = count-remove v v s.members listed in
          let self = lawful v v in
          let absent = has-count v (remove v s.members) in
          rw there (
            record {
              same_length = omega (
                arith,
                h.same_length,
                length-remove v s.members listed,
                length-remove v s.insertion_order queued,
              );
              same_values = λ w. omega (
                arith,
                h.same_values w,
                count-remove w v s.members listed,
                count-remove w v s.insertion_order queued,
              );
              once = λ w. omega (arith, h.once w, count-remove w v s.members listed);
            },
            ground (arith, gone, self, absent, h.once v),
          )
    ]
