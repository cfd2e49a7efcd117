-- ===== src/Validation/Passing.antt =====
-- When a chain of checks passes.
use pkc_js.Base.{◌≡◌, ◌≢◌, refl, ◌↔◌, Bool, true, false, arith, subst, Option, none, some}
use pkc_js.Messages.{Message}
use pkc_js.Excludes.{MatchOutcome, matched, unmatched}
use pkc_js.Validation.{CommentRow, on_stored, Check, pass, reject, crash, ◌>>◌, reject_if}
use pkc_js.Validation.Parents.{require_match}

pub >>-eq-pass : (a b : Check) → (a >> b ≡ pass) ↔ ((a ≡ pass) × (b ≡ pass))
>>-eq-pass pass b = ground arith
>>-eq-pass (reject m) b = ground arith
>>-eq-pass crash b = ground arith

pub reject_if-eq-pass : (b : Bool) (m : Message) → (reject_if b m ≡ pass) ↔ (b ≡ false)
reject_if-eq-pass true m = ground arith
reject_if-eq-pass false m = ground arith

pub require_match-eq-pass :
    (o : MatchOutcome) (m : Message) → (require_match o m ≡ pass) ↔ (o ≡ matched)
require_match-eq-pass matched m = ground arith
require_match-eq-pass (unmatched f) m = elim f [ none ↦ ground arith | some _ ↦ ground arith ]

pub on_stored-eq-pass :
    (missing : Check) (k : CommentRow → Check) (P : CommentRow → Type 0)
    (stored : Option CommentRow)
    → missing ≢ pass
    → ((row : CommentRow) → (k row ≡ pass) ↔ P row)
    → (on_stored missing k stored ≡ pass) ↔ ((row : CommentRow) × (stored ≡ some row) × P row)
on_stored-eq-pass missing k P none h iff =
    ((λ e. absurd (h e)), λ (row, e, p). absurd (ground arith))
on_stored-eq-pass missing k P (some row) h iff = (
  (λ e. (row, refl, (iff row).0 e)),
  λ (other, e, p). let same : other ≡ row = ground arith in (iff row).1 (subst P same p),
)

pub >>-ne-crash : (a b : Check) → a ≢ crash → (a ≡ pass → b ≢ crash) → a >> b ≢ crash
>>-ne-crash pass b h k e = k refl e
>>-ne-crash (reject m) b h k e = ground arith
>>-ne-crash crash b h k e = h refl

pub reject_if-ne-crash : (b : Bool) (m : Message) → reject_if b m ≢ crash
reject_if-ne-crash true m = ground arith
reject_if-ne-crash false m = ground arith

pub require_match-ne-crash : (o : MatchOutcome) (m : Message) → require_match o m ≢ crash
require_match-ne-crash matched m = ground arith
require_match-ne-crash (unmatched none) m = ground arith
require_match-ne-crash (unmatched (some f)) m = ground arith

pub on_stored-ne-crash :
    (missing : Check) (k : CommentRow → Check) (stored : Option CommentRow)
    → missing ≢ crash
    → ((row : CommentRow) → k row ≢ crash)
    → on_stored missing k stored ≢ crash
on_stored-ne-crash missing k none h f = h
on_stored-ne-crash missing k (some row) h f = f row

pub >>reject-ne-crash :
    (a : Check) (b : Bool) (m : Message) → a ≢ crash → a >> reject_if b m ≢ crash
>>reject-ne-crash a b m h = >>-ne-crash a (reject_if b m) h (λ _. reject_if-ne-crash b m)
