-- ===== src/Promotion/Vetting.antt =====
-- What the records of pkg/evolver/promotion.go went through, in any interleaving of calls.
use mathlib.Core.Path.{subst}
use uiauto_framework.Prelude.{
  ℕ, zero, suc, ◌<◌, ◌≡◌, refl, Bool, true, false, ◌&&◌, List, [], ◌∷◌, ◌++◌, String, Option, none,
  some, All, arith,
}
use uiauto_framework.Promotion.{
  PromotionStatus, pending, evaluated, approved, rejected, promoted, rolled_back, EvaluationResult,
  Mutation, PromotionPipelineConfig, PromotionMetrics, Cell, PromotionPipeline, cell_at, set_cell,
  Section, on_handle, on_record, submit_begin, judge, conclude, approving, rejecting, starting,
  saved, unsaved, undoing,
}
use uiauto_framework.Promotion.Sections.{Written, on_handle_keeps, on_record_keeps}

abbrev pub passed : Option EvaluationResult → Bool
passed none = false
passed (some e) = e.passes

abbrev pub dated : Option ℕ → Bool
dated none = false
dated (some t) = true

abbrev pub runs : Option Mutation → Bool
runs none = false
runs (some m) = true

abbrev pub early : PromotionStatus → Bool
early pending = true
early evaluated = false
early approved = false
early rejected = true
early promoted = false
early rolled_back = false

-- What a status claims of the evaluation and of the review.
abbrev pub claims : PromotionStatus → Bool → Bool → Bool
claims pending ok seen = true
claims evaluated ok seen = ok
claims approved ok seen = ok && seen
claims rejected ok seen = true
claims promoted ok seen = ok && seen
claims rolled_back ok seen = ok && seen

-- The status is earned, a record whose evaluation is running was neither approved nor promoted, and
-- one whose capsule is being saved was evaluated with success and reviewed.
pub record Vetted (c : Cell) : Type 0 where
  pub earned : claims c.rec.status (passed c.rec.evaluation) (dated c.rec.reviewed_at) ≡ true
  pub untouched : runs c.evaluating ≡ true → (early c.rec.status ≡ true) × (c.saving ≡ 0)
  pub reviewed : 0 < c.saving → (passed c.rec.evaluation ≡ true) × (dated c.rec.reviewed_at ≡ true)

-- A section that keeps what is vetted.
abbrev Keeps : Section → Type 0
Keeps f = (m n : PromotionMetrics) (c d : Cell) → f m c ≡ some (n, d) → Vetted c → Vetted d

pub approving-Keeps : (reviewer reason : String) (now : ℕ) → Keeps (approving reviewer reason now)
unfolding approving
approving-Keeps reviewer reason now m n c d e v = ground (arith, e, v)

pub rejecting-Keeps : (reviewer reason : String) (now : ℕ) → Keeps (rejecting reviewer reason now)
unfolding rejecting
rejecting-Keeps reviewer reason now m n c d e v = ground (arith, e, v)

pub starting-Keeps : Keeps starting
unfolding starting
starting-Keeps m n c d e v = ground (arith, e, v)

pub saved-Keeps : (capsule : String) (now : ℕ) → Keeps (saved capsule now)
unfolding saved
saved-Keeps capsule now m n c d e v = ground (arith, e, v)

pub unsaved-Keeps : Keeps unsaved
unfolding unsaved
unsaved-Keeps m n c d e v = ground (arith, e, v)

pub undoing-Keeps : (reason : String) (now : ℕ) → Keeps (undoing reason now)
unfolding undoing
undoing-Keeps reason now m n c d e v = ground (arith, e, v)

pub conclude-Keeps :
    (below : EvaluationResult → String) (cfg : PromotionPipelineConfig) (now : ℕ)
    (result : Option EvaluationResult)
    → Keeps (conclude below cfg now result)
unfolding conclude judge
conclude-Keeps below cfg now none m n c d e v = ground (arith, e, v)
conclude-Keeps below cfg now (some eval) m n c d e v = ground (arith, e, v)

set-Vetted :
    (h : ℕ) (d : Cell) (cs : List Cell) → Vetted d → All Vetted cs → All Vetted (set_cell h d cs)
unfolding set_cell
set-Vetted h d [] v vs = tt
set-Vetted zero d (c ∷ cs) v vs = (v, vs.1)
set-Vetted (suc h) d (c ∷ cs) v vs = (vs.0, set-Vetted h d cs v vs.1)

at-Vetted : (h : ℕ) (c : Cell) (cs : List Cell) → cell_at h cs ≡ some c → All Vetted cs → Vetted c
unfolding cell_at
at-Vetted h c [] e vs = absurd (ground (arith, e))
at-Vetted zero c (d ∷ cs) e vs = subst Vetted (same e) vs.0
  where
    same : some d ≡ some c → d ≡ c
    same e = cc e
at-Vetted (suc h) c (d ∷ cs) e vs = at-Vetted h c cs e vs.1

pub written-Vetted :
    (f : Section) (p : PromotionPipeline)
    → Keeps f
    → All Vetted p.heap
    → Written (λ q. All Vetted q.heap) f p
written-Vetted f p keep vs h m c d there done =
    set-Vetted h d p.heap (keep p.metrics m c d done (at-Vetted h c p.heap there vs)) vs

pub handle-Vetted :
    (h : ℕ) (f : Section) (p : PromotionPipeline)
    → Keeps f
    → All Vetted p.heap
    → All Vetted (on_handle h f p).0.heap
handle-Vetted h f p keep vs =
    on_handle_keeps (λ q. All Vetted q.heap) f p h vs (written-Vetted f p keep vs)

pub record-Vetted :
    (key : String) (f : Section) (p : PromotionPipeline)
    → Keeps f
    → All Vetted p.heap
    → All Vetted (on_record key f p).0.heap
record-Vetted key f p keep vs =
    on_record_keeps (λ q. All Vetted q.heap) f p key vs (written-Vetted f p keep vs)

append-All : (cs : List Cell) (d : Cell) → All Vetted cs → Vetted d → All Vetted (cs ++ (d ∷ []))
append-All [] d vs v = (v, tt)
append-All (c ∷ cs) d vs v = (vs.0, append-All cs d vs.1 v)

pub begin-Vetted :
    (mut : Mutation) (p : PromotionPipeline)
    → All Vetted p.heap
    → All Vetted (submit_begin mut p).heap
unfolding submit_begin
begin-Vetted mut p vs = append-All p.heap _ vs (record {
  earned = refl;
  untouched = λ e. (refl, refl);
  reviewed = λ h. absurd (omega (arith, h));
})
