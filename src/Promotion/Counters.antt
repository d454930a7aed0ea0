-- ===== src/Promotion/Counters.antt =====
-- The counters of pkg/evolver/promotion.go against its records.
use mathlib.Core.Path.{subst}
use uiauto_framework.Prelude.{
  ℕ, zero, suc, ◌+◌, ◌≤◌, ◌≡◌, Bool, true, false, List, [], ◌∷◌, ◌++◌, String, Option, none, some,
  if◌then◌else◌, count_if, arith,
}
use uiauto_framework.Promotion.{
  PromotionStatus, pending, evaluated, approved, rejected, promoted, rolled_back, EvaluationResult,
  Mutation, PromotionPipelineConfig, PromotionMetrics, Cell, PromotionPipeline,
  new_promotion_pipeline, cell_at, set_cell, Section, on_handle, on_record, submit_begin, judge,
  conclude, submit_end, approving, approve, rejecting, reject, starting, promote_begin, saved,
  promote_end, unsaved, promote_fail, undoing, rollback,
}
use uiauto_framework.Promotion.Vetting.{runs}
use uiauto_framework.Promotion.Runs.{
  Event, begins, ends, approves, rejects, starts, saves, fails, rolls_back, after, Reachable, fresh,
  next,
}
use uiauto_framework.Promotion.Sections.{Written, on_handle_keeps, on_record_keeps}

abbrev pub is_promoted : PromotionStatus → Bool
is_promoted pending = false
is_promoted evaluated = false
is_promoted approved = false
is_promoted rejected = false
is_promoted promoted = true
is_promoted rolled_back = false

-- The numbers of promoted records and of records whose evaluation runs.
abbrev pub promoted_in : List Cell → ℕ
promoted_in cs = count_if (λ (c : Cell). is_promoted c.rec.status) cs

abbrev pub running_in : List Cell → ℕ
running_in cs = count_if (λ (c : Cell). runs c.evaluating) cs

pub record Balanced (p : PromotionPipeline) : Type 0 where
  pub undone : p.metrics.total_rolled_back + promoted_in p.heap ≤ p.metrics.total_promoted
  pub judged : p.metrics.total_evaluated + running_in p.heap ≤ p.metrics.total_submitted

abbrev one_if : Bool → ℕ
one_if b = if b then 1 else 0

-- A section whose counters follow the record.
record Follows (m n : PromotionMetrics) (c d : Cell) : Type 0 where
  undone :
      n.total_rolled_back + one_if (is_promoted d.rec.status) + m.total_promoted
      ≤ m.total_rolled_back + one_if (is_promoted c.rec.status) + n.total_promoted
  judged :
      n.total_evaluated + one_if (runs d.evaluating) + m.total_submitted
      ≤ m.total_evaluated + one_if (runs c.evaluating) + n.total_submitted

abbrev Counts : Section → Type 0
Counts f = (m n : PromotionMetrics) (c d : Cell) → f m c ≡ some (n, d) → Follows m n c d

approving-Counts : (reviewer reason : String) (now : ℕ) → Counts (approving reviewer reason now)
unfolding approving
approving-Counts reviewer reason now m n c d e = ground (arith, e)

rejecting-Counts : (reviewer reason : String) (now : ℕ) → Counts (rejecting reviewer reason now)
unfolding rejecting
rejecting-Counts reviewer reason now m n c d e = ground (arith, e)

starting-Counts : Counts starting
unfolding starting
starting-Counts m n c d e = ground (arith, e)

saved-Counts : (capsule : String) (now : ℕ) → Counts (saved capsule now)
unfolding saved
saved-Counts capsule now m n c d e = ground (arith, e)

unsaved-Counts : Counts unsaved
unfolding unsaved
unsaved-Counts m n c d e = ground (arith, e)

undoing-Counts : (reason : String) (now : ℕ) → Counts (undoing reason now)
unfolding undoing
undoing-Counts reason now m n c d e = ground (arith, e)

conclude-Counts :
    (below : EvaluationResult → String) (cfg : PromotionPipelineConfig) (now : ℕ)
    (result : Option EvaluationResult)
    → Counts (conclude below cfg now result)
unfolding conclude judge
conclude-Counts below cfg now none m n c d e = ground (arith, e)
conclude-Counts below cfg now (some eval) m n c d e = ground (arith, e)

count-set :
    (f : Cell → Bool) (h : ℕ) (c d : Cell) (cs : List Cell)
    → cell_at h cs ≡ some c
    → count_if f (set_cell h d cs) + one_if (f c) ≡ count_if f cs + one_if (f d)
unfolding set_cell cell_at
count-set f h c d [] e = absurd (ground (arith, e))
count-set f zero c d (x ∷ cs) e =
    subst (λ y. count_if f (d ∷ cs) + one_if (f y) ≡ count_if f (x ∷ cs) + one_if (f d)) (same e)
      (ground arith)
  where
    same : some x ≡ some c → x ≡ c
    same e = cc e
count-set f (suc h) c d (x ∷ cs) e = ground (arith, count-set f h c d cs e)

written-Balanced :
    (f : Section) (p : PromotionPipeline) → Counts f → Balanced p → Written Balanced f p
written-Balanced f p counts b h m c d there done =
    let follow = counts p.metrics m c d done in
    let u = count-set (λ x. is_promoted x.rec.status) h c d p.heap there in
    let r = count-set (λ x. runs x.evaluating) h c d p.heap there in
    record {
      undone = omega (arith, u, b.undone, follow.undone);
      judged = omega (arith, r, b.judged, follow.judged);
    }

handle-Balanced :
    (h : ℕ) (f : Section) (p : PromotionPipeline)
    → Counts f
    → Balanced p
    → Balanced (on_handle h f p).0
handle-Balanced h f p counts b = on_handle_keeps Balanced f p h b (written-Balanced f p counts b)

record-Balanced :
    (key : String) (f : Section) (p : PromotionPipeline)
    → Counts f
    → Balanced p
    → Balanced (on_record key f p).0
record-Balanced key f p counts b =
    on_record_keeps Balanced f p key b (written-Balanced f p counts b)

count-snoc :
    (f : Cell → Bool) (cs : List Cell) (d : Cell)
    → count_if f (cs ++ (d ∷ [])) ≡ count_if f cs + one_if (f d)
count-snoc f [] d = ground arith
count-snoc f (c ∷ cs) d = ground (arith, count-snoc f cs d)

begin-Balanced :
    (mut : Mutation) (p : PromotionPipeline) → Balanced p → Balanced (submit_begin mut p)
unfolding submit_begin
begin-Balanced mut p b = record {
  undone = omega (arith, count-snoc (λ x. is_promoted x.rec.status) p.heap _, b.undone);
  judged = omega (arith, count-snoc (λ x. runs x.evaluating) p.heap _, b.judged);
}

after-Balanced :
    (below : EvaluationResult → String) (e : Event) (p : PromotionPipeline)
    → Balanced p
    → Balanced (after below e p)
unfolding after submit_end approve reject promote_begin promote_end promote_fail rollback
after-Balanced below (begins mut) p b = begin-Balanced mut p b
after-Balanced below (ends now result h) p b =
    handle-Balanced h _ p (conclude-Counts below p.cfg now result) b
after-Balanced below (approves key reviewer reason now) p b =
    record-Balanced key _ p (approving-Counts reviewer reason now) b
after-Balanced below (rejects key reviewer reason now) p b =
    record-Balanced key _ p (rejecting-Counts reviewer reason now) b
after-Balanced below (starts key) p b = record-Balanced key _ p starting-Counts b
after-Balanced below (saves capsule now h) p b = handle-Balanced h _ p (saved-Counts capsule now) b
after-Balanced below (fails h) p b = handle-Balanced h _ p unsaved-Counts b
after-Balanced below (rolls_back key reason now) p b =
    record-Balanced key _ p (undoing-Counts reason now) b

-- In every interleaving, the rollbacks and the records that are promoted are together at most as many
-- as the promotions, and the evaluations that ended and those that run are at most the submissions.
pub reachable-Balanced :
    (below : EvaluationResult → String) (p : PromotionPipeline) → Reachable below p → Balanced p
unfolding new_promotion_pipeline
reachable-Balanced below _ (fresh cfg) = record { undone = omega arith; judged = omega arith }
reachable-Balanced below _ (next {p} e r) = after-Balanced below e p (reachable-Balanced below p r)
