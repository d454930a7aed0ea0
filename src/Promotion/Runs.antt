-- ===== src/Promotion/Runs.antt =====
-- The interleavings of the calls of pkg/evolver/promotion.go.
use uiauto_framework.Prelude.{ℕ, String, Option, All}
use uiauto_framework.Promotion.{
  EvaluationResult, Mutation, PromotionPipelineConfig, PromotionPipeline, new_promotion_pipeline,
  submit_begin, submit_end, approve, reject, promote_begin, promote_end, promote_fail, rollback,
}
use uiauto_framework.Promotion.Vetting.{
  Vetted, begin-Vetted, handle-Vetted, record-Vetted, conclude-Keeps, approving-Keeps,
  rejecting-Keeps, starting-Keeps, saved-Keeps, unsaved-Keeps, undoing-Keeps,
}

-- One section of one call; the second sections name the record by its handle.
pub data Event : Type 0 where
  begins : Mutation → Event
  ends : ℕ → Option EvaluationResult → ℕ → Event
  approves rejects : String → String → String → ℕ → Event
  starts : String → Event
  saves : String → ℕ → ℕ → Event
  fails : ℕ → Event
  rolls_back : String → String → ℕ → Event

unfoldable pub after : (EvaluationResult → String) → Event → PromotionPipeline → PromotionPipeline
after below (begins mut) p = submit_begin mut p
after below (ends now result h) p = (submit_end below now result h p).0
after below (approves key reviewer reason now) p = (approve key reviewer reason now p).0
after below (rejects key reviewer reason now) p = (reject key reviewer reason now p).0
after below (starts key) p = (promote_begin key p).0
after below (saves capsule now h) p = (promote_end capsule now h p).0
after below (fails h) p = (promote_fail h p).0
after below (rolls_back key reason now) p = (rollback key reason now p).0

-- The pipelines that a new one can become.
pub data Reachable (below : EvaluationResult → String) : PromotionPipeline → Type 0 where
  fresh : (cfg : PromotionPipelineConfig) → Reachable below (new_promotion_pipeline cfg)
  next : {p : PromotionPipeline} (e : Event) → Reachable below p → Reachable below (after below e p)

after-Vetted :
    (below : EvaluationResult → String) (e : Event) (p : PromotionPipeline)
    → All Vetted p.heap
    → All Vetted (after below e p).heap
unfolding after submit_end approve reject promote_begin promote_end promote_fail rollback
after-Vetted below (begins mut) p vs = begin-Vetted mut p vs
after-Vetted below (ends now result h) p vs =
    handle-Vetted h _ p (conclude-Keeps below p.cfg now result) vs
after-Vetted below (approves key reviewer reason now) p vs =
    record-Vetted key _ p (approving-Keeps reviewer reason now) vs
after-Vetted below (rejects key reviewer reason now) p vs =
    record-Vetted key _ p (rejecting-Keeps reviewer reason now) vs
after-Vetted below (starts key) p vs = record-Vetted key _ p starting-Keeps vs
after-Vetted below (saves capsule now h) p vs = handle-Vetted h _ p (saved-Keeps capsule now) vs
after-Vetted below (fails h) p vs = handle-Vetted h _ p unsaved-Keeps vs
after-Vetted below (rolls_back key reason now) p vs =
    record-Vetted key _ p (undoing-Keeps reason now) vs

-- In every interleaving of the sections of any calls, a record that is evaluated, approved, promoted or
-- rolled back has an evaluation that passed, and all but an evaluated one have a review's date; a
-- record whose evaluation still runs is pending or rejected and no call saves its capsule; and one
-- whose capsule is being saved has passed its evaluation and was reviewed.
pub reachable-Vetted :
    (below : EvaluationResult → String) (p : PromotionPipeline)
    → Reachable below p
    → All Vetted p.heap
unfolding new_promotion_pipeline
reachable-Vetted below _ (fresh cfg) = tt
reachable-Vetted below _ (next {p} e r) = after-Vetted below e p (reachable-Vetted below p r)
