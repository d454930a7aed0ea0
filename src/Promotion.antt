-- ===== src/Promotion.antt =====
-- pkg/evolver/promotion.go: the pipeline that takes a mutation from its evaluation to a capsule. The
-- records are shared by pointer, so a record is found by its handle, its index in `heap`, and the map
-- `records` gives the handle of a mutation's identifier. `Submit` and `Promote` release the lock in
-- the middle, and are two sections each; between them another call may come. What the evaluation and
-- the store answer, the clock and the text of a score are arguments.
mod Sections
mod Vetting
mod Runs
mod Counters
mod Tests
use uiauto_framework.Prelude.{
  ℕ, zero, suc, ◌+◌, ◌-◌, ◌≡◌, Bool, true, false, not, ◌&&◌, List, [], ◌∷◌, ◌++◌, String, Option,
  none, some, ltb, if◌then◌else◌, insert, lookup, length,
}

pub data PromotionStatus : Type 0 where
  pending evaluated approved rejected promoted rolled_back : PromotionStatus

pub data RiskLevel : Type 0 where
  low medium high critical : RiskLevel

-- The fields that the pipeline reads.
pub record EvaluationResult : Type 0 where
  pub score : ℕ
  pub max_score : ℕ
  pub passes : Bool

pub record Mutation : Type 0 where
  pub id : String
  pub risk_estimate : RiskLevel

pub record PromotionRecord : Type 0 where
  pub mutation_id : String
  pub capsule_id : String
  pub status : PromotionStatus
  pub evaluation : Option EvaluationResult
  pub reviewed_by : String
  pub reviewed_at : Option ℕ
  pub promoted_at : Option ℕ
  pub rolled_back_at : Option ℕ
  pub reason : String

pub record PromotionPipelineConfig : Type 0 where
  pub auto_promote_low_risk : Bool
  pub require_hitl : Bool

pub record PromotionMetrics : Type 0 where
  pub total_submitted : ℕ
  pub total_evaluated : ℕ
  pub total_approved : ℕ
  pub total_rejected : ℕ
  pub total_promoted : ℕ
  pub total_rolled_back : ℕ

-- A record, the `Submit` that still evaluates it, if any, and how many calls of `Promote` have found
-- it approved and now save its capsule.
pub record Cell : Type 0 where
  pub rec : PromotionRecord
  pub evaluating : Option Mutation
  pub saving : ℕ

pub record PromotionPipeline : Type 0 where
  pub cfg : PromotionPipelineConfig
  pub heap : List Cell
  pub records : List (String × ℕ)
  pub metrics : PromotionMetrics

pub data PromotionError : Type 0 where
  not_found wrong_state : PromotionError

unfoldable pub new_promotion_pipeline : PromotionPipelineConfig → PromotionPipeline
new_promotion_pipeline cfg = record {
  cfg = cfg;
  heap = [];
  records = [];
  metrics = record {
    total_submitted = 0;
    total_evaluated = 0;
    total_approved = 0;
    total_rejected = 0;
    total_promoted = 0;
    total_rolled_back = 0;
  };
}

pub cell_at : ℕ → List Cell → Option Cell
cell_at i [] = none
cell_at zero (c ∷ cs) = some c
cell_at (suc i) (c ∷ cs) = cell_at i cs

pub set_cell : ℕ → Cell → List Cell → List Cell
set_cell i d [] = []
set_cell zero d (c ∷ cs) = d ∷ cs
set_cell (suc i) d (c ∷ cs) = c ∷ set_cell i d cs

-- What a section does to a record and the counters, or nothing in the wrong state.
abbrev pub Section : Type 0
Section = PromotionMetrics → Cell → Option (PromotionMetrics × Cell)

pub finish :
    ℕ
    → PromotionPipeline
    → Option (PromotionMetrics × Cell)
    → PromotionPipeline × Option PromotionError
finish h p none = (p, some wrong_state)
finish h p (some (m, c)) = (record p { heap = set_cell h c p.heap; metrics = m }, none)

pub on_handle : ℕ → Section → PromotionPipeline → PromotionPipeline × Option PromotionError
on_handle h f p = elim (cell_at h p.heap) [
  | none ↦ (p, some not_found)
  | some c ↦ finish h p (f p.metrics c)
]

pub on_record : String → Section → PromotionPipeline → PromotionPipeline × Option PromotionError
on_record key f p = elim (lookup key p.records) [
  | none ↦ (p, some not_found)
  | some h ↦ on_handle h f p
]

-- `Submit`, first section: a new record takes the place of an earlier one of the same mutation.
pub submit_begin : Mutation → PromotionPipeline → PromotionPipeline
submit_begin mut p = record p {
  heap =
      p.heap
      ++ (record {
        rec = record {
          mutation_id = mut.id;
          capsule_id = "";
          status = pending;
          evaluation = none;
          reviewed_by = "";
          reviewed_at = none;
          promoted_at = none;
          rolled_back_at = none;
          reason = "";
        };
        evaluating = some mut;
        saving = 0;
      }
          ∷ []);
  records = insert mut.id (length p.heap) p.records;
  metrics = record p.metrics { total_submitted = p.metrics.total_submitted + 1 };
}

pub is_low : RiskLevel → Bool
is_low low = true
is_low medium = false
is_low high = false
is_low critical = false

-- The outcome of an evaluation that gave a result.
pub judge :
    (EvaluationResult → String)
    → PromotionPipelineConfig
    → ℕ
    → Mutation
    → EvaluationResult
    → PromotionMetrics
    → PromotionRecord
    → PromotionMetrics × PromotionRecord
judge below cfg now mut eval m rec =
    let n = record m { total_evaluated = m.total_evaluated + 1 } in
    if not eval.passes
    then (
      record n { total_rejected = m.total_rejected + 1 },
      record rec { evaluation = some eval; status = rejected; reason = below eval },
    )
    else if cfg.auto_promote_low_risk && is_low mut.risk_estimate && not cfg.require_hitl
    then (
      record n { total_approved = m.total_approved + 1 },
      record rec {
        evaluation = some eval;
        status = approved;
        reviewed_by = "auto_promote";
        reviewed_at = some now;
      },
    )
    else (n, record rec { evaluation = some eval; status = evaluated })

-- `Submit`, second section; without a result the evaluation failed.
pub conclude :
    (EvaluationResult → String) → PromotionPipelineConfig → ℕ → Option EvaluationResult → Section
conclude below cfg now none m c = elim c.evaluating [
  | none ↦ none
  | some mut ↦ some (m, record c { evaluating = none })
]
conclude below cfg now (some eval) m c = elim c.evaluating [
  | none ↦ none
  | some mut ↦
      let judged = judge below cfg now mut eval m c.rec in
      some (judged.0, record c { rec = judged.1; evaluating = none })
]

pub submit_end :
    (EvaluationResult → String)
    → ℕ
    → Option EvaluationResult
    → ℕ
    → PromotionPipeline
    → PromotionPipeline × Option PromotionError
submit_end below now result h p = on_handle h (conclude below p.cfg now result) p

pub approving : String → String → ℕ → Section
approving reviewer reason now m c = elim c.rec.status [
  | evaluated ↦ some (
    record m { total_approved = m.total_approved + 1 },
    record c {
      rec = record c.rec {
        status = approved;
        reviewed_by = reviewer;
        reviewed_at = some now;
        reason = reason;
      };
    },
  )
  | _ ↦ none
]

-- `Approve`
pub approve :
    String → String → String → ℕ → PromotionPipeline → PromotionPipeline × Option PromotionError
approve key reviewer reason now p = on_record key (approving reviewer reason now) p

pub rejecting : String → String → ℕ → Section
rejecting reviewer reason now m c = some (
  record m { total_rejected = m.total_rejected + 1 },
  record c {
    rec = record c.rec {
      status = rejected;
      reviewed_by = reviewer;
      reviewed_at = some now;
      reason = reason;
    };
  },
)

-- `Reject`, in any state.
pub reject :
    String → String → String → ℕ → PromotionPipeline → PromotionPipeline × Option PromotionError
reject key reviewer reason now p = on_record key (rejecting reviewer reason now) p

pub starting : Section
starting m c = elim c.rec.status [
  | approved ↦ some (m, record c { saving = c.saving + 1 })
  | _ ↦ none
]

-- `Promote`, first section.
pub promote_begin : String → PromotionPipeline → PromotionPipeline × Option PromotionError
promote_begin key p = on_record key starting p

pub saved : String → ℕ → Section
saved capsule now m c = elim c.saving [
  | zero ↦ none
  | suc n ↦ some (
    record m { total_promoted = m.total_promoted + 1 },
    record c {
      rec = record c.rec { capsule_id = capsule; status = promoted; promoted_at = some now };
      saving = c.saving - 1;
    },
  )
]

-- `Promote`, second section, for a capsule that was saved.
pub promote_end : String → ℕ → ℕ → PromotionPipeline → PromotionPipeline × Option PromotionError
promote_end capsule now h p = on_handle h (saved capsule now) p

pub unsaved : Section
unsaved m c = elim c.saving [ zero ↦ none | suc n ↦ some (m, record c { saving = c.saving - 1 }) ]

-- `Promote`, where the store failed.
pub promote_fail : ℕ → PromotionPipeline → PromotionPipeline × Option PromotionError
promote_fail h p = on_handle h unsaved p

pub undoing : String → ℕ → Section
undoing reason now m c = elim c.rec.status [
  | promoted ↦ some (
    record m { total_rolled_back = m.total_rolled_back + 1 },
    record c {
      rec = record c.rec { status = rolled_back; rolled_back_at = some now; reason = reason };
    },
  )
  | _ ↦ none
]

-- `Rollback`
pub rollback : String → String → ℕ → PromotionPipeline → PromotionPipeline × Option PromotionError
rollback key reason now p = on_record key (undoing reason now) p
