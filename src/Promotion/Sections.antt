-- ===== src/Promotion/Sections.antt =====
-- What a section of pkg/evolver/promotion.go can do to the pipeline: nothing, or write its record.
use uiauto_framework.Prelude.{◌≡◌, inl, inr, ℕ, String, Option-cases, some, lookup}
use uiauto_framework.Promotion.{
  Cell, PromotionMetrics, PromotionPipeline, cell_at, set_cell, Section, finish, on_handle,
  on_record,
}

module _ (P : PromotionPipeline → Type 0) (f : Section) (p : PromotionPipeline) where
  -- The property holds where the section writes.
  abbrev pub Written : Type 0
  Written =
      (h : ℕ) (m : PromotionMetrics) (c d : Cell)
      → cell_at h p.heap ≡ some c
      → f p.metrics c ≡ some (m, d)
      → P (record p { heap = set_cell h d p.heap; metrics = m })

  pub on_handle_keeps : (h : ℕ) → P p → Written → P (on_handle h f p).0
  unfolding on_handle finish
  on_handle_keeps h base written = elim (Option-cases (cell_at h p.heap)) [
    | inl nowhere ↦ rw (nowhere, on_handle) base
    | inr (c, there) ↦ elim (Option-cases (f p.metrics c)) [
      | inl wrong ↦ rw (there, on_handle, wrong, finish) base
      | inr ((m, d), done) ↦ rw (there, on_handle, done, finish) (written h m c d there done)
    ]
  ]

  pub on_record_keeps : (key : String) → P p → Written → P (on_record key f p).0
  unfolding on_record
  on_record_keeps key base written = elim (Option-cases (lookup key p.records)) [
    | inl unknown ↦ rw (unknown, on_record) base
    | inr (h, known) ↦ rw (known, on_record) (on_handle_keeps h base written)
  ]
