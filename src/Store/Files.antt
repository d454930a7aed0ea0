-- ===== src/Store/Files.antt =====
-- The JSON file store of pkg/uiauto/store/sqlite.go: what a call leaves in memory and on the disk.
use uiauto_framework.Prelude.{
  ℕ, ◌≡◌, ◌∙◌, ap, inl, inr, true, false, String, str_eq, Option, Option-cases, some, if◌then◌else◌,
  insert, lookup, lookup-insert, arith,
}
use uiauto_framework.Store.{
  Pattern, Patterns, Disk, JsonFileStore, new_json_file_store, write_file, save_to_disk, json_get,
  json_set, json_decay, json_boost,
}

-- What is read from an encoding finds under each key what was encoded there, in whatever order the
-- entries stand, and a write that succeeds leaves its text in the file.
pub record IsFaithful (disk : Disk) : Type 0 where
  pub read_back :
      (ps : Patterns) (text : String)
      → disk.encode ps ≡ some text
      → (qs : Patterns) × (disk.decode text ≡ some qs)
        × ((key : String) → lookup key qs ≡ lookup key ps)
  pub kept :
      (text : String) (old : Option String)
      → (disk.write text old).1 ≡ true
      → (disk.write text old).0 ≡ some text

-- The calls that change the store, and what they are.
pub data Change : Type 0 where
  setting : Pattern → Change
  decaying : ℕ → ℕ → (ℕ → ℕ) → Change
  boosting : String → ℕ → Change

module _ (disk : Disk) where
  unfoldable pub change : Change → JsonFileStore → JsonFileStore × Option String
  change (setting p) s = json_set disk p s
  change (decaying now age factor) s = json_decay disk now age factor s
  change (boosting key boost) s = json_boost disk key boost s

  save_patterns : (s : JsonFileStore) → (save_to_disk disk s).0.patterns ≡ s.patterns
  unfolding save_to_disk write_file
  save_patterns s = elim (Option-cases (disk.encode s.patterns)) [
    | inl bad ↦ rw bad (ground arith)
    | inr (text, ok) ↦ rw ok (ground arith)
  ]

  -- After a save, a new store reads the file, and finds under each key what the saved store has there.
  abbrev pub Reopens : JsonFileStore × Option String → Type 0
  Reopens r =
      (t : JsonFileStore) × (new_json_file_store disk false r.0.file ≡ some t)
      × (t.file ≡ r.0.file)
      × ((key : String) → (json_get disk key t).1 ≡ (json_get disk key r.0).1)

  -- A pattern that is set is found at once and the others as before, whether or not the file could be
  -- written.
  pub json_set-get :
      (p : Pattern) (s : JsonFileStore) (key : String)
      → (json_get disk key (json_set disk p s).0).1
        ≡ (if str_eq p.id key then some p else (json_get disk key s).1)
  unfolding json_get json_set
  json_set-get p s key =
      ap (lookup key) (save_patterns (record s { patterns = insert p.id p s.patterns }))
      ∙ lookup-insert p.id key p s.patterns
