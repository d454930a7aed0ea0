-- ===== src/Store.antt =====
-- pkg/uiauto/store/sqlite.go: the interface of a store of patterns, and the store that keeps them in
-- a JSON file. The encoding, the file system and the multiplication by a decay factor are arguments;
-- a confidence is a whole number of parts of `one_whole`.
mod Files
pub mod Fallback
mod Tests
use uiauto_framework.Prelude.{
  ℕ, ◌+◌, ◌-◌, ◌≤◌, ◌≡◌, ◌⊎◌, inl, inr, Bool, true, false, List, [], ◌∷◌, String, str_eq, Option,
  none, some, ltb, if◌then◌else◌, insert, lookup,
}

pub record Pattern : Type 0 where
  pub id : String
  pub selector : String
  pub description : String
  pub fingerprint : String
  pub last_seen : ℕ
  pub confidence : ℕ
  pub metadata : List (String × String)

abbrev pub one_whole : ℕ
one_whole = 1_000_000

abbrev pub Patterns : Type 0
Patterns = List (String × Pattern)

-- The operations on a store with states `S`; an error is its message, and the clock an argument.
pub record PatternStore (S : Type 0) : Type 0 where
  pub get : String → S → S × Option Pattern
  pub set : Pattern → S → S × Option String
  pub load : S → S × (String ⊎ Patterns)
  pub decay_confidence : ℕ → ℕ → (ℕ → ℕ) → S → S × Option String
  pub boost_confidence : String → ℕ → S → S × Option String

-- What the JSON library and the operating system do: `write` gives the new contents of the file and
-- whether it succeeded, `missing` means that there is no file.
pub record Disk : Type 0 where
  pub encode : Patterns → Option String
  pub decode : String → Option Patterns
  pub write : String → Option String → Option String × Bool

-- `patterns` is a Go map: only what a key finds in it counts, not the order of its entries.
pub record JsonFileStore : Type 0 where
  pub in_memory : Bool
  pub patterns : Patterns
  pub file : Option String

module _ (disk : Disk) where
  pub load_from_disk : Option String → Option Patterns
  load_from_disk none = some []
  load_from_disk (some text) = disk.decode text

  -- `NewJSONFileStore`: a missing file is an empty store, one that cannot be read an error.
  pub new_json_file_store : Bool → Option String → Option JsonFileStore
  new_json_file_store true file = some (record { in_memory = true; patterns = []; file = file })
  new_json_file_store false file = elim (load_from_disk file) [
    | none ↦ none
    | some ps ↦ some (record { in_memory = false; patterns = ps; file = file })
  ]

  unfoldable pub write_file : JsonFileStore → String → JsonFileStore × Option String
  write_file s text =
      let (file, ok) = disk.write text s.file in
      (record s { file = file }, if ok then none else some "write failed")

  unfoldable pub save_to_disk : JsonFileStore → JsonFileStore × Option String
  save_to_disk s = if s.in_memory then (s, none) else elim (disk.encode s.patterns) [
    | none ↦ (s, some "json store: marshal")
    | some text ↦ write_file s text
  ]

  pub json_get : String → JsonFileStore → JsonFileStore × Option Pattern
  json_get key s = (s, lookup key s.patterns)

  pub json_set : Pattern → JsonFileStore → JsonFileStore × Option String
  json_set p s = save_to_disk (record s { patterns = insert p.id p s.patterns })

  pub json_load : JsonFileStore → JsonFileStore × (String ⊎ Patterns)
  json_load s = (s, inr s.patterns)

  unfoldable pub decay_all : ℕ → (ℕ → ℕ) → Patterns → Patterns
  decay_all cutoff factor [] = []
  decay_all cutoff factor ((k, p) ∷ ps) =
      let rest = decay_all cutoff factor ps in
      if ltb p.last_seen cutoff
      then (k, record p { confidence = factor p.confidence }) ∷ rest
      else (k, p) ∷ rest

  unfoldable pub json_decay : ℕ → ℕ → (ℕ → ℕ) → JsonFileStore → JsonFileStore × Option String
  json_decay now older_than factor s =
      save_to_disk (record s { patterns = decay_all (now - older_than) factor s.patterns })

  pub capped : ℕ → ℕ
  capped c = if ltb one_whole c then one_whole else c

  pub json_boost : String → ℕ → JsonFileStore → JsonFileStore × Option String
  json_boost key boost s = elim (lookup key s.patterns) [
    | none ↦ (s, some "json store: pattern not found")
    | some p ↦ save_to_disk (record s {
      patterns = insert key (record p { confidence = capped (p.confidence + boost) }) s.patterns;
    })
  ]

  abbrev pub json_file_store : PatternStore JsonFileStore
  json_file_store = record {
    get = json_get;
    set = json_set;
    load = json_load;
    decay_confidence = json_decay;
    boost_confidence = json_boost;
  }
