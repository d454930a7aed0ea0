-- ===== src/Store/Tests.antt =====
-- The theorems about pkg/uiauto/store at a small store.
use native.Mathlib.Decide.{ℕ_discrete}
use text.Mathlib.TextEquality.{eq_iff}
use uiauto_framework.Prelude.{
  inl, inr, Bool-cases, ◌-◌, ◌≡◌, ◌||◌, str_eq, Bool, true, false, List, [], ◌∷◌, String, Option,
  none, some, if◌then◌else◌, arith,
}
use uiauto_framework.Store.{Pattern, Patterns, Disk, JsonFileStore, json_file_store}
use uiauto_framework.Store.Files.{setting}
use uiauto_framework.Store.Fallback.{FallbackStore, new_fallback_store, should_use_primary, get}
use uiauto_framework.Store.Fallback.Circuit.{Call, getting, loading, run, Sound, fallback-run-Sound}
use uiauto_framework.Store.Fallback.Circuit
use uiauto_framework.Store.Fallback.Mirror.{set_each, set_all, set_each_refines}

abbrev login : Pattern
login = record {
  id = "login";
  selector = "#login";
  description = "";
  fingerprint = "";
  last_seen = 5;
  confidence = 900_000;
  metadata = [];
}

abbrev logout : Pattern
logout = record login { id = "logout"; selector = "#logout" }

-- The two patterns as they were inserted, and in the order of their keys.
abbrev inserted : Patterns
inserted = ("logout", logout) ∷ ("login", login) ∷ []

abbrev sorted : Patterns
sorted = ("login", login) ∷ ("logout", logout) ∷ []

String-discrete : Discrete String
String-discrete s t = elim (Bool-cases (str_eq s t)) [
  | inl e ↦ yes ((eq_iff s t).0 e)
  | inr n ↦ no (λ e. ground (arith, n, (eq_iff s t).1 e))
]

Pattern-discrete : Discrete Pattern
Pattern-discrete = hlevel (ℕ_discrete, String-discrete)

Patterns-discrete : Discrete Patterns
Patterns-discrete = hlevel (Pattern-discrete, String-discrete)

abbrev same : Patterns → Patterns → Bool
same ps qs = elim (Patterns-discrete ps qs) [ yes e ↦ true | no n ↦ false ]

-- A disk whose encoding sorts the keys, knows the empty store and the one of the two patterns, and
-- takes every text.
encode_known : Patterns → Option String
encode_known ps =
    if same ps inserted || same ps sorted
    then some "login, logout"
    else if same ps []
    then some "{}"
    else none

decode_known : String → Option Patterns
decode_known text = if str_eq text "{}" then some [] else some sorted

abbrev disk : Disk
disk = record {
  encode = encode_known;
  decode = decode_known;
  write = λ text old. (some text, true);
}

text_of : Option String → String
text_of none = ""
text_of (some t) = t

abbrev empty_store : Bool → JsonFileStore
empty_store m = record { in_memory = m; patterns = []; file = none }

-- A store on the disk that holds the second pattern, and the change that inserts the first.
abbrev one_saved : JsonFileStore
one_saved = record { in_memory = false; patterns = ("logout", logout) ∷ []; file = none }

fallback-run-Sound_example : Sound (
    run
      (json_file_store disk)
      (json_file_store disk)
      (new_fallback_store (empty_store false) (empty_store true) 3 30)
      (Circuit.setting 1 login ∷ Circuit.setting 2 login ∷ loading 3 ∷ getting 40 "login" ∷ []))
fallback-run-Sound_example =
    fallback-run-Sound (json_file_store disk) (json_file_store disk) (empty_store false)
      (empty_store true) 3 30 (omega arith)
      (Circuit.setting 1 login ∷ Circuit.setting 2 login ∷ loading 3 ∷ getting 40 "login" ∷ [])

abbrev both : FallbackStore JsonFileStore JsonFileStore
both = new_fallback_store (empty_store false) (empty_store true) 1 30

set_each_refines_example :
    ((set_each
        (json_file_store disk)
        (json_file_store disk)
        ((1, login) ∷ (2, login) ∷ [])
        both).fallback
      ≡ set_all (json_file_store disk) ((1, login) ∷ (2, login) ∷ []) both.fallback)
    × ((get (json_file_store disk) (json_file_store disk) 3 "login" (
          set_each
            (json_file_store disk)
            (json_file_store disk)
            ((1, login) ∷ (2, login) ∷ [])
            both)).1
        ≡ (if (should_use_primary 3 (
              set_each
                (json_file_store disk)
                (json_file_store disk)
                ((1, login) ∷ (2, login) ∷ [])
                both)).1
            then ((json_file_store disk).get "login"
                (set_each
                  (json_file_store disk)
                  (json_file_store disk)
                  ((1, login) ∷ (2, login) ∷ [])
                  both).primary).1
            else ((json_file_store disk).get "login"
                (set_all (json_file_store disk) ((1, login) ∷ (2, login) ∷ []) both.fallback)).1))
set_each_refines_example =
    set_each_refines (json_file_store disk) (json_file_store disk) ((1, login) ∷ (2, login) ∷ [])
      both 3 "login"
