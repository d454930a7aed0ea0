-- ===== src/Breaker/Window.antt =====
-- The outcome window of pkg/uiauto/circuit_breaker.go: a ring that holds the latest outcomes.
use mathlib.Core.List.{append-nil, append_assoc}
use native.Mathlib.Nat.{mod-eq_of_lt}
use uiauto_framework.Prelude.{
  ℕ, zero, suc, ◌+◌, ◌%◌, false, sym, replicate, length-set, ◌<◌, ◌≤◌, ◌≡◌, refl, ap, ◌∙◌, Bool,
  not, List, [], ◌∷◌, ◌++◌, arith, ltb, if◌then◌else◌, length, set, take, count_if, length-append,
}
use uiauto_framework.Breaker.{window_failures, window_size_used, CircuitBreaker, push_outcome}

-- The latest outcomes, oldest first, after one more: at most `size` are kept.
abbrev pub drop_oldest : List Bool → List Bool
drop_oldest [] = []
drop_oldest (b ∷ bs) = bs

abbrev pub slide : ℕ → List Bool → Bool → List Bool
slide size recent b =
    if ltb (length recent) size then recent ++ b ∷ [] else drop_oldest recent ++ b ∷ []

-- A ring of outcomes, its write position and its count hold `recent`.
pub data Holds : List Bool → ℕ → ℕ → List Bool → Type 0 where
  filling :
      (xs : List Bool) (y : Bool) (ys : List Bool) {w : List Bool} {i p : ℕ}
      → w ≡ xs ++ (y ∷ ys)
      → i ≡ length xs
      → p ≡ length xs
      → Holds w i p xs
  full :
      (xs : List Bool) (y : Bool) (ys : List Bool) {w : List Bool} {i p : ℕ} {recent : List Bool}
      → w ≡ xs ++ (y ∷ ys)
      → i ≡ length xs
      → p ≡ length w
      → recent ≡ (y ∷ ys) ++ xs
      → Holds w i p recent

set-append :
    (xs : List Bool) (y : Bool) (ys : List Bool) (b : Bool)
    → set (xs ++ (y ∷ ys)) (length xs) b ≡ xs ++ (b ∷ ys)
set-append [] y ys b = refl
set-append (x ∷ xs) y ys b = ap (◌∷◌ x) (set-append xs y ys b)

take-append : (xs ys : List Bool) → take (length xs) (xs ++ ys) ≡ xs
take-append [] ys = refl
take-append (x ∷ xs) ys = ap (◌∷◌ x) (take-append xs ys)

take-length : (xs : List Bool) → take (length xs) xs ≡ xs
take-length [] = refl
take-length (x ∷ xs) = ap (◌∷◌ x) (take-length xs)

count_if-append :
    (p : Bool → Bool) (xs ys : List Bool) → count_if p (xs ++ ys) ≡ count_if p xs + count_if p ys
count_if-append p [] ys = omega arith
count_if-append p (x ∷ xs) ys = ground (arith, count_if-append p xs ys)

window_size_used-eq_of_le : (w : List Bool) (p : ℕ) → p ≤ length w → window_size_used w p ≡ p
unfolding window_size_used
window_size_used-eq_of_le w p h = ground arith

-- The failures that the loop counts are those among the outcomes held.
pub window_failures_lem :
    {w : List Bool} {i p : ℕ} {recent : List Bool}
    → Holds w i p recent
    → window_failures w p ≡ count_if not recent
unfolding window_failures
window_failures_lem (filling xs y ys {w} {i} {p} e hi hp) =
    let fits : p ≤ length w = omega (arith, ap length e, length-append xs (y ∷ ys)) in
    rw (window_size_used-eq_of_le w p fits, hp, e) (ap (count_if not) (take-append xs (y ∷ ys)))
window_failures_lem (full xs y ys {w} {i} {p} {recent} e hi hp hr) =
    rw (window_size_used-eq_of_le w p (omega arith), hp, take-length w, e, hr)
      (omega (arith, count_if-append not xs (y ∷ ys), count_if-append not (y ∷ ys) xs))

next_index : (i n : ℕ) → suc i < n → (i + 1) % n ≡ suc i
next_index i n h = grind (arith, mod-eq_of_lt)

wrap_index : (i n : ℕ) → suc i ≡ n → (i + 1) % n ≡ 0
wrap_index i n h = grind arith

slide_room :
    (n : ℕ) (recent : List Bool) (b : Bool)
    → length recent < n
    → slide n recent b ≡ recent ++ b ∷ []
slide_room n recent b h = ground arith

slide_full :
    (n : ℕ) (recent : List Bool) (b : Bool)
    → n ≤ length recent
    → slide n recent b ≡ drop_oldest recent ++ b ∷ []
slide_full n recent b h = ground arith

-- What one write does to a ring that is split at its write position.
module _ (xs : List Bool) (y : Bool) (ys : List Bool) (b : Bool) {w : List Bool} {i : ℕ}
    (e : w ≡ xs ++ (y ∷ ys)) (at : i ≡ length xs) where
  length_split : length w ≡ length xs + suc (length ys)
  length_split = omega (arith, ap length e, length-append xs (y ∷ ys))

  write_split : set w i b ≡ xs ++ (b ∷ ys)
  write_split = rw (e, at) (set-append xs y ys b)

  count_room : (p : ℕ) → p ≡ length xs → (if ltb p (length w) then p + 1 else p) ≡ suc (length xs)
  count_room p hp = ground (arith, length_split)

count_full : (p n : ℕ) → p ≡ n → (if ltb p n then p + 1 else p) ≡ n
count_full p n h = ground arith

-- A write into the last place wraps the ring round.
wrap-Holds :
    (xs : List Bool) (b : Bool) {w recent : List Bool} {i p : ℕ}
    → w ≡ xs ++ b ∷ []
    → i ≡ 0
    → p ≡ length w
    → recent ≡ xs ++ b ∷ []
    → Holds w i p recent
wrap-Holds [] b e hi hp hr = full [] b [] e hi hp hr
wrap-Holds (x ∷ xs) b e hi hp hr =
    full [] x (xs ++ b ∷ []) e hi hp (hr ∙ sym (append-nil ((x ∷ xs) ++ b ∷ [])))

-- One write into the ring is one slide of the outcomes held.
pub write-Holds :
    {w : List Bool} {i p : ℕ} {recent : List Bool} (b : Bool)
    → Holds w i p recent
    → Holds
        (set w i b)
        ((i + 1) % length w)
        (if ltb p (length w) then p + 1 else p)
        (slide (length w) recent b)
write-Holds b (filling xs y [] {w} {i} {p} e hi hp) =
    let len = length_split xs y [] b e hi in
    wrap-Holds xs b (write_split xs y [] b e hi) (wrap_index i (length w) (omega arith))
      (count_room xs y [] b e hi p hp ∙ omega (arith, length-set w i b))
      (slide_room (length w) xs b (omega arith))
write-Holds b (filling xs y (z ∷ ys) {w} {i} {p} e hi hp) =
    let len = length_split xs y (z ∷ ys) b e hi in
    rw (slide_room (length w) xs b (omega arith)) (
      filling (xs ++ b ∷ []) z ys
        (write_split xs y (z ∷ ys) b e hi ∙ sym (append_assoc xs (b ∷ []) (z ∷ ys)))
        (next_index i (length w) (omega arith) ∙ omega (arith, length-append xs (b ∷ [])))
        (count_room xs y (z ∷ ys) b e hi p hp ∙ omega (arith, length-append xs (b ∷ []))))
write-Holds b (full xs y [] {w} {i} {p} {recent} e hi hp hr) =
    let len = length_split xs y [] b e hi in
    wrap-Holds xs b (write_split xs y [] b e hi) (wrap_index i (length w) (omega arith))
      (count_full p (length w) hp ∙ omega (arith, length-set w i b))
      (slide_full (length w) recent b (omega (arith, ap length hr)) ∙ rw hr)
write-Holds b (full xs y (z ∷ ys) {w} {i} {p} {recent} e hi hp hr) =
    let len = length_split xs y (z ∷ ys) b e hi in
    full (xs ++ b ∷ []) z ys
      (write_split xs y (z ∷ ys) b e hi ∙ sym (append_assoc xs (b ∷ []) (z ∷ ys)))
      (next_index i (length w) (omega arith) ∙ omega (arith, length-append xs (b ∷ [])))
      (count_full p (length w) hp ∙ omega (arith, length-set w i b))
      (slide_full (length w) recent b (omega (arith, ap length hr, length-append (y ∷ z ∷ ys) xs))
        ∙ rw hr (append_assoc (z ∷ ys) xs (b ∷ [])))

pub fresh-Holds : (n : ℕ) → 0 < n → Holds (replicate n false) 0 0 []
fresh-Holds zero h = elim h [ ]
fresh-Holds (suc n) h = filling [] false (replicate n false) refl refl refl

push_all : CircuitBreaker → List Bool → CircuitBreaker
push_all cb [] = cb
push_all cb (b ∷ bs) = push_all (push_outcome cb b) bs

slide_all : ℕ → List Bool → List Bool → List Bool
slide_all n recent [] = recent
slide_all n recent (b ∷ bs) = slide_all n (slide n recent b) bs
