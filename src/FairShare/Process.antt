-- ===== src/FairShare/Process.antt =====
-- `processRequest` of pkg/llm/fairshare.go: the work on one request against the pool, as a sequential
-- function; the steps of the scheduler leave it out, since it does not touch the scheduler's state.
-- Substring search is a parameter, and so is the provider: what it answers for the chosen node, or
-- none for an error.
use uiauto_framework.Prelude.{
  ℕ, ◌≡◌, refl, ap, ◌⊎◌, inl, inr, Bool, true, false, ◌||◌, List, [], ◌∷◌, String, str_eq, Option,
  none, some, if◌then◌else◌, All,
}
use uiauto_framework.Upstream.{
  UpstreamPool, serves_tier, select_by_tier, select_any, mark_unhealthy, mark_healthy,
}
use uiauto_framework.Upstream.Selection.{Chosen, select_by_tier_lem, select_any_lem}

pub record Message : Type 0 where
  pub role : String
  pub content : String

-- The tiers of `extractTierFromRequest`, in the order it tries them, with the marks it looks for.
abbrev tier_marks : List (String × String × String)
tier_marks =
    ("agent", "tier:agent", "x-tier:agent")
    ∷ ("fast", "tier:fast", "x-tier:fast")
    ∷ ("utility", "tier:utility", "x-tier:utility")
    ∷ ("heavy", "tier:heavy", "x-tier:heavy")
    ∷ ("powerful", "tier:powerful", "x-tier:powerful")
    ∷ []

contains_any : (String → String → Bool) → String → List String → Bool
contains_any contains s [] = false
contains_any contains s (sub ∷ subs) = contains s sub || contains_any contains s subs

-- The inner loop, on one message; `other` is what the later messages give.
tier_of : (String → String → Bool) → String → String → List (String × String × String) → String
unfolding contains_any
tier_of contains other content [] = other
tier_of contains other content ((tier, mark, x_mark) ∷ marks) =
    let rest = tier_of contains other content marks in
    if contains_any contains content (mark ∷ x_mark ∷ []) then tier else rest

-- The empty text tells that the request names no tier.
extract_tier : (String → String → Bool) → List Message → String
unfolding tier_of
extract_tier contains [] = ""
extract_tier contains (m ∷ ms) =
    let rest = extract_tier contains ms in
    if str_eq m.role "system" then tier_of contains rest m.content tier_marks else rest

pub data Answer (A : Type 0) : Type 0 where
  response : A → Answer A
  no_healthy_upstream : Answer A
  upstream_error : ℕ → Answer A

-- The call of the provider for the chosen node and the mark that follows it.
unfoldable complete_on :
    {A : Type 0} → (ℕ → Option A) → ℕ → UpstreamPool → ℕ → UpstreamPool × Answer A
complete_on complete now p i = elim (complete i) [
  | none ↦ (mark_unhealthy p i now, upstream_error i)
  | some resp ↦ (mark_healthy p i, response resp)
]

unfoldable or_any : {A : Type 0} → Option A → Option A → Option A
or_any none b = b
or_any (some a) b = some a

-- `r` and `q` are the draws of the two selections.
choose : UpstreamPool → String → ℕ → ℕ → Option ℕ
unfolding or_any
choose p tier r q =
    or_any (if str_eq tier "" then none else select_by_tier p tier r) (select_any p q)

answer_on : {A : Type 0} → (ℕ → Option A) → ℕ → UpstreamPool → Option ℕ → UpstreamPool × Answer A
unfolding complete_on
answer_on complete now p none = (p, no_healthy_upstream)
answer_on complete now p (some i) = complete_on complete now p i

pub process_request :
    {A : Type 0} → (ℕ → Option A) → ℕ → String → ℕ → ℕ → UpstreamPool → UpstreamPool × Answer A
process_request complete now tier r q p = answer_on complete now p (choose p tier r q)

-- Where the choice may fall: on a healthy node of the tier, or, when the tier is not given or has
-- no healthy node, on any healthy node.
abbrev pub Target : UpstreamPool → String → ℕ → Type 0
Target p tier i =
    Chosen (serves_tier tier) 0 p.nodes i
    ⊎ (((str_eq tier "" ≡ true) ⊎ All (λ n. serves_tier tier n ≡ false) p.nodes)
        × Chosen (λ n. n.healthy) 0 p.nodes i)

abbrev Choice : UpstreamPool → String → Option ℕ → Type 0
Choice p tier c =
    ((i : ℕ) × (c ≡ some i) × Target p tier i) ⊎ ((c ≡ none) × All (λ n. n.healthy ≡ false) p.nodes)

any-Choice :
    (p : UpstreamPool) (tier : String) (q : ℕ)
    → (str_eq tier "" ≡ true) ⊎ All (λ n. serves_tier tier n ≡ false) p.nodes
    → Choice p tier (select_any p q)
any-Choice p tier q why = elim (select_any_lem p q) [
  | inl (i, e, c) ↦ inl (i, e, inr (why, c))
  | inr (e, n) ↦ inr (e, n)
]

given-Choice :
    (p : UpstreamPool) (tier : String) (r q : ℕ) (b : Bool)
    → str_eq tier "" ≡ b
    → Choice p tier (or_any (if b then none else select_by_tier p tier r) (select_any p q))
unfolding or_any
given-Choice p tier r q true e = any-Choice p tier q (inl e)
given-Choice p tier r q false e = elim (select_by_tier_lem p tier r) [
  | inl (i, k, c) ↦ rw k (inl (i, refl, inl c))
  | inr (k, n) ↦ rw k (any-Choice p tier q (inr n))
]

choose-Choice : (p : UpstreamPool) (tier : String) (r q : ℕ) → Choice p tier (choose p tier r q)
unfolding choose
choose-Choice p tier r q = given-Choice p tier r q (str_eq tier "") refl

-- What `processRequest` does, for every provider, tier and draw: it runs the request on a healthy
-- node, which has the wanted tier unless no tier is wanted or no healthy node has it, marks that
-- node by the outcome and answers with it; or every node is unhealthy, it answers
-- `ErrNoHealthyUpstream`, and the pool is unchanged.
pub process_request_lem :
    {A : Type 0} (complete : ℕ → Option A) (now : ℕ) (tier : String) (r q : ℕ) (p : UpstreamPool)
    → ((i : ℕ) × Target p tier i
        × (process_request complete now tier r q p ≡ elim (complete i) [
          | none ↦ (mark_unhealthy p i now, upstream_error i)
          | some resp ↦ (mark_healthy p i, response resp)
        ]))
      ⊎ ((process_request complete now tier r q p ≡ (p, no_healthy_upstream))
          × All (λ n. n.healthy ≡ false) p.nodes)
unfolding process_request answer_on
process_request_lem complete now tier r q p = elim (choose-Choice p tier r q) [
  | inl (i, e, t) ↦ inl (i, t, ap (answer_on complete now p) e)
  | inr (e, n) ↦ inr (ap (answer_on complete now p) e, n)
]
