-- ===== src/RateLimit/Paced.antt =====
-- How many requests pkg/llm/rate_limited.go lets through in a window.
use mathlib.Core.Path.{subst}
use uiauto_framework.Prelude.{
  ℕ, ◌≤◌, ◌<◌, ◌≡◌, refl, ap, sym, ◌∙◌, Bool, true, false, List, [], ◌∷◌, ◌++◌, inl, inr, leb,
  arith, length, keep_if, Bool-cases,
}
use uiauto_framework.RateLimit.{
  RateLimitedProvider, empty, active, Round, granted, wait_for, index_panic, blocked, wait_after,
  left_locked, round, grants,
}

-- The clock does not go back.
abbrev pub Rising : ℕ → List ℕ → Type 0
Rising last [] = Unit {0}
Rising last (now ∷ nows) = (last ≤ now) × Rising now nows

-- At each time of the list fewer than `max` of the times before it, `past` and those of the list,
-- are less than a window old.
abbrev pub Paced : ℕ → ℕ → List ℕ → List ℕ → Type 0
Paced max window past [] = Unit {0}
Paced max window past (now ∷ nows) =
    (length (keep_if (active window now) past) < max) × Paced max window (past ++ now ∷ []) nows

keep_if-append :
    (p : ℕ → Bool) (xs ys : List ℕ) → keep_if p (xs ++ ys) ≡ keep_if p xs ++ keep_if p ys
keep_if-append p [] ys = refl
keep_if-append p (x ∷ xs) ys = ground (arith, keep_if-append p xs ys)

-- What is active later is active now.
keep_active_later :
    (w now later : ℕ) (ts : List ℕ)
    → now ≤ later
    → keep_if (active w later) (keep_if (active w now) ts) ≡ keep_if (active w later) ts
keep_active_later w now later [] h = refl
keep_active_later w now later (t ∷ ts) h = ground (arith, keep_active_later w now later ts h, h)

-- From `last` on, the tokens hold what is active of the past.
abbrev Holds : ℕ → ℕ → List ℕ → List ℕ → Type 0
Holds w last past tokens =
    (x : ℕ) → last ≤ x → keep_if (active w x) tokens ≡ keep_if (active w x) past

pruned-Holds :
    (w last now : ℕ) (past tokens : List ℕ)
    → last ≤ now
    → Holds w last past tokens
    → Holds w now past (keep_if (active w now) tokens)
pruned-Holds w last now past tokens le h x k =
    keep_active_later w now x tokens k ∙ h x (omega (arith, le, k))

added-Holds :
    (w now : ℕ) (past tokens : List ℕ)
    → Holds w now past tokens
    → Holds w now (past ++ now ∷ []) (tokens ++ now ∷ [])
added-Holds w now past tokens h x k =
    keep_if-append (active w x) tokens (now ∷ [])
    ∙ ap (λ l. l ++ keep_if (active w x) (now ∷ [])) (h x k)
    ∙ sym (keep_if-append (active w x) past (now ∷ []))

-- A mutex that is locked for good lets nobody through.
pub round_locked :
    (r : RateLimitedProvider) (now : ℕ) → r.locked ≡ true → round r now ≡ (r, blocked)
unfolding round
round_locked r now l = rw l refl

-- A round with no place left lets nothing through.
pub round_full :
    (r : RateLimitedProvider) (now : ℕ)
    → r.locked ≡ false
    → leb r.max_allowed (length (keep_if (active r.window now) r.tokens)) ≡ true
    → round r now ≡ (
      record r {
        tokens = keep_if (active r.window now) r.tokens;
        locked = left_locked (keep_if (active r.window now) r.tokens);
      },
      wait_after r.window now (keep_if (active r.window now) r.tokens),
    )
unfolding round
round_full r now l h = rw (l, h) refl

pub round_free :
    (r : RateLimitedProvider) (now : ℕ)
    → r.locked ≡ false
    → leb r.max_allowed (length (keep_if (active r.window now) r.tokens)) ≡ false
    → round r now
      ≡ (record r { tokens = keep_if (active r.window now) r.tokens ++ now ∷ [] }, granted)
unfolding round
round_free r now l h = rw (l, h) refl

abbrev pass : List ℕ → ℕ → Round → List ℕ
pass rest now granted = now ∷ rest
pass rest now _ = rest

grants_cons :
    (r : RateLimitedProvider) (now : ℕ) (nows : List ℕ)
    → grants r (now ∷ nows) ≡ pass (grants (round r now).0 nows) now (round r now).1
unfolding grants
grants_cons r now nows = go (round r now).1
  where
    go :
        (o : Round)
        → (elim o [
          | granted ↦ now ∷ grants (round r now).0 nows
          | wait_for d ↦ grants (round r now).0 nows
          | index_panic ↦ grants (round r now).0 nows
          | blocked ↦ grants (round r now).0 nows
        ])
          ≡ pass (grants (round r now).0 nows) now o
    go granted = refl
    go (wait_for d) = refl
    go index_panic = refl
    go blocked = refl

pass_wait : (rest : List ℕ) (now w : ℕ) (ts : List ℕ) → pass rest now (wait_after w now ts) ≡ rest
unfolding wait_after
pass_wait rest now w [] = refl
pass_wait rest now w (t ∷ ts) = refl

grants-Paced :
    (r : RateLimitedProvider) (last : ℕ) (past nows : List ℕ)
    → Rising last nows
    → Holds r.window last past r.tokens
    → Paced r.max_allowed r.window past (grants r nows)
unfolding grants
grants-Paced r last past [] up h = tt
grants-Paced r last past (now ∷ nows) up h =
    let valid = keep_if (active r.window now) r.tokens in
    let pruned = pruned-Holds r.window last now past r.tokens up.0 h in
    elim (Bool-cases r.locked) [
      | inl l ↦
          subst (Paced r.max_allowed r.window past)
            (sym (
              grants_cons r now nows
              ∙ ap (λ o. pass (grants o.0 nows) now o.1) (round_locked r now l)))
            (grants-Paced r now past nows up.1 (λ x k. h x (omega (arith, k, up.0))))
      | inr l ↦ elim (Bool-cases (leb r.max_allowed (length valid))) [
        | inl full ↦
            subst (Paced r.max_allowed r.window past)
              (sym (
                grants_cons r now nows
                ∙ ap (λ o. pass (grants o.0 nows) now o.1) (round_full r now l full)
                ∙ pass_wait _ now r.window valid))
              (grants-Paced (record r { tokens = valid; locked = left_locked valid }) now past nows
                up.1 pruned)
        | inr free ↦
            subst (Paced r.max_allowed r.window past)
              (sym (
                grants_cons r now nows
                ∙ ap (λ o. pass (grants o.0 nows) now o.1) (round_free r now l free)))
              (
                subst (λ (x : List ℕ). length x < r.max_allowed) (h now up.0)
                    (ground (arith, free)),
                grants-Paced (record r { tokens = valid ++ now ∷ [] }) now (past ++ now ∷ []) nows
                    up.1 (added-Holds r.window now past valid pruned),
              )
      ]
    ]

-- With a clock that does not go back, whoever asks and however often: when a new provider lets a
-- request through, fewer than `RequestsPerMinute + BurstSize` of those before it are less than a
-- window old.
pub grants-new-Paced :
    (max window first : ℕ) (nows : List ℕ)
    → Rising first nows
    → Paced max window [] (grants (empty window max) nows)
grants-new-Paced max window first nows up =
    grants-Paced (empty window max) first [] nows up (λ x k. refl)
