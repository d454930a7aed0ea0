-- ===== src/FairShare/Lockout.antt =====
-- Requests whose caller gives up in pkg/llm/fairshare.go: they fill the queue of their user.
use mathlib.Core.Path.{subst}
use text.Mathlib.TextEquality.{eq_iff}
use uiauto_framework.Prelude.{
  ℕ, zero, suc, ◌+◌, ◌-◌, ◌*◌, ◌≤◌, ◌<◌, ◌≡◌, refl, ap, sym, ◌∙◌, Bool, true, false, List, [], ◌∷◌,
  ◌++◌, String, str_eq, Option, none, some, ℤ, positive_or_pos, positive_or, leb, ◌==◌,
  if◌then◌else◌, length, length-append, insert, arith, All, Bool-cases, inl, inr,
}
use uiauto_framework.FairShare.{
  Request, Scheduler, SubmitError, user_queue_full, scheduler_closed, new_fair_share_scheduler,
  queue_of, enqueue, submit, finish, start, Step, submits, sends, gives_up, takes, starts, drops,
  finishes, releases, closes, stops, Reach, here, next,
}
use uiauto_framework.FairShare.Steps.{queue_of-insert, remove_work, submit_work}
use uiauto_framework.FairShare.Within.{length-le_of_Within, Within-refl}
use uiauto_framework.FairShare.Leak.{Leaked, Reach-Leaked}

Step-depth : {s t : Scheduler} → Step s t → t.max_queue_depth ≡ s.max_queue_depth
unfolding start finish
Step-depth {s} {t} (submits name e) =
    ap (λ (x : Scheduler). x.max_queue_depth) e ∙ (submit_work s name).4
Step-depth {s} {t} (sends before after r h room e) = ap (λ (x : Scheduler). x.max_queue_depth) e
Step-depth {s} {t} (gives_up before after r h e) = ap (λ (x : Scheduler). x.max_queue_depth) e
Step-depth {s} {t} (takes r rest on empty h e) = ap (λ (x : Scheduler). x.max_queue_depth) e
Step-depth {s} {t} (starts r h room e) = ap (λ (x : Scheduler). x.max_queue_depth) e
Step-depth {s} {t} (drops r h e) = ap (λ (x : Scheduler). x.max_queue_depth) e
Step-depth {s} {t} (releases before after r h e) = ap (λ (x : Scheduler). x.max_queue_depth) e
Step-depth {s} {t} (finishes before after r h e) =
    ap (λ (x : Scheduler). x.max_queue_depth) e
    ∙ (remove_work r (record s { finishing = before ++ after; inflight = s.inflight - 1 })).0.4
Step-depth {s} {t} (closes e) = ap (λ (x : Scheduler). x.max_queue_depth) e
Step-depth {s} {t} (stops h e) = ap (λ (x : Scheduler). x.max_queue_depth) e

Reach-depth : {s t : Scheduler} → Reach s t → t.max_queue_depth ≡ s.max_queue_depth
Reach-depth here = refl
Reach-depth (next r st) = Step-depth st ∙ Reach-depth r

full_refuses :
    (s : Scheduler) (u : String)
    → str_eq u "" ≡ false
    → s.max_queue_depth ≤ length (queue_of u s.queues)
    → (submit s u).1 ≡ (if s.closed then some scheduler_closed else some user_queue_full)
unfolding submit
full_refuses s u n h = ground (arith, n, h)

-- While the leaked requests fill the queue of a named user, every submission of that user is
-- refused, in every state that the scheduler can reach from there.
Leaked-locks_out :
    (ps : List ℕ) (u : String) {s t : Scheduler}
    → str_eq u "" ≡ false
    → Leaked ps u s
    → s.max_queue_depth ≤ length ps
    → Reach s t
    → (submit t u).1 ≡ (if t.closed then some scheduler_closed else some user_queue_full)
Leaked-locks_out ps u {s} {t} n v h r =
    full_refuses t u n
      (omega (arith, Reach-depth r, length-le_of_Within (Reach-Leaked ps u v r).queued))

-- The step in which the caller of `r` gives up.
abbrev pub GivesUp : Request → {s t : Scheduler} → Step s t → Type 0
GivesUp r (gives_up before after given h e) = given ≡ r
GivesUp r _ = ⊥

-- From `s`, `n` submissions of `u` in turn, each accepted and then given up by its caller before the
-- scheduler took it.
pub data Abandons (u : String) (s : Scheduler) : ℕ → Scheduler → Type 0 where
  none_yet : Abandons u s 0 s
  abandoned :
      {n : ℕ} {before after : Scheduler}
      → Abandons u s n before
      → (submit before u).1 ≡ none
      → (st : Step (submit before u).0 after)
      → GivesUp (record { pointer = before.allocated; user = u }) st
      → Abandons u s (suc n) after

Abandons-Reach : (u : String) {s : Scheduler} {n : ℕ} {t : Scheduler} → Abandons u s n t → Reach s t
Abandons-Reach u none_yet = here
Abandons-Reach u (abandoned a ok st g) = next (next (Abandons-Reach u a) (submits u refl)) st

-- Nothing is on its way, and `k` requests stand in the user's queue.
record Idle (u : String) (k : ℕ) (s : Scheduler) : Type 0 where
  open_for : s.closed ≡ false
  none_sending : s.sending ≡ []
  none_incoming : s.incoming ≡ []
  none_held : s.holding ≡ none
  none_running : s.running ≡ []
  none_finishing : s.finishing ≡ []
  old : All (λ p. p < s.allocated) (queue_of u s.queues)
  count : length (queue_of u s.queues) ≡ k

Idle-Leaked : (u : String) (k : ℕ) (s : Scheduler) → Idle u k s → Leaked (queue_of u s.queues) u s
Idle-Leaked u k s i = record {
  queued = Within-refl (queue_of u s.queues);
  old = i.old;
  not_sending = rw i.none_sending tt;
  not_incoming = rw i.none_incoming tt;
  not_held = λ r h. ground (arith, i.none_held, h);
  not_running = rw i.none_running tt;
  not_finishing = rw i.none_finishing tt;
}

All-append_old : (xs : List ℕ) (n : ℕ) → All (λ p. p < n) xs → All (λ p. p < n + 1) (xs ++ n ∷ [])
All-append_old [] n h = (omega arith, tt)
All-append_old (x ∷ xs) n h = (omega (arith, h.0), All-append_old xs n h.1)

-- The state after a submission that its caller gives up at once.
abandon : Scheduler → String → Scheduler
abandon s u = record (enqueue s u) { sending = [] }

submit_room :
    (s : Scheduler) (u : String)
    → str_eq u "" ≡ false
    → s.closed ≡ false
    → length (queue_of u s.queues) < s.max_queue_depth
    → submit s u ≡ (enqueue s u, none)
unfolding submit
submit_room s u n o h = ground (arith, n, o, h)

abandon-Abandons :
    (u : String) (k n : ℕ) (s t : Scheduler)
    → str_eq u "" ≡ false
    → k < t.max_queue_depth
    → Idle u k t
    → Abandons u s n t
    → Abandons u s (suc n) (abandon t u)
unfolding abandon enqueue
abandon-Abandons u k n s t h m i a =
    let room = submit_room t u h i.open_for (omega (arith, i.count)) in
    abandoned a (ap (λ (o : Scheduler × Option SubmitError). o.1) room)
      (gives_up [] [] (record { pointer = t.allocated; user = u })
        (ap (λ (o : Scheduler × Option SubmitError). o.0.sending) room
          ∙ ap (λ (xs : List Request). xs ++ record { pointer = t.allocated; user = u } ∷ [])
              i.none_sending)
        (ap (λ (o : Scheduler × Option SubmitError). record o.0 { sending = [] }) (sym room)))
      refl

abandon-Idle : (u : String) (k : ℕ) (s : Scheduler) → Idle u k s → Idle u (suc k) (abandon s u)
unfolding abandon enqueue
abandon-Idle u k s i =
    let own : queue_of u (insert u (queue_of u s.queues ++ s.allocated ∷ []) s.queues)
        ≡ queue_of u s.queues ++ s.allocated ∷ [] =
      ground (
        arith,
        queue_of-insert u u (queue_of u s.queues ++ s.allocated ∷ []) s.queues,
        eq_iff u u,
      ) in
    record {
      open_for = i.open_for;
      none_sending = refl;
      none_incoming = i.none_incoming;
      none_held = i.none_held;
      none_running = i.none_running;
      none_finishing = i.none_finishing;
      old = rw own (All-append_old (queue_of u s.queues) s.allocated i.old);
      count =
          omega
            (arith, ap length own, length-append (queue_of u s.queues) (s.allocated ∷ []), i.count);
    }

abandons :
    (u : String) (n k : ℕ) (s t : Scheduler)
    → str_eq u "" ≡ false
    → k + n ≤ t.max_queue_depth
    → Idle u k t
    → Abandons u s k t
    → (o : Scheduler) × Abandons u s (k + n) o × Idle u (k + n) o
unfolding abandon enqueue
abandons u zero k s t h m i a =
    (t, subst (λ j. Abandons u s j t) (omega arith) a, subst (λ j. Idle u j t) (omega arith) i)
abandons u (suc n) k s t h m i a =
    let (o, b, j) =
      abandons u n (suc k) s (abandon t u) h (omega arith) (abandon-Idle u k t i)
        (abandon-Abandons u k k s t h (omega arith) i a) in
    (o, subst (λ x. Abandons u s x o) (omega arith) b, subst (λ x. Idle u x o) (omega arith) j)

-- From a new scheduler, a named user whose callers give up as many accepted submissions as the queue
-- is deep, each before the scheduler took it, brings about a state of the open scheduler where
-- nothing is on its way or runs, and from which every submission of that user is refused in every
-- state that can be reached: as over a full queue, or after `Close` as closed.
pub abandoned_lock_out :
    (d c : ℤ) (u : String)
    → str_eq u "" ≡ false
    → (s : Scheduler) × Abandons u (new_fair_share_scheduler d c) (positive_or 10 d) s
      × Reach (new_fair_share_scheduler d c) s
      × (s.closed ≡ false)
      × (s.sending ≡ [])
      × (s.incoming ≡ [])
      × (s.holding ≡ none)
      × (s.running ≡ [])
      × (s.finishing ≡ [])
      × ((t : Scheduler)
          → Reach s t
          → (submit t u).1 ≡ (if t.closed then some scheduler_closed else some user_queue_full))
unfolding new_fair_share_scheduler queue_of uiauto_framework.Prelude.Text.lookup
abandoned_lock_out d c u n =
    let fresh = new_fair_share_scheduler d c in
    let start_idle : Idle u 0 fresh = record {
      open_for = refl;
      none_sending = refl;
      none_incoming = refl;
      none_held = refl;
      none_running = refl;
      none_finishing = refl;
      old = tt;
      count = refl;
    } in
    let (s, a, i) =
      abandons u (positive_or 10 d) 0 fresh fresh n (omega arith) start_idle none_yet in
    let r = Abandons-Reach u a in
    (
      s,
      subst (λ k. Abandons u fresh k s) (omega arith) a,
      r,
      i.open_for,
      i.none_sending,
      i.none_incoming,
      i.none_held,
      i.none_running,
      i.none_finishing,
      λ t q. Leaked-locks_out _ u n (Idle-Leaked u _ s i) (omega (arith, i.count, Reach-depth r)) q,
    )
