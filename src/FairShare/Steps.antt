-- ===== src/FairShare/Steps.antt =====
-- What every interleaving of the scheduler of pkg/llm/fairshare.go keeps.
use text.Mathlib.TextEquality.{eq_iff}
use uiauto_framework.Prelude.{
  ℕ, zero, suc, ◌+◌, ◌-◌, ◌*◌, ◌≤◌, ◌<◌, ◌≡◌, refl, ap, sym, ◌∙◌, Bool, true, false, List, [], ◌∷◌,
  ◌++◌, String, str_eq, Option, none, some, Option-cases, inl, inr, ℤ, positive_or_pos, leb, ◌==◌,
  lookup, insert, lookup-insert, if◌then◌else◌, length, length-append, arith,
}
use uiauto_framework.FairShare.{
  Request, Scheduler, new_fair_share_scheduler, queue_of, user_or_anonymous, enqueue, submit,
  remove_pointer, remove_from_queue, finish, start, Step, submits, sends, gives_up, takes, starts,
  drops, finishes, releases, closes, stops, Reach, here, next,
}

pub queue_of-insert :
    (k u : String) (q : List ℕ) (m : List (String × List ℕ))
    → queue_of u (insert k q m) ≡ (if str_eq k u then q else queue_of u m)
unfolding queue_of
queue_of-insert k u q m = ground (arith, lookup-insert k u q m)

length-remove_pointer-le : (p : ℕ) (q : List ℕ) → length (remove_pointer p q) ≤ length q
unfolding remove_pointer
length-remove_pointer-le p [] = omega arith
length-remove_pointer-le p (x ∷ q) = ground (arith, length-remove_pointer-le p q)

pub record Inv (s : Scheduler) : Type 0 where
  pub depth : (u : String) → length (queue_of u s.queues) ≤ s.max_queue_depth
  pub counted : s.inflight ≡ length s.running + length s.finishing
  pub bounded : length s.running ≤ s.max_concurrency
  pub buffered : length s.incoming ≤ s.max_queue_depth * 10

new-Inv : (d c : ℤ) → Inv (new_fair_share_scheduler d c)
unfolding new_fair_share_scheduler queue_of uiauto_framework.Prelude.Text.lookup
new-Inv d c = record {
  depth = λ u. omega arith;
  counted = refl;
  bounded = omega arith;
  buffered = omega arith;
}

submit_depth :
    (s : Scheduler) (name u : String)
    → length (queue_of u s.queues) ≤ s.max_queue_depth
    → length (queue_of u (submit s name).0.queues) ≤ s.max_queue_depth
unfolding submit enqueue
submit_depth s name u h =
    let user = user_or_anonymous name in
    ground (
      arith,
      queue_of-insert user u (queue_of user s.queues) s.queues,
      queue_of-insert user u (queue_of user s.queues ++ s.allocated ∷ []) s.queues,
      length-append (queue_of user s.queues) (s.allocated ∷ []),
      eq_iff user u,
    )

abbrev SameWork : Scheduler → Scheduler → Type 0
SameWork s t =
    (t.running ≡ s.running)
    × (t.inflight ≡ s.inflight)
    × (t.incoming ≡ s.incoming)
    × (t.holding ≡ s.holding)
    × (t.max_queue_depth ≡ s.max_queue_depth)
    × (t.max_concurrency ≡ s.max_concurrency)
    × (t.finishing ≡ s.finishing)

pub submit_work : (s : Scheduler) (name : String) → SameWork s (submit s name).0
unfolding submit enqueue
submit_work s name = ground arith

pub remove_work :
    (r : Request) (s : Scheduler)
    → SameWork s (remove_from_queue r s)
      × ((remove_from_queue r s).sending ≡ s.sending)
      × ((remove_from_queue r s).allocated ≡ s.allocated)
unfolding remove_from_queue
remove_work r s = ground arith

pub queue_of-remove :
    (r : Request) (s : Scheduler) (u : String)
    → queue_of u (remove_from_queue r s).queues ≡ (
        if str_eq r.user u
        then remove_pointer r.pointer (queue_of u s.queues)
        else queue_of u s.queues)
unfolding remove_from_queue remove_pointer queue_of
queue_of-remove r s u = elim (Option-cases (lookup r.user s.queues)) [
  | inl e ↦ rw (e, remove_from_queue) (ground (arith, e, eq_iff r.user u))
  | inr (q, e) ↦
      rw (e, remove_from_queue)
        (ground
          (arith, e, lookup-insert r.user u (remove_pointer r.pointer q) s.queues, eq_iff r.user u))
]

finish-Inv :
    (before after : List Request) (r : Request) (s : Scheduler)
    → s.finishing ≡ before ++ r ∷ after
    → Inv s
    → Inv (finish r (before ++ after) s)
unfolding finish
finish-Inv before after r s h v =
    let s' = record s { finishing = before ++ after; inflight = s.inflight - 1 } in
    let w = (remove_work r s').0 in
    let fewer : length s.finishing ≡ suc (length (before ++ after)) =
      omega (arith, ap length h, length-append before (r ∷ after), length-append before after) in
    record {
      depth = λ u. ground (
        arith,
        queue_of-remove r s' u,
        v.depth u,
        w.4,
        length-remove_pointer-le r.pointer (queue_of u s.queues),
      );
      counted = ground (arith, w.0, w.1, w.6, fewer, v.counted);
      bounded = ground (arith, w.0, w.5, fewer, v.bounded);
      buffered = ground (arith, w.2, w.4, v.buffered);
    }

Step-Inv : {s t : Scheduler} → Step s t → Inv s → Inv t
unfolding start
Step-Inv {s} {t} (submits name e) v =
    let w = submit_work s name in
    rw e (record {
      depth = λ u. ground (arith, submit_depth s name u (v.depth u), w.4);
      counted = ground (arith, w.0, w.1, w.6, v.counted);
      bounded = ground (arith, w.0, w.5, v.bounded);
      buffered = ground (arith, w.2, w.4, v.buffered);
    })
Step-Inv {s} {t} (sends before after r h room e) v = rw e (record {
  depth = v.depth;
  counted = v.counted;
  bounded = v.bounded;
  buffered = omega (arith, length-append s.incoming (r ∷ []));
})
Step-Inv {s} {t} (gives_up before after r h e) v =
    rw e
      (record { depth = v.depth; counted = v.counted; bounded = v.bounded; buffered = v.buffered })
Step-Inv {s} {t} (takes r rest on empty h e) v = rw e (record {
  depth = v.depth;
  counted = v.counted;
  bounded = v.bounded;
  buffered = omega (arith, v.buffered, ap length h);
})
Step-Inv {s} {t} (starts r h room e) v = rw e (record {
  depth = v.depth;
  counted = omega (arith, v.counted);
  bounded = room;
  buffered = v.buffered;
})
Step-Inv {s} {t} (drops r h e) v =
    rw e
      (record { depth = v.depth; counted = v.counted; bounded = v.bounded; buffered = v.buffered })
Step-Inv {s} {t} (releases before after r h e) v =
    let fewer : length s.running ≡ suc (length (before ++ after)) =
      omega (arith, ap length h, length-append before (r ∷ after), length-append before after) in
    rw e (record {
      depth = v.depth;
      counted = omega (arith, fewer, v.counted);
      bounded = omega (arith, fewer, v.bounded);
      buffered = v.buffered;
    })
Step-Inv {s} {t} (finishes before after r h e) v = rw e (finish-Inv before after r s h v)
Step-Inv {s} {t} (closes e) v =
    rw e
      (record { depth = v.depth; counted = v.counted; bounded = v.bounded; buffered = v.buffered })
Step-Inv {s} {t} (stops h e) v =
    rw e
      (record { depth = v.depth; counted = v.counted; bounded = v.bounded; buffered = v.buffered })

-- In every interleaving of callers, loop, workers and `Close` from a new scheduler: no user has
-- more requests queued than the queue depth, at most as many requests run as the concurrency
-- allows, `Inflight` is the number of those and of the requests that have given their place back
-- and are not yet counted off, and the channel holds at most ten times the queue depth.
pub Reach-Inv : (d c : ℤ) {t : Scheduler} → Reach (new_fair_share_scheduler d c) t → Inv t
Reach-Inv d c here = new-Inv d c
Reach-Inv d c (next r st) = Step-Inv st (Reach-Inv d c r)
