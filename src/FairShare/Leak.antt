-- ===== src/FairShare/Leak.antt =====
-- Requests of pkg/llm/fairshare.go that stand in a queue and that nobody will take out of it.
use mathlib.Core.Path.{subst}
use mathlib.Core.List.{append-nil}
use text.Mathlib.TextEquality.{eq_iff}
use uiauto_framework.Prelude.{
  ℕ, ◌-◌, ◌<◌, ◌≡◌, sym, ◌∙◌, Bool, true, false, List, [], ◌∷◌, ◌++◌, String, str_eq, Option, some,
  if◌then◌else◌, insert, arith, All, Bool-cases, inl, inr,
}
use uiauto_framework.FairShare.{
  Request, Scheduler, SubmitError, queue_of, user_or_anonymous, enqueue, submit, remove_pointer,
  finish, start, Step, submits, sends, gives_up, takes, starts, drops, finishes, releases, closes,
  stops, Reach, here, next,
}
use uiauto_framework.FairShare.Steps.{queue_of-insert, queue_of-remove, remove_work}
use uiauto_framework.FairShare.Within.{
  Within, Within-append, mem, Within-remove_pointer, not-mem_of_old, older,
}

-- None of the requests is one of `ps`.
abbrev pub Lacks : List ℕ → List Request → Type 0
Lacks ps = All (λ r. mem r.pointer ps ≡ false)

pub Lacks-append :
    (ps : List ℕ) (xs ys : List Request) → Lacks ps xs → Lacks ps ys → Lacks ps (xs ++ ys)
Lacks-append ps [] ys hx hy = hy
Lacks-append ps (x ∷ xs) ys hx hy = (hx.0, Lacks-append ps xs ys hx.1 hy)

pub Lacks-split :
    (ps : List ℕ) (xs : List Request) (r : Request) (ys : List Request)
    → Lacks ps (xs ++ r ∷ ys)
    → (mem r.pointer ps ≡ false) × Lacks ps (xs ++ ys)
Lacks-split ps [] r ys h = (h.0, h.1)
Lacks-split ps (x ∷ xs) r ys h = let (a, b) = Lacks-split ps xs r ys h.1 in (a, (h.0, b))

-- The requests `ps` stand in the user's queue, and no caller, channel, loop or worker has them.
pub record Leaked (ps : List ℕ) (u : String) (s : Scheduler) : Type 0 where
  pub queued : Within ps (queue_of u s.queues)
  pub old : All (λ p. p < s.allocated) ps
  pub not_sending : Lacks ps s.sending
  pub not_incoming : Lacks ps s.incoming
  pub not_held : (r : Request) → s.holding ≡ some r → mem r.pointer ps ≡ false
  pub not_running : Lacks ps s.running
  pub not_finishing : Lacks ps s.finishing

-- A write of a longer queue keeps what stands in the queues.
pub Within-insert :
    (ps : List ℕ) (u user : String) (rs : List ℕ) (s : Scheduler)
    → Within ps (queue_of u s.queues)
    → Within ps (queue_of u (insert user (queue_of user s.queues ++ rs) s.queues))
Within-insert ps u user rs s w = elim (Bool-cases (str_eq user u)) [
  | inl e ↦
      rw (queue_of-insert user u (queue_of user s.queues ++ rs) s.queues, e)
        (Within-append rs
          (subst (λ (n : String). Within ps (queue_of n s.queues)) (sym ((eq_iff user u).0 e)) w))
  | inr n ↦ rw (queue_of-insert user u (queue_of user s.queues ++ rs) s.queues, n) w
]

pub enqueue-Leaked :
    (ps : List ℕ) (u : String) (s : Scheduler) (user : String)
    → Leaked ps u s
    → Leaked ps u (enqueue s user)
unfolding enqueue
enqueue-Leaked ps u s user v = record {
  queued = Within-insert ps u user (s.allocated ∷ []) s v.queued;
  old = older ps s.allocated v.old;
  not_sending = Lacks-append ps s.sending _ v.not_sending (not-mem_of_old ps s.allocated v.old, tt);
  not_incoming = v.not_incoming;
  not_held = v.not_held;
  not_running = v.not_running;
  not_finishing = v.not_finishing;
}

pub refuse-Leaked :
    (ps : List ℕ) (u : String) (s : Scheduler) (user : String)
    → Leaked ps u s
    → Leaked ps u (record s { queues = insert user (queue_of user s.queues) s.queues })
refuse-Leaked ps u s user v = record {
  queued =
      subst (λ q. Within ps (queue_of u (insert user q s.queues)))
        (append-nil (queue_of user s.queues)) (Within-insert ps u user [] s v.queued);
  old = v.old;
  not_sending = v.not_sending;
  not_incoming = v.not_incoming;
  not_held = v.not_held;
  not_running = v.not_running;
  not_finishing = v.not_finishing;
}

pub either-Leaked :
    (ps : List ℕ) (u : String) (b : Bool) (x y : Scheduler × Option SubmitError)
    → Leaked ps u x.0
    → Leaked ps u y.0
    → Leaked ps u (if b then x else y).0
either-Leaked ps u true x y vx vy = vx
either-Leaked ps u false x y vx vy = vy

pub submit-Leaked :
    (ps : List ℕ) (u : String) (s : Scheduler) (name : String)
    → Leaked ps u s
    → Leaked ps u (submit s name).0
unfolding submit
submit-Leaked ps u s name v = either-Leaked ps u s.closed _ _ v (
    either-Leaked ps u _ _ _ (refuse-Leaked ps u s (user_or_anonymous name) v)
      (enqueue-Leaked ps u s (user_or_anonymous name) v))

pub Within-removed :
    (b : Bool) (p : ℕ) {ps qs : List ℕ}
    → mem p ps ≡ false
    → Within ps qs
    → Within ps (if b then remove_pointer p qs else qs)
Within-removed true p n w = Within-remove_pointer p n w
Within-removed false p n w = w

pub finish-Leaked :
    (ps : List ℕ) (u : String) (before after : List Request) (r : Request) (s : Scheduler)
    → s.finishing ≡ before ++ r ∷ after
    → Leaked ps u s
    → Leaked ps u (finish r (before ++ after) s)
unfolding finish
finish-Leaked ps u before after r s h v =
    let s' = record s { finishing = before ++ after; inflight = s.inflight - 1 } in
    let w = remove_work r s' in
    let (other, rest) = Lacks-split ps before r after (subst (Lacks ps) h v.not_finishing) in
    record {
      queued =
          subst (Within ps) (sym (queue_of-remove r s' u))
            (Within-removed (str_eq r.user u) r.pointer other v.queued);
      old = subst (λ n. All (λ p. p < n) ps) (sym w.2) v.old;
      not_sending = subst (Lacks ps) (sym w.1) v.not_sending;
      not_incoming = subst (Lacks ps) (sym w.0.2) v.not_incoming;
      not_held = λ q k. v.not_held q (sym w.0.3 ∙ k);
      not_running = subst (Lacks ps) (sym w.0.0) v.not_running;
      not_finishing = subst (Lacks ps) (sym w.0.6) rest;
    }

pub Step-Leaked :
    (ps : List ℕ) (u : String) {s t : Scheduler} → Step s t → Leaked ps u s → Leaked ps u t
unfolding start
Step-Leaked ps u {s} {t} (submits name e) v = rw e (submit-Leaked ps u s name v)
Step-Leaked ps u {s} {t} (sends before after r h room e) v =
    let (own, rest) = Lacks-split ps before r after (subst (Lacks ps) h v.not_sending) in
    rw e (record {
      queued = v.queued;
      old = v.old;
      not_sending = rest;
      not_incoming = Lacks-append ps s.incoming (r ∷ []) v.not_incoming (own, tt);
      not_held = v.not_held;
      not_running = v.not_running;
      not_finishing = v.not_finishing;
    })
Step-Leaked ps u {s} {t} (gives_up before after r h e) v =
    let (own, rest) = Lacks-split ps before r after (subst (Lacks ps) h v.not_sending) in
    rw e (record {
      queued = v.queued;
      old = v.old;
      not_sending = rest;
      not_incoming = v.not_incoming;
      not_held = v.not_held;
      not_running = v.not_running;
      not_finishing = v.not_finishing;
    })
Step-Leaked ps u {s} {t} (takes r rest on empty h e) v =
    let (own, others) = Lacks-split ps [] r rest (subst (Lacks ps) h v.not_incoming) in
    rw e (record {
      queued = v.queued;
      old = v.old;
      not_sending = v.not_sending;
      not_incoming = others;
      not_held = λ q k. ground (arith, own, k);
      not_running = v.not_running;
      not_finishing = v.not_finishing;
    })
Step-Leaked ps u {s} {t} (starts r h room e) v = rw e (record {
  queued = v.queued;
  old = v.old;
  not_sending = v.not_sending;
  not_incoming = v.not_incoming;
  not_held = λ q k. cc;
  not_running = (v.not_held r h, v.not_running);
  not_finishing = v.not_finishing;
})
Step-Leaked ps u {s} {t} (drops r h e) v = rw e (record {
  queued = v.queued;
  old = v.old;
  not_sending = v.not_sending;
  not_incoming = v.not_incoming;
  not_held = λ q k. cc;
  not_running = v.not_running;
  not_finishing = v.not_finishing;
})
Step-Leaked ps u {s} {t} (releases before after r h e) v =
    let (own, rest) = Lacks-split ps before r after (subst (Lacks ps) h v.not_running) in
    rw e (record {
      queued = v.queued;
      old = v.old;
      not_sending = v.not_sending;
      not_incoming = v.not_incoming;
      not_held = v.not_held;
      not_running = rest;
      not_finishing = (own, v.not_finishing);
    })
Step-Leaked ps u {s} {t} (finishes before after r h e) v =
    rw e (finish-Leaked ps u before after r s h v)
Step-Leaked ps u {s} {t} (closes e) v = rw e (record {
  queued = v.queued;
  old = v.old;
  not_sending = v.not_sending;
  not_incoming = v.not_incoming;
  not_held = v.not_held;
  not_running = v.not_running;
  not_finishing = v.not_finishing;
})
Step-Leaked ps u {s} {t} (stops h e) v = rw e (record {
  queued = v.queued;
  old = v.old;
  not_sending = v.not_sending;
  not_incoming = v.not_incoming;
  not_held = λ q k. cc;
  not_running = v.not_running;
  not_finishing = v.not_finishing;
})

pub Reach-Leaked :
    (ps : List ℕ) (u : String) {s t : Scheduler} → Leaked ps u s → Reach s t → Leaked ps u t
Reach-Leaked ps u v here = v
Reach-Leaked ps u v (next r st) = Step-Leaked ps u st (Reach-Leaked ps u v r)
