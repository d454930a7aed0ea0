-- ===== src/FairShare.antt =====
-- pkg/llm/fairshare.go: the queue of each user, the one channel of all requests, and the loop that
-- runs them. A request's pointer is the number of its allocation. Each critical section is one
-- step, and the step relation below lets the goroutines and the callers' contexts take their steps
-- in any order. Three neighbouring actions are taken together: a caller's look at `done` with its
-- queueing, the loop's taking of a place with its count, and a worker's count with its removal.
mod Process
mod Steps
mod Leak
mod Within
mod Lockout
mod Tests
use uiauto_framework.Prelude.{
  ℕ, zero, suc, ◌+◌, ◌-◌, ◌*◌, ◌≤◌, ◌<◌, ◌≡◌, Bool, true, false, List, [], ◌∷◌, ◌++◌, String,
  str_eq, Option, none, some, ℤ, positive_or, leb, ◌==◌, lookup, insert, if◌then◌else◌, length,
}
use uiauto_framework.Upstream.{UpstreamPool}

pub record Request : Type 0 where
  pub pointer : ℕ
  pub user : String

-- `sending` are the callers that wait to put their request into `incoming`; `holding` is what the
-- loop has taken from it and waits to start; `stopped` tells that the loop has returned.
pub record Scheduler : Type 0 where
  pub max_queue_depth : ℕ
  pub max_concurrency : ℕ
  pub queues : List (String × List ℕ)
  pub sending : List Request
  pub incoming : List Request
  pub holding : Option Request
  pub running : List Request
  pub finishing : List Request
  pub inflight : ℕ
  pub closed : Bool
  pub stopped : Bool
  pub allocated : ℕ

pub data SubmitError : Type 0 where
  user_queue_full scheduler_closed : SubmitError

unfoldable pub new_fair_share_scheduler : ℤ → ℤ → Scheduler
new_fair_share_scheduler depth concurrency = record {
  max_queue_depth = positive_or 10 depth;
  max_concurrency = positive_or 2 concurrency;
  queues = [];
  sending = [];
  incoming = [];
  holding = none;
  running = [];
  finishing = [];
  inflight = 0;
  closed = false;
  stopped = false;
  allocated = 0;
}

-- `make(chan *fairShareRequest, cfg.MaxQueueDepth*10)`
abbrev capacity : Scheduler → ℕ
capacity s = s.max_queue_depth * 10

or_empty : Option (List ℕ) → List ℕ
or_empty none = []
or_empty (some q) = q

pub queue_of : String → List (String × List ℕ) → List ℕ
unfolding or_empty
queue_of user queues = or_empty (lookup user queues)

user_or_anonymous : String → String
user_or_anonymous user = if str_eq user "" then "_anonymous" else user

-- `Submit` up to the send: the request is queued, and its caller begins to send it.
pub enqueue : Scheduler → String → Scheduler
enqueue s user =
    let r : Request = record { pointer = s.allocated; user = user } in
    record s {
      queues = insert user (queue_of user s.queues ++ s.allocated ∷ []) s.queues;
      sending = s.sending ++ r ∷ [];
      allocated = s.allocated + 1;
    }

pub submit : Scheduler → String → Scheduler × Option SubmitError
unfolding user_or_anonymous
submit s name =
    let user = user_or_anonymous name in
    if s.closed
    then (s, some scheduler_closed)
    else if leb s.max_queue_depth (length (queue_of user s.queues))
    then (record s { queues = insert user (queue_of user s.queues) s.queues }, some user_queue_full)
    else (enqueue s user, none)

-- The loop of `removeFromQueue`: the first pointer that is equal is cut out.
pub remove_pointer : ℕ → List ℕ → List ℕ
remove_pointer p [] = []
remove_pointer p (q ∷ qs) = let rest = remove_pointer p qs in if q == p then qs else q ∷ rest

pub remove_from_queue : Request → Scheduler → Scheduler
remove_from_queue r s = elim (lookup r.user s.queues) [
  | none ↦ s
  | some q ↦ record s { queues = insert r.user (remove_pointer r.pointer q) s.queues }
]

-- The deferred function of a request's goroutine, after it has given its place back.
pub finish : Request → List Request → Scheduler → Scheduler
finish r others s = remove_from_queue r (record s { finishing = others; inflight = s.inflight - 1 })

pub start : Request → Scheduler → Scheduler
start r s = record s { holding = none; running = r ∷ s.running; inflight = s.inflight + 1 }

-- One step of a caller, of the loop, of a request's goroutine, or of `Close`.
pub data Step (s : Scheduler) : Scheduler → Type 0 where
  submits : (name : String) {t : Scheduler} → t ≡ (submit s name).0 → Step s t
  -- `s.incoming <- fsr`
  sends :
      (before after : List Request) (r : Request) {t : Scheduler}
      → s.sending ≡ before ++ r ∷ after
      → length s.incoming < capacity s
      → t ≡ record s { sending = before ++ after; incoming = s.incoming ++ r ∷ [] }
      → Step s t
  -- `<-ctx.Done()` or `<-s.done` while sending: the caller returns.
  gives_up :
      (before after : List Request) (r : Request) {t : Scheduler}
      → s.sending ≡ before ++ r ∷ after
      → t ≡ record s { sending = before ++ after }
      → Step s t
  takes :
      (r : Request) (rest : List Request) {t : Scheduler}
      → s.stopped ≡ false
      → s.holding ≡ none
      → s.incoming ≡ r ∷ rest
      → t ≡ record s { holding = some r; incoming = rest }
      → Step s t
  -- `sem <- struct{}{}` and the count of the request that starts
  starts :
      (r : Request) {t : Scheduler}
      → s.holding ≡ some r
      → length s.running < s.max_concurrency
      → t ≡ start r s
      → Step s t
  -- `<-fsr.ctx.Done()` while the loop waits for a place: it goes on with the next request.
  drops :
      (r : Request) {t : Scheduler}
      → s.holding ≡ some r
      → t ≡ record s { holding = none }
      → Step s t
  -- `<-sem`
  releases :
      (before after : List Request) (r : Request) {t : Scheduler}
      → s.running ≡ before ++ r ∷ after
      → t ≡ record s { running = before ++ after; finishing = r ∷ s.finishing }
      → Step s t
  -- The rest of the deferred function.
  finishes :
      (before after : List Request) (r : Request) {t : Scheduler}
      → s.finishing ≡ before ++ r ∷ after
      → t ≡ finish r (before ++ after) s
      → Step s t
  closes : {t : Scheduler} → t ≡ record s { closed = true } → Step s t
  stops :
      {t : Scheduler} → s.closed ≡ true → t ≡ record s { stopped = true; holding = none } → Step s t

pub data Reach (s : Scheduler) : Scheduler → Type 0 where
  here : Reach s s
  next : {t u : Scheduler} → Reach s t → Step t u → Reach s u
