-- ===== src/Serializer/Ownership/Steps.antt =====
-- wv_ipc/work_serializer.c: the steps of the callers' threads and of the serializer's thread, which the
-- lock makes one after the other, in any order.
use dwpal.Common.{ℕ, ◌<◌, ◌≡◌, ◌⊎◌, Bool, true, false, [], some, none, refl, arith}
use dwpal.Serializer.{Timespec, Work, is_waiting, Ops, Serializer}
use dwpal.Serializer.Caller.{exec_work, exec_work_async, add_delayed_work, try_queue, exec_return}
use dwpal.Serializer.Worker.{execute, drop, round, take_work, call_work, finish}
use dwpal.Serializer.Spared.{stop_all-IsSound}
use dwpal.Serializer.Cancel.{cancel_delayed_work, stop_all_by_ctx, destroy}
use dwpal.Serializer.Ownership.Destroy.{destroy-IsSound}
use dwpal.Serializer.Ownership.{count, IsSound}
use dwpal.Serializer.Ownership.Queueing.{
  exec_work-IsSound, exec_work_async-IsSound, add_delayed_work-IsSound, try_queue-IsSound,
  exec_return-IsSound,
}
use dwpal.Serializer.Ownership.Thread.{
  work-IsSound, round-IsSound, call_work-IsSound, finish-IsSound,
}
use dwpal.Serializer.Ownership.Loops.{cancel-IsSound}

-- `malloc` gives any address that is not allocated; a caller returns when its wait has timed out or its work
-- is not waited for any more, so at any time; the thread takes a work when it has none. It reads `stop`
-- before it takes the lock, so `stop` may be set in between (`takes_late`). `serializer_stop_all_by_ctx` is a step where
-- no caller waits for a queued work of its context, and the end of `serializer_destroy` one where the thread has ended and no
-- caller is inside a call.
pub data Step (ops : Ops) (s t : Serializer) : Type 0 where
  call :
      (id obj ctx p : ℕ) (now : Timespec) (in_context : Bool)
      → s.heap p ≡ none
      → t ≡ (exec_work ops id obj ctx in_context (some p) now s).1
      → Step ops s t
  call_async :
      (id obj ctx p : ℕ) (now : Timespec)
      → s.heap p ≡ none
      → t ≡ (exec_work_async ops id obj ctx (some p) now s).1
      → Step ops s t
  call_delayed :
      (id obj ctx secs msecs p : ℕ) (now : Timespec)
      → s.heap p ≡ none
      → t ≡ (add_delayed_work ops id obj ctx secs msecs (some p) now s).1
      → Step ops s t
  attempts :
      (p : ℕ) (node_ok : Bool)
      → 0 < count p s.retrying
      → t ≡ (try_queue p node_ok s).1
      → Step ops s t
  returns : (p : ℕ) → 0 < count p s.callers → t ≡ (exec_return p s).2 → Step ops s t
  takes :
      (failed : Bool) (now : Timespec)
      → s.worker ≡ none
      → ((p : ℕ) × (round ops failed now s ≡ execute p t)) ⊎ (round ops failed now s ≡ drop t)
      → Step ops s t
  takes_late :
      (failed : Bool) (now : Timespec)
      → s.worker ≡ none
      → ((p : ℕ) × (take_work ops failed now s.work_list s ≡ execute p t))
        ⊎ (take_work ops failed now s.work_list s ≡ drop t)
      → Step ops s t
  calls : (p : ℕ) → s.worker ≡ some p → t ≡ call_work ops p s → Step ops s t
  finishes : (p result : ℕ) → s.worker ≡ some p → t ≡ finish p result s → Step ops s t
  cancels :
      (id key ctx : ℕ) (in_context : Bool)
      → t ≡ (cancel_delayed_work ops id key ctx in_context s).1
      → Step ops s t
  stops : t ≡ record s { stop = true } → Step ops s t
  stops_all :
      (ctx : ℕ)
      → ((p : ℕ) (w : Work)
          → s.heap p ≡ some w
          → w.ctx ≡ ctx
          → 0 < count p s.work_list
          → is_waiting w.state ≡ false)
      → t ≡ (stop_all_by_ctx ops ctx true s).1
      → Step ops s t
  destroys : s.worker ≡ none → s.callers ≡ [] → s.retrying ≡ [] → t ≡ destroy ops s → Step ops s t

pub data Reach (ops : Ops) (s : Serializer) : Serializer → Type 0 where
  here : Reach ops s s
  next : {t u : Serializer} → Reach ops s t → Step ops t u → Reach ops s u

-- `serializer_create`
unfoldable pub create : Bool → Serializer
create start_now = record {
  running = start_now;
  stop = false;
  work_list = [];
  delayed_list = [];
  heap = λ _. none;
  worker = none;
  retrying = [];
  callers = [];
  events = [];
  fault = false;
}

Step-IsSound : (ops : Ops) (s t : Serializer) → IsSound s → Step ops s t → IsSound t
Step-IsSound ops s t v (call id obj ctx p now c f e) =
    rw e (exec_work-IsSound ops id obj ctx p now s f v c)
Step-IsSound ops s t v (call_async id obj ctx p now f e) =
    rw e (exec_work_async-IsSound ops id obj ctx p now s f v)
Step-IsSound ops s t v (call_delayed id obj ctx secs msecs p now f e) =
    rw e (add_delayed_work-IsSound ops id obj ctx p now s f v secs msecs)
Step-IsSound ops s t v (attempts p ok h e) = rw e (try_queue-IsSound p s v ok h)
Step-IsSound ops s t v (returns p h e) = rw e (exec_return-IsSound p s v h)
Step-IsSound ops s t v (takes failed now idle r) = round-IsSound ops failed now s t v idle r
Step-IsSound ops s t v (takes_late failed now idle r) =
    work-IsSound ops failed now s t v idle s.work_list refl r
Step-IsSound ops s t v (calls p busy e) = rw e (call_work-IsSound p s v busy ops)
Step-IsSound ops s t v (finishes p result busy e) = rw e (finish-IsSound p s v busy result)
Step-IsSound ops s t v (cancels id key ctx c e) = rw e (cancel-IsSound ops id key ctx c s v)
Step-IsSound ops s t v (stops_all ctx free e) = rw e (stop_all-IsSound ops ctx s v free)
Step-IsSound ops s t v (destroys idle quiet settled e) =
    rw e (destroy-IsSound ops s v idle quiet settled)
Step-IsSound ops s t v (stops e) = rw e (record { no_fault = v.no_fault; held = v.held })

create-IsSound : (start_now : Bool) → IsSound (create start_now)
unfolding create
create-IsSound start_now = record { no_fault = refl; held = λ x. omega arith }

-- However the steps of callers and of the thread follow one another after `serializer_create`, no freed
-- work is read, written or freed again, and no allocated work is lost: each is queued, in the thread's
-- hand, or held by the thread that created it or waits for it, as its state says. The steps are all operations of
-- work_serializer.c that change its state, with two conditions: `serializer_stop_all_by_ctx` is called only while no caller waits for a queued
-- work of its context, and `serializer_destroy` frees what is left once the thread has ended and no caller is inside a call.
pub Reach-IsSound :
    (ops : Ops) (start_now : Bool) {s : Serializer} → Reach ops (create start_now) s → IsSound s
Reach-IsSound ops start_now here = create-IsSound start_now
Reach-IsSound ops start_now (next {t = t} {u = u} r st) =
    Step-IsSound ops t u (Reach-IsSound ops start_now r) st
