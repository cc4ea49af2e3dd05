-- ===== src/Serializer/Ownership/Queueing.antt =====
-- wv_ipc/work_serializer.c: the callers' steps and who holds each work.
use dwpal.Common.{ℕ, ◌<◌, ◌≡◌, Bool, none, some, arith, inl, inr, Option-cases}
use dwpal.Serializer.{Timespec, Work, Ops, Serializer}
use dwpal.Serializer.Caller.{
  exec_work, exec_work_async, add_delayed_work, try_queue, exec_return, is_unsynced, is_later,
}
use dwpal.Serializer.Ownership.{count, HeldAt, IsSound}
use dwpal.Serializer.Ownership.Counts.{count-insert_before, count-snoc, count-remove, remove_found}

module _ (ops : Ops) (id obj ctx p : ℕ) (now : Timespec) (s : Serializer) (fresh : s.heap p ≡ none)
    (v : IsSound s) where
  pub exec_work-IsSound :
      (in_context : Bool) → IsSound (exec_work ops id obj ctx in_context (some p) now s).1
  unfolding exec_work
  exec_work-IsSound in_context = record {
    no_fault = ground (arith, v.no_fault);
    held = λ x. ground (arith, v.held x, fresh);
  }

  pub exec_work_async-IsSound : IsSound (exec_work_async ops id obj ctx (some p) now s).1
  unfolding exec_work_async
  exec_work_async-IsSound = record {
    no_fault = ground (arith, v.no_fault);
    held = λ x. ground (arith, v.held x, fresh);
  }

  pub add_delayed_work-IsSound :
      (secs msecs : ℕ) → IsSound (add_delayed_work ops id obj ctx secs msecs (some p) now s).1
  unfolding add_delayed_work
  add_delayed_work-IsSound secs msecs = record {
    no_fault = ground (arith, v.no_fault);
    held = λ x. ground (arith, v.held x, fresh);
  }

module _ (p : ℕ) (s : Serializer) (v : IsSound s) where
  queue_held :
      (node_ok : Bool) (w : Work) (x : ℕ)
      → s.heap p ≡ some w
      → 0 < count p s.retrying
      → HeldAt (try_queue p node_ok s).1 x
  unfolding try_queue
  queue_held node_ok w x at h = ground (
    arith,
    v.held x,
    v.held p,
    count-remove x p s.retrying,
    count-snoc x p s.work_list,
    count-insert_before x (is_unsynced s.heap) p s.work_list,
    count-insert_before x (is_later s.heap w) p s.delayed_list,
  )

  pub try_queue-IsSound :
      (node_ok : Bool) → 0 < count p s.retrying → IsSound (try_queue p node_ok s).1
  try_queue-IsSound node_ok h = elim (Option-cases (s.heap p)) [
    | inl gone ↦ absurd (ground (arith, v.held p))
    | inr (w, at) ↦ record {
      no_fault = unfold try_queue in ground (arith, v.no_fault);
      held = λ x. queue_held node_ok w x at h;
    }
  ]

  pub exec_return-IsSound : 0 < count p s.callers → IsSound (exec_return p s).2
  unfolding exec_return
  exec_return-IsSound h = record {
    no_fault = ground (arith, v.no_fault, v.held p);
    held = λ x. ground (
      arith,
      v.held x,
      v.held p,
      count-remove x p s.callers,
      count-remove x p s.work_list,
      remove_found p s.work_list,
    );
  }
