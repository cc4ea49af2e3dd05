-- ===== src/Serializer/Worker.antt =====
-- wv_ipc/work_serializer.c: the serializer's thread, `serializer_work_thread`.
use dwpal.Common.{ℕ, ◌+◌, Bool, List, [], ◌∷◌, Option, none, some, if◌then◌else◌, ltb}
use dwpal.Serializer.{
  Timespec, Work, done, is_waiting, Ops, run, broadcast, Serializer, emit, faulted, free, store,
  release_obj, is_before,
}

-- What one round of the inner loop ends in: a work to execute, a work that is dropped as the thread stops,
-- a wait on the condition variable until a time, or the end of the thread.
pub data Round : Type 0 where
  execute : ℕ → Serializer → Round
  drop : Serializer → Round
  wait : Timespec → Serializer → Round
  exit : Serializer → Round

-- The end of the thread with a work in hand: `free_func` and `free`.
unfoldable pub abandon : Ops → ℕ → Work → Serializer → Serializer
unfolding free release_obj
abandon ops p w s = free p (release_obj ops w s)

-- After the inner loop with a work that no caller waits for: it is executed unless the thread is told to
-- stop or a wait has failed (`failed`), and then it is dropped.
unfoldable pub after_loop : Ops → Bool → ℕ → Work → Serializer → Round
unfolding abandon
after_loop ops failed p w s =
    if failed
    then drop (abandon ops p w s)
    else if s.stop
    then drop (abandon ops p w s)
    else execute p (record s { worker = some p })

-- The time to wait to: that of the first delayed work, but at most ten seconds ahead.
unfoldable pub wait_until : Timespec → Option Timespec → Timespec
wait_until now none = record now { sec = now.sec + 10 }
wait_until now (some ts) =
    if ltb ts.sec (now.sec + 10) then ts else record now { sec = now.sec + 10 }

-- A round with an empty work list: the first delayed work is taken if its time has come.
unfoldable pub take_delayed : Ops → Bool → Timespec → List ℕ → Serializer → Round
unfolding wait_until is_before after_loop
take_delayed ops failed now [] s = wait (wait_until now none) s
take_delayed ops failed now (p ∷ ps) s = elim (s.heap p) [
  | none ↦ drop (faulted s)
  | some w ↦
      if is_before w.ts now
      then after_loop ops failed p w (record s { delayed_list = ps })
      else wait (wait_until now (some w.ts)) s
]

-- A round with the work list: a work that a caller waits for is executed at once, also while stopping.
unfoldable pub take_work : Ops → Bool → Timespec → List ℕ → Serializer → Round
unfolding take_delayed after_loop
take_work ops failed now [] s = take_delayed ops failed now s.delayed_list s
take_work ops failed now (p ∷ ps) s = elim (s.heap p) [
  | none ↦ drop (faulted s)
  | some w ↦
      if is_waiting w.state
      then execute p (record s { work_list = ps; worker = some p })
      else after_loop ops failed p w (record s { work_list = ps })
]

-- One round of the thread from the top of its loop, where it stops if it is told to.
unfoldable pub round : Ops → Bool → Timespec → Serializer → Round
unfolding take_work
round ops failed now s = if s.stop then exit s else take_work ops failed now s.work_list s

-- The calls of `work_func` and `free_func` for the work in hand, outside the lock.
unfoldable pub call_work : Ops → ℕ → Serializer → Serializer
unfolding release_obj
call_work ops p s = elim (s.heap p) [
  | none ↦ faulted s
  | some w ↦ release_obj ops w (emit (run w.id w.obj w.ctx) s)
]

-- After the calls, under the lock: the caller is told the result, or the work is freed.
unfoldable pub finish : ℕ → ℕ → Serializer → Serializer
unfolding free
finish p result s = elim (s.heap p) [
  | none ↦ faulted s
  | some w ↦
      let idle = record s { worker = none } in
      if is_waiting w.state
      then emit broadcast (store p (record w { result = result; state = done }) idle)
      else free p idle
]
