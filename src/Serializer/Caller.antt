-- ===== src/Serializer/Caller.antt =====
-- wv_ipc/work_serializer.c: the functions that queue a work, from other threads or from works.
use dwpal.Common.{
  ℕ, Bool, true, false, not, List, [], ◌∷◌, ◌++◌, Option, none, some, if◌then◌else◌, leb, length,
}
use dwpal.Serializer.{
  Timespec, Work, WorkState, async, delayed, waiting, abandoned, aborted, is_waiting, Ops,
  thread_start, signal, Serializer, emit, faulted, free, store, is_before, add_time, insert_before,
  remove,
}

-- ASYNC_WORK_LIST_MAX_SIZE and DELAYED_WORK_LIST_MAX_SIZE
abbrev pub async_max : ℕ
async_max = 500

abbrev pub delayed_max : ℕ
delayed_max = 200

-- The result of one attempt to queue a work: sleep 200 ms and try again, an error, or done.
pub data Attempt : Type 0 where
  again : Attempt
  refused queued : Serializer → Attempt

-- Whether the entry `q` has a later time than the work `w`.
unfoldable pub is_later : (ℕ → Option Work) → Work → ℕ → Bool
unfolding is_before
is_later heap w q = elim (heap q) [ none ↦ false | some e ↦ is_before w.ts e.ts ]

-- Whether the entry `q` is one that no caller waits for.
unfoldable pub is_unsynced : (ℕ → Option Work) → ℕ → Bool
is_unsynced heap q = elim (heap q) [ none ↦ false | some e ↦ not (is_waiting e.state) ]

-- The start of a paused serializer, or the signal to its thread.
unfoldable pub wake : Serializer → Serializer
wake s = if s.running then emit signal s else emit thread_start (record s { running = true })

-- The part of `_serializer_exec_work` under its first lock; `node_ok` says whether the list gets a node.
unfoldable pub attempt : Serializer → ℕ → Work → Bool → Attempt
unfolding wake free
attempt s p w node_ok =
    let in_list = λ (l : List ℕ).
      if node_ok then queued (wake (record s { work_list = l })) else refused (free p s) in
    elim w.state [
      | async ↦
          if leb async_max (length s.work_list) then again else in_list (s.work_list ++ p ∷ [])
      | delayed ↦
          if leb delayed_max (length s.delayed_list)
          then again
          else if node_ok
          then queued (
              wake (record s { delayed_list = insert_before (is_later s.heap w) p s.delayed_list }))
          else refused (free p s)
      | _ ↦ in_list (insert_before (is_unsynced s.heap) p s.work_list)
    ]

-- `_create_new_work` at the address `p` that `malloc` returned, at the time `now`.
unfoldable pub create_work : ℕ → (id obj ctx : ℕ) → WorkState → Timespec → Serializer → Serializer
create_work p id obj ctx state now s =
    store p (record { ctx = ctx; obj = obj; id = id; ts = now; state = state; result = 0 }) s

-- What a call returns: an error (1), success (0), or nothing yet.
pub data Answer : Type 0 where
  error success pending : Answer

-- The start of `serializer_exec_work`, `serializer_exec_work_async` and `serializer_add_delayed_work`:
-- `ptr` is the result of `malloc`, `in_context` says that the thread of the serializer makes the call.
unfoldable pub exec_work :
    Ops → (id obj ctx : ℕ) → Bool → Option ℕ → Timespec → Serializer → Answer × Serializer
unfolding create_work
exec_work ops id obj ctx in_context ptr now s =
    if leb ops.num_ops id then (error, s) else if in_context then (error, s) else elim ptr [
      | none ↦ (error, s)
      | some p ↦
          (pending, create_work p id obj ctx waiting now (record s { retrying = p ∷ s.retrying }))
    ]

unfoldable pub exec_work_async :
    Ops → (id obj ctx : ℕ) → Option ℕ → Timespec → Serializer → Answer × Serializer
unfolding create_work
exec_work_async ops id obj ctx ptr now s = if leb ops.num_ops id then (error, s) else elim ptr [
  | none ↦ (error, s)
  | some p ↦ (pending, create_work p id obj ctx async now (record s { retrying = p ∷ s.retrying }))
]

unfoldable pub add_delayed_work :
    Ops
    → (id obj ctx : ℕ) → (secs msecs : ℕ) → Option ℕ
    → Timespec
    → Serializer
    → Answer × Serializer
unfolding create_work
add_delayed_work ops id obj ctx secs msecs ptr now s =
    if leb ops.num_ops id then (error, s) else elim ptr [
      | none ↦ (error, s)
      | some p ↦ (
        pending,
        create_work p id obj ctx delayed (add_time now secs msecs)
            (record s { retrying = p ∷ s.retrying }),
      )
    ]

-- The next attempt of a thread to queue its work, and where it goes on.
unfoldable pub try_queue : ℕ → Bool → Serializer → Answer × Serializer
unfolding attempt
try_queue p node_ok s = elim (s.heap p) [
  | none ↦ (error, faulted s)
  | some w ↦
      let kept = (remove p s.retrying).1 in
      elim (attempt s p w node_ok) [
        | again ↦ (pending, s)
        | refused s' ↦ (error, record s' { retrying = kept })
        | queued s' ↦
            if is_waiting w.state
            then (pending, record s' { retrying = kept; callers = p ∷ s'.callers })
            else (success, record s' { retrying = kept })
      ]
]

-- The end of `_serializer_exec_work` for a work that its caller waits for, once the loop over
-- `pthread_cond_timedwait` has ended: by a timeout, or by the state of the work. With it the result.
unfoldable pub exec_return : ℕ → Serializer → Answer × Option ℕ × Serializer
unfolding free
exec_return p s = elim (s.heap p) [
  | none ↦ (error, none, faulted s)
  | some w ↦
      let left = record s { callers = (remove p s.callers).1 } in
      let (found, rest) = remove p s.work_list in
      elim w.state [
        | waiting ↦
            if found
            then (error, none, free p (record left { work_list = rest }))
            else (error, none, store p (record w { state = abandoned }) left)
        | aborted ↦ (error, none, free p left)
        | _ ↦ (success, some w.result, free p left)
      ]
]
