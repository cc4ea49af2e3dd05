-- ===== src/Serializer/Tests.antt =====
-- wv_ipc/work_serializer.c on small inputs.
use dwpal.Common.{
  ℕ, ◌<◌, ◌≡◌, ◌⊎◌, inl, refl, true, false, List, [], ◌∷◌, Option, none, some, arith, update,
}
use dwpal.Serializer.{
  Timespec, Work, WorkState, async, delayed, waiting, Ops, Serializer, is_before, insert_before,
  remove,
}
use dwpal.Serializer.Caller.{
  queued, attempt, is_later, is_unsynced, wake, create_work, exec_work, try_queue, exec_return,
}
use dwpal.Serializer.Worker.{round, take_work, take_delayed, after_loop}
use dwpal.Serializer.Cancel.{stop_all_by_ctx, destroy}
use dwpal.Serializer.Order.{SplitsAt, IsOrdered, attempt-IsOrdered}
use dwpal.Serializer.Schedule.{TookWork, TookDelayed, round-execute}
use dwpal.Serializer.Ownership.{count, IsSound}
use dwpal.Serializer.Ownership.Destroy.{destroy_frees_all}
use dwpal.Serializer.Ownership.Steps.{
  call, attempts, takes, Reach, here, next, create, Reach-IsSound,
}
use dwpal.Serializer.Abort.{stop_all_lem, stop_all_frees_awaited}

abbrev ops : Ops
ops = record { num_ops = 2; has_free = λ _. true; cmp_func = λ _. none }

abbrev at_time : ℕ → ℕ → Timespec
at_time sec nsec = record { sec = sec; nsec = nsec }

abbrev start : Timespec
start = at_time 5 0

abbrev work : WorkState → Timespec → Work
work state ts = record { ctx = 4; obj = 9; id = 1; ts = ts; state = state; result = 0 }

-- Works: 1 is asynchronous, 2 is delayed until second 7, 3 is one that its caller waits for.
abbrev works : ℕ → Option Work
works =
    update
      (update (update (λ _. none) 1 (some (work async start))) 2
        (some (work delayed (at_time 7 0))))
      3 (some (work waiting start))

abbrev busy : Serializer
busy = record {
  running = true;
  stop = false;
  work_list = 1 ∷ [];
  delayed_list = 2 ∷ [];
  heap = works;
  worker = none;
  retrying = 3 ∷ [];
  callers = [];
  events = [];
  fault = false;
}

busy-IsOrdered : IsOrdered busy
busy-IsOrdered = record { by_time = (tt, tt); synced_first = (λ _. tt, tt) }

-- The synchronous work overtakes the asynchronous one.
attempt-busy :
    attempt busy 3 (work waiting start) true
    ≡ queued (wake (record busy { work_list = 3 ∷ 1 ∷ [] }))
unfolding attempt insert_before is_unsynced
attempt-busy = refl

abbrev synced : Serializer
synced = wake (record busy { work_list = 3 ∷ 1 ∷ [] })

attempt-IsOrdered_example :
    IsOrdered synced
    × (((waiting ≡ waiting)
          × SplitsAt (is_unsynced works) 3 (1 ∷ []) synced.work_list
          × (synced.delayed_list ≡ 2 ∷ []))
        ⊎ (((waiting ≡ async) × (synced.work_list ≡ 1 ∷ 3 ∷ []) × (synced.delayed_list ≡ 2 ∷ []))
            ⊎ ((waiting ≡ delayed)
                × SplitsAt (is_later works (work waiting start)) 3 (2 ∷ []) synced.delayed_list
                × (synced.work_list ≡ 1 ∷ []))))
attempt-IsOrdered_example =
    attempt-IsOrdered busy synced 3 (work waiting start) true busy-IsOrdered refl (inl refl)
      attempt-busy

abbrev no_works : List ℕ
no_works = []

abbrev delayed_works : List ℕ
delayed_works = 2 ∷ []

abbrev idle : Serializer
idle = record busy { work_list = [] }

-- At second 8 the delayed work is due.
round-execute_example :
    (TookWork works 2 [] [] × (no_works ≡ delayed_works))
    ⊎ ((no_works ≡ no_works)
        × (no_works ≡ no_works)
        × TookDelayed works (at_time 8 0) 2 (2 ∷ []) [])
unfolding round take_work take_delayed after_loop is_before
round-execute_example =
    round-execute ops false (at_time 8 0) idle (record idle { delayed_list = []; worker = some 2 })
      2 (record { by_time = (tt, tt); synced_first = tt }) refl

-- A caller waits for the work 3, which stands in the work list.
abbrev awaited : Serializer
awaited = record busy {
  work_list = 3 ∷ [];
  delayed_list = [];
  heap = update (λ _. none) 3 (some (work waiting start));
  retrying = [];
  callers = 3 ∷ [];
}

awaited-IsSound : IsSound awaited
awaited-IsSound = record { no_fault = refl; held = λ p. ground arith }

stop_all_lem_example :
    let t = (stop_all_by_ctx ops 4 true awaited).1 in
    (t.heap 3 ≡ none) × (t.delayed_list ≡ no_works) × (t.callers ≡ 3 ∷ [])
stop_all_lem_example = let r = stop_all_lem ops 4 awaited awaited-IsSound in (r.0 3, r.1, r.2)

stop_all_frees_awaited_example :
    let t = (stop_all_by_ctx ops 4 true awaited).1 in
    (t.heap 3 ≡ none) × (0 < count 3 t.callers) × ((exec_return 3 t).2.fault ≡ true)
stop_all_frees_awaited_example =
    stop_all_frees_awaited ops 4 awaited awaited-IsSound 3 (work waiting start) refl refl refl
      (omega arith)

-- An asynchronous work is all that is left.
abbrev leftover : Serializer
leftover = record awaited {
  work_list = 3 ∷ [];
  heap = update (λ _. none) 3 (some (work async start));
  callers = [];
}

leftover-IsSound : IsSound leftover
leftover-IsSound = record { no_fault = refl; held = λ p. ground arith }

destroy_frees_all_example :
    ((destroy ops leftover).fault ≡ false) × ((x : ℕ) → (destroy ops leftover).heap x ≡ none)
destroy_frees_all_example = destroy_frees_all ops leftover leftover-IsSound refl refl refl

-- A caller creates a work, queues it, and the thread takes it.
abbrev called : Serializer
called = (exec_work ops 1 9 4 false (some 3) start (create true)).1

abbrev in_queue : Serializer
in_queue = (try_queue 3 true called).1

abbrev taken : Serializer
taken = record in_queue { work_list = []; worker = some 3 }

taken-Reach : Reach ops (create true) taken
unfolding create exec_work create_work try_queue attempt insert_before wake remove round take_work
taken-Reach =
    next
      (next (next here (call 1 9 4 3 start false refl refl)) (attempts 3 true (omega arith) refl))
      (takes false start refl (inl (3, refl)))

Reach-IsSound_example : IsSound taken
Reach-IsSound_example = Reach-IsSound ops true taken-Reach
