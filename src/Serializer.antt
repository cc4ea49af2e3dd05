-- ===== src/Serializer.antt =====
-- wv_ipc/work_serializer.c: works that callers queue and one thread executes. This file has the state and
-- the clock; the children have the callers' and the thread's side.
pub mod Clock
pub mod Caller
pub mod Worker
pub mod Cancel
pub mod Order
pub mod Schedule
pub mod Ownership
pub mod Abort
pub mod Spared
pub mod Tests
use dwpal.Common.{
  ℕ, ◌+◌, ◌*◌, ◌/◌, ◌%◌, ◌^◌, ◌≡◌, Bool, true, false, ◌&&◌, ◌||◌, List, [], ◌∷◌, ◌++◌, Option, none,
  some, if◌then◌else◌, ltb, leb, ◌==◌, update,
}

-- `struct timespec`
pub record Timespec : Type 0 where
  pub sec : ℕ
  pub nsec : ℕ

-- `work_state_t`: WORK_ASYNC, WORK_DELAYED, WORK_WAITING_FOR_FINISH, WORK_DONE, WORK_ABANDONED and
-- WORK_ABORTED.
pub data WorkState : Type 0 where
  async delayed waiting done abandoned aborted : WorkState

abbrev pub is_waiting : WorkState → Bool
is_waiting waiting = true
is_waiting _ = false

-- `work_t`; `obj` and `ctx` are opaque pointers.
pub record Work : Type 0 where
  pub ctx : ℕ
  pub obj : ℕ
  pub id : ℕ
  pub ts : Timespec
  pub state : WorkState
  pub result : ℕ

-- `work_ops_t` for each kind of work: whether there is a `free_func`, and the `cmp_func` if there is one.
pub record Ops : Type 0 where
  pub num_ops : ℕ
  pub has_free : ℕ → Bool
  pub cmp_func : ℕ → Option (ℕ → ℕ → ℕ)

-- What the code calls outside of itself, in order, the latest first.
pub data Event : Type 0 where
  run release : (id obj ctx : ℕ) → Event
  thread_start signal broadcast : Event

-- The serializer with the memory of its works: `none` at an address that holds no allocated `work_t`.
-- `worker` is the thread's local `work`, `retrying` the works of the threads that are to make their next
-- attempt to queue it, `callers` the works of the threads that wait in `serializer_exec_work`, and
-- `fault` says that a freed work was read, written or freed.
pub record Serializer : Type 0 where
  pub running : Bool
  pub stop : Bool
  pub work_list : List ℕ
  pub delayed_list : List ℕ
  pub heap : ℕ → Option Work
  pub worker : Option ℕ
  pub retrying : List ℕ
  pub callers : List ℕ
  pub events : List Event
  pub fault : Bool

abbrev pub emit : Event → Serializer → Serializer
emit e s = record s { events = e ∷ s.events }

abbrev pub faulted : Serializer → Serializer
faulted s = record s { fault = true }

-- `free(work)`
unfoldable pub free : ℕ → Serializer → Serializer
free p s = elim (s.heap p) [ none ↦ faulted s | some w ↦ record s { heap = update s.heap p none } ]

abbrev pub store : ℕ → Work → Serializer → Serializer
store p w s = record s { heap = update s.heap p (some w) }

-- The `free_func` of a work, where its kind has one.
unfoldable pub release_obj : Ops → Work → Serializer → Serializer
release_obj ops w s = if ops.has_free w.id then emit (release w.id w.obj w.ctx) s else s

-- `_is_delayed_work_before`
unfoldable pub is_before : Timespec → Timespec → Bool
is_before a b = ltb a.sec b.sec || (a.sec == b.sec && ltb a.nsec b.nsec)

-- `_add_time_to_timespec`: the sum of the two `unsigned int` wraps, the fields of `ts` are 64 bits wide.
unfoldable pub add_time : Timespec → ℕ → ℕ → Timespec
add_time ts secs msecs =
    let sec = ts.sec + (secs + msecs / 1000) % 2 ^ 32 in
    let nsec = ts.nsec + msecs % 1000 * 1000000 in
    if leb 1000000000 nsec
    then record { sec = sec + 1; nsec = nsec % 1000000000 }
    else record { sec = sec; nsec = nsec }

-- The loops of `_serializer_exec_work`: the new node goes before the first entry that passes the test,
-- and to the end if none does.
unfoldable pub insert_before : (ℕ → Bool) → ℕ → List ℕ → List ℕ
insert_before test p [] = p ∷ []
insert_before test p (q ∷ qs) = if test q then p ∷ q ∷ qs else q ∷ insert_before test p qs

-- `list_remove`: the first node with the object goes; the result says whether there was one.
unfoldable pub remove : ℕ → List ℕ → Bool × List ℕ
remove p [] = (false, [])
remove p (q ∷ qs) =
    let (found, rest) = remove p qs in if q == p then (true, qs) else (found, q ∷ rest)
