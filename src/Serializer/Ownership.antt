-- ===== src/Serializer/Ownership.antt =====
-- wv_ipc/work_serializer.c: who holds each `work_t`, and the steps of the callers and of the thread in any
-- order. `serializer_stop_all_by_ctx` is a step where no caller waits for what it frees: `Serializer.Abort` has the other case.
pub mod Counts
pub mod Queueing
pub mod Thread
pub mod Loops
pub mod Destroy
pub mod Steps
pub use dwpal.Common.{count}
use dwpal.Common.{
  ℕ, zero, suc, ◌+◌, ◌<◌, ◌≡◌, Bool, true, false, List, [], ◌∷◌, Option, none, some, if◌then◌else◌,
  ◌==◌,
}
use dwpal.Serializer.{
  Timespec, Work, WorkState, async, delayed, waiting, done, abandoned, aborted, Ops, Serializer,
}

abbrev pub in_hand : ℕ → Option ℕ → ℕ
in_hand p none = 0
in_hand p (some q) = if q == p then 1 else 0

-- What is allocated at an address, against the numbers of times that it is in the work list, in the
-- delayed list, in the thread's hand, waited for, and about to be queued.
--   Free memory is nowhere. A work has one holder that will free it: the list or the thread, until its
-- caller has it back; a work that a caller waits for is in a list or in the thread's hand until it is done.
abbrev pub HeldIn : WorkState → (listed postponed taken awaited new : ℕ) → Type 0
HeldIn waiting l d h c t = (l + h + t ≡ 1) × (c + t ≡ 1) × (d ≡ 0)
HeldIn async l d h c t = (l + h + t ≡ 1) × (c ≡ 0) × (d ≡ 0)
HeldIn delayed l d h c t = (d + h + t ≡ 1) × (c ≡ 0) × (l ≡ 0)
HeldIn done l d h c t = (l ≡ 0) × (d ≡ 0) × (h ≡ 0) × (c ≡ 1) × (t ≡ 0)
HeldIn abandoned l d h c t = (l ≡ 0) × (d ≡ 0) × (h ≡ 1) × (c ≡ 0) × (t ≡ 0)
HeldIn aborted l d h c t = ⊥

abbrev pub Held : Option Work → (listed postponed taken awaited new : ℕ) → Type 0
Held none l d h c t = (l ≡ 0) × (d ≡ 0) × (h ≡ 0) × (c ≡ 0) × (t ≡ 0)
Held (some w) l d h c t = HeldIn w.state l d h c t

abbrev pub HeldAt : Serializer → ℕ → Type 0
HeldAt s p =
    Held (s.heap p) (count p s.work_list) (count p s.delayed_list) (in_hand p s.worker)
      (count p s.callers) (count p s.retrying)

pub record IsSound (s : Serializer) : Type 0 where
  pub no_fault : s.fault ≡ false
  pub held : (p : ℕ) → HeldAt s p
