-- ===== src/Serializer/Schedule.antt =====
-- wv_ipc/work_serializer.c: which work the thread executes next, and how long it waits.
use dwpal.Common.{
  ℕ, ◌+◌, ◌≤◌, ◌≡◌, refl, ◌⊎◌, inl, inr, Bool, true, false, List, [], ◌∷◌, Option, arith, All,
}
use dwpal.Serializer.{Timespec, Work, Ops, Serializer, is_before}
use dwpal.Serializer.Caller.{is_unsynced}
use dwpal.Serializer.Worker.{execute, wait, round, take_work, take_delayed}
use dwpal.Serializer.Order.{time_of, NotBefore, IsSorted, IsSyncFirst, IsOrdered}

-- The thread took the first work of its list, and a work that no caller waits for only if no entry of the
-- list is waited for.
pub record TookWork (heap : ℕ → Option Work) (p : ℕ) (l l' : List ℕ) : Type 0 where
  pub first : l ≡ p ∷ l'
  pub no_sync_behind : is_unsynced heap p ≡ true → All (λ y. is_unsynced heap y ≡ true) l'

-- The thread took the first delayed work; its time has passed, and no other entry has an earlier one.
pub record TookDelayed (heap : ℕ → Option Work) (now : Timespec) (p : ℕ) (l l' : List ℕ)
    : Type 0 where
  pub first : l ≡ p ∷ l'
  pub due : is_before (time_of heap p) now ≡ true
  pub earliest : All (λ y. NotBefore (time_of heap y) (time_of heap p)) l'

module _ (ops : Ops) (failed : Bool) (now : Timespec) (s s' : Serializer) (p : ℕ) where
  delayed_execute :
      (l : List ℕ)
      → IsSorted (time_of s.heap) l
      → take_delayed ops failed now l s ≡ execute p s'
      → (s'.work_list ≡ s.work_list) × TookDelayed s.heap now p l s'.delayed_list
  unfolding take_delayed
  delayed_execute [] o e = ground arith
  delayed_execute (q ∷ l) o e =
      let same : p ≡ q = ground arith in
      let left : s'.delayed_list ≡ l = ground arith in
      (
        ground arith,
        record { first = ground arith; due = ground arith; earliest = rw (same, left) o.0 },
      )

  work_execute :
      (l : List ℕ)
      → IsSyncFirst (is_unsynced s.heap) l
      → IsSorted (time_of s.heap) s.delayed_list
      → take_work ops failed now l s ≡ execute p s'
      → (TookWork s.heap p l s'.work_list × (s'.delayed_list ≡ s.delayed_list))
        ⊎ ((l ≡ [])
            × (s'.work_list ≡ s.work_list)
            × TookDelayed s.heap now p s.delayed_list s'.delayed_list)
  unfolding take_work
  work_execute [] f o e = let r = delayed_execute s.delayed_list o e in inr (refl, r.0, r.1)
  work_execute (q ∷ l) f o e =
      let same : p ≡ q = ground arith in
      let left : s'.work_list ≡ l = ground arith in
      inl (record { first = ground arith; no_sync_behind = rw (same, left) f.0 }, ground arith)

  -- If both lists are in order, what a round of the thread takes to execute is the first work of the list,
  -- where those that a caller waits for go first; and only if that list is empty a delayed work, never
  -- before its time, and one with the earliest time of all.
  pub round-execute :
      IsOrdered s
      → round ops failed now s ≡ execute p s'
      → (TookWork s.heap p s.work_list s'.work_list × (s'.delayed_list ≡ s.delayed_list))
        ⊎ ((s.work_list ≡ [])
            × (s'.work_list ≡ s.work_list)
            × TookDelayed s.heap now p s.delayed_list s'.delayed_list)
  unfolding round
  round-execute o e = work_execute s.work_list o.synced_first o.by_time (ground arith)

module _ (ops : Ops) (failed : Bool) (now t : Timespec) (s s' : Serializer) where
  delayed_wait :
      (l : List ℕ)
      → take_delayed ops failed now l s ≡ wait t s'
      → (s' ≡ s)
        × (t.sec ≤ now.sec + 10)
        × ((l ≡ [])
            ⊎ ((p : ℕ) × (ps : List ℕ) × (l ≡ p ∷ ps)
                × (is_before (time_of s.heap p) now ≡ false)
                × (t.sec ≤ (time_of s.heap p).sec)))
  unfolding take_delayed
  delayed_wait [] e = (ground arith, ground arith, inl refl)
  delayed_wait (q ∷ l) e =
      (ground arith, ground arith, inr (q, l, refl, ground arith, ground arith))

  work_wait :
      (l : List ℕ)
      → take_work ops failed now l s ≡ wait t s'
      → (l ≡ []) × (take_delayed ops failed now s.delayed_list s ≡ wait t s')
  unfolding take_work
  work_wait [] e = (refl, e)
  work_wait (q ∷ l) e = ground arith

  -- The thread goes to sleep only when no work is queued and the first delayed work, if there is one, is
  -- not due; it leaves the lists alone, and sleeps at most to the second of that work and ten seconds.
  pub round-wait :
      round ops failed now s ≡ wait t s'
      → (s' ≡ s)
        × (s.work_list ≡ [])
        × (t.sec ≤ now.sec + 10)
        × ((s.delayed_list ≡ [])
            ⊎ ((p : ℕ) × (ps : List ℕ) × (s.delayed_list ≡ p ∷ ps)
                × (is_before (time_of s.heap p) now ≡ false)
                × (t.sec ≤ (time_of s.heap p).sec)))
  unfolding round
  round-wait e =
      let w = work_wait s.work_list (ground arith) in
      let d = delayed_wait s.delayed_list w.1 in (d.0, w.0, d.1, d.2)
