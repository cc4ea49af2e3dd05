-- ===== src/Serializer/Order.antt =====
-- wv_ipc/work_serializer.c: where a queued work goes, in the work list or in the delayed list.
use dwpal.Common.{
  ℕ, ◌≡◌, refl, sym, ap, ◌∙◌, ◌⊎◌, inl, inr, Bool, true, false, List, [], ◌∷◌, ◌++◌, Option, none,
  some, arith, All, All-append, All-map, Bool-cases,
}
use dwpal.Serializer.{Timespec, Work, async, delayed, waiting, Serializer, is_before, insert_before}
use dwpal.Serializer.Caller.{queued, attempt, is_later, is_unsynced}

-- The list splits where the new entry goes: no entry before it passes the test, and the one after it does.
pub record SplitsAt (test : ℕ → Bool) (p : ℕ) (l l' : List ℕ) : Type 0 where
  pub front : List ℕ
  pub back : List ℕ
  pub was : l ≡ front ++ back
  pub is_now : l' ≡ front ++ p ∷ back
  pub passed : All (λ q. test q ≡ false) front
  pub stopped : elim back as (λ _. Type 0) [ [] ↦ Unit {0} | q ∷ _ ↦ test q ≡ true ]

pub insert_before_lem :
    (test : ℕ → Bool) (p : ℕ) (l : List ℕ) → SplitsAt test p l (insert_before test p l)
unfolding insert_before
insert_before_lem test p [] = record {
  front = [];
  back = [];
  was = refl;
  is_now = refl;
  passed = tt;
  stopped = tt;
}
insert_before_lem test p (q ∷ l) = elim (Bool-cases (test q)) [
  | inl here ↦ record {
    front = [];
    back = q ∷ l;
    was = refl;
    is_now = rw here refl;
    passed = tt;
    stopped = here;
  }
  | inr on ↦
      let r = insert_before_lem test p l in
      record {
        front = q ∷ r.front;
        back = r.back;
        was = ap (λ t. q ∷ t) r.was;
        is_now = rw on (ap (λ t. q ∷ t) r.is_now);
        passed = (on, r.passed);
        stopped = r.stopped;
      }
]

-- The time of an entry.
abbrev pub time_of : (ℕ → Option Work) → ℕ → Timespec
time_of heap q = elim (heap q) [ none ↦ record { sec = 0; nsec = 0 } | some w ↦ w.ts ]

abbrev pub NotBefore : Timespec → Timespec → Type 0
NotBefore a b = is_before a b ≡ false

-- No entry has an earlier time than one that stands before it.
abbrev pub IsSorted : (ℕ → Timespec) → List ℕ → Type 0
IsSorted key [] = Unit
IsSorted key (x ∷ xs) = All (λ y. NotBefore (key y) (key x)) xs × IsSorted key xs

before_trans : (a b c : Timespec) → NotBefore c b → is_before a b ≡ true → NotBefore c a
unfolding is_before
before_trans a b c h k = ground arith

before_asym : (a b : Timespec) → is_before a b ≡ true → NotBefore b a
unfolding is_before
before_asym a b h = ground arith

insert_before-All :
    (P : ℕ → Type 0) (test : ℕ → Bool) (p : ℕ) (l : List ℕ)
    → P p
    → All P l
    → All P (insert_before test p l)
unfolding insert_before
insert_before-All P test p [] h a = (h, tt)
insert_before-All P test p (q ∷ l) h a = elim (Bool-cases (test q)) [
  | inl here ↦ rw here (h, a)
  | inr on ↦ rw on (a.0, insert_before-All P test p l h a.1)
]

insert_before-IsSorted :
    (key : ℕ → Timespec) (test : ℕ → Bool) (p : ℕ) (l : List ℕ)
    → ((q : ℕ) → test q ≡ is_before (key p) (key q))
    → IsSorted key l
    → IsSorted key (insert_before test p l)
unfolding insert_before
insert_before-IsSorted key test p [] t h = (tt, tt)
insert_before-IsSorted key test p (q ∷ l) t h = elim (Bool-cases (test q)) [
  | inl here ↦
      let first = sym (t q) ∙ here in
      rw here (
        (
          before_asym (key p) (key q) first,
          All-map _ _ l (λ y b. before_trans (key p) (key q) (key y) b first) h.0,
        ),
        h,
      )
  | inr on ↦ rw on (
    insert_before-All (λ y. NotBefore (key y) (key q)) test p l (sym (t q) ∙ on) h.0,
    insert_before-IsSorted key test p l t h.1,
  )
]

-- No entry that a caller waits for stands behind one that no caller waits for.
abbrev pub IsSyncFirst : (ℕ → Bool) → List ℕ → Type 0
IsSyncFirst unsynced [] = Unit
IsSyncFirst unsynced (x ∷ xs) =
    (unsynced x ≡ true → All (λ y. unsynced y ≡ true) xs) × IsSyncFirst unsynced xs

pub record IsOrdered (s : Serializer) : Type 0 where
  pub by_time : IsSorted (time_of s.heap) s.delayed_list
  pub synced_first : IsSyncFirst (is_unsynced s.heap) s.work_list

snoc-IsSyncFirst :
    (u : ℕ → Bool) (p : ℕ) (l : List ℕ) → u p ≡ true → IsSyncFirst u l → IsSyncFirst u (l ++ p ∷ [])
snoc-IsSyncFirst u p [] h f = ((λ _. tt), tt)
snoc-IsSyncFirst u p (x ∷ l) h f =
    ((λ e. All-append (λ y. u y ≡ true) l (p ∷ []) (f.0 e) (h, tt)), snoc-IsSyncFirst u p l h f.1)

insert_before-IsSyncFirst :
    (u : ℕ → Bool) (p : ℕ) (l : List ℕ)
    → u p ≡ false
    → IsSyncFirst u l
    → IsSyncFirst u (insert_before u p l)
unfolding insert_before
insert_before-IsSyncFirst u p [] h f = ((λ _. tt), tt)
insert_before-IsSyncFirst u p (x ∷ l) h f = elim (Bool-cases (u x)) [
  | inl here ↦ rw here ((λ e. cc), f)
  | inr on ↦ rw on ((λ e. cc), insert_before-IsSyncFirst u p l h f.1)
]

module _ (s s' : Serializer) (p : ℕ) (w : Work) (node_ok : Bool) where
  queued_sync :
      w.state ≡ waiting
      → attempt s p w node_ok ≡ queued s'
      → (s'.heap ≡ s.heap)
        × (s'.work_list ≡ insert_before (is_unsynced s.heap) p s.work_list)
        × (s'.delayed_list ≡ s.delayed_list)
  unfolding attempt
  queued_sync k e = (ground arith, ground arith, ground arith)

  queued_async :
      w.state ≡ async
      → attempt s p w node_ok ≡ queued s'
      → (s'.heap ≡ s.heap)
        × (s'.work_list ≡ s.work_list ++ p ∷ [])
        × (s'.delayed_list ≡ s.delayed_list)
  unfolding attempt
  queued_async k e = (ground arith, ground arith, ground arith)

  queued_delayed :
      w.state ≡ delayed
      → attempt s p w node_ok ≡ queued s'
      → (s'.heap ≡ s.heap)
        × (s'.work_list ≡ s.work_list)
        × (s'.delayed_list ≡ insert_before (is_later s.heap w) p s.delayed_list)
  unfolding attempt
  queued_delayed k e = (ground arith, ground arith, ground arith)

later_eq :
    (heap : ℕ → Option Work) (w : Work) (p q : ℕ)
    → heap p ≡ some w
    → is_later heap w q ≡ is_before (time_of heap p) (time_of heap q)
unfolding is_later
later_eq heap w p q at = ground (arith, at)

-- If both lists are in order, an attempt to queue a new work that succeeds keeps them so, and puts the
-- work where it belongs: one that a caller waits for behind the others of that kind, an asynchronous one
-- at the end of the work list, a delayed one behind all that are not later.
pub attempt-IsOrdered :
    (s s' : Serializer) (p : ℕ) (w : Work) (node_ok : Bool)
    → IsOrdered s
    → s.heap p ≡ some w
    → (w.state ≡ waiting) ⊎ ((w.state ≡ async) ⊎ (w.state ≡ delayed))
    → attempt s p w node_ok ≡ queued s'
    → IsOrdered s'
      × (((w.state ≡ waiting)
            × SplitsAt (is_unsynced s.heap) p s.work_list s'.work_list
            × (s'.delayed_list ≡ s.delayed_list))
          ⊎ (((w.state ≡ async)
                × (s'.work_list ≡ s.work_list ++ p ∷ [])
                × (s'.delayed_list ≡ s.delayed_list))
              ⊎ ((w.state ≡ delayed)
                  × SplitsAt (is_later s.heap w) p s.delayed_list s'.delayed_list
                  × (s'.work_list ≡ s.work_list))))
attempt-IsOrdered s s' p w node_ok o at (inl k) e =
    let f = queued_sync s s' p w node_ok k e in
    let u = is_unsynced s.heap in
    (
      record {
        by_time = rw (f.0, f.2) o.by_time;
        synced_first =
            rw (f.0, f.1)
              (insert_before-IsSyncFirst u p s.work_list
                (unfold is_unsynced in ground (arith, at, k)) o.synced_first);
      },
      inl (k, rw f.1 (insert_before_lem u p s.work_list), f.2),
    )
attempt-IsOrdered s s' p w node_ok o at (inr (inl k)) e =
    let f = queued_async s s' p w node_ok k e in
    (
      record {
        by_time = rw (f.0, f.2) o.by_time;
        synced_first =
            rw (f.0, f.1)
              (snoc-IsSyncFirst (is_unsynced s.heap) p s.work_list
                (unfold is_unsynced in ground (arith, at, k)) o.synced_first);
      },
      inr (inl (k, f.1, f.2)),
    )
attempt-IsOrdered s s' p w node_ok o at (inr (inr k)) e =
    let f = queued_delayed s s' p w node_ok k e in
    (
      record {
        by_time =
            rw (f.0, f.2)
              (insert_before-IsSorted (time_of s.heap) (is_later s.heap w) p s.delayed_list
                (λ q. later_eq s.heap w p q at) o.by_time);
        synced_first = rw (f.0, f.1) o.synced_first;
      },
      inr (inr (k, rw f.2 (insert_before_lem (is_later s.heap w) p s.delayed_list), f.1)),
    )
