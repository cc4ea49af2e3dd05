-- ===== src/Serializer/Ownership/Loops.antt =====
-- wv_ipc/work_serializer.c: the loops that take works back, and who holds each work.
use dwpal.Common.{
  ℕ, ◌≤◌, ◌<◌, ◌≡◌, ◌≢◌, ap, Bool, List, [], ◌∷◌, Option, none, some, arith, ◌⊎◌, inl, inr, update,
  Bool-cases, Option-cases,
}
use dwpal.Serializer.{Work, Ops, Serializer}
use dwpal.Serializer.Worker.{abandon}
use dwpal.Serializer.Cancel.{cancel_loop, cancel_delayed_work, is_cancelled}
use dwpal.Serializer.Ownership.{count, IsSound}

-- Each address of the list is allocated and stands there once.
abbrev pub Listed : (ℕ → Option Work) → List ℕ → Type 0
Listed heap [] = Unit
Listed heap (p ∷ ps) = (heap p ≢ none) × (count p ps ≡ 0) × Listed heap ps

Listed-update :
    (heap : ℕ → Option Work) (p : ℕ) (l : List ℕ)
    → count p l ≡ 0
    → Listed heap l
    → Listed (update heap p none) l
Listed-update heap p [] h k = tt
Listed-update heap p (q ∷ l) h k =
    ((λ e. k.0 (ground (arith, e))), k.1, Listed-update heap p l (ground arith) k.2)

-- What does not change while works are freed.
pub record SameHolders (s s' : Serializer) : Type 0 where
  pub fault_eq : s'.fault ≡ s.fault
  pub work_list_eq : s'.work_list ≡ s.work_list
  pub delayed_list_eq : s'.delayed_list ≡ s.delayed_list
  pub worker_eq : s'.worker ≡ s.worker
  pub retrying_eq : s'.retrying ≡ s.retrying
  pub callers_eq : s'.callers ≡ s.callers

pub abandon-SameHolders :
    (ops : Ops) (p : ℕ) (w : Work) (s : Serializer)
    → s.heap p ≡ some w
    → SameHolders s (abandon ops p w s)
unfolding abandon
abandon-SameHolders ops p w s at = ground (arith, at)

pub heap-abandon :
    (ops : Ops) (p : ℕ) (w : Work) (s : Serializer)
    → s.heap p ≡ some w
    → (abandon ops p w s).heap ≡ update s.heap p none
unfolding abandon
heap-abandon ops p w s at = ground (arith, at)

pub Listed-abandon :
    (ops : Ops) (p : ℕ) (w : Work) (s : Serializer) (l : List ℕ)
    → s.heap p ≡ some w
    → count p l ≡ 0
    → Listed s.heap l
    → Listed (abandon ops p w s).heap l
Listed-abandon ops p w s l at h k = rw (heap-abandon ops p w s at) (Listed-update s.heap p l h k)

-- What the loop of `serializer_cancel_delayed_work` makes of one address.
abbrev pub Cancelled : (heap heap' : ℕ → Option Work) (listed kept : List ℕ) → ℕ → Type 0
Cancelled heap heap' listed kept x =
    ((heap' x ≡ heap x) × (count x kept ≡ count x listed))
    ⊎ ((count x listed ≡ 1) × (count x kept ≡ 0) × (heap' x ≡ none))

module _ (ops : Ops) (test : Work → Bool) where
  pub cancel_fields :
      (l : List ℕ) (s : Serializer) → Listed s.heap l → SameHolders s (cancel_loop ops test l s).1
  unfolding cancel_loop
  cancel_fields [] s k = ground arith
  cancel_fields (p ∷ l) s k = elim (Option-cases (s.heap p)) [
    | inl gone ↦ absurd (k.0 gone)
    | inr (w, at) ↦ elim (Bool-cases (test w)) [
      | inl hit ↦
          let same = abandon-SameHolders ops p w s at in
          ground (
            arith,
            at,
            hit,
            same,
            cancel_fields l (abandon ops p w s) (Listed-abandon ops p w s l at k.1 k.2),
          )
      | inr miss ↦ ground (arith, at, miss, cancel_fields l s k.2)
    ]
  ]

  pub cancel_each :
      (l : List ℕ) (s : Serializer) (x : ℕ)
      → Listed s.heap l
      → let r = cancel_loop ops test l s in Cancelled s.heap r.1.heap l r.0 x
  unfolding cancel_loop
  cancel_each [] s x k = ground arith
  cancel_each (p ∷ l) s x k = elim (Option-cases (s.heap p)) [
    | inl gone ↦ absurd (k.0 gone)
    | inr (w, at) ↦ elim (Bool-cases (test w)) [
      | inl hit ↦ ground (
        arith,
        at,
        hit,
        k.1,
        ap (λ h. h x) (heap-abandon ops p w s at),
        cancel_each l (abandon ops p w s) x (Listed-abandon ops p w s l at k.1 k.2),
      )
      | inr miss ↦ ground (arith, at, miss, k.1, cancel_each l s x k.2)
    ]
  ]

-- In a sound state the delayed list, and the work list, name allocated works, each once.
listed_part :
    (heap : ℕ → Option Work) (whole : List ℕ)
    → ((x : ℕ) → (count x whole ≤ 1) × (0 < count x whole → heap x ≢ none))
    → (l : List ℕ) → ((x : ℕ) → count x l ≤ count x whole)
    → Listed heap l
listed_part heap whole once [] h = tt
listed_part heap whole once (p ∷ l) h = (
  (once p).1 (ground (arith, h p)),
  ground (arith, h p, once p),
  listed_part heap whole once l (λ x. ground (arith, h x)),
)

pub listed_of_counts :
    (heap : ℕ → Option Work) (l : List ℕ)
    → ((x : ℕ) → (count x l ≤ 1) × (0 < count x l → heap x ≢ none))
    → Listed heap l
listed_of_counts heap l once = listed_part heap l once l (λ x. omega arith)

pub delayed_list-Listed : (s : Serializer) → IsSound s → Listed s.heap s.delayed_list
delayed_list-Listed s v =
    listed_of_counts s.heap s.delayed_list
      λ x. (ground (arith, v.held x), λ h e. ground (arith, v.held x, e))

pub work_list-Listed : (s : Serializer) → IsSound s → Listed s.heap s.work_list
work_list-Listed s v =
    listed_of_counts s.heap s.work_list
      λ x. (ground (arith, v.held x), λ h e. ground (arith, v.held x, e))

-- `serializer_cancel_delayed_work` keeps every work with its holder.
pub cancel-IsSound :
    (ops : Ops) (id key ctx : ℕ) (in_context : Bool) (s : Serializer)
    → IsSound s
    → IsSound (cancel_delayed_work ops id key ctx in_context s).1
unfolding cancel_delayed_work
cancel-IsSound ops id key ctx in_context s v =
    let k = delayed_list-Listed s v in
    let test = is_cancelled ops id key ctx in
    record {
      no_fault = ground (arith, v.no_fault, cancel_fields ops test s.delayed_list s k);
      held = λ x.
          let same = cancel_fields ops test s.delayed_list s k in
          ground (
            arith,
            v.held x,
            same.work_list_eq,
            same.worker_eq,
            same.retrying_eq,
            same.callers_eq,
            cancel_each ops test s.delayed_list s x k,
          );
    }
