-- ===== src/Serializer/Ownership/Destroy.antt =====
-- wv_ipc/work_serializer.c: what `serializer_destroy` does to the works that are left.
use dwpal.Common.{
  ℕ, ◌<◌, ◌≡◌, refl, ap, ◌∙◌, false, List, [], ◌∷◌, Option, none, arith, if◌then◌else◌, ◌==◌, inl,
  inr, Option-cases,
}
use dwpal.Serializer.{Work, Ops, Serializer}
use dwpal.Serializer.Worker.{abandon}
use dwpal.Serializer.Cancel.{drain, destroy}
use dwpal.Serializer.Ownership.{count, IsSound}
use dwpal.Serializer.Ownership.Loops.{
  Listed, SameHolders, abandon-SameHolders, heap-abandon, Listed-abandon, delayed_list-Listed,
  work_list-Listed,
}

module _ (ops : Ops) where
  drain_fields : (l : List ℕ) (s : Serializer) → Listed s.heap l → SameHolders s (drain ops l s)
  unfolding drain
  drain_fields [] s k = ground arith
  drain_fields (p ∷ l) s k = elim (Option-cases (s.heap p)) [
    | inl gone ↦ absurd (k.0 gone)
    | inr (w, at) ↦
        let same = abandon-SameHolders ops p w s at in
        let rest = drain_fields l (abandon ops p w s) (Listed-abandon ops p w s l at k.1 k.2) in
        ground (arith, at, same, rest)
  ]

  drain_each :
      (l : List ℕ) (s : Serializer) (x : ℕ)
      → Listed s.heap l
      → (drain ops l s).heap x ≡ (if count x l == 0 then s.heap x else none)
  unfolding drain
  drain_each [] s x k = refl
  drain_each (p ∷ l) s x k = elim (Option-cases (s.heap p)) [
    | inl gone ↦ absurd (k.0 gone)
    | inr (w, at) ↦
        let rest = drain_each l (abandon ops p w s) x (Listed-abandon ops p w s l at k.1 k.2) in
        ground (arith, at, k.1, ap (λ h. h x) (heap-abandon ops p w s at), rest)
  ]

Listed-same :
    (heap heap' : ℕ → Option Work) (l : List ℕ)
    → ((x : ℕ) → 0 < count x l → heap' x ≡ heap x)
    → Listed heap l
    → Listed heap' l
Listed-same heap heap' [] h k = tt
Listed-same heap heap' (p ∷ l) h k = (
  (λ e. k.0 (ground (arith, h p, e))),
  k.1,
  Listed-same heap heap' l (λ x m. h x (ground (arith, m))) k.2,
)

module _ (ops : Ops) (s : Serializer) (v : IsSound s) where
  abbrev s1 : Serializer
  s1 = record s { work_list = [] }

  abbrev s2 : Serializer
  s2 = drain ops s.work_list s1

  k1 : Listed s.heap s.work_list
  k1 = work_list-Listed s v

  same : SameHolders s1 s2
  same = drain_fields ops s.work_list s1 k1

  kept : (x : ℕ) → 0 < count x s.delayed_list → s2.heap x ≡ s.heap x
  kept x h = ground (arith, v.held x, drain_each ops s.work_list s1 x k1)

  abbrev s3 : Serializer
  s3 = record s2 { delayed_list = [] }

  k2 : Listed s3.heap s2.delayed_list
  k2 =
      rw same.delayed_list_eq
        (Listed-same s.heap s2.heap s.delayed_list kept (delayed_list-Listed s v))

  destroy_fields : SameHolders (record s { work_list = []; delayed_list = [] }) (destroy ops s)
  unfolding destroy
  destroy_fields = let f = drain_fields ops s2.delayed_list s3 k2 in ground (arith, f, same)

-- From a sound state in which the thread has ended and no caller is inside a call, `serializer_destroy`
-- frees every work that is still queued, each once, and leaves no memory behind.
pub destroy_frees_all :
    (ops : Ops) (s : Serializer)
    → IsSound s
    → s.worker ≡ none
    → s.callers ≡ []
    → s.retrying ≡ []
    → ((destroy ops s).fault ≡ false) × ((x : ℕ) → (destroy ops s).heap x ≡ none)
unfolding destroy
destroy_frees_all ops s v idle quiet settled = (
  (destroy_fields ops s v).fault_eq ∙ v.no_fault,
  λ x. ground (
    arith,
    drain_each ops (s2 ops s v).delayed_list (s3 ops s v) x (k2 ops s v),
    drain_each ops s.work_list (s1 ops s v) x (k1 ops s v),
    ap (count x) (same ops s v).delayed_list_eq,
    v.held x,
  ),
)

-- Nothing is held any more then.
pub destroy-IsSound :
    (ops : Ops) (s : Serializer)
    → IsSound s
    → s.worker ≡ none
    → s.callers ≡ []
    → s.retrying ≡ []
    → IsSound (destroy ops s)
destroy-IsSound ops s v idle quiet settled =
    let freed = destroy_frees_all ops s v idle quiet settled in
    let f = destroy_fields ops s v in
    record {
      no_fault = freed.0;
      held = λ x.
          rw
            (
              freed.1 x,
              f.work_list_eq,
              f.delayed_list_eq,
              f.worker_eq,
              f.callers_eq,
              f.retrying_eq,
              idle,
              quiet,
              settled,
            )
            (refl, refl, refl, refl, refl);
    }
