-- ===== src/Serializer/Spared.antt =====
-- wv_ipc/work_serializer.c: `serializer_stop_all_by_ctx` where no caller waits for what it frees.
use dwpal.Common.{
  ℕ, ◌<◌, ◌≡◌, refl, ap, subst, ◌∙◌, true, false, none, some, arith, if◌then◌else◌, ◌==◌, inl, inr,
  Bool-cases, Option-cases,
}
use dwpal.Serializer.{
  Work, WorkState, waiting, async, delayed, done, abandoned, aborted, is_waiting, Ops, Serializer,
}
use dwpal.Serializer.Cancel.{stop_all_by_ctx}
use dwpal.Serializer.Ownership.{count, IsSound, HeldAt, Held, HeldIn, in_hand}
use dwpal.Serializer.Abort.{hit, second_pass, passes_each, passes_list, passes_fields}

-- A work of the work list that no caller waits for has no other holder.
alone :
    (st : WorkState) (l d h c t : ℕ)
    → is_waiting st ≡ false
    → HeldIn st l d h c t
    → 0 < l
    → (d ≡ 0) × (h ≡ 0) × (c ≡ 0) × (t ≡ 0)
alone waiting l d h c t n k q = absurd (cc n)
alone async l d h c t n k q = (k.2, omega (arith, k.0, q), k.1, omega (arith, k.0, q))
alone delayed l d h c t n k q = absurd (omega (arith, k.2, q))
alone done l d h c t n k q = absurd (omega (arith, k.0, q))
alone abandoned l d h c t n k q = absurd (omega (arith, k.0, q))
alone aborted l d h c t n k q = absurd k

module _ (ops : Ops) (ctx : ℕ) (s : Serializer) (v : IsSound s) where
  -- A work of the work list that no caller waits for is freed with its entry; another keeps its holders.
  freed_held :
      (t : Serializer) (x : ℕ)
      → ((w : Work)
          → s.heap x ≡ some w
          → w.ctx ≡ ctx
          → 0 < count x s.work_list
          → is_waiting w.state ≡ false)
      → t.heap x ≡ (
          if count x s.work_list == 0
          then s.heap x
          else if hit ctx (s.heap x)
          then none
          else s.heap x)
      → count x t.work_list ≡ (if hit ctx (s.heap x) then 0 else count x s.work_list)
      → count x t.delayed_list ≡ count x s.delayed_list
      → t.worker ≡ s.worker
      → count x t.retrying ≡ count x s.retrying
      → count x t.callers ≡ count x s.callers
      → HeldAt t x
  freed_held t x free heap_eq list_eq delayed_eq worker_eq retrying_eq callers_eq =
      elim (Option-cases (s.heap x)) [
        | inl unused ↦ ground (
          arith,
          unused,
          v.held x,
          heap_eq,
          list_eq,
          delayed_eq,
          worker_eq,
          retrying_eq,
          callers_eq,
        )
        | inr (w, at) ↦ elim (Bool-cases (ctx == w.ctx)) [
          | inl same ↦ elim (Bool-cases (count x s.work_list == 0)) [
            | inl nowhere ↦
                let kept : t.heap x ≡ s.heap x = ground (arith, heap_eq, nowhere) in
                let there : count x t.work_list ≡ count x s.work_list =
                  ground (arith, list_eq, nowhere) in
                rw (kept, there, delayed_eq, worker_eq, retrying_eq, callers_eq) (v.held x)
            | inr queued ↦
                let freed : t.heap x ≡ none = ground (arith, heap_eq, queued, at, same) in
                let out : count x t.work_list ≡ 0 = ground (arith, list_eq, at, same) in
                let here : 0 < count x s.work_list = ground (arith, queued) in
                let k : Held (some w) (count x s.work_list) (count x s.delayed_list)
                    (in_hand x s.worker) (count x s.callers) (count x s.retrying) =
                  subst
                    (λ o.
                      Held o (count x s.work_list) (count x s.delayed_list) (in_hand x s.worker)
                        (count x s.callers) (count x s.retrying))
                    at (v.held x) in
                let q =
                  alone w.state (count x s.work_list) (count x s.delayed_list) (in_hand x s.worker)
                    (count x s.callers) (count x s.retrying) (free w at (ground (arith, same)) here)
                    k here in
                rw (freed, out, delayed_eq, worker_eq, retrying_eq, callers_eq)
                  (refl, q.0, q.1, q.2, q.3)
          ]
          | inr other ↦
              let kept : t.heap x ≡ s.heap x = ground (arith, heap_eq, at, other) in
              let there : count x t.work_list ≡ count x s.work_list =
                ground (arith, list_eq, at, other) in
              rw (kept, there, delayed_eq, worker_eq, retrying_eq, callers_eq) (v.held x)
        ]
      ]

  -- Where no caller waits for a queued work of the context, `serializer_stop_all_by_ctx` keeps every work with its
  -- holder.
  pub stop_all-IsSound :
      ((p : ℕ) (w : Work)
        → s.heap p ≡ some w
        → w.ctx ≡ ctx
        → 0 < count p s.work_list
        → is_waiting w.state ≡ false)
      → IsSound (stop_all_by_ctx ops ctx true s).1
  stop_all-IsSound free =
      let t = (stop_all_by_ctx ops ctx true s).1 in
      let f = passes_fields ops ctx s v in
      record {
        no_fault = fault_t ∙ (ground (arith, f, v.no_fault));
        held = λ x.
            freed_held t x (free x) (ap (λ h. h x) heap_t ∙ passes_each ops ctx s v x)
              (ap (count x) work_t ∙ passes_list ops ctx s v x)
              (ground (arith, ap (count x) delayed_t, f)) (ground (arith, worker_t, f))
              (ground (arith, ap (count x) retrying_t, f))
              (ground (arith, ap (count x) callers_t, f));
      }
    where
      work_t : (stop_all_by_ctx ops ctx true s).1.work_list ≡ (second_pass ops ctx s v).0
      work_t = unfold stop_all_by_ctx in ground arith

      heap_t : (stop_all_by_ctx ops ctx true s).1.heap ≡ (second_pass ops ctx s v).2.heap
      heap_t = unfold stop_all_by_ctx in ground arith

      fault_t : (stop_all_by_ctx ops ctx true s).1.fault ≡ (second_pass ops ctx s v).2.fault
      fault_t = unfold stop_all_by_ctx in ground arith

      delayed_t :
          (stop_all_by_ctx ops ctx true s).1.delayed_list ≡ (second_pass ops ctx s v).2.delayed_list
      delayed_t = unfold stop_all_by_ctx in ground arith

      worker_t : (stop_all_by_ctx ops ctx true s).1.worker ≡ (second_pass ops ctx s v).2.worker
      worker_t = unfold stop_all_by_ctx in ground arith

      retrying_t :
          (stop_all_by_ctx ops ctx true s).1.retrying ≡ (second_pass ops ctx s v).2.retrying
      retrying_t = unfold stop_all_by_ctx in ground arith

      callers_t : (stop_all_by_ctx ops ctx true s).1.callers ≡ (second_pass ops ctx s v).2.callers
      callers_t = unfold stop_all_by_ctx in ground arith
