-- ===== src/Serializer/Abort.antt =====
-- wv_ipc/work_serializer.c: what `serializer_stop_all_by_ctx` does to works that callers wait for, and what
-- it does not do to delayed works.
use dwpal.Common.{
  ℕ, ◌<◌, ◌≡◌, ap, Bool, true, false, ◌||◌, List, [], ◌∷◌, Option, none, some, arith, if◌then◌else◌,
  ◌==◌, inl, inr, update, Bool-cases, Option-cases,
}
use dwpal.Serializer.{Work, waiting, aborted, is_waiting, Ops, Serializer, store}
use dwpal.Serializer.Caller.{exec_return}
use dwpal.Serializer.Worker.{abandon}
use dwpal.Serializer.Cancel.{stop_loop, stop_all_by_ctx}
use dwpal.Serializer.Ownership.{count, IsSound}
use dwpal.Serializer.Ownership.Loops.{listed_of_counts, Listed, SameHolders, work_list-Listed}

-- The free of an entry, after its state has been set or not.
gone : Ops → ℕ → Work → Bool → Serializer → Serializer
gone ops p w true s = abandon ops p w (store p (record w { state = aborted }) s)
gone ops p w false s = abandon ops p w s

gone-SameHolders :
    (ops : Ops) (p : ℕ) (w : Work) (b : Bool) (s : Serializer)
    → s.heap p ≡ some w
    → SameHolders s (gone ops p w b s)
unfolding gone abandon
gone-SameHolders ops p w true s at = ground (arith, at)
gone-SameHolders ops p w false s at = ground (arith, at)

heap-gone :
    (ops : Ops) (p : ℕ) (w : Work) (b : Bool) (s : Serializer) (x : ℕ)
    → s.heap p ≡ some w
    → (gone ops p w b s).heap x ≡ update s.heap p none x
unfolding gone abandon
heap-gone ops p w true s x at = ground (arith, at)
heap-gone ops p w false s x at = ground (arith, at)

Listed-gone :
    (ops : Ops) (p : ℕ) (w : Work) (b : Bool) (s : Serializer) (l : List ℕ)
    → s.heap p ≡ some w
    → count p l ≡ 0
    → Listed s.heap l
    → Listed (gone ops p w b s).heap l
Listed-gone ops p w b s [] at h k = tt
Listed-gone ops p w b s (q ∷ l) at h k = (
  (λ e. k.0 (ground (arith, e, heap-gone ops p w b s q at))),
  k.1,
  Listed-gone ops p w b s l at (ground arith) k.2,
)

abbrev pub hit : ℕ → Option Work → Bool
hit ctx none = false
hit ctx (some w) = ctx == w.ctx

-- One round of the loop, for an entry with the context and for another.
module _ (ops : Ops) (ctx p : ℕ) (w : Work) (l : List ℕ) (n : Bool) (s : Serializer)
    (at : s.heap p ≡ some w) where
  stop_hit :
      (ctx == w.ctx) ≡ true
      → stop_loop ops ctx (p ∷ l) n s
        ≡ stop_loop ops ctx l (is_waiting w.state || n) (gone ops p w (is_waiting w.state) s)
  unfolding stop_loop gone
  stop_hit h = ground (arith, at)

  stop_miss :
      (ctx == w.ctx) ≡ false
      → stop_loop ops ctx (p ∷ l) n s ≡ (
        p ∷ (stop_loop ops ctx l n s).0,
        (stop_loop ops ctx l n s).1,
        (stop_loop ops ctx l n s).2,
      )
  unfolding stop_loop
  stop_miss h = ground (arith, at)

SameHolders-trans : {a b c : Serializer} → SameHolders a b → SameHolders b c → SameHolders a c
SameHolders-trans h k = ground arith

module _ (ops : Ops) (ctx : ℕ) where
  stop_fields :
      (l : List ℕ) (n : Bool) (s : Serializer)
      → Listed s.heap l
      → SameHolders s (stop_loop ops ctx l n s).2
  stop_fields [] n s k = unfold stop_loop in ground arith
  stop_fields (p ∷ l) n s k = elim (Option-cases (s.heap p)) [
    | inl free ↦ absurd (k.0 free)
    | inr (w, at) ↦ elim (Bool-cases (ctx == w.ctx)) [
      | inl yes_hit ↦
          let b = is_waiting w.state in
          rw (stop_hit ops ctx p w l n s at yes_hit) (
            SameHolders-trans (gone-SameHolders ops p w b s at)
              (stop_fields l (b || n) (gone ops p w b s) (Listed-gone ops p w b s l at k.1 k.2)))
      | inr miss ↦ rw (stop_miss ops ctx p w l n s at miss) (stop_fields l n s k.2)
    ]
  ]

  Stopped : (l l' : List ℕ) (heap heap' : ℕ → Option Work) → ℕ → Type 0
  Stopped l l' heap heap' x =
      (heap' x ≡ (if count x l == 0 then heap x else if hit ctx (heap x) then none else heap x))
      × (count x l' ≡ (if hit ctx (heap x) then 0 else count x l))

  stop_each :
      (l : List ℕ) (n : Bool) (s : Serializer) (x : ℕ)
      → Listed s.heap l
      → Stopped l (stop_loop ops ctx l n s).0 s.heap (stop_loop ops ctx l n s).2.heap x
  unfolding Stopped
  stop_each [] n s x k = unfold stop_loop in ground arith
  stop_each (p ∷ l) n s x k = elim (Option-cases (s.heap p)) [
    | inl free ↦ absurd (k.0 free)
    | inr (w, at) ↦ elim (Bool-cases (ctx == w.ctx)) [
      | inl yes_hit ↦
          let b = is_waiting w.state in
          let k' = Listed-gone ops p w b s l at k.1 k.2 in
          let ih = stop_each l (b || n) (gone ops p w b s) x k' in
          rw (stop_hit ops ctx p w l n s at yes_hit)
            (ground (arith, at, k.1, heap-gone ops p w b s x at, ih))
      | inr miss ↦
          rw (stop_miss ops ctx p w l n s at miss) (ground (arith, at, k.1, stop_each l n s x k.2))
    ]
  ]

-- The state after both passes over the work list.
module _ (ops : Ops) (ctx : ℕ) (s : Serializer) (v : IsSound s) where
  abbrev pub first_pass : List ℕ × Bool × Serializer
  first_pass = stop_loop ops ctx s.work_list false s

  abbrev pub between : Serializer
  between = record first_pass.2 { work_list = first_pass.0 }

  abbrev pub second_pass : List ℕ × Bool × Serializer
  second_pass = stop_loop ops ctx first_pass.0 first_pass.1 between

  listed : Listed s.heap s.work_list
  listed = work_list-Listed s v

  still_listed : Listed between.heap first_pass.0
  unfolding Stopped
  still_listed = listed_of_counts between.heap first_pass.0 λ x.
      let r = stop_each ops ctx s.work_list false s x listed in
      (ground (arith, r, v.held x), λ h e. ground (arith, r, v.held x, e))

  pub passes_each :
      (x : ℕ)
      → second_pass.2.heap x ≡ (
          if count x s.work_list == 0
          then s.heap x
          else if hit ctx (s.heap x)
          then none
          else s.heap x)
  unfolding Stopped
  passes_each x =
      let r = stop_each ops ctx s.work_list false s x listed in
      let q = stop_each ops ctx first_pass.0 first_pass.1 between x still_listed in
      ground (arith, r, q)

  pub passes_list :
      (x : ℕ) → count x second_pass.0 ≡ (if hit ctx (s.heap x) then 0 else count x s.work_list)
  unfolding Stopped
  passes_list x =
      let r = stop_each ops ctx s.work_list false s x listed in
      let q = stop_each ops ctx first_pass.0 first_pass.1 between x still_listed in
      ground (arith, r, q)

  pub passes_fields : SameHolders between second_pass.2 × SameHolders s first_pass.2
  passes_fields = (
    stop_fields ops ctx first_pass.0 first_pass.1 between still_listed,
    stop_fields ops ctx s.work_list false s listed,
  )

  -- In a sound state, `serializer_stop_all_by_ctx` frees exactly the works of the context that stand in
  -- the work list, whether or not a caller waits for them; it leaves the delayed list and the waiting
  -- callers as they are.
  pub stop_all_lem :
      let t = (stop_all_by_ctx ops ctx true s).1 in
      ((x : ℕ)
        → t.heap x ≡ (
            if count x s.work_list == 0
            then s.heap x
            else if hit ctx (s.heap x)
            then none
            else s.heap x))
      × (t.delayed_list ≡ s.delayed_list)
      × (t.callers ≡ s.callers)
  unfolding stop_all_by_ctx
  stop_all_lem =
      let f = passes_fields in
      (λ x. ground (arith, passes_each x), ground (arith, f.0, f.1), ground (arith, f.0, f.1))

  -- In a sound state in which a caller waits for a queued work of the context,
  -- `serializer_stop_all_by_ctx` frees the work under the caller: it is still waiting, and when it goes on
  -- it reads freed memory.
  pub stop_all_frees_awaited :
      (p : ℕ) (w : Work)
      → s.heap p ≡ some w
      → w.state ≡ waiting
      → w.ctx ≡ ctx
      → 0 < count p s.work_list
      → let t = (stop_all_by_ctx ops ctx true s).1 in
        (t.heap p ≡ none) × (0 < count p t.callers) × ((exec_return p t).2.fault ≡ true)
  unfolding exec_return
  stop_all_frees_awaited p w at waits same queued =
      let r = stop_all_lem in
      let t = (stop_all_by_ctx ops ctx true s).1 in
      let freed : t.heap p ≡ none = ground (arith, r.0 p, at, same) in
      (freed, ground (arith, ap (count p) r.2, v.held p, at, waits), ground (arith, freed))
