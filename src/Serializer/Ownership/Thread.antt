-- ===== src/Serializer/Ownership/Thread.antt =====
-- wv_ipc/work_serializer.c: the thread's steps and who holds each work.
use dwpal.Common.{ℕ, ◌≡◌, refl, ap, Bool, List, [], ◌∷◌, none, some, arith, ◌⊎◌}
use dwpal.Serializer.{Timespec, Ops, Serializer}
use dwpal.Serializer.Worker.{
  Round, execute, drop, round, take_work, take_delayed, call_work, finish,
}
use dwpal.Serializer.Ownership.{count, IsSound}

-- A round goes on to a sound state, with a work in the thread's hand or after a drop.
abbrev pub Leads : Round → Serializer → Type 0
Leads r t = ((p : ℕ) × (r ≡ execute p t)) ⊎ (r ≡ drop t)

module _ (ops : Ops) (failed : Bool) (now : Timespec) (s t : Serializer) (v : IsSound s)
    (idle : s.worker ≡ none) where
  delayed-IsSound :
      (l : List ℕ) → s.delayed_list ≡ l → Leads (take_delayed ops failed now l s) t → IsSound t
  unfolding take_delayed
  delayed-IsSound [] e r = ground arith
  delayed-IsSound (q ∷ l) e r = record {
    no_fault = ground (arith, v.no_fault, v.held q, ap (count q) e);
    held = λ x. ground (arith, v.held x, v.held q, ap (count q) e, ap (count x) e);
  }

  pub work-IsSound :
      (l : List ℕ) → s.work_list ≡ l → Leads (take_work ops failed now l s) t → IsSound t
  unfolding take_work
  work-IsSound [] e r = delayed-IsSound s.delayed_list refl r
  work-IsSound (q ∷ l) e r = record {
    no_fault = ground (arith, v.no_fault, v.held q, ap (count q) e);
    held = λ x. ground (arith, v.held x, v.held q, ap (count q) e, ap (count x) e);
  }

  pub round-IsSound : Leads (round ops failed now s) t → IsSound t
  unfolding round
  round-IsSound r = work-IsSound s.work_list refl (ground (arith, r))

module _ (p : ℕ) (s : Serializer) (v : IsSound s) (busy : s.worker ≡ some p) where
  pub call_work-IsSound : (ops : Ops) → IsSound (call_work ops p s)
  unfolding call_work
  call_work-IsSound ops = record {
    no_fault = ground (arith, v.no_fault, v.held p);
    held = λ x. ground (arith, v.held x);
  }

  pub finish-IsSound : (result : ℕ) → IsSound (finish p result s)
  unfolding finish
  finish-IsSound result = record {
    no_fault = ground (arith, v.no_fault, v.held p);
    held = λ x. ground (arith, v.held x, v.held p);
  }
