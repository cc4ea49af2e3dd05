-- ===== src/ObjPool/Allocator.antt =====
-- wv_ipc/obj_pool.c: the pool as the allocator that wv_ipc/linked_list.c needs for its nodes.
use dwpal.Common.{
  ℕ, ◌≡◌, ◌∙◌, subst, sym, inl, inr, true, false, List, arith, if◌then◌else◌, ◌==◌, Bool-cases,
}
use dwpal.ObjPool.{ObjPool, alloc_object, put_object}
use dwpal.ObjPool.Valid.{is_out, IsValid}
use dwpal.ObjPool.Return.{put_object_lem}
use dwpal.ObjPool.Use.{Gave, alloc_object-Allocated}
use dwpal.LinkedList.{Allocator}

-- The pool is valid, and `obj_pool_destroy` has not started.
abbrev pub IsLive : ObjPool → Type 0
IsLive p = ((free : List ℕ) × IsValid p free) × (p.destroy_started ≡ false)

pub put_started : (p : ObjPool) (obj : ℕ) → (put_object p obj).destroy_started ≡ p.destroy_started
unfolding put_object
put_started p obj = ground arith

pub Gave-held :
    (p : ObjPool) (r : ℕ × ObjPool)
    → Gave p r
    → (q : ℕ) → is_out r.1.cell q ≡ (if q == r.0 then true else is_out p.cell q)
Gave-held p r g q = elim (Bool-cases (q == r.0)) [
  | inl same ↦
      let e : q ≡ r.0 = ground arith in
      subst (λ t. is_out r.1.cell t ≡ (if t == r.0 then true else is_out p.cell t)) (sym e)
        (ground (arith, g.now_out))
  | inr other ↦ ground (arith, g.others q (ground arith))
]

pub put_held :
    (p : ObjPool) (obj q : ℕ)
    → IsLive p
    → is_out p.cell obj ≡ true
    → is_out (put_object p obj).cell q ≡ (if q == obj then false else is_out p.cell q)
put_held p obj q v h =
    let r = (put_object_lem p v.0.0 obj v.0.1 v.1).0 h in
    elim (Bool-cases (q == obj)) [
      | inl same ↦
          let e : q ≡ obj = ground arith in
          subst
            (λ t. is_out (put_object p obj).cell t ≡ (if t == obj then false else is_out p.cell t))
            (sym e) (ground (arith, r.1))
      | inr other ↦ ground (arith, r.2 q (ground arith))
    ]

-- The pool as an allocator: an object is held while it is handed out.
abbrev pub pool_allocator : Allocator
pool_allocator = record {
  State = ObjPool;
  alloc = alloc_object;
  put = put_object;
  IsValid = IsLive;
  is_held = λ p q. is_out p.cell q;
  alloc-IsValid = λ p v.
      let a = (alloc_object-Allocated p v.0.0 v.0.1 v.1).0 in ((a.free, a.valid), a.started ∙ v.1);
  alloc_cases = λ p v. elim (alloc_object-Allocated p v.0.0 v.0.1 v.1).0.outcome [
    | inl g ↦ inl (g.given, Gave-held p _ g, g.was_in)
    | inr r ↦ inr (r.nothing, r.all_same)
  ];
  put-IsValid = λ p obj v h.
      let r = (put_object_lem p v.0.0 obj v.0.1 v.1).0 h in ((_, r.0), put_started p obj ∙ v.1);
  put_held = λ p obj q v h. put_held p obj q v h;
}
