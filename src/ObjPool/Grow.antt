-- ===== src/ObjPool/Grow.antt =====
-- wv_ipc/obj_pool.c: how a pool grows.
use dwpal.Common.{
  ℕ, zero, suc, ◌+◌, ◌-◌, ◌≤◌, ◌<◌, ◌≡◌, ◌≢◌, refl, subst, ◌∙◌, ◌⊎◌, inl, inr, Bool, true, false,
  Option, List, ◌∷◌, arith, update, update_ne, All, All-map, Bool-cases, leb, ltb, ◌==◌, not, ◌&&◌,
}
use dwpal.ObjPool.{PooledObj, ObjPool, add_object, grow, increase_size_to}
use dwpal.ObjPool.Valid.{FreeList, FreeList-frame, free_ne, next_of, is_out, IsValid}

pub frame_update :
    (cell : ℕ → Option PooledObj) (obj : ℕ) (o : Option PooledObj) (xs : List ℕ)
    → All (λ y. y ≢ obj) xs
    → All (λ y. update cell obj o y ≡ cell y) xs
frame_update cell obj o xs a = All-map (λ y. y ≢ obj) _ xs (λ y h. update_ne cell obj o y h) a

pub add_object-IsValid :
    (p : ObjPool) (free : List ℕ)
    → IsValid p free
    → (p.max_size ≡ 0) ⊎ (p.curr_size + 1 ≤ p.max_size)
    → IsValid (add_object p) ((p.brk + 1) ∷ free)
unfolding add_object
add_object-IsValid p free v h =
    let obj = p.brk + 1 in
    let new = v.fresh obj (omega arith) in
    let apart = free_ne p.cell p.available_objects obj free (ground (arith, new)) v.chain in
    let cell' = (add_object p).cell in
    let link : p.available_objects ≡ next_of cell' obj = ground arith in
    let kept =
      FreeList-frame p.cell cell' p.available_objects free (frame_update p.cell obj _ free apart)
        v.chain in
    record {
      chain =
          (refl, omega arith, ground arith, apart, subst (λ t. FreeList cell' t free) link kept);
      out = v.out;
      member = λ q. ground (arith, v.member q, new);
      traveling = v.traveling;
      balance = omega (arith, v.balance);
      limit = h;
      fresh = λ q k. ground (arith, v.fresh q);
      unnamed = ground (arith, v.unnamed);
      mine = λ q o e. ground (arith, v.mine q o, e);
      no_fault = v.no_fault;
    }

-- What growing keeps: which objects are handed out, and their number.
pub record SameOut (p p' : ObjPool) : Type 0 where
  pub out_eq : (q : ℕ) → is_out p'.cell q ≡ is_out p.cell q
  pub traveling_eq : p'.num_traveling_objects ≡ p.num_traveling_objects
  pub started_eq : p'.destroy_started ≡ p.destroy_started
  pub self_eq : p'.self ≡ p.self
  pub max_eq : p'.max_size ≡ p.max_size

add_object-SameOut : (p : ObjPool) (free : List ℕ) → IsValid p free → SameOut p (add_object p)
unfolding add_object
add_object-SameOut p free v = record {
  out_eq = λ q. ground (arith, v.fresh (p.brk + 1));
  traveling_eq = refl;
  started_eq = refl;
  self_eq = refl;
  max_eq = refl;
}

SameOut-trans : (a b c : ObjPool) → SameOut a b → SameOut b c → SameOut a c
SameOut-trans a b c h k = record {
  out_eq = λ q. k.out_eq q ∙ h.out_eq q;
  traveling_eq = k.traveling_eq ∙ h.traveling_eq;
  started_eq = k.started_eq ∙ h.started_eq;
  self_eq = k.self_eq ∙ h.self_eq;
  max_eq = k.max_eq ∙ h.max_eq;
}

-- A pool that has grown, or has failed to: valid, with the same objects handed out. Without a failure it
-- has an object to give.
pub record Grown (p : ObjPool) (n : ℕ) (r : Bool × ObjPool) : Type 0 where
  pub free : List ℕ
  pub valid : IsValid r.1 free
  pub same : SameOut p r.1
  pub size : r.0 ≡ false → r.1.curr_size ≡ p.curr_size + n
  pub bound : r.1.curr_size ≤ p.curr_size + n

skip-IsValid :
    (p : ObjPool) (free : List ℕ) → IsValid p free → IsValid (record p { brk = p.brk + 1 }) free
skip-IsValid p free v = record {
  chain = v.chain;
  out = v.out;
  member = v.member;
  traveling = v.traveling;
  balance = v.balance;
  limit = v.limit;
  fresh = λ q h. v.fresh q (omega arith);
  unnamed = v.unnamed;
  mine = v.mine;
  no_fault = v.no_fault;
}

pub grow-Grown :
    (n : ℕ) (p : ObjPool) (free : List ℕ)
    → IsValid p free
    → (p.max_size ≡ 0) ⊎ (p.curr_size + n ≤ p.max_size)
    → Grown p n (grow n p)
unfolding grow
grow-Grown zero p free v h = record {
  free = free;
  valid = v;
  same = record {
    out_eq = λ q. refl;
    traveling_eq = refl;
    started_eq = refl;
    self_eq = refl;
    max_eq = refl;
  };
  size = λ _. omega arith;
  bound = omega arith;
}
grow-Grown (suc n) p free v h = elim (Bool-cases (p.grants p.brk)) [
  | inl given ↦
      let v' = add_object-IsValid p free v (omega arith) in
      let one = add_object-SameOut p free v in
      let counted : (add_object p).curr_size ≡ p.curr_size + 1 = unfold add_object in refl in
      let r =
        grow-Grown n (add_object p) ((p.brk + 1) ∷ free) v' (omega (arith, one.max_eq, counted)) in
      rw given (record {
        free = r.free;
        valid = r.valid;
        same = SameOut-trans p (add_object p) _ one r.same;
        size = λ e. omega (arith, r.size e, counted);
        bound = omega (arith, r.bound, counted);
      })
  | inr refused ↦ rw refused (record {
    free = free;
    valid = skip-IsValid p free v;
    same = record {
      out_eq = λ q. refl;
      traveling_eq = refl;
      started_eq = refl;
      self_eq = refl;
      max_eq = refl;
    };
    size = λ e. cc;
    bound = omega arith;
  })
]

-- `obj_pool_increase_size_to` fails, or grows the pool by at least one object and never past its limit.
pub increase_size_to-Grown :
    (m : ℕ) (p : ObjPool) (free : List ℕ)
    → IsValid p free
    → (n : ℕ) × Grown p n (increase_size_to m p) × ((increase_size_to m p).0 ≡ false → 0 < n)
unfolding increase_size_to
increase_size_to-Grown m p free v = elim (Bool-cases (leb m p.curr_size)) [
  | inl small ↦ rw small (0, unchanged, λ e. cc)
  | inr more ↦ elim (Bool-cases (not (p.max_size == 0) && ltb p.max_size m)) [
    | inl over ↦ elim (Bool-cases (leb p.max_size p.curr_size)) [
      | inl full ↦ rw (more, over, full) (0, unchanged, λ e. cc)
      | inr room ↦
          rw (more, over, room)
            (
              p.max_size - p.curr_size,
              grow-Grown (p.max_size - p.curr_size) p free v (ground arith),
              λ e. ground arith,
            )
    ]
    | inr within ↦
        rw (more, within)
          (m - p.curr_size, grow-Grown (m - p.curr_size) p free v (ground arith), λ e. ground arith)
  ]
]
  where
    unchanged : Grown p 0 (true, p)
    unchanged = record {
      free = free;
      valid = v;
      same = record {
        out_eq = λ q. refl;
        traveling_eq = refl;
        started_eq = refl;
        self_eq = refl;
        max_eq = refl;
      };
      size = λ e. cc;
      bound = omega arith;
    }
