-- ===== src/ObjPool/Start.antt =====
-- wv_ipc/obj_pool.c: the pool that `obj_pool_init` makes.
use dwpal.Common.{
  ℕ, ◌<◌, ◌≡◌, refl, inl, inr, subst, Bool, false, none, some, List, [], arith, null, length,
  Bool-cases,
}
use dwpal.ObjPool.{ObjPool, increase_size_to, init}
use dwpal.ObjPool.Valid.{is_out, IsValid}
use dwpal.ObjPool.Grow.{increase_size_to-Grown}

-- The pool of `obj_pool_init` before it grows.
abbrev pub empty_pool : (self min_size max_size brk : ℕ) → (ℕ → Bool) → ObjPool
empty_pool self min_size max_size brk grants = record {
  self = self;
  available_objects = null;
  all_objects = null;
  destroy_started = false;
  has_callback = false;
  min_size = min_size;
  max_size = max_size;
  curr_size = 0;
  num_traveling_objects = 0;
  cell = λ _. none;
  brk = brk;
  grants = grants;
  fault = false;
}

empty_pool-IsValid :
    (self min_size max_size brk : ℕ) (grants : ℕ → Bool)
    → IsValid (empty_pool self min_size max_size brk grants) []
empty_pool-IsValid self min_size max_size brk grants = record {
  chain = refl;
  out = [];
  member = λ q. refl;
  traveling = refl;
  balance = refl;
  limit = ground arith;
  fresh = λ q h. refl;
  unnamed = refl;
  mine = λ q o e. cc e;
  no_fault = refl;
}

-- Where no object is in memory, a pool that `obj_pool_init` returns is valid, has at least one object, all
-- of them available and none handed out, is not being destroyed, and its `min_size` was not 0.
pub init_lem :
    (self min_size max_size brk : ℕ) (grants : ℕ → Bool) (p : ObjPool)
    → init self min_size max_size brk (λ _. none) grants ≡ some p
    → ((free : List ℕ) × IsValid p free × (0 < length free))
      × ((q : ℕ) → is_out p.cell q ≡ false)
      × (p.destroy_started ≡ false)
      × (0 < min_size)
init_lem self min_size max_size brk grants p e =
    let start = empty_pool self min_size max_size brk grants in
    let g =
      increase_size_to-Grown min_size start []
        (empty_pool-IsValid self min_size max_size brk grants) in
    let some_min : 0 < min_size = unfold init increase_size_to in ground (arith, e) in
    elim (Bool-cases (increase_size_to min_size start).0) [
      | inl failed ↦ absurd (unfold init in ground (arith, failed, e))
      | inr fine ↦
          let same : (increase_size_to min_size start).1 ≡ p =
            unfold init in ground (arith, fine, e) in
          let size = g.1.size fine in
          subst
            (λ (t : ObjPool).
              ((free : List ℕ) × IsValid t free × (0 < length free))
              × ((q : ℕ) → is_out t.cell q ≡ false)
              × (t.destroy_started ≡ false)
              × (0 < min_size))
            same
            (
              (
                g.1.free,
                g.1.valid,
                omega (arith, g.1.valid.balance, g.1.same.traveling_eq, size, g.2 fine),
              ),
              g.1.same.out_eq,
              g.1.same.started_eq,
              some_min,
            )
    ]
