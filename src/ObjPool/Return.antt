-- ===== src/ObjPool/Return.antt =====
-- wv_ipc/obj_pool.c: how objects are given back.
use dwpal.Common.{
  ℕ, ◌+◌, ◌-◌, ◌≡◌, ◌≢◌, refl, sym, ap, subst, inl, inr, true, false, some, List, ◌∷◌, arith, null,
  update, without, count-without, length-without, Option-cases,
}
use dwpal.ObjPool.{PooledObj, ObjPool, put_object}
use dwpal.ObjPool.Valid.{FreeList, FreeList-frame, free_ne, next_of, is_free, is_out, IsValid}
use dwpal.ObjPool.Grow.{frame_update}

-- The pool with the object `o` at `obj` as its first available one.
abbrev returned : ObjPool → ℕ → PooledObj → ObjPool
returned p obj o = record p {
  cell = update p.cell obj (some (record o { allocated = false; next = p.available_objects }));
  available_objects = obj;
  num_traveling_objects = p.num_traveling_objects - 1;
}

held : (p : ObjPool) (obj : ℕ) → is_out p.cell obj ≡ true → (o : PooledObj) × (p.cell obj ≡ some o)
held p obj h = elim (Option-cases (p.cell obj)) [
  | inl gone ↦ absurd (ground (arith, gone))
  | inr found ↦ found
]

put_eq :
    (p : ObjPool) (obj : ℕ) (o : PooledObj)
    → p.cell obj ≡ some o
    → is_out p.cell obj ≡ true
    → p.destroy_started ≡ false
    → obj ≢ null
    → o.pool ≡ p.self
    → put_object p obj ≡ returned p obj o
unfolding put_object
put_eq p obj o at h live there own = ground (arith, at, there, own)

abbrev PutBack : ObjPool → List ℕ → ℕ → ObjPool → Type 0
PutBack p free obj p' =
    IsValid p' (obj ∷ free)
    × (is_out p'.cell obj ≡ false)
    × ((q : ℕ) → q ≢ obj → is_out p'.cell q ≡ is_out p.cell q)
    × (p.num_traveling_objects ≡ p'.num_traveling_objects + 1)

put-PutBack :
    (p : ObjPool) (free : List ℕ) (obj : ℕ)
    → IsValid p free
    → is_out p.cell obj ≡ true
    → (o : PooledObj) → p.cell obj ≡ some o
    → PutBack p free obj (returned p obj o)
put-PutBack p free obj v h o at =
    let p' = returned p obj o in
    let there : obj ≢ null = λ e. ground (arith, ap p.cell e, v.unnamed, at) in
    let counted = length-without obj v.out (ground (arith, v.member obj)) in
    let apart = free_ne p.cell p.available_objects obj free (ground (arith, at)) v.chain in
    let kept =
      FreeList-frame p.cell p'.cell p.available_objects free (frame_update p.cell obj _ free apart)
        v.chain in
    let link : p.available_objects ≡ next_of p'.cell obj = ground arith in
    (
      record {
        chain = (refl, there, ground arith, apart, subst (λ t. FreeList p'.cell t free) link kept);
        out = without obj v.out;
        member = λ q. ground (arith, v.member q, count-without q obj v.out);
        traveling = omega (arith, counted, v.traveling);
        balance = omega (arith, counted, v.traveling, v.balance);
        limit = v.limit;
        fresh = λ q k. ground (arith, v.fresh q, at);
        unnamed = ground (arith, v.unnamed);
        mine = λ q o' e. ground (arith, v.mine q o', v.mine obj o, at, e);
        no_fault = v.no_fault;
      },
      ground arith,
      λ q k. ground arith,
      omega (arith, counted, v.traveling),
    )

-- On a valid pool that is not being destroyed, `obj_pool_put_object` of an object that is handed out takes
-- it back as the first available one, and nothing else changes hands; of an object that is available it
-- changes nothing.
pub put_object_lem :
    (p : ObjPool) (free : List ℕ) (obj : ℕ)
    → IsValid p free
    → p.destroy_started ≡ false
    → (is_out p.cell obj ≡ true
        → IsValid (put_object p obj) (obj ∷ free)
          × (is_out (put_object p obj).cell obj ≡ false)
          × ((q : ℕ) → q ≢ obj → is_out (put_object p obj).cell q ≡ is_out p.cell q)
          × (p.num_traveling_objects ≡ (put_object p obj).num_traveling_objects + 1))
      × (is_free p.cell obj ≡ true → put_object p obj ≡ p)
unfolding put_object
put_object_lem p free obj v live = (
  (λ h.
      let found = held p obj h in
      subst (PutBack p free obj)
        (sym (
          put_eq p obj found.0 found.1 h live (ground (arith, v.unnamed, found.1))
            (v.mine obj found.0 found.1)))
        (put-PutBack p free obj v h found.0 found.1)),
  λ h. ground (arith, live),
)
