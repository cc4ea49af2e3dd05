-- ===== src/ObjPool/Tests.antt =====
-- wv_ipc/obj_pool.c on small inputs.
use dwpal.Common.{
  ℕ, ◌+◌, ◌≡◌, ◌≢◌, null, update, refl, true, false, List, [], ◌∷◌, none, some, arith,
}
use dwpal.ObjPool.{
  ObjPool, add_object, grow, increase_size_to, take_first, alloc_object, put_object, walk,
  next_size,
}
use dwpal.ObjPool.Valid.{is_out, IsValid}
use dwpal.ObjPool.Start.{empty_pool}
use dwpal.ObjPool.Return.{put_object_lem}
use dwpal.ObjPool.Use.{Allocated, alloc_object-Allocated}
use dwpal.ObjPool.Walk.{walk_misses}

-- A pool at the address 1000 of at most 3 objects that starts with 2.
abbrev two_free : ObjPool
two_free = (increase_size_to 2 (empty_pool 1000 2 3 0 (λ _. true))).1

two_free-IsValid : IsValid two_free (2 ∷ 1 ∷ [])
unfolding increase_size_to grow add_object
two_free-IsValid = record {
  chain = (refl, omega arith, refl, (omega arith, tt), (refl, omega arith, refl, tt, refl));
  out = [];
  member = λ q. ground arith;
  traveling = refl;
  balance = refl;
  limit = ground arith;
  fresh = λ q h. ground arith;
  unnamed = refl;
  mine = λ q o e. ground (arith, e);
  no_fault = refl;
}

alloc_object-Allocated_example :
    Allocated two_free (alloc_object two_free)
    × (◌≢◌ {A = List ℕ} (2 ∷ 1 ∷ []) [] → (alloc_object two_free).0 ≢ null)
unfolding increase_size_to grow add_object
alloc_object-Allocated_example = alloc_object-Allocated two_free (2 ∷ 1 ∷ []) two_free-IsValid refl

-- The object 2 is handed out, the object 1 is available.
abbrev one_out : ObjPool
one_out = (alloc_object two_free).1

-- The fourth allocation is refused, since the pool is full.
fills_up :
    let p = (alloc_object one_out).1 in
    (one_out.available_objects ≡ 1)
    × ((alloc_object p).0 ≡ 3)
    × ((alloc_object (alloc_object p).1).0 ≡ 0)
unfolding alloc_object take_first increase_size_to grow add_object next_size
fills_up = (refl, refl, refl)

abbrev lent : ObjPool
lent = record two_free {
  cell =
      update
        (update (λ _. none) 1
          (some (record { next = 0; all_next = 0; pool = 1000; allocated = true })))
        2 (some (record { next = 0; all_next = 1; pool = 1000; allocated = false }));
  available_objects = 2;
  all_objects = 2;
  num_traveling_objects = 1;
}

lent-IsValid : IsValid lent (2 ∷ [])
unfolding increase_size_to grow add_object
lent-IsValid = record {
  chain = (refl, omega arith, refl, tt, refl);
  out = 1 ∷ [];
  member = λ q. ground arith;
  traveling = refl;
  balance = refl;
  limit = ground arith;
  fresh = λ q h. ground arith;
  unnamed = refl;
  mine = λ q o e. ground (arith, e);
  no_fault = refl;
}

put_object_lem_example :
    (IsValid (put_object lent 1) (1 ∷ 2 ∷ [])
      × (is_out (put_object lent 1).cell 1 ≡ false)
      × ((q : ℕ) → q ≢ 1 → is_out (put_object lent 1).cell q ≡ is_out lent.cell q)
      × (1 ≡ (put_object lent 1).num_traveling_objects + 1))
unfolding increase_size_to grow add_object
put_object_lem_example = (put_object_lem lent (2 ∷ []) 1 lent-IsValid refl).0 refl

-- `obj_pool_walk` meets no allocated object, though one is handed out.
walk_misses_example : walk 5 lent ≡ some 0
unfolding increase_size_to grow add_object
walk_misses_example = walk_misses lent (2 ∷ []) 5 lent-IsValid (omega arith) (omega arith)
