-- ===== src/ObjPool.antt =====
-- wv_ipc/obj_pool.c: a pool of objects of one size, on the memory of the process. Address 0 is NULL.
pub mod Valid
pub mod Grow
pub mod Use
pub mod Return
pub mod Walk
pub mod Tests
pub mod Start
pub mod Allocator
use dwpal.Common.{
  ℕ, zero, suc, ◌+◌, ◌-◌, ◌*◌, ◌/◌, ◌%◌, ◌^◌, Bool, true, false, not, ◌&&◌, ◌||◌, Option, none,
  some, List, [], ◌∷◌, if◌then◌else◌, ltb, leb, ◌==◌, null, update,
}

-- `struct _pooled_obj`, without the caller's bytes; `pool` is the address of the object's pool.
pub record PooledObj : Type 0 where
  pub next : ℕ
  pub all_next : ℕ
  pub pool : ℕ
  pub allocated : Bool

-- `struct _obj_pool` at the address `self`, with the objects in memory: `none` where none is. The `n`-th
-- call of `malloc` gives the address `n + 1` if `grants n`, and NULL if not; `brk` is the next `n`.
-- `fault` says that memory was read or written that holds no object.
pub record ObjPool : Type 0 where
  pub self : ℕ
  pub available_objects : ℕ
  pub all_objects : ℕ
  pub destroy_started : Bool
  pub has_callback : Bool
  pub min_size : ℕ
  pub max_size : ℕ
  pub curr_size : ℕ
  pub num_traveling_objects : ℕ
  pub cell : ℕ → Option PooledObj
  pub brk : ℕ
  pub grants : ℕ → Bool
  pub fault : Bool

-- `obj_pool_set_callback`, with whether the callback is other than NULL.
unfoldable pub set_callback : Bool → ObjPool → ObjPool
set_callback cb p = record p { has_callback = cb }

-- The body of the loop of `obj_pool_increase_size_to` once `malloc` has given an address.
unfoldable pub add_object : ObjPool → ObjPool
add_object p =
    let obj = p.brk + 1 in
    record p {
      cell = update p.cell obj (
          some (record {
            next = p.available_objects;
            all_next = p.all_objects;
            pool = p.self;
            allocated = false;
          }));
      brk = p.brk + 1;
      available_objects = obj;
      all_objects = obj;
      curr_size = p.curr_size + 1;
    }

-- The loop of `obj_pool_increase_size_to` with the rounds that are left; the Boolean says that it failed.
unfoldable pub grow : ℕ → ObjPool → Bool × ObjPool
grow zero p = (false, p)
grow (suc n) p =
    let rest = grow n (add_object p) in
    if p.grants p.brk then rest else (true, record p { brk = p.brk + 1 })

-- `obj_pool_increase_size_to`
unfoldable pub increase_size_to : ℕ → ObjPool → Bool × ObjPool
increase_size_to new_size p =
    if leb new_size p.curr_size
    then (true, p)
    else if not (p.max_size == 0) && ltb p.max_size new_size
    then if leb p.max_size p.curr_size then (true, p) else grow (p.max_size - p.curr_size) p
    else grow (new_size - p.curr_size) p

-- `(int)((curr_size * 3) / 2) + 1` as a `size_t`: the value is cut to 32 bits, and its sign is extended.
unfoldable pub next_size : ℕ → ℕ
next_size curr =
    let low = curr * 3 % 2 ^ 64 / 2 % 2 ^ 32 in
    if ltb low (2 ^ 31) then low + 1 else (2 ^ 64 - 2 ^ 32 + low + 1) % 2 ^ 64

-- The end of `obj_pool_alloc_object`: the first available object leaves the list.
unfoldable pub take_first : ObjPool → ℕ × ObjPool
take_first p = elim (p.cell p.available_objects) [
  | none ↦ (null, record p { fault = true })
  | some o ↦ (
    p.available_objects,
    record p {
      cell = update p.cell p.available_objects (some (record o { allocated = true }));
      available_objects = o.next;
      num_traveling_objects = p.num_traveling_objects + 1;
    },
  )
]

-- `obj_pool_alloc_object`
unfoldable pub alloc_object : ObjPool → ℕ × ObjPool
alloc_object p =
    if p.destroy_started
    then (null, p)
    else if p.available_objects == null
    then (let (failed, p') = increase_size_to (next_size p.curr_size) p in
        if failed
        then (null, p')
        else if p'.available_objects == null
        then (null, p')
        else take_first p')
    else take_first p

-- `obj_pool_put_object`
unfoldable pub put_object : ObjPool → ℕ → ObjPool
put_object p obj = if obj == null then p else if p.destroy_started then p else elim (p.cell obj) [
  | none ↦ record p { fault = true }
  | some o ↦ if not (o.pool == p.self) then p else if not o.allocated then p else record p {
    cell = update p.cell obj (some (record o { allocated = false; next = p.available_objects }));
    available_objects = obj;
    num_traveling_objects = p.num_traveling_objects - 1;
  }
]

-- `obj_pool_init` with non-NULL name, for a pool that `malloc` has placed at `self`; `none` is NULL.
unfoldable pub init :
    (self min_size max_size brk : ℕ) → (ℕ → Option PooledObj) → (ℕ → Bool) → Option ObjPool
init self min_size max_size brk cell grants =
    let (failed, p) = increase_size_to min_size (record {
      self = self;
      available_objects = null;
      all_objects = null;
      destroy_started = false;
      has_callback = false;
      min_size = min_size;
      max_size = max_size;
      curr_size = 0;
      num_traveling_objects = 0;
      cell = cell;
      brk = brk;
      grants = grants;
      fault = false;
    }) in
    if failed then none else some p

-- The loop of `obj_pool_walk` from `obj` on: how many allocated objects it meets; `none` if it runs out of
-- fuel or reads memory without an object. It follows `next`, the link of the list of available objects.
unfoldable pub walk_from : ℕ → (ℕ → Option PooledObj) → ℕ → Option ℕ
walk_from zero cell obj = none
walk_from (suc fuel) cell obj = if obj == null then some 0 else elim (cell obj) [
  | none ↦ none
  | some o ↦ elim (walk_from fuel cell o.next) [
    | none ↦ none
    | some n ↦ some (if o.allocated then n + 1 else n)
  ]
]

-- `obj_pool_walk`
unfoldable pub walk : ℕ → ObjPool → Option ℕ
walk fuel p = if ltb 0 p.num_traveling_objects then walk_from fuel p.cell p.all_objects else some 0

-- The first loop of `obj_pool_destroy`, which frees the available objects.
unfoldable pub free_available : ℕ → (ℕ → Option PooledObj) → ℕ → Option (ℕ → Option PooledObj)
free_available zero cell obj = none
free_available (suc fuel) cell obj = if obj == null then some cell else elim (cell obj) [
  | none ↦ none
  | some o ↦ free_available fuel (update cell obj none) o.next
]

-- The second loop of `obj_pool_destroy`, which calls the callback for each object that it meets.
unfoldable pub call_back : ℕ → (ℕ → Option PooledObj) → ℕ → Option (List ℕ)
call_back zero cell obj = none
call_back (suc fuel) cell obj = if obj == null then some [] else elim (cell obj) [
  | none ↦ none
  | some o ↦ elim (call_back fuel cell o.next) [ none ↦ none | some os ↦ some (obj ∷ os) ]
]

-- `obj_pool_destroy`: the memory that is left, the number of unreturned objects, and those that the callback
-- is called for; `none` where it reads memory without an object.
unfoldable pub destroy : ℕ → ObjPool → Option ((ℕ → Option PooledObj) × ℕ × List ℕ)
destroy fuel p = elim (free_available fuel p.cell p.available_objects) [
  | none ↦ none
  | some cell ↦
      if ltb 0 p.num_traveling_objects && p.has_callback
      then elim (call_back fuel cell p.all_objects) [
        | none ↦ none
        | some os ↦ some (cell, p.num_traveling_objects, os)
      ]
      else some (cell, p.num_traveling_objects, [])
]
