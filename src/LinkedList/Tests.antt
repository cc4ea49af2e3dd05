-- ===== src/LinkedList/Tests.antt =====
-- wv_ipc/linked_list.c on small inputs, with nodes from the pool of wv_ipc/obj_pool.c.
use dwpal.Common.{
  ◌≡◌, refl, Bool, true, false, [], ◌∷◌, none, some, arith, null, keep, without, update, ◌==◌,
  if◌then◌else◌,
}
use dwpal.ObjPool.{ObjPool}
use dwpal.ObjPool.Allocator.{IsLive, pool_allocator}
use dwpal.LinkedList.{LinkedList, foreach_remove, remove}
use dwpal.LinkedList.Push.{Holds}
use dwpal.LinkedList.Remove.{foreach_remove-Holds, remove-Holds}

-- A pool of three nodes, of which 1 and 2 are in the list.
abbrev nodes : ObjPool
nodes = record {
  self = 1000;
  available_objects = 3;
  all_objects = 3;
  destroy_started = false;
  has_callback = false;
  min_size = 3;
  max_size = 3;
  curr_size = 3;
  num_traveling_objects = 2;
  cell =
      update
        (update
          (update (λ _. none) 1
            (some (record { next = 0; all_next = 0; pool = 1000; allocated = true })))
          2 (some (record { next = 0; all_next = 1; pool = 1000; allocated = true })))
        3 (some (record { next = 0; all_next = 2; pool = 1000; allocated = false }));
  brk = 3;
  grants = λ _. true;
  fault = false;
}

nodes-IsLive : IsLive nodes
nodes-IsLive = (
  (
    3 ∷ [],
    record {
      chain = (refl, omega arith, refl, tt, refl);
      out = 1 ∷ 2 ∷ [];
      member = λ q. ground arith;
      traveling = refl;
      balance = refl;
      limit = ground arith;
      fresh = λ q h. ground arith;
      unnamed = refl;
      mine = λ q o e. ground (arith, e);
      no_fault = refl;
    },
  ),
  refl,
)

-- The list of the objects 70 and 80.
abbrev two_objs : LinkedList ObjPool
two_objs = record {
  pool = nodes;
  mem = λ n. if n == 1 then record { obj = 70; next = 2 } else record { obj = 80; next = 0 };
  first = 1;
  last = 2;
  size = 2;
}

two_objs-Holds : Holds pool_allocator two_objs (70 ∷ 80 ∷ [])
two_objs-Holds = record {
  at = 1 ∷ 2 ∷ [];
  is_list = record {
    linked = (refl, omega arith, (refl, omega arith, refl));
    last_eq = refl;
    size_eq = refl;
    pool_valid = nodes-IsLive;
    nodes = λ q. ground arith;
  };
  objs_eq = refl;
}

foreach_remove-Holds_example :
    (l : LinkedList ObjPool) × (foreach_remove pool_allocator 3 (λ o. o == 70) two_objs null 1
      ≡ some l)
    × Holds pool_allocator l (80 ∷ [])
unfolding keep
foreach_remove-Holds_example =
    foreach_remove-Holds pool_allocator 3 (λ o. o == 70) two_objs (70 ∷ 80 ∷ []) two_objs-Holds
      (omega arith)

remove-Holds_example :
    (found : Bool) × (l : LinkedList ObjPool) × (remove pool_allocator 3 two_objs 80
      ≡ some (found, l))
    × (found ≡ true)
    × Holds pool_allocator l (70 ∷ [])
unfolding without
remove-Holds_example =
    remove-Holds pool_allocator 3 80 two_objs (70 ∷ 80 ∷ []) two_objs-Holds (omega arith)
      (omega arith)
