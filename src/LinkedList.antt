-- ===== src/LinkedList.antt =====
-- wv_ipc/linked_list.c and linked_list.h: a list with pointers to its first and last node, whose nodes come
-- from a pool. Address 0 is NULL.
pub mod Segment
pub mod Push
pub mod Queue
pub mod Unlink
pub mod Remove
pub mod Tests
use dwpal.Common.{
  ℕ, zero, suc, ◌+◌, ◌-◌, ◌≡◌, ◌≢◌, ◌⊎◌, Bool, true, false, ◌||◌, Option, none, some, if◌then◌else◌,
  ◌==◌, null, update,
}

-- What the list needs of `obj_pool_alloc_object` and `obj_pool_put_object`; the pool has it in
-- `ObjPool.Allocator`. `is_held` says which objects are handed out.
pub record Allocator : Type 1 where
  pub State : Type 0
  pub alloc : State → ℕ × State
  pub put : State → ℕ → State
  pub IsValid : State → Type 0
  pub is_held : State → ℕ → Bool
  pub alloc-IsValid : (s : State) → IsValid s → IsValid (alloc s).1
  pub alloc_cases :
      (s : State)
      → IsValid s
      → (((alloc s).0 ≢ null)
          × ((q : ℕ) → is_held (alloc s).1 q ≡ (if q == (alloc s).0 then true else is_held s q))
          × (is_held s (alloc s).0 ≡ false))
        ⊎ (((alloc s).0 ≡ null) × ((q : ℕ) → is_held (alloc s).1 q ≡ is_held s q))
  pub put-IsValid : (s : State) (p : ℕ) → IsValid s → is_held s p ≡ true → IsValid (put s p)
  pub put_held :
      (s : State) (p q : ℕ)
      → IsValid s
      → is_held s p ≡ true
      → is_held (put s p) q ≡ (if q == p then false else is_held s q)

-- `node`
pub record Node : Type 0 where
  pub obj : ℕ
  pub next : ℕ

-- `l_list` over a pool's state, with the contents of its nodes: their memory stays the pool's.
pub record LinkedList (S : Type 0) : Type 0 where
  pub pool : S
  pub mem : ℕ → Node
  pub first : ℕ
  pub last : ℕ
  pub size : ℕ

module _ (A : Allocator) where
  open A use {State, alloc, put}

  -- `list_push_front`; the Boolean says that it succeeded.
  unfoldable pub push_front : LinkedList State → ℕ → Bool × LinkedList State
  push_front l obj =
      if obj == null
      then (false, l)
      else let (n, pool') = alloc l.pool in
        if n == null then (false, record l { pool = pool' }) else (
          true,
          record {
            pool = pool';
            mem = update l.mem n (record { obj = obj; next = l.first });
            first = n;
            last = if l.last == null then n else l.last;
            size = l.size + 1;
          },
        )

  -- `list_push_back`
  unfoldable pub push_back : LinkedList State → ℕ → Bool × LinkedList State
  unfolding push_front
  push_back l obj =
      if obj == null
      then (false, l)
      else if l.last == null
      then push_front l obj
      else let (n, pool') = alloc l.pool in
        if n == null
        then (false, record l { pool = pool' })
        else let mem' = update l.mem n (record { obj = obj; next = null }) in
          (
            true,
            record {
              pool = pool';
              mem = update mem' l.last (record (mem' l.last) { next = n });
              first = l.first;
              last = n;
              size = l.size + 1;
            },
          )

  -- `list_pop_front`; 0 is NULL.
  unfoldable pub pop_front : LinkedList State → ℕ × LinkedList State
  pop_front l =
      if l.first == null
      then (null, l)
      else let next = (l.mem l.first).next in
        (
          (l.mem l.first).obj,
          record l {
            pool = put l.pool l.first;
            first = next;
            last = if next == null then null else l.last;
            size = l.size - 1;
          },
        )

  -- `list_peek_front`
  unfoldable pub peek_front : LinkedList State → ℕ
  peek_front l = if l.first == null then null else (l.mem l.first).obj

  -- `list_foreach_remove_current_entry`
  unfoldable pub remove_current : LinkedList State → ℕ → ℕ → LinkedList State
  remove_current l prev curr =
      let next = (l.mem curr).next in
      record {
        pool = put l.pool curr;
        mem =
            if prev == null then l.mem else update l.mem prev (record (l.mem prev) { next = next });
        first = if prev == null then next else l.first;
        last = if curr == l.last then prev else l.last;
        size = l.size - 1;
      }

  -- `list_foreach_insert_before_current`: whether it succeeded, the new `__prev`, and the list.
  unfoldable pub insert_before_current : LinkedList State → ℕ → ℕ → ℕ → Bool × ℕ × LinkedList State
  insert_before_current l prev curr obj =
      let (n, pool') = alloc l.pool in
      if n == null
      then (false, prev, record l { pool = pool' })
      else let mem' = update l.mem n (record { obj = obj; next = curr }) in
        (
          true,
          n,
          record {
            pool = pool';
            mem = if prev == null then mem' else update mem' prev (record (mem' prev) { next = n });
            first = if prev == null then n else l.first;
            last = l.last;
            size = l.size + 1;
          },
        )

  -- The loop of `list_remove`, with the fuel of one round for each node; `none` when it is used up.
  unfoldable pub remove_loop : ℕ → LinkedList State → ℕ → ℕ → ℕ → Option (Bool × LinkedList State)
  remove_loop zero l prev curr obj = none
  remove_loop (suc fuel) l prev curr obj =
      let rest = remove_loop fuel l curr (l.mem curr).next obj in
      if curr == null
      then some (false, l)
      else if (l.mem curr).obj == obj
      then some (true, remove_current l prev curr)
      else rest

  -- `list_remove`
  unfoldable pub remove : ℕ → LinkedList State → ℕ → Option (Bool × LinkedList State)
  unfolding remove_loop
  remove fuel l obj = if obj == null then some (false, l) else remove_loop fuel l null l.first obj

  -- A loop that removes every entry that passes a test, as in `list_clear`.
  unfoldable pub foreach_remove :
      ℕ → (ℕ → Bool) → LinkedList State → ℕ → ℕ → Option (LinkedList State)
  foreach_remove zero test l prev curr = none
  foreach_remove (suc fuel) test l prev curr =
      let next = (l.mem curr).next in
      let gone = foreach_remove fuel test (remove_current l prev curr) prev next in
      let kept = foreach_remove fuel test l curr next in
      if curr == null then some l else if test (l.mem curr).obj then gone else kept

  -- `list_clear`
  unfoldable pub clear : ℕ → LinkedList State → Option (LinkedList State)
  unfolding foreach_remove
  clear fuel l = foreach_remove fuel (λ _. true) l null l.first

  -- The loop of `list_find_first`: the first object for which the comparison gives a value other than 0.
  unfoldable pub find_loop : ℕ → LinkedList State → (ℕ → Bool) → ℕ → Option ℕ
  find_loop zero l cmp curr = none
  find_loop (suc fuel) l cmp curr =
      let rest = find_loop fuel l cmp (l.mem curr).next in
      if curr == null
      then some null
      else if cmp (l.mem curr).obj
      then some (l.mem curr).obj
      else rest
