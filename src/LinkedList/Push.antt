-- ===== src/LinkedList/Push.antt =====
-- wv_ipc/linked_list.c: pushes and pops against a list of objects.
use dwpal.Common.{
  ℕ, ◌+◌, ◌<◌, ◌≡◌, ◌≢◌, refl, sym, ap, subst, ◌∙◌, ◌⊎◌, inl, inr, Bool, true, false, List, [], ◌∷◌,
  arith, null, update, update_ne, count, if◌then◌else◌, ◌==◌,
}
use dwpal.LinkedList.{Allocator, Node, LinkedList, push_front}
use dwpal.LinkedList.Segment.{Segment, Segment-frame, last_or, objects, IsList}

pub objects-frame :
    (mem mem' : ℕ → Node) (ns : List ℕ)
    → ((n : ℕ) → 0 < count n ns → (mem' n).obj ≡ (mem n).obj)
    → objects mem' ns ≡ objects mem ns
objects-frame mem mem' [] h = refl
objects-frame mem mem' (n ∷ ns) h =
    λ i. h n (ground arith) i ∷ objects-frame mem mem' ns (λ m k. h m (omega arith)) i

-- What an operation leaves: a list in memory with the given objects.
pub record Holds (A : Allocator) (l : LinkedList A.State) (objs : List ℕ) : Type 0 where
  pub at : List ℕ
  pub is_list : IsList A l at
  pub objs_eq : objects l.mem at ≡ objs

-- Memory that differs at one address that is none of the nodes.
pub frame_at :
    (mem : ℕ → Node) (n m : ℕ) (v : Node) (ns : List ℕ)
    → count n ns ≡ 0
    → 0 < count m ns
    → update mem n v m ≡ mem m
frame_at mem n m v ns unused k = update_ne mem n v m (λ e. ground (arith, ap (λ t. count t ns) e))

pub last_there :
    (mem : ℕ → Node) (p q x : ℕ) (xs : List ℕ) → Segment mem p (x ∷ xs) q → last_or x xs ≢ null
last_there mem p q x [] s = s.1
last_there mem p q x (y ∷ ys) s = last_there mem (mem x).next q y ys s.2

last_pushed :
    (mem : ℕ → Node) (p q n : ℕ) (ns : List ℕ)
    → Segment mem p ns q
    → (if last_or null ns == null then n else last_or null ns) ≡ last_or n ns
last_pushed mem p q n [] s = refl
last_pushed mem p q n (x ∷ xs) s = ground (arith, last_there mem p q x xs s)

module _ (A : Allocator) where
  open A use {State, alloc, put, is_held, alloc_cases, alloc-IsValid}

  abbrev pub Pushes : List ℕ → List ℕ → Bool × LinkedList State → Type 0
  Pushes old new t = ((t.0 ≡ true) × Holds A t.1 new) ⊎ ((t.0 ≡ false) × Holds A t.1 old)

  -- The list after its pool has refused a node.
  pub refused-Holds :
      (l : LinkedList State) (objs : List ℕ)
      → Holds A l objs
      → ((q : ℕ) → is_held (alloc l.pool).1 q ≡ is_held l.pool q)
      → Holds A (record l { pool = (alloc l.pool).1 }) objs
  refused-Holds l objs h same = record {
    at = h.at;
    is_list = record {
      linked = h.is_list.linked;
      last_eq = h.is_list.last_eq;
      size_eq = h.is_list.size_eq;
      pool_valid = alloc-IsValid l.pool h.is_list.pool_valid;
      nodes = λ q. ground (arith, h.is_list.nodes q, same q);
    };
    objs_eq = h.objs_eq;
  }

  abbrev in_front : LinkedList State → ℕ → LinkedList State
  in_front l obj =
      let n = (alloc l.pool).0 in
      record {
        pool = (alloc l.pool).1;
        mem = update l.mem n (record { obj = obj; next = l.first });
        first = n;
        last = if l.last == null then n else l.last;
        size = l.size + 1;
      }

  in_front-Holds :
      (l : LinkedList State) (objs : List ℕ) (obj : ℕ)
      → Holds A l objs
      → (alloc l.pool).0 ≢ null
      → ((q : ℕ)
          → is_held (alloc l.pool).1 q ≡ (if q == (alloc l.pool).0 then true else is_held l.pool q))
      → is_held l.pool (alloc l.pool).0 ≡ false
      → Holds A (in_front l obj) (obj ∷ objs)
  in_front-Holds l objs obj h there held unheld =
      let n = (alloc l.pool).0 in
      let v = h.is_list in
      let mem' = (in_front l obj).mem in
      let unused : count n h.at ≡ 0 = ground (arith, v.nodes n, unheld) in
      let kept = λ (m : ℕ) (k : 0 < count m h.at).
        frame_at l.mem n m (record { obj = obj; next = l.first }) h.at unused k in
      let new : mem' n ≡ record { obj = obj; next = l.first } = ground arith in
      record {
        at = n ∷ h.at;
        is_list = record {
          linked = (
            refl,
            there,
            subst (λ (t : Node). Segment mem' t.next h.at null) (sym new)
                (Segment-frame l.mem mem' l.first null h.at
                  (λ m k. ap (λ (t : Node). t.next) (kept m k)) v.linked),
          );
          last_eq = rw v.last_eq (last_pushed l.mem l.first null n h.at v.linked);
          size_eq = omega (arith, v.size_eq);
          pool_valid = alloc-IsValid l.pool v.pool_valid;
          nodes = λ q. ground (arith, v.nodes q, held q, unused, unheld);
        };
        objs_eq = λ i.
            (new i).obj
            ∷ (objects-frame l.mem mem' h.at (λ m k. ap (λ (t : Node). t.obj) (kept m k))
                  ∙ h.objs_eq)
                i;
      }

  -- On a list that holds objects, `list_push_front` of a non-NULL object puts it first, or, for want of a
  -- node, keeps the objects.
  pub push_front-Holds :
      (l : LinkedList State) (objs : List ℕ) (obj : ℕ)
      → Holds A l objs
      → obj ≢ null
      → Pushes objs (obj ∷ objs) (push_front A l obj)
  push_front-Holds l objs obj h ne = elim (alloc_cases l.pool h.is_list.pool_valid) [
    | inl got ↦
        let e : push_front A l obj ≡ (true, in_front l obj) =
          unfold push_front in ground (arith, got.0) in
        subst (Pushes objs (obj ∷ objs)) (sym e)
          (inl (refl, in_front-Holds l objs obj h got.0 got.1 got.2))
    | inr refused ↦
        let e : push_front A l obj ≡ (false, record l { pool = (alloc l.pool).1 }) =
          unfold push_front in ground (arith, refused.0) in
        subst (Pushes objs (obj ∷ objs)) (sym e) (inr (refl, refused-Holds l objs h refused.1))
  ]
