-- ===== src/LinkedList/Queue.antt =====
-- wv_ipc/linked_list.c: pushes at the back and pops at the front, against a list of objects.
use mathlib.Core.List.{map-append, head-eq_of_cons-eq, tail-eq_of_cons-eq, nil≢cons}
use dwpal.Common.{
  ℕ, ◌+◌, ◌-◌, ◌<◌, ◌≡◌, ◌≢◌, refl, sym, ap, subst, ◌∙◌, inl, inr, true, false, List, [], ◌∷◌, ◌++◌,
  arith, null, update, length-append, count, count-append, if◌then◌else◌, ◌==◌, Bool-cases,
}
use dwpal.LinkedList.{Allocator, Node, LinkedList, push_front, push_back, pop_front, peek_front}
use dwpal.LinkedList.Segment.{
  Segment, Segment-append, Segment-relink, last_or, last_or-append, last_listed, objects, IsList,
}
use dwpal.LinkedList.Push.{
  objects-frame, last_there, Holds, Pushes, refused-Holds, push_front-Holds,
}

module _ (A : Allocator) where
  open A use {State, alloc, put, is_held, alloc_cases, alloc-IsValid, put-IsValid, put_held}

  abbrev behind : LinkedList State → ℕ → LinkedList State
  behind l obj =
      let n = (alloc l.pool).0 in
      let mem' = update l.mem n (record { obj = obj; next = null }) in
      record {
        pool = (alloc l.pool).1;
        mem = update mem' l.last (record (mem' l.last) { next = n });
        first = l.first;
        last = n;
        size = l.size + 1;
      }

  behind-Holds :
      (l : LinkedList State) (objs : List ℕ) (obj x : ℕ) (xs : List ℕ)
      → IsList A l (x ∷ xs)
      → objects l.mem (x ∷ xs) ≡ objs
      → (alloc l.pool).0 ≢ null
      → ((q : ℕ)
          → is_held (alloc l.pool).1 q ≡ (if q == (alloc l.pool).0 then true else is_held l.pool q))
      → is_held l.pool (alloc l.pool).0 ≡ false
      → Holds A (behind l obj) (objs ++ obj ∷ [])
  behind-Holds l objs obj x xs v o there held unheld =
      let n = (alloc l.pool).0 in
      let ns = x ∷ xs in
      let mem' = (behind l obj).mem in
      let z = last_or x xs in
      let unused : count n ns ≡ 0 = ground (arith, v.nodes n, unheld) in
      let listed = last_listed x xs in
      let once : count z ns ≡ 1 = ground (arith, v.nodes z, listed) in
      let apart : n ≢ z = λ e. ground (arith, ap (λ t. count t ns) e, unused, listed) in
      let at_last : l.last ≡ z = v.last_eq in
      let at_n : mem' n ≡ record { obj = obj; next = null } = ground (arith, at_last, apart) in
      let at_z : mem' z ≡ record (l.mem z) { next = n } = ground (arith, at_last, apart) in
      let others = λ (m : ℕ) (k : 0 < count m ns) (h : m ≢ z).
        let e : m ≢ n = λ t. ground (arith, ap (λ t. count t ns) t, unused, k) in
        let r : mem' m ≡ l.mem m = ground (arith, at_last, h, e) in r in
      let same_obj = λ (m : ℕ) (k : 0 < count m ns).
        elim (Bool-cases (m == z)) as (λ _. (mem' m).obj ≡ (l.mem m).obj) [
          | inl same ↦
              let e : m ≡ z = ground arith in
              ap (λ t. (mem' t).obj) e
              ∙ ap (λ (t : Node). t.obj) at_z
              ∙ ap (λ t. (l.mem t).obj) (sym e)
          | inr other ↦ let e : m ≢ z = ground arith in ap (λ (t : Node). t.obj) (others m k e)
        ] in
      record {
        at = ns ++ n ∷ [];
        is_list = record {
          linked =
              Segment-append mem' l.first n null ns (n ∷ [])
                (Segment-relink l.mem mem' l.first null n x xs
                  (λ m k h. ap (λ (t : Node). t.next) (others m k h))
                  (ap (λ (t : Node). t.next) at_z) once v.linked)
                (refl, there, ap (λ (t : Node). t.next) at_n);
          last_eq = sym (last_or-append null ns n []);
          size_eq = omega (arith, v.size_eq, length-append {0} ns (n ∷ []));
          pool_valid = alloc-IsValid l.pool v.pool_valid;
          nodes =
              λ q. ground (arith, count-append q ns (n ∷ []), v.nodes q, held q, unused, unheld);
        };
        objs_eq =
            map-append (λ t. (mem' t).obj) ns (n ∷ [])
            ∙ (λ i. (objects-frame l.mem mem' ns same_obj ∙ o) i ++ (at_n i).obj ∷ []);
      }

  push_back_rest :
      (l : LinkedList State) (objs : List ℕ) (obj : ℕ) (ns : List ℕ)
      → IsList A l ns
      → objects l.mem ns ≡ objs
      → obj ≢ null
      → Pushes A objs (objs ++ obj ∷ []) (push_back A l obj)
  push_back_rest l objs obj [] v o ne =
      let e : push_back A l obj ≡ push_front A l obj =
        unfold push_back in ground (arith, v.last_eq) in
      let front =
        push_front-Holds A l [] obj (record { at = []; is_list = v; objs_eq = refl }) ne in
      subst (Pushes A objs (objs ++ obj ∷ [])) (sym e)
        (subst (λ t. Pushes A t (t ++ obj ∷ []) (push_front A l obj)) o front)
  push_back_rest l objs obj (x ∷ xs) v o ne =
      let there : l.last ≢ null =
        λ e. last_there l.mem l.first null x xs v.linked (sym v.last_eq ∙ e) in
      elim (alloc_cases l.pool v.pool_valid) [
        | inl got ↦
            let e : push_back A l obj ≡ (true, behind l obj) =
              unfold push_back in ground (arith, got.0, there) in
            subst (Pushes A objs (objs ++ obj ∷ [])) (sym e)
              (inl (refl, behind-Holds l objs obj x xs v o got.0 got.1 got.2))
        | inr refused ↦
            let e : push_back A l obj ≡ (false, record l { pool = (alloc l.pool).1 }) =
              unfold push_back in ground (arith, refused.0, there) in
            let h : Holds A l objs = record { at = x ∷ xs; is_list = v; objs_eq = o } in
            subst (Pushes A objs (objs ++ obj ∷ [])) (sym e)
              (inr (refl, refused-Holds A l objs h refused.1))
      ]

  -- On a list that holds objects, `list_push_back` of a non-NULL object puts it last, or, for want of a
  -- node, keeps the objects.
  pub push_back-Holds :
      (l : LinkedList State) (objs : List ℕ) (obj : ℕ)
      → Holds A l objs
      → obj ≢ null
      → Pushes A objs (objs ++ obj ∷ []) (push_back A l obj)
  push_back-Holds l objs obj h ne = push_back_rest l objs obj h.at h.is_list h.objs_eq ne

  abbrev popped : LinkedList State → LinkedList State
  popped l =
      let next = (l.mem l.first).next in
      record l {
        pool = put l.pool l.first;
        first = next;
        last = if next == null then null else l.last;
        size = l.size - 1;
      }

  rest_last :
      (mem : ℕ → Node) (p x : ℕ) (xs : List ℕ)
      → Segment mem p (x ∷ xs) null
      → (if (mem x).next == null then null else last_or x xs) ≡ last_or null xs
  rest_last mem p x [] s = ground (arith, s.2)
  rest_last mem p x (y ∷ ys) s = ground (arith, s.2.0, s.2.1)

  popped-IsList :
      (l : LinkedList State) (x : ℕ) (xs : List ℕ) → IsList A l (x ∷ xs) → IsList A (popped l) xs
  popped-IsList l x xs v =
      let e = v.linked.0 in
      let held : is_held l.pool l.first ≡ true = ground (arith, v.nodes x, e) in
      let next : (l.mem l.first).next ≡ (l.mem x).next = ap (λ t. (l.mem t).next) e in
      record {
        linked = subst (λ t. Segment l.mem t xs null) (sym next) v.linked.2;
        last_eq = rw (next, v.last_eq) (rest_last l.mem l.first x xs v.linked);
        size_eq = omega (arith, v.size_eq);
        pool_valid = put-IsValid l.pool l.first v.pool_valid held;
        nodes = λ q. ground (arith, v.nodes q, put_held l.pool l.first q v.pool_valid held, e);
      }

  pop_front_rest :
      (l : LinkedList State) (o : ℕ) (objs : List ℕ) (ns : List ℕ)
      → IsList A l ns
      → objects l.mem ns ≡ o ∷ objs
      → ((pop_front A l).0 ≡ o) × (peek_front A l ≡ o) × Holds A (pop_front A l).1 objs
  pop_front_rest l o objs [] v h = absurd (nil≢cons h)
  pop_front_rest l o objs (x ∷ xs) v h =
      let there : l.first ≢ null = λ e. v.linked.1 (sym v.linked.0 ∙ e) in
      let here : (l.mem l.first).obj ≡ o =
        ap (λ t. (l.mem t).obj) v.linked.0 ∙ head-eq_of_cons-eq h in
      let e : pop_front A l ≡ ((l.mem l.first).obj, popped l) =
        unfold pop_front in ground (arith, there) in
      let done : Holds A (popped l) objs = record {
        at = xs;
        is_list = popped-IsList l x xs v;
        objs_eq = tail-eq_of_cons-eq h;
      } in
      (
        ap (λ t. t.0) e ∙ here,
        unfold peek_front in ground (arith, there, here),
        subst (λ t. Holds A t.1 objs) (sym e) done,
      )

  -- On a list that holds at least one object, `list_pop_front` gives the first and takes it off, and
  -- `list_peek_front` gives the same object.
  pub pop_front-Holds :
      (l : LinkedList State) (o : ℕ) (objs : List ℕ)
      → Holds A l (o ∷ objs)
      → ((pop_front A l).0 ≡ o) × (peek_front A l ≡ o) × Holds A (pop_front A l).1 objs
  pop_front-Holds l o objs h = pop_front_rest l o objs h.at h.is_list h.objs_eq
