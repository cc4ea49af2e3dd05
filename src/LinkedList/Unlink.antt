-- ===== src/LinkedList/Unlink.antt =====
-- wv_ipc/linked_list.h: the removal of one entry by list_foreach_remove_current_entry.
use dwpal.Common.{
  ℕ, ◌≡◌, ◌≢◌, refl, sym, ap, subst, ◌∙◌, inl, inr, true, List, [], ◌∷◌, ◌++◌, arith, null, update,
  update_self, update_ne, length-append, count, count-append, if◌then◌else◌, ◌==◌, Bool-cases,
}
use dwpal.LinkedList.{Allocator, Node, LinkedList, remove_current}
use dwpal.LinkedList.Segment.{
  Segment, Segment-frame, Segment-append, Segment-split, Segment-relink, last_or, last_or-append,
  last_listed, objects, IsList,
}
use dwpal.LinkedList.Push.{last_there}

removed_last :
    (d c : ℕ) (post : List ℕ)
    → count c post ≡ 0
    → (if c == last_or c post then d else last_or c post) ≡ last_or d post
removed_last d c [] h = ground arith
removed_last d c (y ∷ ys) h =
    let listed = last_listed y ys in
    let other : last_or y ys ≢ c = λ e. ground (arith, ap (λ t. count t (y ∷ ys)) e, listed, h) in
    ground (arith, other)

last_or_over : (d : ℕ) (xs ys : List ℕ) → last_or d (xs ++ ys) ≡ last_or (last_or d xs) ys
last_or_over d [] ys = refl
last_or_over d (x ∷ xs) ys = last_or_over x xs ys

module _ (A : Allocator) where
  open A use {State, put, is_held, put-IsValid, put_held}

  -- The list without the node `c`, which stands between `pre` and `post`; the objects stay in their nodes.
  pub record Unlinked (l l' : LinkedList State) (pre : List ℕ) (c : ℕ) (post : List ℕ)
      : Type 0 where
    pub is_list : IsList A l' (pre ++ post)
    pub goes_on : Segment l'.mem (l.mem c).next post null
    pub same_obj : (n : ℕ) → (l'.mem n).obj ≡ (l.mem n).obj

  remove_first_node :
      (l : LinkedList State) (c : ℕ) (post : List ℕ)
      → IsList A l (c ∷ post)
      → Unlinked l (remove_current A l null c) [] c post
  unfolding remove_current
  remove_first_node l c post v =
      let held : is_held l.pool c ≡ true = ground (arith, v.nodes c) in
      record {
        is_list = record {
          linked = v.linked.2;
          last_eq = rw v.last_eq (removed_last null c post (ground (arith, v.nodes c)));
          size_eq = omega (arith, v.size_eq);
          pool_valid = put-IsValid l.pool c v.pool_valid held;
          nodes = λ q. ground (arith, v.nodes q, put_held l.pool c q v.pool_valid held);
        };
        goes_on = v.linked.2;
        same_obj = λ n. refl;
      }

  remove_later_node :
      (l : LinkedList State) (x : ℕ) (xs : List ℕ) (c : ℕ) (post : List ℕ)
      → IsList A l ((x ∷ xs) ++ c ∷ post)
      → Unlinked l (remove_current A l (last_or x xs) c) (x ∷ xs) c post
  remove_later_node l x xs c post v =
      let pre = x ∷ xs in
      let z = last_or x xs in
      let l' = remove_current A l z c in
      let next = (l.mem c).next in
      let parts = Segment-split l.mem l.first null pre (c ∷ post) v.linked in
      let there : z ≢ null = last_there l.mem l.first parts.0 x xs parts.1 in
      let total = λ (q : ℕ). count-append q pre (c ∷ post) in
      let listed = last_listed x xs in
      let once : count z pre ≡ 1 = ground (arith, total z, v.nodes z, listed) in
      let absent : count z post ≡ 0 = ground (arith, total z, v.nodes z, listed) in
      let held : is_held l.pool c ≡ true = ground (arith, total c, v.nodes c) in
      let mem_eq : l'.mem ≡ update l.mem z (record (l.mem z) { next = next }) =
        unfold remove_current in ground (arith, there) in
      let at_z : l'.mem z ≡ record (l.mem z) { next = next } =
        ap (λ f. f z) mem_eq ∙ update_self l.mem z _ in
      let others = λ (m : ℕ) (h : m ≢ z). ap (λ f. f m) mem_eq ∙ update_ne l.mem z _ m h in
      let last_was : l.last ≡ last_or c post = v.last_eq ∙ last_or-append null pre c post in
      let last_now : l'.last ≡ last_or z post =
        unfold remove_current in
        rw last_was (removed_last z c post (ground (arith, total c, v.nodes c))) in
      let first_eq : l'.first ≡ l.first = unfold remove_current in ground (arith, there) in
      let after : Segment l'.mem next post null =
        Segment-frame l.mem l'.mem next null post
          (λ m k.
            ap (λ (t : Node). t.next)
              (others m (λ e. ground (arith, ap (λ t. count t post) e, absent, k))))
          parts.2.2 in
      record {
        is_list = record {
          linked =
              subst (λ t. Segment l'.mem t (pre ++ post) null) (sym first_eq)
                (Segment-append l'.mem l.first next null pre post
                  (Segment-relink l.mem l'.mem l.first parts.0 next x xs
                    (λ m k h. ap (λ (t : Node). t.next) (others m h))
                    (ap (λ (t : Node). t.next) at_z) once parts.1)
                  after);
          last_eq = last_now ∙ sym (last_or_over null pre post);
          size_eq =
              unfold remove_current in
              omega
                (arith, v.size_eq, length-append {0} pre (c ∷ post), length-append {0} pre post);
          pool_valid = unfold remove_current in put-IsValid l.pool c v.pool_valid held;
          nodes = λ q.
              unfold remove_current in
              ground (
                arith,
                count-append q pre post,
                total q,
                v.nodes q,
                put_held l.pool c q v.pool_valid held,
              );
        };
        goes_on = after;
        same_obj = λ n. elim (Bool-cases (n == z)) [
          | inl same ↦
              let e : n ≡ z = ground arith in
              ap (λ t. (l'.mem t).obj) e
              ∙ ap (λ (t : Node). t.obj) at_z
              ∙ ap (λ t. (l.mem t).obj) (sym e)
          | inr other ↦ let e : n ≢ z = ground arith in ap (λ (t : Node). t.obj) (others n e)
        ];
      }

  pub remove_node :
      (l : LinkedList State) (pre : List ℕ) (c : ℕ) (post : List ℕ)
      → IsList A l (pre ++ c ∷ post)
      → Unlinked l (remove_current A l (last_or null pre) c) pre c post
  remove_node l [] c post v = remove_first_node l c post v
  remove_node l (x ∷ xs) c post v = remove_later_node l x xs c post v

  -- The list after a loop that removes entries: the nodes before, and those that were kept.
  pub record Filtered (l l' : LinkedList State) (pre : List ℕ) (objs : List ℕ) : Type 0 where
    pub kept : List ℕ
    pub is_list : IsList A l' (pre ++ kept)
    pub objs_eq : objects l'.mem kept ≡ objs
    pub same_obj : (n : ℕ) → (l'.mem n).obj ≡ (l.mem n).obj
