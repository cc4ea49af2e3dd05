-- ===== src/LinkedList/Remove.antt =====
-- wv_ipc/linked_list.c and linked_list.h: loops that remove entries, against a list of objects.
use mathlib.Core.List.{append_assoc}
use dwpal.Common.{
  ℕ, zero, suc, ◌<◌, ◌≡◌, ◌≢◌, refl, sym, ap, subst, ◌∙◌, inl, inr, Bool, true, false, not, some,
  List, [], ◌∷◌, ◌++◌, arith, null, length, length-map, count, if◌then◌else◌, ◌==◌, Bool-cases,
  keep, without,
}
use dwpal.LinkedList.{
  Allocator, LinkedList, remove_current, foreach_remove, clear, remove_loop, remove,
}
use dwpal.LinkedList.Segment.{Segment, last_or, last_or-append, objects, IsList}
use dwpal.LinkedList.Push.{objects-frame, Holds}
use dwpal.LinkedList.Unlink.{Filtered, remove_node}

keep-nothing : (xs : List ℕ) → keep (λ _. false) xs ≡ []
unfolding keep
keep-nothing [] = refl
keep-nothing (x ∷ xs) = keep-nothing xs

keep-hit :
    (test : ℕ → Bool) (o : ℕ) (os : List ℕ)
    → test o ≡ true
    → keep (λ x. not (test x)) (o ∷ os) ≡ keep (λ x. not (test x)) os
unfolding keep
keep-hit test o os h = ground (arith, h)

keep-miss :
    (test : ℕ → Bool) (o : ℕ) (os : List ℕ)
    → test o ≡ false
    → keep (λ x. not (test x)) (o ∷ os) ≡ o ∷ keep (λ x. not (test x)) os
unfolding keep
keep-miss test o os h = ground (arith, h)

module _ (A : Allocator) where
  open A use {State}

  foreach_remove_from :
      (fuel : ℕ) (test : ℕ → Bool) (l : LinkedList State) (pre rest : List ℕ) (curr : ℕ)
      → IsList A l (pre ++ rest)
      → Segment l.mem curr rest null
      → length rest < fuel
      → (l' : LinkedList State) × (foreach_remove A fuel test l (last_or null pre) curr ≡ some l')
        × Filtered A l l' pre (keep (λ o. not (test o)) (objects l.mem rest))
  foreach_remove_from zero test l pre rest curr v s h = absurd (omega arith)
  foreach_remove_from (suc fuel) test l pre [] curr v s h = (
    l,
    unfold foreach_remove in ground (arith, s),
    record { kept = []; is_list = v; objs_eq = unfold keep in refl; same_obj = λ n. refl },
  )
  foreach_remove_from (suc fuel) test l pre (c ∷ rest) curr v s h =
      elim (Bool-cases (test (l.mem c).obj)) [
        | inl hit ↦
            let prev = last_or null pre in
            let next = (l.mem c).next in
            let l1 = remove_current A l prev c in
            let u = remove_node A l pre c rest v in
            let e : foreach_remove A (suc fuel) test l prev curr
                ≡ foreach_remove A fuel test l1 prev next =
              unfold foreach_remove in ground (arith, s.0, s.1, hit) in
            let ih =
              foreach_remove_from fuel test l1 pre rest next u.is_list u.goes_on (omega arith) in
            let f = ih.2 in
            (
              ih.0,
              e ∙ ih.1,
              record {
                kept = f.kept;
                is_list = f.is_list;
                objs_eq =
                    f.objs_eq
                    ∙ ap (keep (λ o. not (test o)))
                        (objects-frame l.mem l1.mem rest (λ n _. u.same_obj n))
                    ∙ sym (keep-hit test (l.mem c).obj (objects l.mem rest) hit);
                same_obj = λ n. f.same_obj n ∙ u.same_obj n;
              },
            )
        | inr miss ↦
            let prev = last_or null pre in
            let next = (l.mem c).next in
            let pre' = pre ++ c ∷ [] in
            let e : foreach_remove A (suc fuel) test l prev curr
                ≡ foreach_remove A fuel test l c next =
              unfold foreach_remove in ground (arith, s.0, s.1, miss) in
            let regroup = λ (r : List ℕ). append_assoc pre (c ∷ []) r in
            let ih =
              foreach_remove_from fuel test l pre' rest next
                (subst (IsList A l) (sym (regroup rest)) v) s.2 (omega arith) in
            let f = ih.2 in
            let at_c : last_or null pre' ≡ c = last_or-append null pre c [] in
            (
              ih.0,
              e ∙ ap (λ t. foreach_remove A fuel test l t next) (sym at_c) ∙ ih.1,
              record {
                kept = c ∷ f.kept;
                is_list = subst (IsList A ih.0) (regroup f.kept) f.is_list;
                objs_eq =
                    (λ i. f.same_obj c i ∷ f.objs_eq i)
                    ∙ sym (keep-miss test (l.mem c).obj (objects l.mem rest) miss);
                same_obj = f.same_obj;
              },
            )
      ]

  -- On a list that holds objects, with more rounds than there are objects, a loop over all entries that
  -- removes those that pass a test ends, and leaves the others in their order.
  pub foreach_remove-Holds :
      (fuel : ℕ) (test : ℕ → Bool) (l : LinkedList State) (objs : List ℕ)
      → Holds A l objs
      → length objs < fuel
      → (l' : LinkedList State) × (foreach_remove A fuel test l null l.first ≡ some l')
        × Holds A l' (keep (λ o. not (test o)) objs)
  foreach_remove-Holds fuel test l objs h k =
      let same_length : length (objects l.mem h.at) ≡ length h.at = length-map h.at _ in
      let r =
        foreach_remove_from fuel test l [] h.at l.first h.is_list h.is_list.linked
          (omega (arith, same_length, ap length h.objs_eq)) in
      (
        r.0,
        r.1,
        record {
          at = r.2.kept;
          is_list = r.2.is_list;
          objs_eq = r.2.objs_eq ∙ ap (keep (λ o. not (test o))) h.objs_eq;
        },
      )

  remove_from :
      (fuel obj : ℕ) (l : LinkedList State) (pre rest : List ℕ) (curr : ℕ)
      → IsList A l (pre ++ rest)
      → Segment l.mem curr rest null
      → length rest < fuel
      → (found : Bool) × (l' : LinkedList State) × (remove_loop A fuel l (last_or null pre) curr obj
          ≡ some (found, l'))
        × (found ≡ (if count obj (objects l.mem rest) == 0 then false else true))
        × Filtered A l l' pre (without obj (objects l.mem rest))
  unfolding without
  remove_from zero obj l pre rest curr v s h = absurd (omega arith)
  remove_from (suc fuel) obj l pre [] curr v s h = (
    false,
    l,
    unfold remove_loop in ground (arith, s),
    refl,
    record { kept = []; is_list = v; objs_eq = refl; same_obj = λ n. refl },
  )
  remove_from (suc fuel) obj l pre (c ∷ rest) curr v s h =
      elim (Bool-cases ((l.mem c).obj == obj)) [
        | inl hit ↦
            let prev = last_or null pre in
            let l1 = remove_current A l prev c in
            let u = remove_node A l pre c rest v in
            let e : remove_loop A (suc fuel) l prev curr obj ≡ some (true, l1) =
              unfold remove_loop in ground (arith, s.0, s.1, hit) in
            (
              true,
              l1,
              e,
              rw hit (ground arith),
              record {
                kept = rest;
                is_list = u.is_list;
                objs_eq = rw hit (objects-frame l.mem l1.mem rest (λ n _. u.same_obj n));
                same_obj = u.same_obj;
              },
            )
        | inr miss ↦
            let prev = last_or null pre in
            let next = (l.mem c).next in
            let pre' = pre ++ c ∷ [] in
            let e : remove_loop A (suc fuel) l prev curr obj ≡ remove_loop A fuel l c next obj =
              unfold remove_loop in ground (arith, s.0, s.1, miss) in
            let regroup = λ (r : List ℕ). append_assoc pre (c ∷ []) r in
            let ih =
              remove_from fuel obj l pre' rest next (subst (IsList A l) (sym (regroup rest)) v) s.2
                (omega arith) in
            let f = ih.4 in
            let at_c : last_or null pre' ≡ c = last_or-append null pre c [] in
            (
              ih.0,
              ih.1,
              e ∙ ap (λ t. remove_loop A fuel l t next obj) (sym at_c) ∙ ih.2,
              ground (arith, miss, ih.3),
              record {
                kept = c ∷ f.kept;
                is_list = subst (IsList A ih.1) (regroup f.kept) f.is_list;
                objs_eq = rw miss (λ i. f.same_obj c i ∷ f.objs_eq i);
                same_obj = f.same_obj;
              },
            )
      ]

  -- On a list that holds objects, with more rounds than there are objects, `list_remove` of a non-NULL
  -- object ends, takes off its first occurrence and nothing else, and says whether there was one.
  pub remove-Holds :
      (fuel obj : ℕ) (l : LinkedList State) (objs : List ℕ)
      → Holds A l objs
      → length objs < fuel
      → obj ≢ null
      → (found : Bool) × (l' : LinkedList State) × (remove A fuel l obj ≡ some (found, l'))
        × (found ≡ (if count obj objs == 0 then false else true))
        × Holds A l' (without obj objs)
  remove-Holds fuel obj l objs h k there =
      let same_length : length (objects l.mem h.at) ≡ length h.at = length-map h.at _ in
      let r =
        remove_from fuel obj l [] h.at l.first h.is_list h.is_list.linked
          (omega (arith, same_length, ap length h.objs_eq)) in
      let e : remove A fuel l obj ≡ remove_loop A fuel l null l.first obj =
        unfold remove in ground (arith, there) in
      (
        r.0,
        r.1,
        e ∙ r.2,
        r.3 ∙ ap (λ t. if count obj t == 0 then false else true) h.objs_eq,
        record {
          at = r.4.kept;
          is_list = r.4.is_list;
          objs_eq = r.4.objs_eq ∙ ap (without obj) h.objs_eq;
        },
      )

  -- On a list that holds objects, with more rounds than there are objects, `list_clear` ends and leaves an
  -- empty list.
  pub clear-Holds :
      (fuel : ℕ) (l : LinkedList State) (objs : List ℕ)
      → Holds A l objs
      → length objs < fuel
      → (l' : LinkedList State) × (clear A fuel l ≡ some l') × Holds A l' []
  unfolding clear
  clear-Holds fuel l objs h k =
      let r = foreach_remove-Holds fuel (λ _. true) l objs h k in
      (r.0, r.1, subst (Holds A r.0) (keep-nothing objs) r.2)
