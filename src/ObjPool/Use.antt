-- ===== src/ObjPool/Use.antt =====
-- wv_ipc/obj_pool.c: how objects are handed out.
use dwpal.Common.{
  ℕ, ◌+◌, ◌<◌, ◌≡◌, ◌≢◌, refl, sym, ap, subst, ◌∙◌, ◌⊎◌, inl, inr, Bool, true, false, some, List,
  [], ◌∷◌, arith, null, update, length, All-map, Bool-cases, Option-cases, ◌==◌,
}
use dwpal.ObjPool.{PooledObj, ObjPool, increase_size_to, next_size, take_first, alloc_object}
use dwpal.ObjPool.Valid.{FreeList, FreeList-frame, next_of, is_out, IsValid}
use dwpal.ObjPool.Grow.{frame_update, SameOut, increase_size_to-Grown}

-- An object has been handed out, or none has: which objects are out before and after.
pub record Gave (p : ObjPool) (r : ℕ × ObjPool) : Type 0 where
  pub given : r.0 ≢ null
  pub was_in : is_out p.cell r.0 ≡ false
  pub now_out : is_out r.1.cell r.0 ≡ true
  pub others : (q : ℕ) → q ≢ r.0 → is_out r.1.cell q ≡ is_out p.cell q
  pub counted : r.1.num_traveling_objects ≡ p.num_traveling_objects + 1

pub record Refused (p : ObjPool) (r : ℕ × ObjPool) : Type 0 where
  pub nothing : r.0 ≡ null
  pub all_same : (q : ℕ) → is_out r.1.cell q ≡ is_out p.cell q
  pub same_count : r.1.num_traveling_objects ≡ p.num_traveling_objects

pub record Allocated (p : ObjPool) (r : ℕ × ObjPool) : Type 0 where
  pub free : List ℕ
  pub valid : IsValid r.1 free
  pub started : r.1.destroy_started ≡ p.destroy_started
  pub outcome : Gave p r ⊎ Refused p r

-- The pool without its first available object `o`.
abbrev taken : ObjPool → PooledObj → ObjPool
taken p o = record p {
  cell = update p.cell p.available_objects (some (record o { allocated = true }));
  available_objects = o.next;
  num_traveling_objects = p.num_traveling_objects + 1;
}

module _ (p : ObjPool) (x : ℕ) (free : List ℕ) (v : IsValid p (x ∷ free)) (o : PooledObj)
    (at : p.cell p.available_objects ≡ some o) where
  take_first_lem : take_first p ≡ (p.available_objects, taken p o)
  unfolding take_first
  take_first_lem = ground (arith, at)

  taken-Gave : Gave p (p.available_objects, taken p o)
  taken-Gave = record {
    given = λ e. v.chain.1 (sym v.chain.0 ∙ e);
    was_in = ground (arith, at, ap p.cell v.chain.0, v.chain.2);
    now_out = ground arith;
    others = λ q h. ground arith;
    counted = refl;
  }

  taken-IsValid : IsValid (taken p o) free
  taken-IsValid = record {
    chain =
        let next : next_of p.cell x ≡ o.next = ground (arith, at, ap p.cell v.chain.0) in
        let apart =
          All-map (λ y. y ≢ x) (λ y. y ≢ p.available_objects) free (λ y h e. h (e ∙ v.chain.0))
            v.chain.3 in
        FreeList-frame p.cell (taken p o).cell o.next free
          (frame_update p.cell p.available_objects _ free apart)
          (subst (λ t. FreeList p.cell t free) next v.chain.4);
    out = p.available_objects ∷ v.out;
    member = λ q. ground (arith, v.member q, at, ap p.cell v.chain.0, v.chain.2);
    traveling = omega (arith, v.traveling);
    balance = omega (arith, v.balance);
    limit = v.limit;
    fresh = λ q h. ground (arith, v.fresh q, at);
    unnamed = ground (arith, v.unnamed, at);
    mine = λ q o' e. ground (arith, v.mine q o', v.mine p.available_objects o, at, e);
    no_fault = v.no_fault;
  }

there :
    (p : ObjPool) (x : ℕ) (free : List ℕ)
    → IsValid p (x ∷ free)
    → (o : PooledObj) × (p.cell p.available_objects ≡ some o)
there p x free v = elim (Option-cases (p.cell p.available_objects)) [
  | inl gone ↦ absurd (ground (arith, gone, ap p.cell v.chain.0, v.chain.2))
  | inr found ↦ found
]

take_first-Allocated :
    (p : ObjPool) (free : List ℕ)
    → IsValid p free
    → p.available_objects ≢ null
    → Gave p (take_first p)
      × ((rest : List ℕ) × IsValid (take_first p).1 rest)
      × ((take_first p).1.destroy_started ≡ p.destroy_started)
take_first-Allocated p [] v h = absurd (h v.chain)
take_first-Allocated p (x ∷ free) v h =
    let found = there p x free v in
    rw (take_first_lem p x free v found.0 found.1) (
      taken-Gave p x free v found.0 found.1,
      (free, taken-IsValid p x free v found.0 found.1),
      refl,
    )

Gave-after : (p p' : ObjPool) (r : ℕ × ObjPool) → SameOut p p' → Gave p' r → Gave p r
Gave-after p p' r s g = record {
  given = g.given;
  was_in = sym (s.out_eq r.0) ∙ g.was_in;
  now_out = g.now_out;
  others = λ q h. g.others q h ∙ s.out_eq q;
  counted = omega (arith, g.counted, s.traveling_eq);
}

-- The three ways through `obj_pool_alloc_object` of a pool that is not being destroyed.
module _ (p : ObjPool) (live : p.destroy_started ≡ false) where
  abbrev grown : Bool × ObjPool
  grown = increase_size_to (next_size p.curr_size) p

  from_list : p.available_objects ≢ null → alloc_object p ≡ take_first p
  unfolding alloc_object
  from_list h = ground (arith, live)

  no_memory : p.available_objects ≡ null → grown.0 ≡ true → alloc_object p ≡ (null, grown.1)
  unfolding alloc_object
  no_memory h e = ground (arith, live)

  from_growth :
      p.available_objects ≡ null
      → grown.0 ≡ false
      → grown.1.available_objects ≢ null
      → alloc_object p ≡ take_first grown.1
  unfolding alloc_object
  from_growth h e k = ground (arith, live)

nonempty :
    (p : ObjPool) (free : List ℕ) → IsValid p free → 0 < length free → p.available_objects ≢ null
nonempty p [] v h = absurd (omega arith)
nonempty p (x ∷ free) v h = λ e. v.chain.1 (sym v.chain.0 ∙ e)

empty : (p : ObjPool) (free : List ℕ) → IsValid p free → p.available_objects ≡ null → free ≡ []
empty p [] v h = refl
empty p (x ∷ free) v h = absurd (v.chain.1 (sym v.chain.0 ∙ h))

-- What an allocation comes to.
abbrev Allocates : ObjPool → List ℕ → ℕ × ObjPool → Type 0
Allocates p free r = Allocated p r × (free ≢ [] → r.0 ≢ null)

-- `obj_pool_alloc_object` of a valid pool that is not being destroyed keeps it valid, and gives an object
-- that nobody holds or NULL; no other object changes hands. If the pool has an available object it does
-- not give NULL.
pub alloc_object-Allocated :
    (p : ObjPool) (free : List ℕ)
    → IsValid p free
    → p.destroy_started ≡ false
    → Allocated p (alloc_object p) × (free ≢ [] → (alloc_object p).0 ≢ null)
alloc_object-Allocated p free v live = elim (Bool-cases (p.available_objects == null)) [
  | inr some_left ↦
      let h : p.available_objects ≢ null = ground arith in
      let t = take_first-Allocated p free v h in
      subst (Allocates p free) (sym (from_list p live h))
        (record { free = t.1.0; valid = t.1.1; started = t.2; outcome = inl t.0 }, λ _. t.0.given)
  | inl dry ↦
      let h : p.available_objects ≡ null = ground arith in
      let none_left : free ≢ [] → ⊥ = λ k. k (empty p free v h) in
      let g = increase_size_to-Grown (next_size p.curr_size) p free v in
      elim (Bool-cases (grown p live).0) [
        | inl failed ↦ subst (Allocates p free) (sym (no_memory p live h failed)) (
          record {
            free = g.1.free;
            valid = g.1.valid;
            started = g.1.same.started_eq;
            outcome = inr (record {
              nothing = refl;
              all_same = g.1.same.out_eq;
              same_count = g.1.same.traveling_eq;
            });
          },
          λ k. absurd (none_left k),
        )
        | inr fine ↦
            let more = g.2 fine in
            let k = nonempty (grown p live).1 g.1.free g.1.valid (
              omega (
                arith,
                more,
                g.1.size fine,
                g.1.valid.balance,
                v.balance,
                g.1.same.traveling_eq,
              )) in
            let t = take_first-Allocated (grown p live).1 g.1.free g.1.valid k in
            subst (Allocates p free) (sym (from_growth p live h fine k)) (
              record {
                free = t.1.0;
                valid = t.1.1;
                started = t.2 ∙ g.1.same.started_eq;
                outcome = inl (Gave-after p (grown p live).1 _ g.1.same t.0);
              },
              λ e. absurd (none_left e),
            )
      ]
]
