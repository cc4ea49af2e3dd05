-- ===== src/ObjPool/Walk.antt =====
-- wv_ipc/obj_pool.c: what the loops that follow `next` from the list of all objects see. `next` is the link of
-- the list of available objects; `all_next` links all objects.
use dwpal.Common.{
  ℕ, zero, suc, ◌<◌, ◌≡◌, sym, ap, ◌∙◌, Option, some, List, [], ◌∷◌, arith, length, count, ◌==◌,
  inl, inr, Bool-cases,
}
use dwpal.ObjPool.{PooledObj, ObjPool, walk_from, walk}
use dwpal.ObjPool.Valid.{FreeList, next_of, IsValid}

walk_from-FreeList :
    (fuel : ℕ) (cell : ℕ → Option PooledObj) (p : ℕ) (xs : List ℕ)
    → FreeList cell p xs
    → length xs < fuel
    → walk_from fuel cell p ≡ some 0
unfolding walk_from
walk_from-FreeList zero cell p xs f h = absurd (omega arith)
walk_from-FreeList (suc fuel) cell p [] f h = ground (arith, f)
walk_from-FreeList (suc fuel) cell p (x ∷ xs) f h =
    let rest = walk_from-FreeList fuel cell (next_of cell x) xs f.4 (omega arith) in
    ground (arith, f.0, f.1, f.2, ap cell f.0, rest)

walk_from_member :
    (fuel : ℕ) (cell : ℕ → Option PooledObj) (p x : ℕ) (xs : List ℕ)
    → FreeList cell p xs
    → 0 < count x xs
    → length xs < fuel
    → walk_from fuel cell x ≡ some 0
walk_from_member fuel cell p x [] f m h = absurd (omega arith)
walk_from_member fuel cell p x (y ∷ xs) f m h = elim (Bool-cases (y == x)) [
  | inl here ↦
      let e : p ≡ x = ground (arith, f.0) in
      ap (walk_from fuel cell) (sym e) ∙ walk_from-FreeList fuel cell p (y ∷ xs) f h
  | inr later ↦ walk_from_member fuel cell (next_of cell y) x xs f.4 (ground arith) (omega arith)
]

-- If the newest object of a valid pool is available, and there are more rounds than available objects,
-- `obj_pool_walk` finds no allocated object, however many are handed out.
pub walk_misses :
    (p : ObjPool) (free : List ℕ) (fuel : ℕ)
    → IsValid p free
    → 0 < count p.all_objects free
    → length free < fuel
    → walk fuel p ≡ some 0
unfolding walk
walk_misses p free fuel v newest h =
    let r = walk_from_member fuel p.cell p.available_objects p.all_objects free v.chain newest h in
    ground (arith, r)
