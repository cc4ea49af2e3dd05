-- ===== src/ObjPool/Valid.antt =====
-- wv_ipc/obj_pool.c: the list of available objects, and what a pool keeps true.
use dwpal.Common.{
  ℕ, ◌+◌, ◌≤◌, ◌<◌, ◌≡◌, ◌≢◌, ap, ◌⊎◌, Bool, true, false, not, Option, none, some, List, [], ◌∷◌,
  arith, null, length, All, count, if◌then◌else◌,
}
use dwpal.ObjPool.{PooledObj, ObjPool}

abbrev pub next_of : (ℕ → Option PooledObj) → ℕ → ℕ
next_of cell x = elim (cell x) [ none ↦ null | some o ↦ o.next ]

abbrev pub is_free : (ℕ → Option PooledObj) → ℕ → Bool
is_free cell x = elim (cell x) [ none ↦ false | some o ↦ not o.allocated ]

-- Whether the object at an address is handed out.
abbrev pub is_out : (ℕ → Option PooledObj) → ℕ → Bool
is_out cell x = elim (cell x) [ none ↦ false | some o ↦ o.allocated ]

-- The list of available objects from `p` on is `xs`.
abbrev pub FreeList : (ℕ → Option PooledObj) → ℕ → List ℕ → Type 0
FreeList cell p [] = p ≡ null
FreeList cell p (x ∷ xs) =
    (p ≡ x)
    × (x ≢ null)
    × (is_free cell x ≡ true)
    × All (λ y. y ≢ x) xs
    × FreeList cell (next_of cell x) xs

-- The available objects of a pool are `free`; the others that it has made, `out`, are handed out, and the
-- limit on their number holds.
pub record IsValid (p : ObjPool) (free : List ℕ) : Type 0 where
  pub chain : FreeList p.cell p.available_objects free
  pub out : List ℕ
  pub member : (q : ℕ) → count q out ≡ (if is_out p.cell q then 1 else 0)
  pub traveling : length out ≡ p.num_traveling_objects
  pub balance : length free + p.num_traveling_objects ≡ p.curr_size
  pub limit : (p.max_size ≡ 0) ⊎ (p.curr_size ≤ p.max_size)
  pub fresh : (q : ℕ) → p.brk < q → p.cell q ≡ none
  pub unnamed : p.cell null ≡ none
  pub mine : (q : ℕ) (o : PooledObj) → p.cell q ≡ some o → o.pool ≡ p.self
  pub no_fault : p.fault ≡ false

-- Writes elsewhere leave the list as it is.
pub FreeList-frame :
    (cell cell' : ℕ → Option PooledObj) (p : ℕ) (xs : List ℕ)
    → All (λ y. cell' y ≡ cell y) xs
    → FreeList cell p xs
    → FreeList cell' p xs
FreeList-frame cell cell' p [] a f = f
FreeList-frame cell cell' p (x ∷ xs) a f = (
  f.0,
  f.1,
  ground (arith, a.0, f.2),
  f.3,
  let same : next_of cell' x ≡ next_of cell x = ground (arith, a.0) in
      rw same (FreeList-frame cell cell' (next_of cell x) xs a.1 f.4),
)

-- An available object is free, and so not one that is handed out or not there.
pub free_ne :
    (cell : ℕ → Option PooledObj) (p q : ℕ) (xs : List ℕ)
    → is_free cell q ≡ false
    → FreeList cell p xs
    → All (λ y. y ≢ q) xs
free_ne cell p q [] h f = tt
free_ne cell p q (x ∷ xs) h f =
    ((λ e. ground (arith, ap cell e, f.2)), free_ne cell (next_of cell x) q xs h f.4)
