-- ===== src/LinkedList/Segment.antt =====
-- wv_ipc/linked_list.c: the nodes between two pointers.
use dwpal.Common.{
  ℕ, ◌<◌, ◌≡◌, ◌≢◌, refl, sym, subst, List, [], ◌∷◌, ◌++◌, map, arith, null, length, count,
  if◌then◌else◌,
}
use dwpal.LinkedList.{Allocator, Node, LinkedList}

-- From `p` the links lead over the nodes `ns` to `q`.
abbrev pub Segment : (ℕ → Node) → ℕ → List ℕ → ℕ → Type 0
Segment mem p [] q = p ≡ q
Segment mem p (n ∷ ns) q = (p ≡ n) × (n ≢ null) × Segment mem (mem n).next ns q

abbrev pub last_or : ℕ → List ℕ → ℕ
last_or d [] = d
last_or d (n ∷ ns) = last_or n ns

-- The objects of the nodes.
abbrev pub objects : (ℕ → Node) → List ℕ → List ℕ
objects mem = map λ n. (mem n).obj

-- A list in memory whose nodes are `ns`: exactly these are handed out by its pool.
pub record IsList (A : Allocator) (l : LinkedList A.State) (ns : List ℕ) : Type 0 where
  pub linked : Segment l.mem l.first ns null
  pub last_eq : l.last ≡ last_or null ns
  pub size_eq : l.size ≡ length ns
  pub pool_valid : A.IsValid l.pool
  pub nodes : (q : ℕ) → count q ns ≡ (if A.is_held l.pool q then 1 else 0)

-- The links of the nodes are all that a segment depends on.
pub Segment-frame :
    (mem mem' : ℕ → Node) (p q : ℕ) (ns : List ℕ)
    → ((n : ℕ) → 0 < count n ns → (mem' n).next ≡ (mem n).next)
    → Segment mem p ns q
    → Segment mem' p ns q
Segment-frame mem mem' p q [] h s = s
Segment-frame mem mem' p q (n ∷ ns) h s = (
  s.0,
  s.1,
  subst (λ t. Segment mem' t ns q) (sym (h n (ground arith)))
      (Segment-frame mem mem' (mem n).next q ns (λ m k. h m (omega arith)) s.2),
)

pub Segment-append :
    (mem : ℕ → Node) (p q r : ℕ) (xs ys : List ℕ)
    → Segment mem p xs q
    → Segment mem q ys r
    → Segment mem p (xs ++ ys) r
Segment-append mem p q r [] ys s t = subst (λ k. Segment mem k ys r) (sym s) t
Segment-append mem p q r (x ∷ xs) ys s t =
    (s.0, s.1, Segment-append mem (mem x).next q r xs ys s.2 t)

pub Segment-split :
    (mem : ℕ → Node) (p r : ℕ) (xs ys : List ℕ)
    → Segment mem p (xs ++ ys) r
    → (q : ℕ) × Segment mem p xs q × Segment mem q ys r
Segment-split mem p r [] ys s = (p, refl, s)
Segment-split mem p r (x ∷ xs) ys s =
    let t = Segment-split mem (mem x).next r xs ys s.2 in (t.0, (s.0, s.1, t.1), t.2)

pub last_listed : (x : ℕ) (xs : List ℕ) → 0 < count (last_or x xs) (x ∷ xs)
last_listed x [] = ground arith
last_listed x (y ∷ ys) = ground (arith, last_listed y ys)

pub last_or-append :
    (d : ℕ) (xs : List ℕ) (y : ℕ) (ys : List ℕ) → last_or d (xs ++ y ∷ ys) ≡ last_or y ys
last_or-append d [] y ys = refl
last_or-append d (x ∷ xs) y ys = last_or-append x xs y ys

-- A new link of its last node moves the end of a segment.
pub Segment-relink :
    (mem mem' : ℕ → Node) (p q q' : ℕ) (x : ℕ) (xs : List ℕ)
    → ((n : ℕ) → 0 < count n (x ∷ xs) → n ≢ last_or x xs → (mem' n).next ≡ (mem n).next)
    → (mem' (last_or x xs)).next ≡ q'
    → count (last_or x xs) (x ∷ xs) ≡ 1
    → Segment mem p (x ∷ xs) q
    → Segment mem' p (x ∷ xs) q'
Segment-relink mem mem' p q q' x [] h e c s = (s.0, s.1, e)
Segment-relink mem mem' p q q' x (y ∷ ys) h e c s =
    let later = last_listed y ys in
    let other : x ≢ last_or y ys = λ k. ground (arith, k, later, c) in
    let rest =
      Segment-relink mem mem' (mem x).next q q' y ys (λ n k. h n (ground arith)) e
        (ground (arith, later, c)) s.2 in
    (s.0, s.1, subst (λ t. Segment mem' t (y ∷ ys) q') (sym (h x (ground arith) other)) rest)
