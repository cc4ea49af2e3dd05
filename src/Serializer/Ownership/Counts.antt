-- ===== src/Serializer/Ownership/Counts.antt =====
-- wv_ipc/work_serializer.c: how the list operations change the number of times an address is listed.
use dwpal.Common.{
  ℕ, ◌+◌, ◌-◌, ◌≡◌, refl, Bool, true, false, List, [], ◌∷◌, ◌++◌, arith, if◌then◌else◌, ◌==◌,
}
use dwpal.Serializer.{insert_before, remove}
use dwpal.Serializer.Ownership.{count}

pub count-insert_before :
    (x : ℕ) (test : ℕ → Bool) (p : ℕ) (l : List ℕ)
    → count x (insert_before test p l) ≡ (if p == x then 1 else 0) + count x l
unfolding insert_before
count-insert_before x test p [] = refl
count-insert_before x test p (q ∷ l) = ground (arith, count-insert_before x test p l)

pub count-snoc :
    (x p : ℕ) (l : List ℕ) → count x (l ++ p ∷ []) ≡ (if p == x then 1 else 0) + count x l
count-snoc x p [] = refl
count-snoc x p (q ∷ l) = ground (arith, count-snoc x p l)

pub count-remove :
    (x p : ℕ) (l : List ℕ) → count x (remove p l).1 ≡ (if p == x then count x l - 1 else count x l)
unfolding remove
count-remove x p [] = ground arith
count-remove x p (q ∷ l) = ground (arith, count-remove x p l)

pub remove_found :
    (p : ℕ) (l : List ℕ) → ((remove p l).0 ≡ (if count p l == 0 then false else true))
unfolding remove
remove_found p [] = refl
remove_found p (q ∷ l) = ground (arith, remove_found p l)
