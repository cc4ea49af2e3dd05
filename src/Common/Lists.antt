-- ===== src/Common/Lists.antt =====
-- C arrays as lists measured and indexed by native numbers.
use Prim.Native.Nat.{ℕ, zero, suc, ◌+◌, ◌-◌, ◌<◌}
use mathlib.Core.Path.{◌≡◌, refl, ap, ◌∙◌}
use mathlib.Core.Bool.{Bool, true, false}
use mathlib.Core.List.{List, [], ◌∷◌, ◌++◌, map}
use native.Mathlib.Omega.{arith}
use dwpal.Common.Tests.{◌==◌, leb, if◌then◌else◌}

module _ {ℓ} {A : Type ℓ} where
  abbrev pub length : List A → ℕ
  length [] = 0
  length (x ∷ xs) = suc (length xs)

  abbrev pub get_or : List A → ℕ → A → A
  get_or [] i d = d
  get_or (x ∷ xs) zero d = x
  get_or (x ∷ xs) (suc i) d = get_or xs i d

  -- A write out of bounds changes nothing.
  abbrev pub set : List A → ℕ → A → List A
  set [] i v = []
  set (x ∷ xs) zero v = v ∷ xs
  set (x ∷ xs) (suc i) v = x ∷ set xs i v

  abbrev pub take : ℕ → List A → List A
  take zero xs = []
  take (suc n) [] = []
  take (suc n) (x ∷ xs) = x ∷ take n xs

  abbrev pub drop : ℕ → List A → List A
  drop zero xs = xs
  drop (suc n) [] = []
  drop (suc n) (x ∷ xs) = drop n xs

  abbrev pub replicate : ℕ → A → List A
  replicate zero a = []
  replicate (suc n) a = a ∷ replicate n a

  pub length-append : (xs ys : List A) → length (xs ++ ys) ≡ length xs + length ys
  length-append [] ys = omega arith
  length-append (x ∷ xs) ys = omega (arith, length-append xs ys)

  pub length-replicate : (n : ℕ) (a : A) → length (replicate n a) ≡ n
  length-replicate zero a = refl
  length-replicate (suc n) a = ap suc (length-replicate n a)

  -- `memcpy` of `src` to the array `dst` at index `i`; what would go past the end is not written.
  abbrev pub blit : List A → ℕ → List A → List A
  blit [] i src = []
  blit (x ∷ xs) (suc i) src = x ∷ blit xs i src
  blit (x ∷ xs) zero [] = x ∷ xs
  blit (x ∷ xs) zero (y ∷ ys) = y ∷ blit xs zero ys

module _ {ℓ} {A : Type ℓ} where
  pub length-blit : (dst : List A) (i : ℕ) (src : List A) → length (blit dst i src) ≡ length dst
  length-blit [] i src = refl
  length-blit (x ∷ xs) (suc i) src = ap suc (length-blit xs i src)
  length-blit (x ∷ xs) zero [] = refl
  length-blit (x ∷ xs) zero (y ∷ ys) = ap suc (length-blit xs zero ys)

  pub get_or-append : (pre xs : List A) (d : A) → get_or (pre ++ xs) (length pre) d ≡ get_or xs 0 d
  get_or-append [] xs d = refl
  get_or-append (p ∷ pre) xs d = get_or-append pre xs d

  -- A copy over a middle part of the same length replaces that part.
  pub blit-append :
      (pre old post src : List A)
      → length src ≡ length old
      → blit (pre ++ (old ++ post)) (length pre) src ≡ pre ++ (src ++ post)
  blit-append (p ∷ pre) old post src h = ap (λ t. p ∷ t) (blit-append pre old post src h)
  blit-append [] [] [] [] h = refl
  blit-append [] [] (x ∷ post) [] h = refl
  blit-append [] [] post (y ∷ src) h = absurd (omega arith)
  blit-append [] (x ∷ old) post [] h = absurd (omega arith)
  blit-append [] (x ∷ old) post (y ∷ src) h =
      ap (λ t. y ∷ t) (blit-append [] old post src (omega arith))

  pub set-append :
      (pre : List A) (x : A) (post : List A) (v : A)
      → set (pre ++ (x ∷ post)) (length pre) v ≡ pre ++ (v ∷ post)
  set-append [] x post v = refl
  set-append (p ∷ pre) x post v = ap (λ t. p ∷ t) (set-append pre x post v)

  pub take-append : (xs ys : List A) → take (length xs) (xs ++ ys) ≡ xs
  take-append [] ys = refl
  take-append (x ∷ xs) ys = ap (λ t. x ∷ t) (take-append xs ys)

  pub drop-append : (xs ys : List A) → drop (length xs) (xs ++ ys) ≡ ys
  drop-append [] ys = refl
  drop-append (x ∷ xs) ys = drop-append xs ys

  pub replicate-append : (n m : ℕ) (a : A) → replicate n a ++ replicate m a ≡ replicate (n + m) a
  replicate-append zero m a = let e : m ≡ zero + m = omega arith in ap (λ k. replicate k a) e
  replicate-append (suc n) m a =
      let e : suc (n + m) ≡ suc n + m = omega arith in
      ap (λ t. a ∷ t) (replicate-append n m a) ∙ ap (λ k. replicate k a) e

  -- Annex K of the C standard: `memcpy_s` to the `dmax` cells of `dst` from index `i` on. A copy that is too
  -- long is refused, and clears them.
  abbrev pub memcpy_s : A → List A → ℕ → ℕ → List A → ℕ → List A
  memcpy_s zeroed dst i dmax src n =
      if leb n dmax then blit dst i (take n src) else blit dst i (replicate dmax zeroed)

pub take-all {ℓ} : {A : Type ℓ} (n : ℕ) (xs : List A) → n ≡ length xs → take n xs ≡ xs
take-all zero [] h = refl
take-all zero (x ∷ xs) h = absurd (omega arith)
take-all (suc n) [] h = absurd (omega arith)
take-all (suc n) (x ∷ xs) h = ap (λ t. x ∷ t) (take-all n xs (omega arith))

-- A predicate on every element of a list.
abbrev pub All {ℓ κ} : {A : Type ℓ} → (A → Type κ) → List A → Type κ
All P [] = Unit
All P (x ∷ xs) = P x × All P xs

pub All-append {ℓ κ} :
    {A : Type ℓ} (P : A → Type κ) (xs ys : List A) → All P xs → All P ys → All P (xs ++ ys)
All-append P [] ys hx hy = hy
All-append P (x ∷ xs) ys hx hy = (hx.0, All-append P xs ys hx.1 hy)

-- The elements that a test keeps.
unfoldable pub keep {ℓ} : {A : Type ℓ} → (A → Bool) → List A → List A
keep p [] = []
keep p (x ∷ xs) = elim (p x) [ true ↦ x ∷ keep p xs | false ↦ keep p xs ]

pub All-split {ℓ κ} :
    {A : Type ℓ} (P : A → Type κ) (xs ys : List A) → All P (xs ++ ys) → All P xs × All P ys
All-split P [] ys h = (tt, h)
All-split P (x ∷ xs) ys h = let r = All-split P xs ys h.1 in ((h.0, r.0), r.1)

pub All-map {ℓ κ} :
    {A : Type 0} (P : A → Type ℓ) (Q : A → Type κ) (xs : List A)
    → ((x : A) → P x → Q x)
    → All P xs
    → All Q xs
All-map P Q [] f a = tt
All-map P Q (x ∷ xs) f a = (f x a.0, All-map P Q xs f a.1)

-- How often a number stands in a list.
abbrev pub count : ℕ → List ℕ → ℕ
count p [] = 0
count p (q ∷ qs) = (if q == p then 1 else 0) + count p qs

-- The list without the first occurrence of a number.
unfoldable pub without : ℕ → List ℕ → List ℕ
without p [] = []
without p (q ∷ qs) = let rest = without p qs in if q == p then qs else q ∷ rest

pub count-without :
    (x p : ℕ) (l : List ℕ) → count x (without p l) ≡ (if p == x then count x l - 1 else count x l)
unfolding without
count-without x p [] = ground arith
count-without x p (q ∷ l) = ground (arith, count-without x p l)

pub length-without : (p : ℕ) (l : List ℕ) → 0 < count p l → length l ≡ length (without p l) + 1
unfolding without
length-without p [] h = absurd (omega arith)
length-without p (q ∷ l) h = ground (arith, length-without p l)

pub count-append : (x : ℕ) (xs ys : List ℕ) → count x (xs ++ ys) ≡ count x xs + count x ys
count-append x [] ys = omega arith
count-append x (y ∷ xs) ys = omega (arith, count-append x xs ys)

pub length-map {ℓ κ} :
    {A : Type ℓ} {B : Type κ} (xs : List A) (f : A → B) → length (map f xs) ≡ length xs
length-map [] f = refl
length-map (x ∷ xs) f = ap suc (length-map xs f)
