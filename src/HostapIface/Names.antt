-- ===== src/HostapIface/Names.antt =====
-- daemon/hostap_iface.c: the comparison of names by strncmp.
use dwpal.Common.{
  ℕ, zero, suc, ◌≤◌, ◌≡◌, refl, sym, ap, ◌∙◌, Bool, true, false, List, [], ◌∷◌, ◌==◌, length, take,
  arith,
}
use dwpal.HostapIface.{is_same}

take-is_same : (n : ℕ) (a b : List ℕ) → is_same n a b ≡ true → take n a ≡ take n b
unfolding is_same
take-is_same zero a b h = refl
take-is_same (suc n) [] [] h = refl
take-is_same (suc n) [] (y ∷ ys) h = absurd (cc h)
take-is_same (suc n) (x ∷ xs) [] h = absurd (cc h)
take-is_same (suc n) (x ∷ xs) (y ∷ ys) h = ground (arith, take-is_same n xs ys)

is_same-take : (n : ℕ) (a b : List ℕ) → take n a ≡ take n b → is_same n a b ≡ true
unfolding is_same
is_same-take zero a b h = refl
is_same-take (suc n) [] [] h = refl
is_same-take (suc n) [] (y ∷ ys) h = absurd (cc h)
is_same-take (suc n) (x ∷ xs) [] h = absurd (cc h)
is_same-take (suc n) (x ∷ xs) (y ∷ ys) h = ground (arith, is_same-take n xs ys)

pub is_same_refl : (n : ℕ) (a : List ℕ) → is_same n a a ≡ true
is_same_refl n a = is_same-take n a a refl

Bool_ext : (a b : Bool) → (a ≡ true → b ≡ true) → (b ≡ true → a ≡ true) → a ≡ b
Bool_ext true b f g = sym (f refl)
Bool_ext false true f g = g refl
Bool_ext false false f g = refl

pub is_same_sym : (n : ℕ) (a b : List ℕ) → is_same n a b ≡ is_same n b a
is_same_sym n a b =
    Bool_ext (is_same n a b) (is_same n b a) (λ h. is_same-take n b a (sym (take-is_same n a b h)))
      (λ h. is_same-take n a b (sym (take-is_same n b a h)))

-- Two names that are the same cannot be told apart.
pub is_same_replace :
    (n : ℕ) (a b c : List ℕ) → is_same n a b ≡ true → is_same n c a ≡ is_same n c b
is_same_replace n a b c h =
    Bool_ext (is_same n c a) (is_same n c b)
      (λ k. is_same-take n c b (take-is_same n c a k ∙ take-is_same n a b h))
      (λ k. is_same-take n c a (take-is_same n c b k ∙ sym (take-is_same n a b h)))

pub take_short : (n : ℕ) (xs : List ℕ) → length xs ≤ n → take n xs ≡ xs
take_short zero [] h = refl
take_short zero (x ∷ xs) h = absurd (omega arith)
take_short (suc n) [] h = refl
take_short (suc n) (x ∷ xs) h = ap (λ t. x ∷ t) (take_short n xs (omega arith))

pub length-nil : (xs : List ℕ) → (length xs == 0) ≡ true → xs ≡ []
length-nil [] h = refl
length-nil (x ∷ xs) h = absurd (ground arith)
