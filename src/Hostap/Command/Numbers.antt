-- ===== src/Hostap/Command/Numbers.antt =====
-- daemon/dwpald_hostap_parse.c: the numbers in a command.
use dwpal.Common.{
  ℕ, zero, suc, ◌+◌, ◌-◌, ◌*◌, ◌/◌, ◌%◌, ◌^◌, ◌≤◌, ◌<◌, ◌≡◌, refl, ap, ◌∙◌, List, [], ◌∷◌, ◌++◌,
  if◌then◌else◌, ltb, Bool-cases, inl, inr, arith, ltb→lt,
}
use dwpal.Hostap.Command.{digit_char, digits, print_unsigned, print_hex}

-- The number that a digit stands for, as `strtoul` reads it.
abbrev digit_value : ℕ → ℕ
digit_value c = if ltb c 58 then c - 48 else c - 55

-- The number that digits stand for, behind those that have been read.
unfoldable pub value_from : ℕ → ℕ → List ℕ → ℕ
value_from base acc [] = acc
value_from base acc (d ∷ ds) = value_from base (acc * base + digit_value d) ds

abbrev pub value : ℕ → List ℕ → ℕ
value base ds = value_from base 0 ds

value_from-append :
    (base acc : ℕ) (xs ys : List ℕ)
    → value_from base acc (xs ++ ys) ≡ value_from base (value_from base acc xs) ys
unfolding value_from
value_from-append base acc [] ys = refl
value_from-append base acc (x ∷ xs) ys = value_from-append base (acc * base + digit_value x) xs ys

digit_value-digit_char : (n : ℕ) → n < 16 → digit_value (digit_char n) ≡ n
digit_value-digit_char n h = ground arith

-- What `fuel` digits can hold.
abbrev room : ℕ → ℕ → ℕ
room base zero = 1
room base (suc fuel) = base * room base fuel

value-digits :
    (base fuel n : ℕ)
    → 1 < base
    → base ≤ 16
    → n < room base fuel
    → value base (digits base fuel n) ≡ n
unfolding digits value_from
value-digits base zero n lo hi h = omega arith
value-digits base (suc fuel) n lo hi h =
    let q : n / base < room base fuel = grind arith in
    let ih = value-digits base fuel (n / base) lo hi q in
    elim (Bool-cases (ltb n base)) [
      | inl e ↦ rw e (
          ap (λ z. 0 * base + z) (digit_value-digit_char n (omega (arith, ltb→lt n base e)))
          ∙ (grind arith))
      | inr e ↦ rw e (
          value_from-append base 0 (digits base fuel (n / base)) (digit_char (n % base) ∷ [])
          ∙ ap (λ z. z * base + digit_value (digit_char (n % base))) ih
          ∙ ap (λ z. n / base * base + z) (digit_value-digit_char (n % base) (grind arith))
          ∙ (grind arith))
    ]

-- Every number of 64 bits is what its printed decimal digits stand for, and what its printed hexadecimal
-- digits stand for.
pub value-print :
    (n : ℕ) → n < 2 ^ 64 → (value 10 (print_unsigned n) ≡ n) × (value 16 (print_hex n) ≡ n)
value-print n h = (
  value-digits 10 20 n (omega arith) (omega arith) (omega arith),
  value-digits 16 20 n (omega arith) (omega arith) (omega arith),
)
