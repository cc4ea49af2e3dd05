-- ===== src/Hostap/Codec.antt =====
-- daemon/dwpald_hostap_parse.c: hexadecimal text against a plain description of it.
use dwpal.Common.{
  ℕ, zero, suc, ◌+◌, ◌*◌, ◌/◌, ◌%◌, ◌<◌, ◌≡◌, refl, sym, ap, subst, ◌∙◌, Bool, true, false, List,
  [], ◌∷◌, ◌++◌, Option, none, some, if◌then◌else◌, ltb, length, set, blit, All, arith,
}
use dwpal.Hostap.{
  ◌>>=◌, cell, poke, hex, unsigned_of, char_to_hex, hex_to_num, hex_to_byte, str_to_hex_loop,
  hex_to_str_loop,
}

-- The digit of a number below 16.
abbrev pub digit : ℕ → ℕ
digit n = if ltb n 10 then 48 + n else 55 + n

-- The text's characters as two digits each.
abbrev pub hex_text : List ℕ → List ℕ
hex_text [] = []
hex_text (c ∷ cs) = digit (c / 16) ∷ digit (c % 16) ∷ hex_text cs

-- A character that the table of digits covers on every compiler: below 128, or below 256 where `char` is
-- unsigned; and not the terminator.
abbrev pub IsPlain : Bool → ℕ → Type 0
IsPlain char_signed c = (0 < c) × (c < (if char_signed then 128 else 256))

cell-hex : (n : ℕ) → n < 16 → cell n hex ≡ some (digit n)
cell-hex zero h = refl
cell-hex (suc zero) h = refl
cell-hex (suc (suc zero)) h = refl
cell-hex (suc (suc (suc zero))) h = refl
cell-hex (suc (suc (suc (suc zero)))) h = refl
cell-hex (suc (suc (suc (suc (suc zero))))) h = refl
cell-hex (suc (suc (suc (suc (suc (suc zero)))))) h = refl
cell-hex (suc (suc (suc (suc (suc (suc (suc zero))))))) h = refl
cell-hex (suc (suc (suc (suc (suc (suc (suc (suc zero)))))))) h = refl
cell-hex (suc (suc (suc (suc (suc (suc (suc (suc (suc zero))))))))) h = refl
cell-hex (suc (suc (suc (suc (suc (suc (suc (suc (suc (suc zero)))))))))) h = refl
cell-hex (suc (suc (suc (suc (suc (suc (suc (suc (suc (suc (suc zero))))))))))) h = refl
cell-hex (suc (suc (suc (suc (suc (suc (suc (suc (suc (suc (suc (suc zero)))))))))))) h = refl
cell-hex (suc (suc (suc (suc (suc (suc (suc (suc (suc (suc (suc (suc (suc zero))))))))))))) h = refl
cell-hex (suc (suc (suc (suc (suc (suc (suc (suc (suc (suc (suc (suc (suc (suc zero))))))))))))))
      h =
    refl
cell-hex
      (suc (suc (suc (suc (suc (suc (suc (suc (suc (suc (suc (suc (suc (suc (suc zero)))))))))))))))
      h =
    refl
cell-hex
      (suc
        (suc (suc (suc (suc (suc (suc (suc (suc (suc (suc (suc (suc (suc (suc (suc n))))))))))))))))
      h =
    absurd (omega arith)

pub poke-set : (i v : ℕ) (out : List ℕ) → i < length out → poke i v out ≡ some (set out i v)
unfolding poke
poke-set i v [] h = absurd (omega arith)
poke-set zero v (x ∷ xs) h = refl
poke-set (suc i) v (x ∷ xs) h = rw (poke-set i v xs (omega arith))

pub length-set {ℓ} : {A : Type ℓ} (i : ℕ) (v : A) (out : List A) → length (set out i v) ≡ length out
length-set i v [] = refl
length-set zero v (x ∷ xs) = refl
length-set (suc i) v (x ∷ xs) = ap suc (length-set i v xs)

pub blit_nil {ℓ} : {A : Type ℓ} (i : ℕ) (out : List A) → blit out i [] ≡ out
blit_nil i [] = refl
blit_nil zero (x ∷ xs) = refl
blit_nil (suc i) (x ∷ xs) = ap (λ t. x ∷ t) (blit_nil i xs)

blit_next {ℓ} :
    {A : Type ℓ} (i : ℕ) (v : A) (src out : List A)
    → blit (set out i v) (suc i) src ≡ blit out i (v ∷ src)
blit_next i v src [] = refl
blit_next zero v src (x ∷ xs) = refl
blit_next (suc i) v src (x ∷ xs) = ap (λ t. x ∷ t) (blit_next i v src xs)

pub blit_cons {ℓ} :
    {A : Type ℓ} (i : ℕ) (v : A) (src out : List A)
    → blit (set out i v) (i + 1) src ≡ blit out i (v ∷ src)
blit_cons i v src out =
    subst (λ j. blit (set out i v) j src ≡ blit out i (v ∷ src)) (omega arith)
      (blit_next i v src out)

pub set-blit {ℓ} : {A : Type ℓ} (i : ℕ) (v : A) (out : List A) → set out i v ≡ blit out i (v ∷ [])
set-blit i v [] = refl
set-blit zero v (x ∷ xs) = ap (λ t. v ∷ t) (sym (blit_nil 0 xs))
set-blit (suc i) v (x ∷ xs) = ap (λ t. x ∷ t) (set-blit i v xs)

pub plain-lt : (char_signed : Bool) (c : ℕ) → IsPlain char_signed c → c < 256
plain-lt true c p = omega (arith, p.1)
plain-lt false c p = p.1

char_to_hex_lem :
    (char_signed : Bool) (c i : ℕ) (out : List ℕ)
    → IsPlain char_signed c
    → i + 1 < length out
    → char_to_hex char_signed c i out
      ≡ some (set (set out i (digit (c / 16))) (i + 1) (digit (c % 16)))
unfolding char_to_hex
char_to_hex_lem char_signed c i out p h =
    let u : unsigned_of char_signed c ≡ c = elim char_signed [
      | true ↦ ground arith
      | false ↦ ground arith
    ] in
    let b = plain-lt char_signed c p in
    rw u (
      rw
        (
          cell-hex (c / 16) (omega arith),
          poke-set i (digit (c / 16)) out (omega arith),
          cell-hex (c % 16) (omega arith),
        )
        (poke-set (i + 1) (digit (c % 16)) (set out i (digit (c / 16)))
          (omega (arith, length-set i (digit (c / 16)) out))))

-- The loop writes the digits and the terminator from its index on.
pub str_to_hex_loop_lem :
    (char_signed : Bool) (str : List ℕ) (i : ℕ) (out : List ℕ)
    → All (IsPlain char_signed) str
    → i + length str * 2 < length out
    → str_to_hex_loop char_signed str i out ≡ some (blit out i (hex_text str ++ 0 ∷ []))
unfolding str_to_hex_loop
str_to_hex_loop_lem char_signed [] i out p h =
    poke-set i 0 out (omega arith) ∙ ap some (set-blit i 0 out)
str_to_hex_loop_lem char_signed (c ∷ cs) i out p h =
    let d = digit (c / 16) in
    let e = digit (c % 16) in
    let out' = set (set out i d) (i + 1) e in
    let l : length out' ≡ length out = length-set (i + 1) e (set out i d) ∙ length-set i d out in
    let ih = str_to_hex_loop_lem char_signed cs (i + 2) out' p.1 (omega arith) in
    let b : blit out' (i + 2) (hex_text cs ++ 0 ∷ []) ≡ blit out i (hex_text (c ∷ cs) ++ 0 ∷ []) =
      subst (λ j. blit out' j (hex_text cs ++ 0 ∷ []) ≡ blit out i (hex_text (c ∷ cs) ++ 0 ∷ []))
        (omega arith)
        (blit_cons (i + 1) e (hex_text cs ++ 0 ∷ []) (set out i d)
          ∙ blit_cons i d (e ∷ (hex_text cs ++ 0 ∷ [])) out) in
    rw (char_to_hex_lem char_signed c i out p.0 (omega arith)) (ih ∙ ap some b)

hex_to_num-digit : (n : ℕ) → n < 16 → hex_to_num (digit n) ≡ some n
unfolding hex_to_num
hex_to_num-digit n h = ground arith

pub hex_to_byte-digit : (c : ℕ) → c < 256 → hex_to_byte (digit (c / 16)) (digit (c % 16)) ≡ some c
unfolding hex_to_byte
hex_to_byte-digit c h =
    rw (hex_to_num-digit (c / 16) (omega arith), hex_to_num-digit (c % 16) (omega arith))
      (ap some (omega arith))

-- The loop gets back the text whose digits it reads.
pub hex_to_str_loop_lem :
    (str : List ℕ) (i : ℕ) (out : List ℕ)
    → All (λ c. c < 256) str
    → i + length str < length out
    → hex_to_str_loop (hex_text str) i out ≡ some (true, blit out i (str ++ 0 ∷ []))
unfolding hex_to_str_loop
hex_to_str_loop_lem [] i out p h =
    rw (poke-set i 0 out (omega arith)) (ap (λ t. some (true, t)) (set-blit i 0 out))
hex_to_str_loop_lem (c ∷ cs) i out p h =
    let l : length (set out i c) ≡ length out = length-set i c out in
    let ih = hex_to_str_loop_lem cs (i + 1) (set out i c) p.1 (omega arith) in
    let done : Option (Bool × List ℕ) = some (true, blit out i (c ∷ (cs ++ 0 ∷ []))) in
    subst
      (λ o.
        (elim o [
          | none ↦ poke i 0 out >>= (λ out'. some (false, out'))
          | some v ↦ poke i v out >>= (λ out'. hex_to_str_loop (hex_text cs) (i + 1) out')
        ])
        ≡ done)
      (sym (hex_to_byte-digit c p.0))
      (rw (poke-set i c out (omega arith))
        (ih ∙ ap (λ t. some (true, t)) (blit_cons i c (cs ++ 0 ∷ []) out)))
