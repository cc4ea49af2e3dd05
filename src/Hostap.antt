-- ===== src/Hostap.antt =====
-- daemon/dwpald_hostap_parse.c: text in hexadecimal digits, in both directions. A text is a list of the codes
-- of its characters without the terminator; a buffer is a list of cells, and `none` is an access outside of
-- a buffer or of the table of digits.
pub mod Codec
pub mod Text
pub mod Command
pub mod Tests
use dwpal.Common.{
  ℕ, zero, suc, ◌+◌, ◌-◌, ◌*◌, ◌/◌, ◌%◌, ◌^◌, Bool, true, false, not, ◌&&◌, ◌||◌, List, [], ◌∷◌,
  Option, none, some, if◌then◌else◌, ltb, leb, ◌==◌, length,
}

infixl 5 ◌>>=◌
abbrev pub ◌>>=◌ {ℓ κ} : {A : Type ℓ} {B : Type κ} → Option A → (A → Option B) → Option B
none >>= f = none
some a >>= f = f a

-- HOSTAPD_TO_DWPAL_VALUE_STRING_LENGTH
abbrev pub max_value : ℕ
max_value = 4096

abbrev pub cell {ℓ} : {A : Type ℓ} → ℕ → List A → Option A
cell i [] = none
cell zero (x ∷ xs) = some x
cell (suc i) (x ∷ xs) = cell i xs

-- `out[i] = v`
unfoldable pub poke : ℕ → ℕ → List ℕ → Option (List ℕ)
poke i v [] = none
poke zero v (x ∷ xs) = some (v ∷ xs)
poke (suc i) v (x ∷ xs) = elim (poke i v xs) [ none ↦ none | some ys ↦ some (x ∷ ys) ]

-- The string that a buffer holds: up to its terminator.
abbrev pub c_str : List ℕ → List ℕ
c_str [] = []
c_str (x ∷ xs) = let rest = c_str xs in if x == 0 then [] else x ∷ rest

-- `strnlen_s` of Annex K.
abbrev pub strnlen_s : List ℕ → ℕ → ℕ
strnlen_s str n = if leb (length str) n then length str else n

-- The table of `_char_to_hex`: "0123456789ABCDEF".
abbrev pub hex : List ℕ
hex = 48 ∷ 49 ∷ 50 ∷ 51 ∷ 52 ∷ 53 ∷ 54 ∷ 55 ∷ 56 ∷ 57 ∷ 65 ∷ 66 ∷ 67 ∷ 68 ∷ 69 ∷ 70 ∷ []

-- `(unsigned)c` of a `char`, which is signed or not as the compiler has it.
abbrev pub unsigned_of : Bool → ℕ → ℕ
unsigned_of char_signed c = if char_signed && leb 128 c then 2 ^ 32 - 256 + c else c

-- `_char_to_hex`, with `out` from index `i` on.
unfoldable pub char_to_hex : Bool → ℕ → ℕ → List ℕ → Option (List ℕ)
char_to_hex char_signed c i out = do
  let u = unsigned_of char_signed c
  hi ← cell (u / 16) hex
  out' ← poke i hi out
  lo ← cell (u % 16) hex
  poke (i + 1) lo out'

-- `_hex_to_num`; `none` is -1.
unfoldable pub hex_to_num : ℕ → Option ℕ
hex_to_num c =
    if leb 48 c && leb c 57
    then some (c - 48)
    else if leb 97 c && leb c 102
    then some (c - 97 + 10)
    else if leb 65 c && leb c 70
    then some (c - 65 + 10)
    else none

-- `_hex_to_byte` of the digits at `hex[0]` and `hex[1]`; `none` is -1.
unfoldable pub hex_to_byte : ℕ → ℕ → Option ℕ
hex_to_byte h l = do hi ← hex_to_num h; lo ← hex_to_num l; some (hi * 16 + lo)

-- The loop of `dwpald_str_to_hex` from index `i` of `out` on, with the terminator behind it.
unfoldable pub str_to_hex_loop : Bool → List ℕ → ℕ → List ℕ → Option (List ℕ)
str_to_hex_loop char_signed [] i out = poke i 0 out
str_to_hex_loop char_signed (c ∷ cs) i out = do
  out' ← char_to_hex char_signed c i out
  str_to_hex_loop char_signed cs (i + 2) out'

-- `dwpald_str_to_hex`
unfoldable pub str_to_hex : Bool → List ℕ → ℕ → List ℕ → Option (Bool × List ℕ)
str_to_hex char_signed out size str =
    if ltb size (strnlen_s str max_value * 2 + 1)
    then poke 0 0 out >>= (λ out'. some (false, out'))
    else str_to_hex_loop char_signed str 0 out >>= (λ out'. some (true, out'))

-- The loop of `dwpald_hex_to_str` from index `i` of `out` on, and its two exits. A lone last digit is read
-- together with the terminator.
unfoldable pub hex_to_str_loop : List ℕ → ℕ → List ℕ → Option (Bool × List ℕ)
hex_to_str_loop [] i out = poke i 0 out >>= (λ out'. some (true, out'))
hex_to_str_loop (h ∷ []) i out = poke i 0 out >>= (λ out'. some (false, out'))
hex_to_str_loop (h ∷ l ∷ cs) i out = elim (hex_to_byte h l) [
  | none ↦ poke i 0 out >>= (λ out'. some (false, out'))
  | some c ↦ poke i c out >>= (λ out'. hex_to_str_loop cs (i + 1) out')
]

-- `dwpald_hex_to_str`
unfoldable pub hex_to_str : List ℕ → ℕ → List ℕ → Option (Bool × List ℕ)
hex_to_str out size str =
    let len = strnlen_s str ((size + 1) * 2) in
    if size == 0
    then some (false, out)
    else if ltb size (len / 2 + 1) || not (len % 2 == 0)
    then poke 0 0 out >>= (λ out'. some (false, out'))
    else hex_to_str_loop str 0 out
