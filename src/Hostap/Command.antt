-- ===== src/Hostap/Command.antt =====
-- daemon/dwpald_hostap_parse.c: the building of a command for hostapd from a list of parameters.
pub mod Numbers
pub mod Reference
pub mod Line
use dwpal.Common.{
  ℕ, zero, suc, ◌+◌, ◌-◌, ◌*◌, ◌/◌, ◌%◌, Bool, true, false, not, List, [], ◌∷◌, ◌++◌, Option, none,
  some, if◌then◌else◌, ltb, ◌==◌, length, get_or, set, blit, replicate,
}
use dwpal.Hostap.{max_value, strnlen_s, c_str, str_to_hex}

-- What a call leaves: a value, -1, or an access outside of a buffer or table.
pub data Result {ℓ} (A : Type ℓ) : Type ℓ where
  done : A → Result A
  failed fault : Result A

infixl 5 ◌>>=◌
abbrev pub ◌>>=◌ {ℓ κ} : {A : Type ℓ} {B : Type κ} → Result A → (A → Result B) → Result B
done a >>= f = f a
failed >>= f = failed
fault >>= f = fault

-- An integer of C: `pos n`, or `negsuc n` for -(n + 1).
pub data ℤ : Type 0 where
  pos negsuc : ℕ → ℤ

-- `dwpald_field` with its `dwpald_type`. A `const char *` is a text without its terminator; the arrays
-- have no use in a command.
pub data Field : Type 0 where
  type_str type_hexstr : List ℕ → Field
  type_char : ℕ → Field
  type_int8 type_short type_int type_int64 : ℤ → Field
  type_uint8 type_ushort type_uint type_uint64 type_hex : ℕ → Field
  type_bool : Bool → Field
  type_str_array type_int_array type_hex_array type_dummy : Field

-- `dwpald_fields_to_cmd`; the prefix is empty where it is NULL.
pub record Param : Type 0 where
  pub field_of : Field
  pub prefix : List ℕ

abbrev pub space : ℕ
space = 32

-- The digit as `%u`, `%d` and `%X` print it.
abbrev pub digit_char : ℕ → ℕ
digit_char n = if ltb n 10 then 48 + n else 55 + n

-- The digits of a number, at most `fuel` of them.
unfoldable pub digits : ℕ → ℕ → ℕ → List ℕ
digits base zero n = []
digits base (suc fuel) n =
    let rest = digits base fuel (n / base) in
    if ltb n base then digit_char n ∷ [] else rest ++ digit_char (n % base) ∷ []

-- `%u`, `%llu` and `%X`; a number of 64 bits has at most 20 digits.
abbrev pub print_unsigned : ℕ → List ℕ
print_unsigned n = digits 10 20 n

abbrev pub print_hex : ℕ → List ℕ
print_hex n = digits 16 20 n

-- `%d` and `%lld`
abbrev pub print_signed : ℤ → List ℕ
print_signed (pos n) = print_unsigned n
print_signed (negsuc n) = 45 ∷ print_unsigned (n + 1)

-- The text for DWPALD_TYPE_HEXSTR, from a new buffer; `malloc_ok` says for which sizes `malloc` succeeds.
unfoldable pub hexstr : Bool → (ℕ → Bool) → List ℕ → Result (List ℕ)
hexstr char_signed malloc_ok str =
    let hexsize = strnlen_s str (max_value - 1) * 2 + 1 in
    if not (malloc_ok hexsize)
    then failed
    else elim (str_to_hex char_signed (replicate hexsize 0) hexsize str) [
      | none ↦ fault
      | some (ok, buffer) ↦ if ok then done (c_str buffer) else failed
    ]

-- What the `switch` of `dwpald_hostap_cmd_build` prints between the prefix and the space; `none` for
-- DWPALD_TYPE_DUMMY, which prints nothing at all.
unfoldable pub value_text : Bool → (ℕ → Bool) → Field → Result (Option (List ℕ))
value_text char_signed malloc_ok (type_str s) = done (some s)
value_text char_signed malloc_ok (type_hexstr s) =
    hexstr char_signed malloc_ok s >>= (λ t. done (some t))
value_text char_signed malloc_ok (type_char c) = done (some (c ∷ []))
value_text char_signed malloc_ok (type_int8 z) = done (some (print_signed z))
value_text char_signed malloc_ok (type_short z) = done (some (print_signed z))
value_text char_signed malloc_ok (type_int z) = done (some (print_signed z))
value_text char_signed malloc_ok (type_int64 z) = done (some (print_signed z))
value_text char_signed malloc_ok (type_uint8 n) = done (some (print_unsigned n))
value_text char_signed malloc_ok (type_ushort n) = done (some (print_unsigned n))
value_text char_signed malloc_ok (type_uint n) = done (some (print_unsigned n))
value_text char_signed malloc_ok (type_uint64 n) = done (some (print_unsigned n))
value_text char_signed malloc_ok (type_hex n) = done (some (print_hex n))
value_text char_signed malloc_ok (type_bool b) = done (some (print_unsigned (if b then 1 else 0)))
value_text char_signed malloc_ok type_str_array = failed
value_text char_signed malloc_ok type_int_array = failed
value_text char_signed malloc_ok type_hex_array = failed
value_text char_signed malloc_ok type_dummy = done none

-- The locals: the buffer, the index of `outp`, and the cells that are left.
pub record Build : Type 0 where
  pub out : List ℕ
  pub at : ℕ
  pub size : ℕ
  pub total : ℕ

-- `len = sprintf_s(outp, size, ...)`, the test for a negative `len`, and the sums. `overflow` is what
-- `sprintf_s` returns where the text and its terminator do not fit, `none` for a negative number; it then
-- leaves an empty text.
unfoldable pub print : Option ℕ → List ℕ → Build → Result Build
print overflow text b =
    if ltb (length text) b.size
    then done (record {
      out = blit b.out b.at (text ++ 0 ∷ []);
      at = b.at + length text;
      size = b.size - length text;
      total = b.total + length text;
    })
    else elim overflow [
      | none ↦ failed
      | some len ↦ done (record {
        out = set b.out b.at 0;
        at = b.at + len;
        size = b.size - len;
        total = b.total + len;
      })
    ]

-- The body of the loop of `dwpald_hostap_cmd_build`.
unfoldable pub print_param : Bool → (ℕ → Bool) → Option ℕ → Param → Build → Result Build
print_param char_signed malloc_ok overflow p b =
    value_text char_signed malloc_ok p.field_of
    >>= (λ v. elim v [ none ↦ done b | some t ↦ print overflow (p.prefix ++ (t ++ space ∷ [])) b ])

-- The loop, to the parameter of DWPALD_TYPE_END.
unfoldable pub print_params : Bool → (ℕ → Bool) → Option ℕ → List Param → Build → Result Build
print_params char_signed malloc_ok overflow [] b = done b
print_params char_signed malloc_ok overflow (p ∷ ps) b =
    print_param char_signed malloc_ok overflow p b
    >>= (λ b'. print_params char_signed malloc_ok overflow ps b')

-- `dwpald_hostap_cmd_build` into a buffer of `size` cells: `none` for a NULL argument; the result is what it
-- returns, with the buffer. The buffer after a failure is not kept.
unfoldable pub cmd_build :
    Bool
    → (ℕ → Bool)
    → Option ℕ
    → Option (List ℕ)
    → ℕ
    → Option (List ℕ)
    → Option (List Param)
    → Result (ℕ × List ℕ)
cmd_build char_signed malloc_ok overflow none size cmd params = failed
cmd_build char_signed malloc_ok overflow (some out) size none params = failed
cmd_build char_signed malloc_ok overflow (some out) size (some cmd) params =
    if size == 0
    then failed
    else print overflow (cmd ++ space ∷ [])
        (record { out = blit out 0 (replicate size 0); at = 0; size = size; total = 0 })
      >>= (λ b. (elim params [
        | none ↦ done b
        | some ps ↦ print_params char_signed malloc_ok overflow ps b
      ]))
      >>= (λ b.
          done (
            b.total,
            (if get_or b.out (b.at - 1) 0 == space then set b.out (b.at - 1) 0 else b.out),
          ))

-- `dwpald_hostap_cmd_format`, with the text that the format and its arguments make.
unfoldable pub cmd_format :
    Option ℕ → Option (List ℕ) → ℕ → Option (List ℕ) → Option (List ℕ) → Result (ℕ × List ℕ)
cmd_format overflow none size cmd text = failed
cmd_format overflow (some out) size none text = failed
cmd_format overflow (some out) size (some cmd) none = failed
cmd_format overflow (some out) size (some cmd) (some text) =
    if size == 0
    then failed
    else print overflow (cmd ++ space ∷ [])
        (record { out = blit out 0 (replicate size 0); at = 0; size = size; total = 0 })
      >>= (λ b. print overflow text b)
      >>= (λ b. done (b.total, b.out))
