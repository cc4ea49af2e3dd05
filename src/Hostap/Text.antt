-- ===== src/Hostap/Text.antt =====
-- daemon/dwpald_hostap_parse.c: the conversions to and from hexadecimal text, as strings that end at a
-- terminator.
use dwpal.Common.{
  ℕ, zero, suc, ◌+◌, ◌*◌, ◌/◌, ◌%◌, ◌≤◌, ◌<◌, ◌≡◌, refl, ap, subst, ◌∙◌, Bool, true, false, List,
  [], ◌∷◌, ◌++◌, Option, none, some, length, set, blit, All, arith, ◌⊎◌, inl, inr, count,
  Option-cases, All-map,
}
use native.Mathlib.Decide.{dec_le}
use dwpal.Hostap.{
  c_str, ◌>>=◌, max_value, poke, hex_to_byte, str_to_hex, hex_to_str_loop, hex_to_str,
}
use dwpal.Hostap.Codec.{
  hex_text, IsPlain, poke-set, length-set, blit_cons, set-blit, str_to_hex_loop_lem,
  hex_to_str_loop_lem, hex_to_byte-digit, plain-lt,
}

-- The reference decoder: the characters that pairs of digits stand for.
unfoldable pub decode : List ℕ → Option (List ℕ)
decode [] = some []
decode (h ∷ []) = none
decode (h ∷ l ∷ cs) = do c ← hex_to_byte h l; s ← decode cs; some (c ∷ s)

decode-hex_text : (str : List ℕ) → All (λ c. c < 256) str → decode (hex_text str) ≡ some str
unfolding decode
decode-hex_text [] p = refl
decode-hex_text (c ∷ cs) p = rw (hex_to_byte-digit c p.0, decode-hex_text cs p.1)

length-decode : (str s : List ℕ) → decode str ≡ some s → (length s * 2 ≡ length str)
unfolding decode
length-decode [] s h = ground arith
length-decode (x ∷ []) s h = ground arith
length-decode (x ∷ l ∷ cs) s h = elim (Option-cases (hex_to_byte x l)) [
  | inl e ↦ ground (arith, e)
  | inr (c, e) ↦ elim (Option-cases (decode cs)) [
    | inl e' ↦ ground (arith, e, e')
    | inr (s', e') ↦ ground (arith, e, e', length-decode cs s' e')
  ]
]

count-set : (i : ℕ) (out : List ℕ) → i < length out → 0 < count 0 (set out i 0)
count-set i [] h = absurd (omega arith)
count-set zero (x ∷ xs) h = omega arith
count-set (suc i) (x ∷ xs) h = omega (arith, count-set i xs (omega arith))

-- What `hex_to_str` does with the text, from index `i` of `out` on.
Decodes : Option (List ℕ) → ℕ → List ℕ → Option (Bool × List ℕ) → Type 0
Decodes none i out r = (out' : List ℕ) × ((r ≡ some (false, out')) × (0 < count 0 out'))
Decodes (some s) i out r = r ≡ some (true, blit out i (s ++ 0 ∷ []))

extend-Decodes :
    (o : Option (List ℕ)) (c i : ℕ) (out : List ℕ) (r : Option (Bool × List ℕ))
    → Decodes o (i + 1) (set out i c) r
    → Decodes (o >>= (λ s. some (c ∷ s))) i out r
unfolding Decodes
extend-Decodes none c i out r h = h
extend-Decodes (some s) c i out r h = h ∙ ap (λ t. some (true, t)) (blit_cons i c (s ++ 0 ∷ []) out)

hex_to_str_loop-Decodes :
    (str : List ℕ) (i : ℕ) (out : List ℕ)
    → i + length str / 2 < length out
    → Decodes (decode str) i out (hex_to_str_loop str i out)
unfolding Decodes decode hex_to_str_loop
hex_to_str_loop-Decodes [] i out h =
    rw (poke-set i 0 out (omega arith)) (ap (λ t. some (true, t)) (set-blit i 0 out))
hex_to_str_loop-Decodes (x ∷ []) i out h =
    (set out i 0, (rw (poke-set i 0 out (omega arith)), count-set i out (omega arith)))
hex_to_str_loop-Decodes (x ∷ l ∷ cs) i out h =
    elim (hex_to_byte x l)
      as (λ o. Decodes (o >>= (λ c. decode cs >>= (λ s. some (c ∷ s)))) i out (elim o [
        | none ↦ poke i 0 out >>= (λ out'. some (false, out'))
        | some c ↦ poke i c out >>= (λ out'. hex_to_str_loop cs (i + 1) out')
      ])) [
        | none ↦ (set out i 0, (rw (poke-set i 0 out (omega arith)), count-set i out (omega arith)))
        | some c ↦
            let ih =
              hex_to_str_loop-Decodes cs (i + 1) (set out i c)
                (omega (arith, length-set i c out)) in
            rw (poke-set i c out (omega arith))
              (extend-Decodes (decode cs) c i out (hex_to_str_loop cs (i + 1) (set out i c)) ih)
      ]

c_str-blit :
    (str out : List ℕ)
    → All (λ c. 0 < c) str
    → length str < length out
    → c_str (blit out 0 (str ++ 0 ∷ [])) ≡ str
c_str-blit str [] p h = absurd (omega arith)
c_str-blit [] (x ∷ out) p h = refl
c_str-blit (c ∷ cs) (x ∷ out) p h = rw (c_str-blit cs out p.1 (omega arith)) (ground (arith, p.0))

hex_to_str_refuse :
    (str out : List ℕ)
    → 0 < length out
    → (length out ≤ length str / 2) ⊎ (length str % 2 ≡ 1)
    → hex_to_str out (length out) str ≡ some (false, set out 0 0)
unfolding hex_to_str
hex_to_str_refuse str out h (inl long) = rw (poke-set 0 0 out h) (ground arith)
hex_to_str_refuse str out h (inr odd) = rw (poke-set 0 0 out h) (ground arith)

hex_to_str_enter :
    (str out : List ℕ)
    → length str / 2 < length out
    → length str % 2 ≡ 0
    → hex_to_str out (length out) str ≡ hex_to_str_loop str 0 out
unfolding hex_to_str
hex_to_str_enter str out room even = ground arith

-- `dwpald_hex_to_str` into a buffer of at least one cell writes the text that the pairs of digits stand for,
-- with its terminator, if the text is made of such pairs and fits; else it reports a failure and leaves a
-- terminator in the buffer. It never writes outside of the buffer.
pub hex_to_str-decode :
    (str out : List ℕ)
    → 0 < length out
    → ((s : List ℕ) × ((decode str ≡ some s)
          × ((length s < length out)
              × (hex_to_str out (length out) str ≡ some (true, blit out 0 (s ++ 0 ∷ []))))))
      ⊎ (((decode str ≡ none) ⊎ (length out ≤ length str / 2))
          × ((out' : List ℕ) × ((hex_to_str out (length out) str ≡ some (false, out'))
                × (0 < count 0 out'))))
unfolding Decodes
hex_to_str-decode str out h = elim (dec_le (length out) (length str / 2)) [
  | yes long ↦
      inr (inr long, (set out 0 0, (hex_to_str_refuse str out h (inl long), count-set 0 out h)))
  | no fits ↦ elim (Option-cases (decode str)) [
    | inl e ↦ elim (dec_le 1 (length str % 2)) [
      | yes odd ↦ inr (
        inl e,
        (set out 0 0, (hex_to_str_refuse str out h (inr (omega arith)), count-set 0 out h)),
      )
      | no even ↦ inr (
        inl e,
        rw (hex_to_str_enter str out (omega arith) (omega arith)) (
            subst (λ o. Decodes o 0 out (hex_to_str_loop str 0 out)) e
              (hex_to_str_loop-Decodes str 0 out (omega arith))),
      )
    ]
    | inr (s, e) ↦
        let l = length-decode str s e in
        inl (
          s,
          (
            e,
            (
              omega arith,
              rw (hex_to_str_enter str out (omega arith) (omega arith)) (
                  subst (λ o. Decodes o 0 out (hex_to_str_loop str 0 out)) e
                    (hex_to_str_loop-Decodes str 0 out (omega arith))),
            ),
          ),
        )
  ]
]

length-hex_text : (str : List ℕ) → length (hex_text str) ≡ length str * 2
length-hex_text [] = refl
length-hex_text (c ∷ cs) = omega (arith, length-hex_text cs)

hex_text-positive :
    (char_signed : Bool) (str : List ℕ)
    → All (IsPlain char_signed) str
    → All (λ c. 0 < c) (hex_text str)
hex_text-positive char_signed [] p = tt
hex_text-positive char_signed (c ∷ cs) p =
    (ground arith, (ground arith, hex_text-positive char_signed cs p.1))

-- For a text of at most 4096 plain characters, a buffer with room for two digits each and a terminator, and
-- a second one with room for the text and a terminator: `dwpald_str_to_hex` and then `dwpald_hex_to_str` both
-- succeed, write inside of their buffers, and give the text back.
pub hex_to_str-str_to_hex :
    (char_signed : Bool) (str out out2 : List ℕ)
    → All (IsPlain char_signed) str
    → length str ≤ max_value
    → length str * 2 < length out
    → length str < length out2
    → (out' : List ℕ) × ((str_to_hex char_signed out (length out) str ≡ some (true, out'))
        × ((out2' : List ℕ) × ((hex_to_str out2 (length out2) (c_str out') ≡ some (true, out2'))
              × (c_str out2' ≡ str))))
unfolding str_to_hex
hex_to_str-str_to_hex char_signed str out out2 p short room room2 =
    let written = blit out 0 (hex_text str ++ 0 ∷ []) in
    let len = length-hex_text str in
    let first : str_to_hex char_signed out (length out) str ≡ some (true, written) =
      rw (str_to_hex_loop_lem char_signed str 0 out p (omega arith)) (ground arith) in
    let text : c_str written ≡ hex_text str =
      c_str-blit (hex_text str) out (hex_text-positive char_signed str p) (omega arith) in
    let back : hex_to_str out2 (length out2) (hex_text str)
        ≡ some (true, blit out2 0 (str ++ 0 ∷ [])) =
      hex_to_str_enter (hex_text str) out2 (omega arith) (omega arith)
      ∙ hex_to_str_loop_lem str 0 out2
          (All-map (IsPlain char_signed) (λ c. c < 256) str (plain-lt char_signed) p)
          (omega arith) in
    (
      written,
      (
        first,
        (
          blit out2 0 (str ++ 0 ∷ []),
          (
            ap (λ t. hex_to_str out2 (length out2) t) text ∙ back,
            c_str-blit str out2 (All-map (IsPlain char_signed) (λ c. 0 < c) str (λ c q. q.0) p)
                room2,
          ),
        ),
      ),
    )
