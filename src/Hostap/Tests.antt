-- ===== src/Hostap/Tests.antt =====
-- daemon/dwpald_hostap_parse.c on small inputs.
use dwpal.Common.{
  ℕ, ◌+◌, ◌-◌, ◌/◌, ◌≤◌, ◌<◌, ◌≡◌, refl, true, false, List, [], ◌∷◌, ◌++◌, some, none,
  if◌then◌else◌, ltb, length, arith, replicate, blit, count, ◌⊎◌,
}
use dwpal.Hostap.{c_str, str_to_hex, str_to_hex_loop, char_to_hex, poke, hex_to_str}
use dwpal.Hostap.Text.{decode, hex_to_str-decode, hex_to_str-str_to_hex}
use dwpal.Hostap.Command.{
  Param, type_dummy, type_int8, type_bool, negsuc, space, done, failed, cmd_build, value_text,
  digits,
}
use dwpal.Hostap.Command.Reference.{params_text, param_text}
use dwpal.Hostap.Command.Line.{cmd_build_lem}

-- "Az"
abbrev az : List ℕ
az = 65 ∷ 122 ∷ []

az_hex : str_to_hex true (replicate 6 7) 6 az ≡ some (true, 52 ∷ 49 ∷ 55 ∷ 65 ∷ 0 ∷ 7 ∷ [])
unfolding str_to_hex str_to_hex_loop char_to_hex poke
az_hex = refl

-- A character above 127 indexes far outside of the table of digits where `char` is signed.
wild_index : str_to_hex true (replicate 6 7) 6 (200 ∷ []) ≡ none
unfolding str_to_hex str_to_hex_loop char_to_hex
wild_index = refl

hex_to_str-str_to_hex_example :
    (out' : List ℕ) × ((str_to_hex true (replicate 6 7) 6 az ≡ some (true, out'))
      × ((out2' : List ℕ) × ((hex_to_str (replicate 4 7) 4 (c_str out') ≡ some (true, out2'))
            × (c_str out2' ≡ az))))
hex_to_str-str_to_hex_example =
    hex_to_str-str_to_hex true az (replicate 6 7) (replicate 4 7)
      ((omega arith, omega arith), ((omega arith, omega arith), tt)) (omega arith) (omega arith)
      (omega arith)

-- "4G": the second digit is none.
hex_to_str-decode_example :
    let str : List ℕ = 52 ∷ 71 ∷ [] in
    let out : List ℕ = replicate 3 7 in
    ((s : List ℕ) × ((decode str ≡ some s)
        × ((length s < length out)
            × (hex_to_str out (length out) str ≡ some (true, blit out 0 (s ++ 0 ∷ []))))))
    ⊎ (((decode str ≡ none) ⊎ (length out ≤ length str / 2))
        × ((out' : List ℕ) × ((hex_to_str out (length out) str ≡ some (false, out'))
              × (0 < count 0 out'))))
hex_to_str-decode_example = hex_to_str-decode (52 ∷ 71 ∷ []) (replicate 3 7) (omega arith)

-- "a" with the parameters " x=-5" and true.
abbrev params : List Param
params =
    record { field_of = type_int8 (negsuc 4); prefix = 120 ∷ 61 ∷ [] }
    ∷ record { field_of = type_dummy; prefix = 120 ∷ [] }
    ∷ record { field_of = type_bool true; prefix = [] }
    ∷ []

abbrev params_out : List ℕ
params_out = 120 ∷ 61 ∷ 45 ∷ 53 ∷ 32 ∷ 49 ∷ 32 ∷ []

params-text : params_text true (λ _. true) params ≡ done params_out
unfolding params_text param_text value_text digits
params-text = refl

cmd_build_lem_example :
    (u : List ℕ) × ((97 ∷ [] ++ (space ∷ params_out) ≡ u ++ space ∷ [])
      × (cmd_build true (λ _. true) none (some (replicate 12 7)) 12 (some (97 ∷ [])) (some params)
          ≡ (if ltb (length u + 1) 12
              then done (length u + 1, u ++ replicate (12 - length u) 0)
              else failed)))
cmd_build_lem_example =
    cmd_build_lem true (λ _. true) (replicate 12 7) (97 ∷ []) params params_out (omega arith)
      params-text
