-- ===== src/Ipc/Header/Scan.antt =====
-- wv_ipc/wave_ipc_core.c: where the two loops over the array of headers end.
use dwpal.Common.{
  ℕ, zero, suc, ◌+◌, ◌≤◌, ◌<◌, ◌≡◌, refl, sym, ap, ◌∙◌, List, [], ◌∷◌, ◌++◌, Option, some, arith,
  length, get_or, replicate, length-append, get_or-append, All,
}
use mathlib.Core.List.{append_assoc}
use dwpal.Ipc.Message.{hdr_size}
use dwpal.Ipc.Header.{push_scan, pop_scan}
use dwpal.Ipc.Header.Frames.{encode}

zeros_head : (z : ℕ) → get_or {A = ℕ} (replicate z 0) 0 0 ≡ 0
zeros_head zero = refl
zeros_head (suc z) = refl

-- Where nothing but zeros follows, both loops stop.
module _ (pre hdr : List ℕ) (z : ℕ) (e : hdr ≡ pre ++ replicate z 0) where
  free_at : get_or hdr (length pre) 0 ≡ 0
  free_at = ap (λ t. get_or t (length pre) 0) e ∙ get_or-append pre (replicate z 0) 0 ∙ zeros_head z

  push_scan_end : (fuel : ℕ) → push_scan (suc fuel) hdr (length pre) ≡ some (length pre)
  unfolding push_scan
  push_scan_end fuel = ground (arith, free_at)

  pop_scan_end : (fuel j : ℕ) → pop_scan (suc fuel) hdr (length pre) j ≡ some (length pre, j)
  unfolding pop_scan
  pop_scan_end fuel j = ground (arith, free_at)

-- At a header that has been pushed, they go on behind it.
module _ (pre f rest hdr : List ℕ) (e : hdr ≡ pre ++ (length f ∷ (f ++ rest))) where
  abbrev past : List ℕ
  past = pre ++ (length f ∷ f)

  past_eq : hdr ≡ past ++ rest
  past_eq = e ∙ sym (append_assoc pre (length f ∷ f) rest)

  length-past : length past ≡ length pre + length f + 1
  length-past = omega (arith, length-append {0} pre (length f ∷ f))

  here_eq : get_or hdr (length pre) 0 ≡ length f
  here_eq = ap (λ t. get_or t (length pre) 0) e ∙ get_or-append pre (length f ∷ (f ++ rest)) 0

  push_scan_step :
      (fuel : ℕ)
      → 0 < length f
      → length past ≤ hdr_size
      → push_scan (suc fuel) hdr (length pre) ≡ push_scan fuel hdr (length past)
  unfolding push_scan
  push_scan_step fuel h fits = rw length-past (ground (arith, here_eq, length-past))

  pop_scan_step :
      (fuel j : ℕ)
      → 0 < length f
      → length past ≤ hdr_size
      → pop_scan (suc fuel) hdr (length pre) j ≡ pop_scan fuel hdr (length past) (length pre)
  unfolding pop_scan
  pop_scan_step fuel j h fits = rw length-past (ground (arith, here_eq, length-past))

regroup :
    (pre f : List ℕ) (fs : List (List ℕ)) (zs : List ℕ)
    → pre ++ (encode (f ∷ fs) ++ zs) ≡ pre ++ (length f ∷ (f ++ (encode fs ++ zs)))
regroup pre f fs zs = ap (λ t. pre ++ (length f ∷ t)) (append_assoc f (encode fs) zs)

-- The loop of `wave_ipc_msg_push_hdr` finds the end of the headers.
pub push_scan_lem :
    (fs : List (List ℕ)) (pre hdr : List ℕ) (z fuel : ℕ)
    → All (λ f. 0 < length f) fs
    → hdr ≡ pre ++ (encode fs ++ replicate z 0)
    → length pre + length (encode fs) ≤ hdr_size
    → length (encode fs) < fuel
    → push_scan fuel hdr (length pre) ≡ some (length pre + length (encode fs))
push_scan_lem fs pre hdr z zero a e fits h = absurd (omega arith)
push_scan_lem [] pre hdr z (suc fuel) a e fits h =
    push_scan_end pre hdr z e fuel ∙ ap some (omega arith)
push_scan_lem (f ∷ fs) pre hdr z (suc fuel) a e fits h =
    let rest = encode fs ++ replicate z 0 in
    let e' = e ∙ regroup pre f fs (replicate z 0) in
    let long = length-past pre f rest hdr e' in
    let split = length-append {0} f (encode fs) in
    push_scan_step pre f rest hdr e' fuel a.0 (omega (arith, long, split))
    ∙ push_scan_lem fs (past pre f rest hdr e') hdr z fuel a.1 (past_eq pre f rest hdr e')
        (omega (arith, long, split)) (omega (arith, split))
    ∙ ap some (omega (arith, long, split))

pub some_pair : {a b c d : ℕ} → a ≡ b → c ≡ d → ◌≡◌ {A = Option (ℕ × ℕ)} (some (a, c)) (some (b, d))
some_pair p q = λ i. some (p i, q i)

-- The loop of `wave_ipc_msg_pop_hdr` finds the end of the headers and the start of the last.
pub pop_scan_lem :
    (fs : List (List ℕ)) (g pre hdr : List ℕ) (z fuel j : ℕ)
    → All (λ f. 0 < length f) fs
    → 0 < length g
    → hdr ≡ pre ++ (encode (fs ++ g ∷ []) ++ replicate z 0)
    → length pre + length (encode (fs ++ g ∷ [])) ≤ hdr_size
    → length (encode (fs ++ g ∷ [])) < fuel
    → pop_scan fuel hdr (length pre) j
      ≡ some (length pre + length (encode (fs ++ g ∷ [])), length pre + length (encode fs))
pop_scan_lem fs g pre hdr z zero j a b e fits h = absurd (omega arith)
pop_scan_lem [] g pre hdr z (suc zero) j a b e fits h = absurd (omega arith)
pop_scan_lem [] g pre hdr z (suc (suc fuel)) j a b e fits h =
    let rest : List ℕ = replicate z 0 in
    let e' = e ∙ regroup pre g [] rest in
    let long = length-past pre g rest hdr e' in
    let split = length-append {0} g [] in
    pop_scan_step pre g rest hdr e' (suc fuel) j b (omega (arith, long, split))
    ∙ pop_scan_end (past pre g rest hdr e') hdr z (past_eq pre g rest hdr e') fuel (length pre)
    ∙ some_pair (omega (arith, long, split)) (omega arith)
pop_scan_lem (f ∷ fs) g pre hdr z (suc fuel) j a b e fits h =
    let rest = encode (fs ++ g ∷ []) ++ replicate z 0 in
    let e' = e ∙ regroup pre f (fs ++ g ∷ []) (replicate z 0) in
    let long = length-past pre f rest hdr e' in
    let split = length-append {0} f (encode (fs ++ g ∷ [])) in
    pop_scan_step pre f rest hdr e' fuel j a.0 (omega (arith, long, split))
    ∙ pop_scan_lem fs g (past pre f rest hdr e') hdr z fuel (length pre) a.1 b
        (past_eq pre f rest hdr e') (omega (arith, long, split)) (omega (arith, split))
    ∙ some_pair (omega (arith, long, split)) (omega (arith, long, length-append {0} f (encode fs)))
