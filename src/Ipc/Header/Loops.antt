-- ===== src/Ipc/Header/Loops.antt =====
-- wv_ipc/wave_ipc_core.c: on which arrays of 32 bytes the two loops over the headers end. Such an array
-- can come from the socket, so nothing is known of its bytes.
use dwpal.Common.{
  ℕ, zero, suc, ◌+◌, ◌%◌, ◌≤◌, ◌<◌, ◌≡◌, ◌≢◌, refl, List, [], ◌∷◌, Option, none, some, arith,
  get_or, All, Bool-cases, ltb, ◌==◌, inl, inr,
}
use dwpal.Ipc.Message.{hdr_size}
use dwpal.Ipc.Header.{push_scan, pop_scan, scan_fuel, push_hdr, pop_hdr}

push_scan_ends :
    (fuel : ℕ) (hdr : List ℕ) (i : ℕ)
    → hdr_size < fuel + i
    → 0 < fuel
    → (r : ℕ) × (push_scan fuel hdr i ≡ some r)
unfolding push_scan
push_scan_ends zero hdr i h p = absurd (omega arith)
push_scan_ends (suc zero) hdr i h p = (i, ground arith)
push_scan_ends (suc (suc fuel)) hdr i h p =
    let next = push_scan_ends (suc fuel) hdr (i + get_or hdr i 0 + 1) (omega arith) (omega arith) in
    elim (Bool-cases (ltb i hdr_size)) [
      | inl more ↦ elim (Bool-cases (get_or hdr i 0 == 0)) [
        | inl stop ↦ (i, ground arith)
        | inr on ↦ (next.0, ground (arith, next.1))
      ]
      | inr end ↦ (i, ground arith)
    ]

-- `wave_ipc_msg_push_hdr` returns, whatever the array of headers holds.
pub push_hdr_returns :
    (hdr : List ℕ) (src : Option (List ℕ)) (len : ℕ) → push_hdr hdr src len ≢ none
unfolding push_hdr
push_hdr_returns hdr none len = λ e. cc e
push_hdr_returns hdr (some src) len =
    let end = push_scan_ends scan_fuel hdr 0 (omega arith) (omega arith) in ground (arith, end.1)

get_or-All : (b : ℕ) (hdr : List ℕ) (i : ℕ) → All (λ x. x ≤ b) hdr → get_or hdr i 0 ≤ b
get_or-All b [] i h = omega arith
get_or-All b (x ∷ xs) zero h = h.0
get_or-All b (x ∷ xs) (suc i) h = get_or-All b xs i h.1

pop_scan_ends :
    (fuel : ℕ) (hdr : List ℕ) (i j : ℕ)
    → All (λ x. x ≤ 223) hdr
    → hdr_size < fuel + i
    → 0 < fuel
    → (r : ℕ × ℕ) × (pop_scan fuel hdr i j ≡ some r)
unfolding pop_scan
pop_scan_ends zero hdr i j a h p = absurd (omega arith)
pop_scan_ends (suc zero) hdr i j a h p = ((i, j), ground arith)
pop_scan_ends (suc (suc fuel)) hdr i j a h p =
    let b = get_or hdr i 0 in
    let small = get_or-All 223 hdr i a in
    elim (Bool-cases (ltb i hdr_size)) [
      | inl more ↦ elim (Bool-cases (b == 0)) [
        | inl stop ↦ ((i, j), ground arith)
        | inr on ↦
            let low : i < hdr_size = ground arith in
            let next =
              pop_scan_ends (suc fuel) hdr ((i + b + 1) % 256) i a (omega (arith, small))
                (omega arith) in
            (next.0, ground (arith, next.1))
      ]
      | inr end ↦ ((i, j), ground arith)
    ]

-- `wave_ipc_msg_pop_hdr` returns if no length byte is above 223, so that its `uint8_t` index cannot wrap.
pub pop_hdr_returns : (hdr : List ℕ) (len : ℕ) → All (λ x. x ≤ 223) hdr → pop_hdr hdr len ≢ none
unfolding pop_hdr
pop_hdr_returns hdr len a =
    let end = pop_scan_ends scan_fuel hdr 0 hdr_size a (omega arith) (omega arith) in
    ground (arith, end.1)

-- At a length byte of 255 the index wraps to where it was, and the loop of `wave_ipc_msg_pop_hdr` never
-- ends, however many rounds it is given.
pub pop_scan_hangs :
    (fuel : ℕ) (hdr : List ℕ) (i j : ℕ)
    → i < hdr_size
    → get_or hdr i 0 ≡ 255
    → pop_scan fuel hdr i j ≡ none
unfolding pop_scan
pop_scan_hangs zero hdr i j low e = refl
pop_scan_hangs (suc fuel) hdr i j low e =
    let same : (i + get_or hdr i 0 + 1) % 256 ≡ i = omega arith in
    let next = pop_scan_hangs fuel hdr i i low e in ground (arith, same, next)
