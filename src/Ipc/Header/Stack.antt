-- ===== src/Ipc/Header/Stack.antt =====
-- wv_ipc/wave_ipc_core.c: the array of headers as a bounded stack.
use dwpal.Common.{
  ℕ, zero, suc, ◌+◌, ◌-◌, ◌≤◌, ◌<◌, ◌≡◌, refl, sym, ap, ◌∙◌, ◌⊎◌, inl, inr, List, [], ◌∷◌, ◌++◌,
  some, arith, length, get_or, take, drop, take-all, set, blit, replicate, length-append,
  get_or-append, All, All-append, All-split, blit-append, take-append, drop-append,
  replicate-append, length-replicate,
}
use mathlib.Core.List.{append_assoc, append-nil}
use native.Mathlib.Decide.{dec_le}
use dwpal.Ipc.Message.{success, error, hdr_size}
use dwpal.Ipc.Header.{push_scan, pop_scan, scan_fuel, push_hdr, push_at, pop_hdr, pop_at}
use dwpal.Ipc.Header.Frames.{encode, layout, IsStack, length-encode-snoc, encode-append}
use dwpal.Ipc.Header.Scan.{some_pair, push_scan_lem, pop_scan_lem}

-- Writing a header over zeros.
blit_frame :
    (pre src : List ℕ) (k z n : ℕ)
    → k ≡ length src
    → n ≡ length pre + 1
    → blit (set (pre ++ replicate (suc (k + z)) 0) (length pre) k) n src
      ≡ (pre ++ (k ∷ src)) ++ replicate z 0
blit_frame (q ∷ pre) src k z zero e p = absurd (omega arith)
blit_frame (q ∷ pre) src k z (suc n) e p =
    ap (λ t. q ∷ t) (blit_frame pre src k z n e (omega arith))
blit_frame [] src k z zero e p = absurd (omega arith)
blit_frame [] src k z (suc (suc n)) e p = absurd (omega arith)
blit_frame [] src k z (suc zero) e p =
    ap (λ t. k ∷ blit t 0 src) (sym (replicate-append k z 0))
    ∙ ap (λ t. k ∷ t)
        (blit-append [] (replicate k 0) (replicate z 0) src
          (omega (arith, length-replicate {0} {A = ℕ} k 0)))

layout_snoc :
    (fs : List (List ℕ)) (src : List ℕ) (z : ℕ)
    → z ≡ hdr_size - length (encode (fs ++ src ∷ []))
    → (encode fs ++ (length src ∷ src)) ++ replicate z 0 ≡ layout (fs ++ src ∷ [])
layout_snoc fs src z e =
    ap (λ t. t ++ replicate z 0)
      (ap (λ t. encode fs ++ (length src ∷ t)) (sym (append-nil src))
        ∙ sym (encode-append fs (src ∷ [])))
    ∙ ap (λ t. encode (fs ++ src ∷ []) ++ replicate t 0) e

module _ (fs : List (List ℕ)) (src : List ℕ) (v : IsStack fs) (pos : 0 < length src) where
  scan_end : push_scan scan_fuel (layout fs) 0 ≡ some (length (encode fs))
  scan_end =
      push_scan_lem fs [] (layout fs) (hdr_size - length (encode fs)) scan_fuel v.filled refl
        (omega (arith, v.fits)) (omega (arith, v.fits))
      ∙ ap some (omega arith)

  write_eq :
      length (encode (fs ++ src ∷ [])) ≤ hdr_size
      → blit
          (set (layout fs) (length (encode fs)) (length src))
          (length (encode fs) + 1)
          (take (length src) src)
        ≡ layout (fs ++ src ∷ [])
  write_eq h =
      let z = hdr_size - length (encode (fs ++ src ∷ [])) in
      let grow = length-encode-snoc fs src in
      let e : hdr_size - length (encode fs) ≡ suc (length src + z) = omega (arith, grow) in
      rw (take-all (length src) src refl, e)
        (blit_frame (encode fs) src (length src) z (length (encode fs) + 1) refl refl
          ∙ layout_snoc fs src z refl)

  push_fits :
      length (encode (fs ++ src ∷ [])) ≤ hdr_size
      → push_hdr (layout fs) (some src) (length src) ≡ some (success, layout (fs ++ src ∷ []))
  unfolding push_hdr push_at
  push_fits h = ground (arith, scan_end, length-encode-snoc fs src, write_eq h)

  push_full :
      hdr_size < length (encode (fs ++ src ∷ []))
      → push_hdr (layout fs) (some src) (length src) ≡ some (error, layout fs)
  unfolding push_hdr push_at
  push_full h = ground (arith, scan_end, length-encode-snoc fs src)

-- `wave_ipc_msg_push_hdr` on an array that holds a stack of headers: a header that fits with its length
-- byte goes on top, and one that does not is refused with the array unchanged.
pub push_hdr-layout :
    (fs : List (List ℕ)) (src : List ℕ)
    → IsStack fs
    → 0 < length src
    → ((length (encode fs) + length src + 1 ≤ hdr_size)
        × (push_hdr (layout fs) (some src) (length src) ≡ some (success, layout (fs ++ src ∷ [])))
        × IsStack (fs ++ src ∷ []))
      ⊎ ((hdr_size < length (encode fs) + length src + 1)
          × (push_hdr (layout fs) (some src) (length src) ≡ some (error, layout fs)))
push_hdr-layout fs src v pos =
    let grow = length-encode-snoc fs src in
    elim (dec_le (length (encode fs) + length src + 1) hdr_size) [
      | yes fits ↦
          let h : length (encode (fs ++ src ∷ [])) ≤ hdr_size = omega (arith, grow) in
          inl (
            fits,
            push_fits fs src v pos h,
            record {
              filled = All-append (λ f. 0 < length f) fs (src ∷ []) v.filled (pos, tt);
              fits = h;
            },
          )
      | no long ↦ inr (omega arith, push_full fs src v pos (omega (arith, grow)))
    ]

module _ (fs : List (List ℕ)) (g : List ℕ) (v : IsStack (fs ++ g ∷ [])) where
  abbrev room : ℕ
  room = hdr_size - length (encode (fs ++ g ∷ []))

  abbrev used : ℕ
  used = length (encode fs)

  parts : layout (fs ++ g ∷ []) ≡ encode fs ++ ((length g ∷ g) ++ replicate room 0)
  parts =
      sym (layout_snoc fs g room refl) ∙ append_assoc (encode fs) (length g ∷ g) (replicate room 0)

  top_length : get_or (layout (fs ++ g ∷ [])) used 0 ≡ length g
  top_length =
      ap (λ t. get_or t used 0) parts
      ∙ get_or-append (encode fs) ((length g ∷ g) ++ replicate room 0) 0

  top_bytes : take (length g) (drop (used + 1) (layout (fs ++ g ∷ []))) ≡ g
  top_bytes =
      let past = encode fs ++ length g ∷ [] in
      let e : used + 1 ≡ length past =
        omega (arith, length-append {0} (encode fs) (length g ∷ [])) in
      ap (λ t. take (length g) (drop (used + 1) t))
        (parts ∙ sym (append_assoc (encode fs) (length g ∷ []) (g ++ replicate room 0)))
      ∙ ap (λ k. take (length g) (drop k (past ++ (g ++ replicate room 0)))) e
      ∙ ap (take (length g)) (drop-append past (g ++ replicate room 0))
      ∙ take-append g (replicate room 0)

  cleared : blit (layout (fs ++ g ∷ [])) used (replicate (length g + 1) 0) ≡ layout fs
  cleared =
      let n = length g + 1 in
      let e : n + room ≡ hdr_size - used = omega (arith, v.fits, length-encode-snoc fs g) in
      ap (λ t. blit t used (replicate n 0)) parts
      ∙ blit-append (encode fs) (length g ∷ g) (replicate room 0) (replicate n 0)
          (omega (arith, length-replicate {0} {A = ℕ} n 0))
      ∙ ap (λ t. encode fs ++ t) (replicate-append n room 0 ∙ ap (λ k. replicate k 0) e)

  pop_ends :
      All (λ f. 0 < length f) fs
      → 0 < length g
      → pop_scan scan_fuel (layout (fs ++ g ∷ [])) 0 hdr_size
        ≡ some (length (encode (fs ++ g ∷ [])), used)
  pop_ends a b =
      pop_scan_lem fs g [] (layout (fs ++ g ∷ [])) room scan_fuel hdr_size a b refl
        (omega (arith, v.fits)) (omega (arith, v.fits))
      ∙ some_pair (omega arith) (omega arith)

-- `wave_ipc_msg_pop_hdr` on an array that holds a stack of headers with `g` on top: where the caller's
-- buffer of `len` bytes is large enough it gives back exactly `g` and its length and leaves the
-- headers below; where it is too small it refuses and changes nothing.
pub pop_hdr-layout :
    (fs : List (List ℕ)) (g : List ℕ) (len : ℕ)
    → IsStack (fs ++ g ∷ [])
    → 0 < len
    → ((length g ≤ len)
        × (pop_hdr (layout (fs ++ g ∷ [])) len
            ≡ some (record { ret = success; left = layout fs; out = g; out_len = length g })))
      ⊎ ((len < length g)
          × (pop_hdr (layout (fs ++ g ∷ [])) len
              ≡ some
                  (record { ret = error; left = layout (fs ++ g ∷ []); out = []; out_len = len })))
unfolding pop_hdr pop_at
pop_hdr-layout fs g len v pos =
    let kept = All-split (λ f. 0 < length f) fs (g ∷ []) v.filled in
    let grow = length-encode-snoc fs g in
    elim (dec_le (length g) len) [
      | yes fits ↦ inl (
        fits,
        ground (
          arith,
          pop_ends fs g v kept.0 kept.1.0,
          grow,
          v.fits,
          top_length fs g v,
          top_bytes fs g v,
          cleared fs g v,
        ),
      )
      | no small ↦ inr (
        omega arith,
        ground (arith, pop_ends fs g v kept.0 kept.1.0, grow, v.fits, top_length fs g v),
      )
    ]

-- A pop of an array without headers is refused.
pub pop_hdr-empty :
    (len : ℕ)
    → pop_hdr (layout []) len
      ≡ some (record { ret = error; left = layout []; out = []; out_len = len })
unfolding pop_hdr pop_at pop_scan
pop_hdr-empty len = ground arith

-- On an array that holds a stack of headers, what `wave_ipc_msg_push_hdr` accepts, the next
-- `wave_ipc_msg_pop_hdr` gives back if the caller's buffer is large enough: the same bytes, and the array
-- as it was before.
pub pop_hdr-push_hdr :
    (fs : List (List ℕ)) (src hdr : List ℕ) (len : ℕ)
    → IsStack fs
    → 0 < length src
    → length src ≤ len
    → push_hdr (layout fs) (some src) (length src) ≡ some (success, hdr)
    → pop_hdr hdr len
      ≡ some (record { ret = success; left = layout fs; out = src; out_len = length src })
pop_hdr-push_hdr fs src hdr len v pos room e = elim (push_hdr-layout fs src v pos) [
  | inl (fits, pushed, v') ↦
      let same : layout (fs ++ src ∷ []) ≡ hdr = cc pushed in
      elim (pop_hdr-layout fs src len v' (omega arith)) [
        | inl (_, popped) ↦ rw same at popped
        | inr (small, _) ↦ absurd (omega arith)
      ]
  | inr (_, refused) ↦ absurd (cc refused)
]
