-- ===== src/Ipc/Header/Typed.antt =====
-- wv_ipc/wave_ipc_core.h: the `ipc_header`, a magic byte and four bytes, pushed and popped as a header.
use dwpal.Common.{
  ℕ, suc, ◌+◌, ◌≤◌, ◌≡◌, inl, inr, not, ◌||◌, List, [], ◌∷◌, ◌++◌, Option, none, some, arith,
  if◌then◌else◌, ◌==◌, length, get_or, drop,
}
use dwpal.Ipc.Message.{success, hdr_size}
use dwpal.Ipc.Header.{push_hdr, pop_hdr}
use dwpal.Ipc.Header.Frames.{encode, layout, IsStack}
use dwpal.Ipc.Header.Stack.{push_hdr-layout, pop_hdr-layout}

-- IPC_HDR_MAGIC and sizeof(ipc_header)
abbrev pub magic : ℕ
magic = 0xA1

abbrev pub header_size : ℕ
header_size = 5

-- The result of a function that returns 0, or 1 for an error.
pub data Status : Type 0 where
  ok failed : Status

-- `ipc_header_push` with the four bytes of `hdr->header`: the status and the array of headers.
unfoldable pub ipc_header_push : List ℕ → List ℕ → Option (Status × List ℕ)
ipc_header_push hdr header = elim (push_hdr hdr (some (magic ∷ header)) header_size) [
  | none ↦ none
  | some (r, hdr') ↦ some (elim r [ success ↦ ok | _ ↦ failed ], hdr')
]

-- `ipc_header_pop`: the status, the array of headers, and the bytes of `hdr->header`.
unfoldable pub ipc_header_pop : List ℕ → Option (Status × List ℕ × List ℕ)
ipc_header_pop hdr = elim (pop_hdr hdr header_size) [
  | none ↦ none
  | some p ↦ some (elim p.ret [
    | success ↦
        if not (p.out_len == header_size) || not (get_or p.out 0 0 == magic)
        then (failed, p.left, drop 1 p.out)
        else (ok, p.left, drop 1 p.out)
    | _ ↦ (failed, p.left, drop 1 p.out)
  ])
]

-- On an array that holds a stack of headers with 6 bytes free, a header of four bytes can be pushed, and
-- then `ipc_header_pop` succeeds, gives back the four bytes, and leaves the array as it was before the
-- push.
pub ipc_header_pop-ipc_header_push :
    (fs : List (List ℕ)) (header : List ℕ)
    → IsStack fs
    → length header ≡ 4
    → length (encode fs) + 6 ≤ hdr_size
    → (hdr : List ℕ) × (ipc_header_push (layout fs) header ≡ some (ok, hdr))
      × (ipc_header_pop hdr ≡ some (ok, layout fs, header))
unfolding ipc_header_push ipc_header_pop
ipc_header_pop-ipc_header_push fs header v four room =
    let size : suc (length header) ≡ header_size = omega arith in
    elim (push_hdr-layout fs (magic ∷ header) v (omega arith)) [
      | inl (fits, pushed, v') ↦
          elim (pop_hdr-layout fs (magic ∷ header) header_size v' (omega arith)) [
            | inl (_, popped) ↦ (
              layout (fs ++ (magic ∷ header) ∷ []),
              ground (arith, pushed, size),
              ground (arith, popped, size),
            )
            | inr (small, _) ↦ absurd (omega arith)
          ]
      | inr (long, _) ↦ absurd (omega arith)
    ]
