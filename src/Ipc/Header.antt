-- ===== src/Ipc/Header.antt =====
-- wv_ipc/wave_ipc_core.c and wave_ipc_core.h: the stack of headers that travels before the data. It is
-- an array of 32 bytes, in which each header stands behind a byte with its length; a zero ends them.
pub mod Frames
pub mod Scan
pub mod Stack
pub mod Loops
pub mod Typed
use dwpal.Common.{
  ℕ, zero, suc, ◌+◌, ◌-◌, ◌%◌, ◌≡◌, List, [], ◌∷◌, Option, none, some, if◌then◌else◌, ltb, leb,
  ◌==◌, get_or, take, drop, set, replicate, blit, memcpy_s,
}
use dwpal.Ipc.Message.{Ret, success, error, hdr_size}

-- The loop of `wave_ipc_msg_push_hdr`, to the first free byte; `none` when the fuel is used up.
unfoldable pub push_scan : ℕ → List ℕ → ℕ → Option ℕ
push_scan zero hdr i = none
push_scan (suc fuel) hdr i =
    let b = get_or hdr i 0 in
    let rest = push_scan fuel hdr (i + b + 1) in
    if ltb i hdr_size then if b == 0 then some i else rest else some i

-- The rest of `wave_ipc_msg_push_hdr`, from the index that the loop found.
unfoldable pub push_at : List ℕ → ℕ → List ℕ → ℕ → Ret × List ℕ
push_at hdr i src len =
    if leb hdr_size i
    then (error, hdr)
    else if ltb hdr_size (i + len + 1)
    then (error, hdr)
    else (success, memcpy_s 0 (set hdr i len) (i + 1) (hdr_size - (i + 1)) src len)

-- More rounds than either loop makes: each goes at least two bytes on.
abbrev pub scan_fuel : ℕ
scan_fuel = 33

-- `wave_ipc_msg_push_hdr` on the array `packet.info.hdr`; the outer `none` is the fuel's.
unfoldable pub push_hdr : List ℕ → Option (List ℕ) → ℕ → Option (Ret × List ℕ)
push_hdr hdr none len = some (error, hdr)
push_hdr hdr (some src) len =
    if len == 0
    then some (error, hdr)
    else elim (push_scan scan_fuel hdr 0) [ none ↦ none | some i ↦ some (push_at hdr i src len) ]

-- The loop of `wave_ipc_msg_pop_hdr`: `i` and `j` are of type `uint8_t`, so `i` wraps at 256.
unfoldable pub pop_scan : ℕ → List ℕ → ℕ → ℕ → Option (ℕ × ℕ)
pop_scan zero hdr i j = none
pop_scan (suc fuel) hdr i j =
    let b = get_or hdr i 0 in
    let rest = pop_scan fuel hdr ((i + b + 1) % 256) i in
    if ltb i hdr_size then if b == 0 then some (i, j) else rest else some (i, j)

-- What `wave_ipc_msg_pop_hdr` leaves: its status, the array, the bytes stored through `hdr` and `*len`.
pub record Popped : Type 0 where
  pub ret : Ret
  pub left : List ℕ
  pub out : List ℕ
  pub out_len : ℕ

-- `wave_ipc_msg_pop_hdr` from the two indices that the loop found.
unfoldable pub pop_at : List ℕ → ℕ → ℕ → ℕ → Popped
pop_at hdr i j len =
    let refused : Popped = record { ret = error; left = hdr; out = []; out_len = len } in
    let n = get_or hdr j 0 in
    if i == 0
    then refused
    else if leb hdr_size j
    then refused
    else if leb hdr_size (j + n)
    then refused
    else if ltb len n
    then refused
    else record {
      ret = success;
      left = blit hdr j (replicate (n + 1) 0);
      out = take n (drop (j + 1) hdr);
      out_len = n;
    }

-- `wave_ipc_msg_pop_hdr` with `*len` and non-NULL pointers.
unfoldable pub pop_hdr : List ℕ → ℕ → Option Popped
pop_hdr hdr len =
    if len == 0
    then some (record { ret = error; left = hdr; out = []; out_len = len })
    else elim (pop_scan scan_fuel hdr 0 hdr_size) [
      | none ↦ none
      | some (i, j) ↦ some (pop_at hdr i j len)
    ]
