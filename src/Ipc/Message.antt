-- ===== src/Ipc/Message.antt =====
-- wv_ipc/wave_ipc_core.c: a message and the operations on its data. A message is what a `wv_ipc_msg *`
-- that is not NULL points to.
pub mod Bounds
pub mod Content
use dwpal.Common.{
  ℕ, ◌+◌, ◌-◌, ◌*◌, ◌%◌, ◌^◌, Bool, true, false, not, List, [], ◌∷◌, Option, none, some,
  if◌then◌else◌, ltb, ◌==◌, length, replicate, memcpy_s, null,
}

-- `wv_ipc_ret`
pub data Ret : Type 0 where
  success disconnected error cmd_failed would_block : Ret

-- WAVE_IPC_BUFF_SIZE and IPC_MSG_HDR_SIZE
abbrev pub buff_size : ℕ
buff_size = 20 * 1024

abbrev pub hdr_size : ℕ
hdr_size = 32

-- `struct _wv_ipc_msg`: `prev` and `next` are addresses, `hdr` and `payload` arrays of bytes.
pub record Msg : Type 0 where
  pub prev : ℕ
  pub next : ℕ
  pub is_head : Bool
  pub data_len : ℕ
  pub hdr : List ℕ
  pub payload : List ℕ

-- The reset by `wave_ipc_msg_alloc` of an object of the pool, which keeps its old payload.
unfoldable pub reset : Msg → Msg
reset m = record m {
  prev = null;
  next = null;
  is_head = false;
  data_len = 0;
  hdr = replicate hdr_size 0;
}

-- `wave_ipc_msg_fill_data`; `none` for a NULL `data`.
unfoldable pub fill_data : Option (List ℕ) → ℕ → Msg → Ret × Msg
fill_data none len m =
    if not (len == 0)
    then (error, m)
    else if ltb buff_size len
    then (error, m)
    else (success, record m { data_len = 0 })
fill_data (some src) len m =
    if ltb buff_size len then (error, m) else if not (m.data_len == 0) then (error, m) else (
      success,
      record m { payload = memcpy_s 0 m.payload 0 buff_size src len; data_len = len % 2 ^ 16 },
    )

-- `wave_ipc_msg_append_data`: the sums are those of `size_t` and `uint16_t`.
unfoldable pub append_data : Option (List ℕ) → ℕ → Msg → Ret × Msg
append_data none len m = (error, m)
append_data (some src) len m =
    if len == 0
    then (error, m)
    else if ltb buff_size ((len + m.data_len) % 2 ^ 64)
    then (error, m)
    else (
      success,
      record m {
        payload =
            memcpy_s 0 m.payload m.data_len ((buff_size + 2 ^ 64 - m.data_len) % 2 ^ 64) src len;
        data_len = (m.data_len + len) % 2 ^ 16;
      },
    )

-- `wave_ipc_msg_reserve_data`
unfoldable pub reserve_data : ℕ → Msg → Ret × Msg
reserve_data len m =
    if len == 0
    then (error, m)
    else if ltb buff_size len
    then (error, m)
    else if not (m.data_len == 0)
    then (error, m)
    else (success, record m { data_len = len % 2 ^ 16 })

-- `wave_ipc_msg_shrink_data`
unfoldable pub shrink_data : ℕ → Msg → Ret × Msg
shrink_data len m =
    if ltb m.data_len len then (error, m) else (success, record m { data_len = len % 2 ^ 16 })

-- `wave_ipc_msg_get_data`: `none` is NULL; the pointer is to the whole buffer.
unfoldable pub get_data : Msg → Option (List ℕ)
get_data m =
    if m.data_len == 0 then none else if ltb buff_size m.data_len then none else some m.payload

-- `wave_ipc_msg_get_size`
unfoldable pub get_size : Msg → ℕ
get_size m = if ltb buff_size m.data_len then 0 else m.data_len

-- A caller's edit of a message, with the bytes and the length that it passes.
pub data Edit : Type 0 where
  fill append : Option (List ℕ) → ℕ → Edit
  reserve shrink : ℕ → Edit

unfoldable pub edit : Edit → Msg → Ret × Msg
edit (fill src len) = fill_data src len
edit (append src len) = append_data src len
edit (reserve len) = reserve_data len
edit (shrink len) = shrink_data len

-- The message after a caller's edits, in order.
unfoldable pub edits : List Edit → Msg → Msg
edits [] m = m
edits (e ∷ es) m = edits es (edit e m).1
