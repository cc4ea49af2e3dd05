-- ===== src/Ipc/Message/Bounds.antt =====
-- wv_ipc/wave_ipc_core.c: the bounds of a message's data.
use dwpal.Common.{
  ℕ, ◌+◌, ◌-◌, ◌%◌, ◌^◌, ◌≤◌, ◌<◌, ◌≡◌, List, [], ◌∷◌, none, some, arith, length, take, replicate,
  length-blit, length-replicate,
}
use dwpal.Ipc.Message.{
  Msg, buff_size, hdr_size, reset, fill_data, append_data, reserve_data, shrink_data, Edit, fill,
  append, reserve, shrink, edit, edits,
}

pub record IsBounded (m : Msg) : Type 0 where
  pub data_fits : m.data_len ≤ buff_size
  pub payload_size : length m.payload ≡ buff_size
  pub hdr_bytes : length m.hdr ≡ hdr_size

-- A length that the `size_t` sum of `wave_ipc_msg_append_data` can take without wrapping.
abbrev pub IsSane : Edit → Type 0
IsSane (fill src len) = Unit
IsSane (append src len) = len + buff_size < 2 ^ 64
IsSane (reserve len) = Unit
IsSane (shrink len) = Unit

abbrev pub AllSane : List Edit → Type 0
AllSane [] = Unit
AllSane (e ∷ es) = IsSane e × AllSane es

pub reset-IsBounded : (m : Msg) → length m.payload ≡ buff_size → IsBounded (reset m)
unfolding reset
reset-IsBounded m h = record {
  data_fits = omega arith;
  payload_size = h;
  hdr_bytes = length-replicate {A = ℕ} hdr_size 0;
}

pub edit-IsBounded : (e : Edit) (m : Msg) → IsSane e → IsBounded m → IsBounded (edit e m).1
unfolding edit fill_data append_data reserve_data shrink_data
edit-IsBounded (fill none len) m h v = ground arith
edit-IsBounded (fill (some src) len) m h v =
    ground (
      arith,
      length-blit m.payload 0 (take len src),
      length-blit m.payload 0 (replicate buff_size 0),
    )
edit-IsBounded (append none len) m h v = v
edit-IsBounded (append (some src) len) m h v =
    let room = (buff_size + 2 ^ 64 - m.data_len) % 2 ^ 64 in
    ground (
      arith,
      length-blit m.payload m.data_len (take len src),
      length-blit m.payload m.data_len (replicate room 0),
    )
edit-IsBounded (reserve len) m h v = ground arith
edit-IsBounded (shrink len) m h v = ground arith

-- From a message within its buffer, whatever edits a caller makes, in whatever order and whether or not
-- each is accepted, the length stays within the buffer and the arrays keep their sizes, if no length
-- passed to `wave_ipc_msg_append_data` is so large that the `size_t` sum wraps.
pub edits-IsBounded : (es : List Edit) (m : Msg) → AllSane es → IsBounded m → IsBounded (edits es m)
unfolding edits
edits-IsBounded [] m h v = v
edits-IsBounded (e ∷ es) m h v = edits-IsBounded es (edit e m).1 h.1 (edit-IsBounded e m h.0 v)
