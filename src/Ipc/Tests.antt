-- ===== src/Ipc/Tests.antt =====
-- wv_ipc/wave_ipc_core.c and wave_ipc_core.h on small inputs.
use dwpal.Common.{
  ℕ, ◌+◌, take, drop, ◌≤◌, ◌<◌, ◌≡◌, ◌≢◌, refl, ◌⊎◌, true, false, List, [], ◌∷◌, ◌++◌,
  if◌then◌else◌, ◌==◌, none, some, arith, null, length-replicate, replicate,
}
use dwpal.Ipc.Message.{
  Msg, success, error, buff_size, hdr_size, reset, Edit, fill, append, reserve, shrink, edits,
}
use dwpal.Ipc.Message.Bounds.{IsBounded, reset-IsBounded, edits-IsBounded}
use dwpal.Ipc.Message.Content.{content}
use dwpal.Ipc.Header.{push_scan, push_at, push_hdr, pop_scan, pop_hdr}
use dwpal.Ipc.Header.Frames.{layout, IsStack}
use dwpal.Ipc.Header.Stack.{push_hdr-layout, pop_hdr-layout}
use dwpal.Ipc.Header.Loops.{pop_scan_hangs}
use dwpal.Ipc.Header.Typed.{ok, ipc_header_push, ipc_header_pop, ipc_header_pop-ipc_header_push}
use dwpal.Ipc.Socket.{
  send_msg, goes, recv_msg, got, broken, info_size, recv_msg-IsBounded, recv_msg-send_msg,
}
use dwpal.Ipc.Multi.{Store, multi_msg_append}
use dwpal.Ipc.Multi.Ring.{IsRing, IsLone, append-IsRing}

-- An object of the pool of messages, as `malloc` could give it.
abbrev raw : Msg
raw = record {
  prev = 7;
  next = 8;
  is_head = true;
  data_len = 9;
  hdr = [];
  payload = replicate buff_size 5;
}

raw-IsBounded : IsBounded (reset raw)
raw-IsBounded = reset-IsBounded raw (length-replicate {A = ℕ} buff_size 5)

abbrev two_bytes : List ℕ
two_bytes = 1 ∷ 2 ∷ []

abbrev some_edits : List Edit
some_edits =
    fill (some two_bytes) 2
    ∷ append (some two_bytes) 2
    ∷ shrink 3
    ∷ reserve 100
    ∷ append none 1
    ∷ []

edits-IsBounded_example : IsBounded (edits some_edits (reset raw))
edits-IsBounded_example =
    edits-IsBounded some_edits (reset raw) (tt, (omega arith, (tt, (tt, (omega arith, tt)))))
      raw-IsBounded

-- Two headers, of 2 bytes and of 3.
abbrev two_headers : List (List ℕ)
two_headers = (1 ∷ 2 ∷ []) ∷ (3 ∷ 4 ∷ 5 ∷ []) ∷ []

abbrev long_header : List ℕ
long_header = replicate 25 6

two_headers-IsStack : IsStack two_headers
two_headers-IsStack = record { filled = (omega arith, (omega arith, tt)); fits = omega arith }

-- 7 bytes are taken, so 24 fit and 25 do not.
pushes :
    (push_hdr (layout two_headers) (some (replicate 24 6)) 24 ≢ some (error, layout two_headers))
    × (push_hdr (layout two_headers) (some long_header) 25 ≡ some (error, layout two_headers))
unfolding push_hdr push_scan push_at
pushes = (λ e. cc e, refl)

push_hdr-layout_example :
    ((7 + 25 + 1 ≤ hdr_size)
      × (push_hdr (layout two_headers) (some long_header) 25
          ≡ some (success, layout (two_headers ++ long_header ∷ [])))
      × IsStack (two_headers ++ long_header ∷ []))
    ⊎ ((hdr_size < 7 + 25 + 1)
        × (push_hdr (layout two_headers) (some long_header) 25 ≡ some (error, layout two_headers)))
push_hdr-layout_example = push_hdr-layout two_headers long_header two_headers-IsStack (omega arith)

pop_hdr-layout_example :
    ((3 ≤ 2)
      × (pop_hdr (layout two_headers) 2
          ≡ some (record {
            ret = success;
            left = layout ((1 ∷ 2 ∷ []) ∷ []);
            out = 3 ∷ 4 ∷ 5 ∷ [];
            out_len = 3;
          })))
    ⊎ ((2 < 3)
        × (pop_hdr (layout two_headers) 2
            ≡ some (record { ret = error; left = layout two_headers; out = []; out_len = 2 })))
pop_hdr-layout_example =
    pop_hdr-layout ((1 ∷ 2 ∷ []) ∷ []) (3 ∷ 4 ∷ 5 ∷ []) 2 two_headers-IsStack (omega arith)

pop_scan_hangs_example : pop_scan 1000 (255 ∷ replicate 31 0) 0 32 ≡ none
pop_scan_hangs_example = pop_scan_hangs 1000 (255 ∷ replicate 31 0) 0 32 (omega arith) refl

ipc_header_pop-ipc_header_push_example :
    (hdr : List ℕ) × (ipc_header_push (layout two_headers) (6 ∷ 7 ∷ 8 ∷ 9 ∷ []) ≡ some (ok, hdr))
    × (ipc_header_pop hdr ≡ some (ok, layout two_headers, 6 ∷ 7 ∷ 8 ∷ 9 ∷ []))
ipc_header_pop-ipc_header_push_example =
    ipc_header_pop-ipc_header_push two_headers (6 ∷ 7 ∷ 8 ∷ 9 ∷ []) two_headers-IsStack refl
      (omega arith)

abbrev lone : Msg
lone = record { prev = null; next = null; is_head = false; data_len = 0; hdr = []; payload = [] }

abbrev lone_msgs : Store
lone_msgs = λ _. lone

lone_msgs-IsLone : (m : ℕ) → m ≢ null → IsLone lone_msgs m
lone_msgs-IsLone m h = record { there = h; unlinked = refl; plain = refl }

-- A ring of 1, 2 and 3.
abbrev ring_msgs : Store
ring_msgs = λ m.
    if m == 1
    then record lone { is_head = true; next = 2; prev = 3 }
    else if m == 2
    then record lone { prev = 1; next = 3 }
    else if m == 3
    then record lone { prev = 2; next = 1 }
    else lone

ring_msgs-IsRing : IsRing ring_msgs 1 (2 ∷ []) 3
ring_msgs-IsRing = record {
  here = omega arith;
  head = refl;
  chain = (refl, omega arith, refl, (refl, omega arith, refl, refl));
  end = refl;
  distinct = (omega arith, tt);
}

append-IsRing_example :
    ((multi_msg_append ring_msgs 1 4).0 ≡ success)
    × IsRing (multi_msg_append ring_msgs 1 4).1 1 (2 ∷ 3 ∷ []) 4
append-IsRing_example =
    append-IsRing ring_msgs 1 3 4 (2 ∷ []) ring_msgs-IsRing
      (record { there = omega arith; unlinked = refl; plain = refl })

-- A message with one header and two bytes of data, in an object of the pool.
abbrev small : Msg
small = record (reset raw) { data_len = 2 }

small-IsBounded : IsBounded small
unfolding reset
small-IsBounded = record {
  data_fits = omega arith;
  payload_size = raw-IsBounded.payload_size;
  hdr_bytes = raw-IsBounded.hdr_bytes;
}

recv_msg-send_msg_example :
    let bytes = (send_msg true small goes).1 in
    (r : Msg) × (recv_msg true (some raw) (got (take info_size bytes)) (got (drop info_size bytes))
      ≡ (success, some r))
    × (r.hdr ≡ small.hdr)
    × (content r ≡ content small)
recv_msg-send_msg_example =
    recv_msg-send_msg small raw small-IsBounded (length-replicate {A = ℕ} buff_size 5)

-- The 34 bytes of a message without data.
abbrev no_data : List ℕ
no_data = replicate 34 0

recv_msg-IsBounded_example : IsBounded (record (reset raw) { data_len = 0; hdr = replicate 32 0 })
unfolding recv_msg reset
recv_msg-IsBounded_example =
    recv_msg-IsBounded true raw (record (reset raw) { data_len = 0; hdr = replicate 32 0 }) no_data
      broken (length-replicate {A = ℕ} buff_size 5) (omega arith) refl
