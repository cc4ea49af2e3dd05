-- ===== src/Ipc/Socket.antt =====
-- wv_ipc/wave_ipc_core.c: messages on a socket. `send` and `recv` are the system's: what they return is an
-- argument. The length of the data travels in two bytes, the low one first.
use dwpal.Common.{
  ℕ, zero, suc, ◌+◌, ◌*◌, ◌/◌, ◌%◌, ◌≤◌, ◌≡◌, refl, subst, sym, ap, ◌∙◌, Bool, true, false, not,
  List, [], ◌∷◌, ◌++◌, Option, none, some, if◌then◌else◌, ltb, ◌==◌, length, take, drop, get_or,
  blit, length-blit, take-append, drop-append, arith, Bool-cases, inl, inr,
}
use dwpal.Ipc.Message.{
  Msg, Ret, success, disconnected, error, would_block, buff_size, hdr_size, reset,
}
use dwpal.Ipc.Message.Bounds.{IsBounded}
use dwpal.Ipc.Message.Content.{content, take-blit}

-- What `send` does: the bytes go out, the socket is full (EAGAIN or EWOULDBLOCK), or it fails. A call that sends only
-- some of the bytes, which the code takes for a success too, is not a case.
pub data Sent : Type 0 where
  goes full fails : Sent

-- `wave_ipc_send_msg` with `socket` that is not -1 as `has_socket`; with the bytes that are passed to `send`.
unfoldable pub send_msg : Bool → Msg → Sent → Ret × List ℕ
send_msg has_socket m result =
    if not has_socket
    then (error, [])
    else if ltb buff_size m.data_len
    then (error, [])
    else let bytes = m.data_len % 256 ∷ m.data_len / 256 ∷ (m.hdr ++ content m) in
      elim result [ goes ↦ (success, bytes) | full ↦ (would_block, []) | fails ↦ (error, []) ]

-- What `recv` returns: -1, or the bytes that it has stored, none of them if the peer has closed.
pub data Received : Type 0 where
  broken : Received
  got : List ℕ → Received

-- sizeof(wv_ipc_msg_info)
abbrev pub info_size : ℕ
info_size = 34

-- The second half of `wave_ipc_recv_msg`, which receives the data.
unfoldable pub recv_data : Received → Msg → Ret × Option Msg
recv_data broken m = (error, none)
recv_data (got bytes) m =
    if length bytes == m.data_len
    then (success, some (record m { payload = blit m.payload 0 bytes }))
    else (error, none)

-- `wave_ipc_recv_msg` with the object that `wave_ipc_msg_alloc` takes from the pool, and the results of both
-- calls of `recv`. The message is `none` where it goes back to the pool.
unfoldable pub recv_msg : Bool → Option Msg → Received → Received → Ret × Option Msg
unfolding recv_data
recv_msg has_socket raw info body = if not has_socket then (disconnected, none) else elim raw [
  | none ↦ (error, none)
  | some object ↦ elim info [
    | broken ↦ (error, none)
    | got bytes ↦
        if length bytes == 0
        then (disconnected, none)
        else if ltb (length bytes) info_size
        then (error, none)
        else let m = record (reset object) {
          data_len = get_or bytes 0 0 + get_or bytes 1 0 * 256;
          hdr = drop 2 bytes;
        } in
          if ltb buff_size m.data_len
          then (error, none)
          else if m.data_len == 0
          then (success, some m)
          else recv_data body m
  ]
]

-- The message after its first part has been received.
abbrev received : Msg → List ℕ → Msg
received object bytes = record (reset object) {
  data_len = get_or bytes 0 0 + get_or bytes 1 0 * 256;
  hdr = drop 2 bytes;
}

length-drop_two : (bytes : List ℕ) → length bytes ≡ info_size → length (drop 2 bytes) ≡ hdr_size
length-drop_two [] h = absurd (omega arith)
length-drop_two (x ∷ []) h = absurd (omega arith)
length-drop_two (x ∷ y ∷ l) h = omega arith

recv_data-IsBounded :
    (body : Received) (m r : Msg) → IsBounded m → recv_data body m ≡ (success, some r) → IsBounded r
unfolding recv_data
recv_data-IsBounded broken m r v e = absurd (cc e)
recv_data-IsBounded (got bytes) m r v e = elim (Bool-cases (length bytes == m.data_len)) [
  | inl whole ↦
      let same : record m { payload = blit m.payload 0 bytes } ≡ r = ground (arith, whole, e) in
      subst IsBounded same (record {
        data_fits = v.data_fits;
        payload_size = length-blit m.payload 0 bytes ∙ v.payload_size;
        hdr_bytes = v.hdr_bytes;
      })
  | inr short ↦ absurd (ground (arith, short, e))
]

-- A message that `wave_ipc_recv_msg` gives is within its buffer, whatever arrives, if the object of the
-- pool has a buffer of full size and the first `recv` stores no more bytes than it is asked for.
pub recv_msg-IsBounded :
    (has_socket : Bool) (object m : Msg) (bytes : List ℕ) (body : Received)
    → length object.payload ≡ buff_size
    → length bytes ≤ info_size
    → recv_msg has_socket (some object) (got bytes) body ≡ (success, some m)
    → IsBounded m
unfolding recv_msg recv_data reset
recv_msg-IsBounded false object m bytes body size few e = absurd (cc e)
recv_msg-IsBounded true object m bytes body size few e = elim (Bool-cases (length bytes == 0)) [
  | inl closed ↦ absurd (ground (arith, closed, e))
  | inr some_bytes ↦ elim (Bool-cases (ltb (length bytes) info_size)) [
    | inl short ↦ absurd (ground (arith, some_bytes, short, e))
    | inr whole ↦ elim (Bool-cases (ltb buff_size (get_or bytes 0 0 + get_or bytes 1 0 * 256))) [
      | inl long ↦ absurd (ground (arith, some_bytes, whole, long, e))
      | inr fits ↦
          let m0 = received object bytes in
          let v : IsBounded m0 = record {
            data_fits = ground (arith, fits);
            payload_size = size;
            hdr_bytes = length-drop_two bytes (ground (arith, few, whole));
          } in
          elim (Bool-cases (m0.data_len == 0)) [
            | inl empty ↦
                let same : m0 ≡ m = ground (arith, some_bytes, whole, fits, empty, e) in
                subst IsBounded same v
            | inr nonempty ↦
                recv_data-IsBounded body m0 m v
                  (ground (arith, some_bytes, whole, fits, nonempty, e))
          ]
    ]
  ]
]

length-take_le : (n : ℕ) (l : List ℕ) → n ≤ length l → length (take n l) ≡ n
length-take_le zero [] h = refl
length-take_le zero (x ∷ l) h = refl
length-take_le (suc n) [] h = absurd (omega arith)
length-take_le (suc n) (x ∷ l) h = ap suc (length-take_le n l (omega arith))

take_zero : (l : List ℕ) → take 0 l ≡ []
take_zero [] = refl
take_zero (x ∷ l) = refl

module _ (m object : Msg) (v : IsBounded m) (size : length object.payload ≡ buff_size) where
  abbrev info_of : List ℕ
  info_of = m.data_len % 256 ∷ m.data_len / 256 ∷ m.hdr

  info_length : length info_of ≡ info_size
  info_length = omega (arith, v.hdr_bytes)

  length-content : length (content m) ≡ m.data_len
  length-content = length-take_le m.data_len m.payload (omega (arith, v.data_fits, v.payload_size))

  len_back : m.data_len % 256 + m.data_len / 256 * 256 ≡ m.data_len
  len_back = omega arith

  abbrev Delivered : Ret × Option Msg → Type 0
  Delivered t = (r : Msg) × (t ≡ (success, some r)) × (r.hdr ≡ m.hdr) × (content r ≡ content m)

  delivers : Delivered (recv_msg true (some object) (got info_of) (got (content m)))
  unfolding recv_msg recv_data
  delivers = elim (Bool-cases (m.data_len == 0)) [
    | inl empty ↦
        let z : m.data_len ≡ 0 = ground arith in
        (
          received object info_of,
          ground (arith, info_length, v.data_fits, len_back, empty),
          refl,
          ap (λ n. take n (received object info_of).payload) (len_back ∙ z)
              ∙ take_zero (received object info_of).payload
              ∙ sym (ap (λ n. take n m.payload) z ∙ take_zero m.payload),
        )
    | inr nonempty ↦ (
      record (received object info_of) {
        payload = blit (received object info_of).payload 0 (content m);
      },
      ground (arith, info_length, v.data_fits, len_back, nonempty, length-content),
      refl,
      take-blit (received object info_of).payload 0 m.data_len
          (m.data_len % 256 + m.data_len / 256 * 256) (content m) (sym length-content)
          (omega (arith, len_back)) (unfold reset in omega (arith, len_back, size, v.data_fits)),
    )
  ]

  -- What `wave_ipc_send_msg` sends of a message within its buffer, `wave_ipc_recv_msg` gives back on the
  -- other side, in two calls of `recv` that give all they are asked for: the same headers and the same
  -- data, in whatever object of the pool it is received.
  pub recv_msg-send_msg :
      let bytes = (send_msg true m goes).1 in
      (r : Msg) × (recv_msg true
          (some object)
          (got (take info_size bytes))
          (got (drop info_size bytes))
        ≡ (success, some r))
      × (r.hdr ≡ m.hdr)
      × (content r ≡ content m)
  recv_msg-send_msg =
      let bytes : (send_msg true m goes).1 ≡ info_of ++ content m =
        unfold send_msg in ground (arith, v.data_fits) in
      let first : take info_size (info_of ++ content m) ≡ info_of =
        ap (λ n. take n (info_of ++ content m)) (sym info_length)
        ∙ take-append info_of (content m) in
      let second : drop info_size (info_of ++ content m) ≡ content m =
        ap (λ n. drop n (info_of ++ content m)) (sym info_length)
        ∙ drop-append info_of (content m) in
      subst
        (λ b.
          Delivered (recv_msg true (some object) (got (take info_size b)) (got (drop info_size b))))
        (sym bytes)
        (subst
          (λ a.
            Delivered
              (recv_msg true (some object) (got a) (got (drop info_size (info_of ++ content m)))))
          (sym first)
          (subst (λ b. Delivered (recv_msg true (some object) (got info_of) (got b))) (sym second)
            delivers))
