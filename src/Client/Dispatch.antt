-- ===== src/Client/Dispatch.antt =====
-- wv_ipc/wave_ipc_client.c: what becomes of each message in the loops of the listeners.
use dwpal.Common.{
  ℕ, ◌+◌, ◌≡◌, refl, ap, Bool, ◌||◌, List, [], ◌∷◌, ◌++◌, Option, none, some, if◌then◌else◌, ◌==◌,
  count, count-append, arith, if-cases,
}
use dwpal.Client.{
  msg_cmd, msg_resp, msg_req_fail, msg_event, Header, Packet, Client, put_msg, handle_response,
  ClbRet, take_ownership, clb_success, clb_error, Callbacks, after_event, after_cmd, dispatch_cmd,
  dispatch_event, dispatch, blocked_dispatch, turn, serialized_event, disconnect, put_all,
}
use dwpal.Client.Total.{in_packets, total, total-handle_response}

module _ (x : ℕ) (c : Callbacks) (m : ℕ) (s : Client) where
  -- The client holds the message once more.
  abbrev Takes : Client → Type 0
  Takes s' = total x s' ≡ total x s + count x (m ∷ [])

  after_event-Takes : (r : ClbRet) → Takes (after_event r m s)
  unfolding after_event
  after_event-Takes take_ownership = omega arith
  after_event-Takes clb_success = omega arith
  after_event-Takes clb_error = omega arith

  after_cmd-Takes : (r : ClbRet) (seq : ℕ) → Takes (after_cmd r m seq s)
  unfolding after_cmd
  after_cmd-Takes take_ownership seq = omega arith
  after_cmd-Takes clb_success seq = omega arith
  after_cmd-Takes clb_error seq = omega arith

  put_msg-Takes : Takes (put_msg m s)
  put_msg-Takes = omega arith

  dispatch_cmd-Takes : (seq : ℕ) → Takes (dispatch_cmd c m seq s)
  unfolding dispatch_cmd
  dispatch_cmd-Takes seq =
      elim c.cmd_clb
        as (λ (o : Option (ℕ → ClbRet)).
          Takes (elim o [ none ↦ put_msg m s | some clb ↦ after_cmd (clb m) m seq s ])) [
            | none ↦ put_msg-Takes
            | some clb ↦ after_cmd-Takes (clb m) seq
          ]

  queued-Takes : Takes (record s { works = s.works ++ m ∷ [] })
  queued-Takes = omega (arith, count-append x s.works (m ∷ []))

  dispatch_event-Takes : Takes (dispatch_event c m s)
  unfolding dispatch_event
  dispatch_event-Takes =
      elim c.exec_async
        as (λ (o : Option (ℕ → Bool)). Takes (elim o [
          | none ↦ after_event (c.event_clb m) m s
          | some exec ↦ if exec m then record s { works = s.works ++ m ∷ [] } else put_msg m s
        ])) [
          | none ↦ after_event-Takes (c.event_clb m)
          | some exec ↦
              if-cases Takes (exec m) (record s { works = s.works ++ m ∷ [] }) (put_msg m s)
                (λ _. queued-Takes) (λ _. put_msg-Takes)
        ]

  dispatch-Takes : (h : Header) → Takes (dispatch c m h s)
  unfolding dispatch
  dispatch-Takes h =
      let cmd : Client = if h.kind == msg_cmd then dispatch_cmd c m h.seq_num s else put_msg m s in
      let resp : Client =
        if h.kind == msg_req_fail || h.kind == msg_resp then (handle_response m h s).1 else cmd in
      if-cases Takes (h.kind == msg_event) (dispatch_event c m s) resp (λ _. dispatch_event-Takes)
        (λ _.
          if-cases Takes (h.kind == msg_req_fail || h.kind == msg_resp) (handle_response m h s).1
            cmd (λ _. total-handle_response x m h s)
            (λ _.
              if-cases Takes (h.kind == msg_cmd) (dispatch_cmd c m h.seq_num s) (put_msg m s)
                (λ _. dispatch_cmd-Takes h.seq_num) (λ _. put_msg-Takes)))

  blocked_dispatch-Takes : (h : Header) → Takes (blocked_dispatch c m h s)
  unfolding blocked_dispatch
  blocked_dispatch-Takes h =
      let cmd : Client = if h.kind == msg_cmd then dispatch_cmd c m h.seq_num s else put_msg m s in
      if-cases Takes (h.kind == msg_event) (after_event (c.event_clb m) m s) cmd
        (λ _. after_event-Takes (c.event_clb m))
        (λ _.
          if-cases Takes (h.kind == msg_cmd) (dispatch_cmd c m h.seq_num s) (put_msg m s)
            (λ _. dispatch_cmd-Takes h.seq_num) (λ _. put_msg-Takes))

-- A switch of a listener that keeps hold of the message.
abbrev IsKeeping : ℕ → (ℕ → Header → Client → Client) → Type 0
IsKeeping x switch =
    (m : ℕ) (h : Header) (s : Client) → total x (switch m h s) ≡ total x s + count x (m ∷ [])

turn-total :
    (x : ℕ) (switch : ℕ → Header → Client → Client) (p : Packet) (s : Client)
    → IsKeeping x switch
    → total x (turn switch p s) ≡ total x s + count x (p.msg ∷ [])
unfolding turn
turn-total x switch p s k =
    elim p.header
      as (λ (o : Option Header).
        total x (elim o [ none ↦ put_msg p.msg s | some h ↦ switch p.msg h s ])
        ≡ total x s + count x (p.msg ∷ [])) [ none ↦ omega arith | some h ↦ k p.msg h s ]

-- A turn of `ipcc_listener`, or of `wave_ipcc_blocked_event_listener`, holds the message once more, whatever it is.
pub turn-dispatch-total :
    (x : ℕ) (c : Callbacks) (p : Packet) (s : Client)
    → (total x (turn (dispatch c) p s) ≡ total x s + count x (p.msg ∷ []))
      × (total x (turn (blocked_dispatch c) p s) ≡ total x s + count x (p.msg ∷ []))
turn-dispatch-total x c p s = (
  turn-total x (dispatch c) p s (λ m h s'. dispatch-Takes x c m s' h),
  turn-total x (blocked_dispatch c) p s (λ m h s'. blocked_dispatch-Takes x c m s' h),
)

-- A work of the thread for events is given back.
pub total-serialized_event : (x : ℕ) (s : Client) → total x (serialized_event s) ≡ total x s
unfolding serialized_event
total-serialized_event x s = go s s.works refl
  where
    go :
        (s : Client) (l : List ℕ)
        → s.works ≡ l
        → total x (elim l [ [] ↦ s | m ∷ ms ↦ put_msg m (record s { works = ms }) ]) ≡ total x s
    go s [] e = refl
    go s (m ∷ ms) e = omega (arith, ap (count x) e)

pub count-put_all : (x : ℕ) (ps : List Packet) → count x (put_all ps) ≡ in_packets x ps
unfolding put_all
count-put_all x [] = refl
count-put_all x (p ∷ ps) =
    omega (arith, count-append x (put_all ps) (p.msg ∷ []), count-put_all x ps)

-- `wave_ipcc_disconnect` gives all queued messages back.
pub total-disconnect : (x : ℕ) (s : Client) → total x (disconnect s) ≡ total x s
unfolding disconnect
total-disconnect x s =
    omega (arith, count-append x (put_all s.queued_msgs) s.put_msgs, count-put_all x s.queued_msgs)
