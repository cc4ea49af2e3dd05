-- ===== src/Client/Bare.antt =====
-- wv_ipc/wave_ipc_client.c: a client without a listener has no works and no entries for responses.
use dwpal.Common.{
  ℕ, ◌≡◌, refl, subst, false, ◌&&◌, ◌||◌, List, [], ◌∷◌, ◌++◌, Option, none, some, if◌then◌else◌,
  ◌==◌, if-cases,
}
use dwpal.Ipc.Message.{success, cmd_failed, disconnected}
use dwpal.Client.{
  msg_cmd, msg_resp, msg_req_fail, msg_event, Header, Packet, Client, put_msg, ClbRet,
  take_ownership, clb_success, clb_error, Callbacks, after_event, after_cmd, dispatch_cmd,
  blocked_dispatch, turn, new_client,
}
use dwpal.Client.Commands.{
  Input, interrupted, select_failed, timed_out, recv_failed, received, Turn, again, ends, stop,
  other_message, cmd_message, cmd_turn,
}
use dwpal.Client.Runs.{
  Run, begun, arrives, takes_queued, asks, collects, concludes, events, commands, answers,
}

abbrev pub IsBare : Client → Type 0
IsBare s = (s.works ≡ []) × (s.resp_list ≡ [])

abbrev after_turn : Turn → Client
after_turn (again ms s) = s
after_turn (ends e) = e.after

module _ (c : Callbacks) (m : ℕ) (s : Client) (b : IsBare s) where
  after_event-IsBare : (r : ClbRet) → IsBare (after_event r m s)
  unfolding after_event
  after_event-IsBare take_ownership = b
  after_event-IsBare clb_success = b
  after_event-IsBare clb_error = b

  after_cmd-IsBare : (r : ClbRet) (seq : ℕ) → IsBare (after_cmd r m seq s)
  unfolding after_cmd
  after_cmd-IsBare take_ownership seq = b
  after_cmd-IsBare clb_success seq = b
  after_cmd-IsBare clb_error seq = b

  dispatch_cmd-IsBare : (seq : ℕ) → IsBare (dispatch_cmd c m seq s)
  unfolding dispatch_cmd
  dispatch_cmd-IsBare seq =
      elim c.cmd_clb
        as (λ (o : Option (ℕ → ClbRet)).
          IsBare (elim o [ none ↦ put_msg m s | some clb ↦ after_cmd (clb m) m seq s ])) [
            | none ↦ b
            | some clb ↦ after_cmd-IsBare (clb m) seq
          ]

  blocked_dispatch-IsBare : (h : Header) → IsBare (blocked_dispatch c m h s)
  unfolding blocked_dispatch
  blocked_dispatch-IsBare h =
      let cmd : Client = if h.kind == msg_cmd then dispatch_cmd c m h.seq_num s else put_msg m s in
      if-cases IsBare (h.kind == msg_event) (after_event (c.event_clb m) m s) cmd
        (λ _. after_event-IsBare (c.event_clb m))
        (λ _.
          if-cases IsBare (h.kind == msg_cmd) (dispatch_cmd c m h.seq_num s) (put_msg m s)
            (λ _. dispatch_cmd-IsBare h.seq_num) (λ _. b))

turn-IsBare :
    (c : Callbacks) (p : Packet) (s : Client) → IsBare s → IsBare (turn (blocked_dispatch c) p s)
unfolding turn
turn-IsBare c p s b =
    elim p.header
      as (λ (o : Option Header).
        IsBare (elim o [ none ↦ put_msg p.msg s | some h ↦ blocked_dispatch c p.msg h s ])) [
          | none ↦ b
          | some h ↦ blocked_dispatch-IsBare c p.msg s b h
        ]

-- A turn of the loop for a command.
abbrev Stays : Turn → Type 0
Stays t = IsBare (after_turn t)

other_message-IsBare :
    (m : ℕ) (h : Header) (ms : List ℕ) (s : Client)
    → IsBare s
    → Stays (other_message false m h ms s)
unfolding other_message
other_message-IsBare m h ms s b =
    let queued : Turn =
      again ms
        (record s { queued_msgs = s.queued_msgs ++ record { msg = m; header = some h } ∷ [] }) in
    let given : Turn = again ms (put_msg m s) in
    let late : Turn = if h.kind == msg_event || h.kind == msg_cmd then queued else given in
    if-cases Stays (h.kind == msg_resp || h.kind == msg_req_fail) given late (λ _. b)
      (λ _.
        if-cases Stays (h.kind == msg_event || h.kind == msg_cmd) queued given (λ _. b) (λ _. b))

cmd_message-IsBare :
    (seq m : ℕ) (h : Header) (ms : List ℕ) (s : Client)
    → IsBare s
    → Stays (cmd_message seq false m h ms s)
unfolding cmd_message
cmd_message-IsBare seq m h ms s b =
    let failed : Turn = ends (record {
      result = cmd_failed;
      reply = m ∷ [];
      lost = [];
      after = record s { put_msgs = ms ++ s.put_msgs };
    }) in
    let finished : Turn =
      ends (record { result = success; reply = ms ++ m ∷ []; lost = []; after = s }) in
    let more : Turn = again (ms ++ m ∷ []) s in
    let part : Turn = if h.more == 0 then finished else more in
    let ours : Turn = if h.kind == msg_req_fail then failed else part in
    if-cases Stays ((h.kind == msg_resp || h.kind == msg_req_fail) && h.seq_num == seq) ours
      (other_message false m h ms s)
      (λ _.
        if-cases Stays (h.kind == msg_req_fail) failed part (λ _. b)
          (λ _. if-cases Stays (h.more == 0) finished more (λ _. b) (λ _. b)))
      (λ _. other_message-IsBare m h ms s b)

cmd_turn-IsBare :
    (seq : ℕ) (i : Input) (ms : List ℕ) (s : Client) → IsBare s → Stays (cmd_turn seq false i ms s)
unfolding cmd_turn
cmd_turn-IsBare seq interrupted ms s b = b
cmd_turn-IsBare seq select_failed ms s b = b
cmd_turn-IsBare seq timed_out ms s b = b
cmd_turn-IsBare seq recv_failed ms s b = b
cmd_turn-IsBare seq (received p) ms s b =
    elim p.header
      as (λ (o : Option Header). Stays (elim o [
        | none ↦ stop disconnected ms (put_msg p.msg s)
        | some h ↦ cmd_message seq false p.msg h ms s
      ])) [ none ↦ b | some h ↦ cmd_message-IsBare seq p.msg h ms s b ]

-- Whatever it does.
pub Run-IsBare :
    (c : Callbacks) (own : Option (ℕ × List ℕ)) (a g l : List ℕ) (s : Client)
    → Run false c new_client own a g l s
    → IsBare s
Run-IsBare c _ _ _ _ _ begun = (refl, refl)
Run-IsBare c _ _ _ _ _ (arrives {a} {g} {l} {s} p q r) =
    turn-IsBare c p s (Run-IsBare c none a g l s r)
Run-IsBare c _ _ _ _ _ (takes_queued {a} {g} {l} {s} p ps q r) =
    turn-IsBare c p (record s { queued_msgs = ps }) (Run-IsBare c none a g l s r)
Run-IsBare c _ _ _ _ _ (asks {a} {g} {l} {s} seq r) = Run-IsBare c none a g l s r
Run-IsBare c _ _ _ _ _ (collects {seq} {ms} {a} {g} {l} {s} i ms' s' e r) =
    subst Stays e (cmd_turn-IsBare seq i ms s (Run-IsBare c (some (seq, ms)) a g l s r))
Run-IsBare c _ _ _ _ _ (concludes {seq} {ms} {a} {g} {l} {s} i e over r) =
    subst Stays over (cmd_turn-IsBare seq i ms s (Run-IsBare c (some (seq, ms)) a g l s r))
Run-IsBare c _ _ _ _ _ (events k r) = absurd (cc k)
Run-IsBare c _ _ _ _ _ (commands at seq k r) = absurd (cc k)
Run-IsBare c _ _ _ _ _ (answers is_sent sent at e k h r) = absurd (cc k)
