-- ===== src/Client/Calls.antt =====
-- wv_ipc/wave_ipc_client.c: what becomes of each message in a command without a listener.
use dwpal.Common.{
  ℕ, ◌+◌, ◌≡◌, refl, sym, ap, subst, Bool, ◌&&◌, ◌||◌, List, [], ◌∷◌, ◌++◌, Option, none, some,
  if◌then◌else◌, ◌==◌, count, count-append, arith, if-cases, inl, inr, ◌⊎◌,
}
use dwpal.Ipc.Message.{success, disconnected, cmd_failed}
use dwpal.Client.{
  msg_cmd, msg_resp, msg_req_fail, msg_event, Header, Packet, Client, put_msg, handle_response,
}
use dwpal.Client.Commands.{
  Ended, Input, interrupted, select_failed, timed_out, recv_failed, received, Turn, again, ends,
  stop, other_message, cmd_message, cmd_turn, cmd_loop,
}
use dwpal.Client.Total.{total, in_packets-append, total-handle_response}

-- The message that an input brings.
abbrev pub arrived : ℕ → Input → ℕ
arrived x (received p) = count x (p.msg ∷ [])
arrived x interrupted = 0
arrived x select_failed = 0
arrived x timed_out = 0
arrived x recv_failed = 0

abbrev pub arrivals : ℕ → List Input → ℕ
arrivals x [] = 0
arrivals x (i ∷ is) = arrived x i + arrivals x is

-- How often the end of a turn holds a message: the client, the caller, and those that are lost or collected.
unfoldable pub held : ℕ → Turn → ℕ
held x (again multi_out s) = total x s + count x multi_out
held x (ends e) = total x e.after + count x e.reply + count x e.lost

pub Turn-cases :
    (t : Turn) → ((ms : List ℕ) × ((s : Client) × (t ≡ again ms s))) ⊎ ((e : Ended) × (t ≡ ends e))
Turn-cases (again ms s) = inl (ms, (s, refl))
Turn-cases (ends e) = inr (e, refl)

module _ (x m : ℕ) (multi_out : List ℕ) (s : Client) where
  -- One message more than before.
  abbrev Holds : Turn → Type 0
  Holds t = held x t ≡ total x s + count x multi_out + count x (m ∷ [])

  other_message-Holds :
      (has_listener : Bool) (h : Header) → Holds (other_message has_listener m h multi_out s)
  unfolding other_message held
  other_message-Holds has_listener h =
      let queued : Turn =
        again multi_out
          (record s { queued_msgs = s.queued_msgs ++ record { msg = m; header = some h } ∷ [] }) in
      let given : Turn = again multi_out (put_msg m s) in
      let handled : Turn = again multi_out (handle_response m h s).1 in
      let late : Turn = if h.kind == msg_event || h.kind == msg_cmd then queued else given in
      let answer : Turn = if has_listener then handled else given in
      if-cases Holds (h.kind == msg_resp || h.kind == msg_req_fail) answer late
        (λ _.
          if-cases Holds has_listener handled given
            (λ _. omega (arith, total-handle_response x m h s)) (λ _. omega arith))
        (λ _.
          if-cases Holds (h.kind == msg_event || h.kind == msg_cmd) queued given
            (λ _.
              omega (
                arith,
                in_packets-append x s.queued_msgs (record { msg = m; header = some h } ∷ []),
              ))
            (λ _. omega arith))

  cmd_message-Holds :
      (seq : ℕ) (has_listener : Bool) (h : Header)
      → Holds (cmd_message seq has_listener m h multi_out s)
  unfolding cmd_message held
  cmd_message-Holds seq has_listener h =
      let failed : Turn = ends (record {
        result = cmd_failed;
        reply = m ∷ [];
        lost = [];
        after = record s { put_msgs = multi_out ++ s.put_msgs };
      }) in
      let finished : Turn =
        ends (record { result = success; reply = multi_out ++ m ∷ []; lost = []; after = s }) in
      let collected : Turn = again (multi_out ++ m ∷ []) s in
      let part : Turn = if h.more == 0 then finished else collected in
      let ours : Turn = if h.kind == msg_req_fail then failed else part in
      if-cases Holds ((h.kind == msg_resp || h.kind == msg_req_fail) && h.seq_num == seq) ours
        (other_message has_listener m h multi_out s)
        (λ _.
          if-cases Holds (h.kind == msg_req_fail) failed part
            (λ _. omega (arith, count-append x multi_out s.put_msgs))
            (λ _.
              if-cases Holds (h.more == 0) finished collected
                (λ _. omega (arith, count-append x multi_out (m ∷ [])))
                (λ _. omega (arith, count-append x multi_out (m ∷ [])))))
        (λ _. other_message-Holds has_listener h)

module _ (x seq : ℕ) (has_listener : Bool) where
  received-held :
      (p : Packet) (multi_out : List ℕ) (s : Client)
      → held x (cmd_turn seq has_listener (received p) multi_out s)
        ≡ total x s + count x multi_out + count x (p.msg ∷ [])
  unfolding cmd_turn held
  received-held p multi_out s =
      elim p.header
        as (λ (o : Option Header).
          held x (elim o [
            | none ↦ stop disconnected multi_out (put_msg p.msg s)
            | some h ↦ cmd_message seq has_listener p.msg h multi_out s
          ])
          ≡ total x s + count x multi_out + count x (p.msg ∷ [])) [
            | none ↦ omega arith
            | some h ↦ cmd_message-Holds x p.msg multi_out s seq has_listener h
          ]

  pub cmd_turn-held :
      (i : Input) (multi_out : List ℕ) (s : Client)
      → held x (cmd_turn seq has_listener i multi_out s)
        ≡ total x s + count x multi_out + arrived x i
  cmd_turn-held interrupted multi_out s = unfold cmd_turn held in omega arith
  cmd_turn-held select_failed multi_out s = unfold cmd_turn held in omega arith
  cmd_turn-held timed_out multi_out s = unfold cmd_turn held in omega arith
  cmd_turn-held recv_failed multi_out s = unfold cmd_turn held in omega arith
  cmd_turn-held (received p) multi_out s = received-held p multi_out s

  -- When a command without a listener ends, each message that was received is held by the client, or its caller has
  -- it, or the call has lost it, and that just once.
  pub cmd_loop-total :
      (inputs : List Input) (multi_out : List ℕ) (s : Client) (e : Ended) (left : List Input)
      → cmd_loop seq has_listener inputs multi_out s ≡ some (e, left)
      → total x e.after + count x e.reply + count x e.lost + arrivals x left
        ≡ total x s + count x multi_out + arrivals x inputs
  unfolding cmd_loop held
  cmd_loop-total [] multi_out s e left h = absurd (cc h)
  cmd_loop-total (i ∷ is) multi_out s e left h =
      let t = cmd_turn seq has_listener i multi_out s in
      let now : held x t ≡ total x s + count x multi_out + arrived x i =
        cmd_turn-held i multi_out s in
      elim (Turn-cases t) [
        | inl (ms, (s', goes_on)) ↦
            let rest : cmd_loop seq has_listener is ms s' ≡ some (e, left) =
              ground (arith, goes_on, h) in
            let ih = cmd_loop-total is ms s' e left rest in
            let k : total x s' + count x ms ≡ held x t = ap (held x) (sym goes_on) in
            omega (arith, ih, k, now)
        | inr (e', over) ↦
            let both : ◌≡◌ {A = Ended × List Input} (e', is) (e, left) = ground (arith, over, h) in
            let k : total x e'.after + count x e'.reply + count x e'.lost ≡ held x t =
              ap (held x) (sym over) in
            subst
              (λ r.
                total x r.0.after + count x r.0.reply + count x r.0.lost + arrivals x r.1
                ≡ total x s + count x multi_out + (arrived x i + arrivals x is))
              both (omega (arith, k, now))
      ]
