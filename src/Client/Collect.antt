-- ===== src/Client/Collect.antt =====
-- wv_ipc/wave_ipc_client.c: the order in which a command without a listener collects its responses and queues
-- what else arrives.
use dwpal.Common.{
  ℕ, ◌≡◌, refl, sym, ap, ◌∙◌, Bool, true, false, not, ◌&&◌, ◌||◌, List, [], ◌∷◌, ◌++◌, Option, some,
  ◌==◌, arith, Bool-cases, Option-cases, inl, inr,
}
use mathlib.Core.List.{append_assoc, append-nil}
use dwpal.Ipc.Message.{success}
use dwpal.Client.{
  msg_cmd, msg_resp, msg_req_fail, msg_event, Header, Packet, Client, put_msg, find_response,
  store_response, handle_response,
}
use dwpal.Client.Commands.{
  Ended, Input, interrupted, received, again, ends, other_message, cmd_message, cmd_turn, cmd_loop,
}

-- Whether a message answers the command.
abbrev pub is_ours : ℕ → Header → Bool
is_ours seq h = (h.kind == msg_resp || h.kind == msg_req_fail) && h.seq_num == seq

-- Whether it is put on `queued_msgs`.
abbrev pub is_queued : Header → Bool
is_queued h = h.kind == msg_event || h.kind == msg_cmd

-- What may arrive while the command goes on: signals, responses that more will follow, events and commands, and messages
-- that are neither; with the responses and what is queued, in their order.
pub data Open (seq : ℕ) : List Input → List ℕ → List Packet → Type 0 where
  nothing : Open seq [] [] []
  signal :
      {is : List Input} {ms : List ℕ} {qs : List Packet}
      → Open seq is ms qs
      → Open seq (interrupted ∷ is) ms qs
  part :
      {is : List Input} {ms : List ℕ} {qs : List Packet} (m : ℕ) (h : Header)
      → h.kind ≡ msg_resp
      → h.seq_num ≡ seq
      → (h.more == 0) ≡ false
      → Open seq is ms qs
      → Open seq (received (record { msg = m; header = some h }) ∷ is) (m ∷ ms) qs
  late :
      {is : List Input} {ms : List ℕ} {qs : List Packet} (m : ℕ) (h : Header)
      → is_queued h ≡ true
      → Open seq is ms qs
      → Open seq
          (received (record { msg = m; header = some h }) ∷ is)
          ms
          (record { msg = m; header = some h } ∷ qs)
  stray :
      {is : List Input} {ms : List ℕ} {qs : List Packet} (m : ℕ) (h : Header)
      → is_ours seq h ≡ false
      → is_queued h ≡ false
      → Open seq is ms qs
      → Open seq (received (record { msg = m; header = some h }) ∷ is) ms qs

handle_response-queued :
    (m : ℕ) (h : Header) (s : Client) → (handle_response m h s).1.queued_msgs ≡ s.queued_msgs
handle_response-queued m h s = elim (Option-cases (find_response h.seq_num s.resp_list)) [
  | inl gone ↦
      let e : handle_response m h s ≡ (false, put_msg m s) =
        unfold handle_response in ground (arith, gone) in
      ap (λ r. r.1.queued_msgs) e
  | inr (cs, found) ↦
      let e : handle_response m h s
          ≡ (not (h.kind == msg_resp) || h.more == 0, store_response m h cs s) =
        unfold handle_response in ground (arith, found) in
      ap (λ r. r.1.queued_msgs) e ∙ (unfold store_response in refl)
]

module _ (seq : ℕ) (has_listener : Bool) where
  part_turn :
      (m : ℕ) (h : Header) (multi_out : List ℕ) (s : Client)
      → h.kind ≡ msg_resp
      → h.seq_num ≡ seq
      → (h.more == 0) ≡ false
      → cmd_message seq has_listener m h multi_out s ≡ again (multi_out ++ m ∷ []) s
  unfolding cmd_message
  part_turn m h multi_out s k n more = ground (arith, k, n, more)

  last_turn :
      (m : ℕ) (h : Header) (multi_out : List ℕ) (s : Client)
      → h.kind ≡ msg_resp
      → h.seq_num ≡ seq
      → h.more ≡ 0
      → cmd_message seq has_listener m h multi_out s
        ≡ ends (record { result = success; reply = multi_out ++ m ∷ []; lost = []; after = s })
  unfolding cmd_message
  last_turn m h multi_out s k n more = ground (arith, k, n, more)

  late_turn :
      (m : ℕ) (h : Header) (multi_out : List ℕ) (s : Client)
      → is_queued h ≡ true
      → cmd_message seq has_listener m h multi_out s
        ≡ again multi_out
            (record s { queued_msgs = s.queued_msgs ++ record { msg = m; header = some h } ∷ [] })
  unfolding cmd_message other_message
  late_turn m h multi_out s q = ground (arith, q)

  stray_turn :
      (m : ℕ) (h : Header) (multi_out : List ℕ) (s : Client)
      → is_ours seq h ≡ false
      → is_queued h ≡ false
      → (s' : Client) × ((cmd_message seq has_listener m h multi_out s ≡ again multi_out s')
          × (s'.queued_msgs ≡ s.queued_msgs))
  unfolding cmd_message other_message
  stray_turn m h multi_out s o q =
      elim (Bool-cases (h.kind == msg_resp || h.kind == msg_req_fail)) [
        | inl answer ↦ elim (Bool-cases has_listener) [
          | inl listens ↦ (
            (handle_response m h s).1,
            (rw (o, answer, listens) refl, handle_response-queued m h s),
          )
          | inr alone ↦ (put_msg m s, (rw (o, answer, alone) refl, refl))
        ]
        | inr odd ↦ (put_msg m s, (rw (o, odd, q) refl, refl))
      ]

  -- The call is over with the message `last`; `rest` has not been looked at.
  abbrev pub Collects :
      List Input → List Input → List ℕ → List Packet → Packet → List ℕ → Client → Type 0
  Collects is rest ms qs last multi_out s =
      (s' : Client) × ((cmd_loop seq has_listener (is ++ received last ∷ rest) multi_out s
          ≡ some (
            record {
              result = success;
              reply = multi_out ++ (ms ++ last.msg ∷ []);
              lost = [];
              after = s';
            },
            rest,
          ))
        × (s'.queued_msgs ≡ s.queued_msgs ++ qs))

  again_turn :
      (i : Input) (is : List Input) (multi_out ms : List ℕ) (s s' : Client)
      → cmd_turn seq has_listener i multi_out s ≡ again ms s'
      → cmd_loop seq has_listener (i ∷ is) multi_out s ≡ cmd_loop seq has_listener is ms s'
  unfolding cmd_loop
  again_turn i is multi_out ms s s' e = ground (arith, e)

  ends_turn :
      (i : Input) (is : List Input) (multi_out : List ℕ) (s : Client) (e : Ended)
      → cmd_turn seq has_listener i multi_out s ≡ ends e
      → cmd_loop seq has_listener (i ∷ is) multi_out s ≡ some (e, is)
  unfolding cmd_loop
  ends_turn i is multi_out s e h = ground (arith, h)

  -- Whatever signals, events, commands and messages for others come between the parts of the response, the command
  -- returns success at the last part, with all parts in the order of their arrival after those that it had; the events and commands are queued in
  -- their order behind what was queued, and the inputs after the last part are left.
  pub cmd_loop-Collects :
      (is rest : List Input) (ms : List ℕ) (qs : List Packet) (m : ℕ) (h : Header)
      (multi_out : List ℕ) (s : Client)
      → Open seq is ms qs
      → h.kind ≡ msg_resp
      → h.seq_num ≡ seq
      → h.more ≡ 0
      → Collects is rest ms qs (record { msg = m; header = some h }) multi_out s
  unfolding cmd_turn
  cmd_loop-Collects _ rest _ _ m h multi_out s nothing k n last = (
    s,
    (
      ends_turn (received (record { msg = m; header = some h })) rest multi_out s
          (record { result = success; reply = multi_out ++ m ∷ []; lost = []; after = s })
          (last_turn m h multi_out s k n last),
      sym (append-nil s.queued_msgs),
    ),
  )
  cmd_loop-Collects _ rest _ _ m h multi_out s (signal {is} {ms} {qs} o) k n last =
      let (s', (runs, q)) = cmd_loop-Collects is rest ms qs m h multi_out s o k n last in
      (
        s',
        (
          again_turn interrupted (is ++ received (record { msg = m; header = some h }) ∷ rest)
                multi_out multi_out s s refl
              ∙ runs,
          q,
        ),
      )
  cmd_loop-Collects _ rest _ _ m h multi_out s (part {is} {ms} {qs} m' h' k' n' more o) k n last =
      let (s', (runs, q)) =
        cmd_loop-Collects is rest ms qs m h (multi_out ++ m' ∷ []) s o k n last in
      let answered : List ℕ → Option (Ended × List Input) =
        λ r. some (record { result = success; reply = r; lost = []; after = s' }, rest) in
      (
        s',
        (
          again_turn (received (record { msg = m'; header = some h' }))
                (is ++ received (record { msg = m; header = some h }) ∷ rest) multi_out
                (multi_out ++ m' ∷ []) s s (part_turn m' h' multi_out s k' n' more)
              ∙ runs
              ∙ ap answered (append_assoc multi_out (m' ∷ []) (ms ++ m ∷ [])),
          q,
        ),
      )
  cmd_loop-Collects _ rest _ _ m h multi_out s (late {is} {ms} {qs} m' h' qd o) k n last =
      let p : Packet = record { msg = m'; header = some h' } in
      let s₁ : Client = record s { queued_msgs = s.queued_msgs ++ p ∷ [] } in
      let (s', (runs, q)) = cmd_loop-Collects is rest ms qs m h multi_out s₁ o k n last in
      (
        s',
        (
          again_turn (received p) (is ++ received (record { msg = m; header = some h }) ∷ rest)
                multi_out multi_out s s₁ (late_turn m' h' multi_out s qd)
              ∙ runs,
          q ∙ append_assoc s.queued_msgs (p ∷ []) qs,
        ),
      )
  cmd_loop-Collects _ rest _ _ m h multi_out s (stray {is} {ms} {qs} m' h' ours qd o) k n last =
      let (s₁, (turn, same)) = stray_turn m' h' multi_out s ours qd in
      let (s', (runs, q)) = cmd_loop-Collects is rest ms qs m h multi_out s₁ o k n last in
      (
        s',
        (
          again_turn (received (record { msg = m'; header = some h' }))
                (is ++ received (record { msg = m; header = some h }) ∷ rest) multi_out multi_out s
                s₁ turn
              ∙ runs,
          q ∙ ap (λ z. z ++ qs) same,
        ),
      )
