-- ===== src/Client/Commands.antt =====
-- wv_ipc/wave_ipc_client.c: commands to the daemon, with a listener thread that collects the responses, and without.
use dwpal.Common.{
  ℕ, ◌+◌, ◌%◌, Bool, not, ◌&&◌, ◌||◌, List, [], ◌∷◌, ◌++◌, Option, none, some, if◌then◌else◌, ◌==◌,
}
use dwpal.Ipc.Message.{Ret, success, disconnected, error, cmd_failed}
use dwpal.Client.{
  msg_cmd, msg_resp, msg_req_fail, msg_event, Header, Packet, resp_none, resp_success, resp_failure,
  CmdResponse, Client, put_msg, handle_response,
}

-- `__atomic_add_fetch` of the `uint8_t` in `wave_ipcc_send_cmd_ex`.
abbrev pub next_seq : ℕ → ℕ
next_seq n = (n + 1) % 256

-- `wave_ipcc_send_cmd_listener` up to the call of `wave_ipc_send_msg`: the entry at the address that the pool gave.
unfoldable pub begin_cmd : (at seq : ℕ) → Client → Client
begin_cmd at seq s = record s {
  resp_list = record { at = at; seq_num = seq; status = resp_none; response = [] } ∷ s.resp_list;
}

-- `list_remove` of an entry, with what it held.
unfoldable pub take_response : ℕ → List CmdResponse → Option CmdResponse × List CmdResponse
take_response at [] = (none, [])
take_response at (cs ∷ l) =
    let r = take_response at l in if cs.at == at then (some cs, l) else (r.0, cs ∷ r.1)

-- How a call ends: what it returns, `*reply`, the messages that only its local variables held, and the client.
pub record Ended : Type 0 where
  pub result : Ret
  pub reply : List ℕ
  pub lost : List ℕ
  pub after : Client

-- What an entry gives when the wait is over; `is_sent` says that `wave_ipc_send_msg` returned WAVE_IPC_SUCCESS.
unfoldable pub finish : Bool → Ret → CmdResponse → Client → Ended
finish is_sent sent cs s =
    if not is_sent
    then record { result = sent; reply = []; lost = cs.response; after = s }
    else elim cs.status [
      | resp_none ↦ record { result = error; reply = []; lost = cs.response; after = s }
      | resp_success ↦ record { result = success; reply = cs.response; lost = []; after = s }
      | resp_failure ↦ record { result = cmd_failed; reply = cs.response; lost = []; after = s }
    ]

-- The end of `wave_ipcc_send_cmd_listener`, from the label `response` on.
unfoldable pub end_cmd : Bool → Ret → ℕ → Client → Option Ended
end_cmd is_sent sent at s =
    let r = take_response at s.resp_list in
    elim r.0 [
      | none ↦ none
      | some cs ↦ some (finish is_sent sent cs (record s { resp_list = r.1 }))
    ]

-- What `select` and `wave_ipc_recv_msg` give in the loop of `wave_ipcc_send_cmd_no_listener`.
pub data Input : Type 0 where
  interrupted select_failed timed_out recv_failed : Input
  received : Packet → Input

-- How a turn of this loop ends: `goto again` with `multi_out`, or the end of the call.
pub data Turn : Type 0 where
  again : List ℕ → Client → Turn
  ends : Ended → Turn

-- The labels `disconnect` and `timeout`.
abbrev pub stop : Ret → List ℕ → Client → Turn
stop result multi_out s = ends (record { result = result; reply = []; lost = multi_out; after = s })

-- A message of another kind, or for another command.
unfoldable pub other_message : Bool → ℕ → Header → List ℕ → Client → Turn
other_message has_listener m h multi_out s =
    if h.kind == msg_resp || h.kind == msg_req_fail
    then (if has_listener
        then again multi_out (handle_response m h s).1
        else again multi_out (put_msg m s))
    else if h.kind == msg_event || h.kind == msg_cmd
    then again multi_out
        (record s { queued_msgs = s.queued_msgs ++ record { msg = m; header = some h } ∷ [] })
    else again multi_out (put_msg m s)

-- A message after `ipc_header_pop`.
unfoldable pub cmd_message : ℕ → Bool → ℕ → Header → List ℕ → Client → Turn
cmd_message seq has_listener m h multi_out s =
    if (h.kind == msg_resp || h.kind == msg_req_fail) && h.seq_num == seq
    then (if h.kind == msg_req_fail
        then ends (record {
          result = cmd_failed;
          reply = m ∷ [];
          lost = [];
          after = record s { put_msgs = multi_out ++ s.put_msgs };
        })
        else if h.more == 0
        then ends (record { result = success; reply = multi_out ++ m ∷ []; lost = []; after = s })
        else again (multi_out ++ m ∷ []) s)
    else other_message has_listener m h multi_out s

-- A turn of the loop of `wave_ipcc_send_cmd_no_listener`, from the label `again` on.
unfoldable pub cmd_turn : ℕ → Bool → Input → List ℕ → Client → Turn
cmd_turn seq has_listener interrupted multi_out s = again multi_out s
cmd_turn seq has_listener select_failed multi_out s = stop disconnected multi_out s
cmd_turn seq has_listener timed_out multi_out s = stop error multi_out s
cmd_turn seq has_listener recv_failed multi_out s = stop disconnected multi_out s
cmd_turn seq has_listener (received p) multi_out s = elim p.header [
  | none ↦ stop disconnected multi_out (put_msg p.msg s)
  | some h ↦ cmd_message seq has_listener p.msg h multi_out s
]

-- The loop, over what arrives; with what has not been looked at, and `none` where it still waits.
unfoldable pub cmd_loop : ℕ → Bool → List Input → List ℕ → Client → Option (Ended × List Input)
cmd_loop seq has_listener [] multi_out s = none
cmd_loop seq has_listener (i ∷ is) multi_out s = elim (cmd_turn seq has_listener i multi_out s) [
  | again multi_out' s' ↦ cmd_loop seq has_listener is multi_out' s'
  | ends e ↦ some (e, is)
]
