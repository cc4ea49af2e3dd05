-- ===== src/Server/Responses.antt =====
-- wv_ipc/wave_ipc_server.c: commands of the daemon to a station, which wait for one or several responses.
pub mod Collect
use dwpal.Common.{
  ℕ, zero, suc, ◌+◌, ◌%◌, Bool, true, false, not, ◌&&◌, List, [], ◌∷◌, ◌++◌, Option, none, some,
  if◌then◌else◌, ◌==◌, null,
}
use dwpal.Ipc.Message.{Ret, success, error, cmd_failed}
use dwpal.Ipc.Multi.{Store, multi_msg_append}

-- `cmd_response_status`: RESP_NONE, RESP_SUCCESS and RESP_FAILURE.
pub data Status : Type 0 where
  none_yet succeeded failed : Status

-- `cmd_response` at the address `at`; the response is the address of a message, 0 for NULL.
pub record CmdResponse : Type 0 where
  pub at : ℕ
  pub ipsta : ℕ
  pub seq_num : ℕ
  pub status : Status
  pub response : ℕ

-- What of `struct _wv_ipserver` is about commands, with the memory of the messages and those that were
-- given to `wave_ipc_msg_put`, the latest first.
pub record Commands : Type 0 where
  pub cmd_seq_num : ℕ
  pub resp_list : List CmdResponse
  pub msgs : Store
  pub put_msgs : List ℕ

-- WAVE_IPC_MSG_RESP
abbrev pub msg_resp : ℕ
msg_resp = 2

abbrev pub matches : ℕ → ℕ → CmdResponse → Bool
matches ipsta seq cs = cs.seq_num == seq && cs.ipsta == ipsta

-- The first entry of the list that a response belongs to.
unfoldable pub find_response : ℕ → ℕ → List CmdResponse → Option CmdResponse
find_response ipsta seq [] = none
find_response ipsta seq (cs ∷ l) =
    if matches ipsta seq cs then some cs else find_response ipsta seq l

-- The list after the write through the pointer to that entry.
unfoldable pub set_response : ℕ → ℕ → CmdResponse → List CmdResponse → List CmdResponse
set_response ipsta seq new [] = []
set_response ipsta seq new (cs ∷ l) =
    let rest = set_response ipsta seq new l in if matches ipsta seq cs then new ∷ l else cs ∷ rest

-- A response is the first, or is appended to the ring of those before.
unfoldable pub add_response : CmdResponse → ℕ → Store → CmdResponse × Store
add_response cs resp msgs =
    if cs.response == null
    then (record cs { response = resp }, msgs)
    else (cs, (multi_msg_append msgs cs.response resp).1)

-- `wave_ipcs_handle_response_from_client` with the bytes of the header: its type, the sequence number and
-- whether more responses follow. The Boolean says that waiting callers are notified.
unfoldable pub handle_response : ℕ → ℕ → (type seq more : ℕ) → Commands → Bool × Commands
unfolding find_response set_response add_response
handle_response ipsta resp type seq more s = elim (find_response ipsta seq s.resp_list) [
  | none ↦ (false, record s { put_msgs = resp ∷ s.put_msgs })
  | some cs ↦
      if type == msg_resp
      then (let (cs', msgs') = add_response cs resp s.msgs in
          let new = if more == 0 then record cs' { status = succeeded } else cs' in
          (
            more == 0,
            record s { resp_list = set_response ipsta seq new s.resp_list; msgs = msgs' },
          ))
      else (
        true,
        record s {
          resp_list =
              set_response ipsta seq (record cs { status = failed; response = resp }) s.resp_list;
          put_msgs = if cs.response == null then s.put_msgs else cs.response ∷ s.put_msgs;
        },
      )
]

-- The start of a command in `wave_ipcs_send_cmd_to` and `_wave_ipcs_send_cmd_to`: the next sequence number,
-- a `uint8_t`, and the entry at the address that `malloc` gave.
unfoldable pub begin_cmd : ℕ → ℕ → Commands → ℕ × Commands
begin_cmd at ipsta s =
    let seq = (s.cmd_seq_num + 1) % 256 in
    (
      seq,
      record s {
        cmd_seq_num = seq;
        resp_list =
            record { at = at; ipsta = ipsta; seq_num = seq; status = none_yet; response = null }
            ∷ s.resp_list;
      },
    )

-- `list_remove` of the entry at an address, with what it held.
unfoldable pub take_response : ℕ → List CmdResponse → Option CmdResponse × List CmdResponse
take_response at [] = (none, [])
take_response at (cs ∷ l) =
    let (found, rest) = take_response at l in
    if cs.at == at then (some cs, l) else (found, cs ∷ rest)

-- The end of `_wave_ipcs_send_cmd_to` once the wait has ended, where `sent` is what `wave_ipc_send_msg`
-- returned and `is_sent` says that it is WAVE_IPC_SUCCESS: the result and `*reply` if it is written.
unfoldable pub end_cmd : Bool → Ret → ℕ → Commands → Ret × Option ℕ × Commands
unfolding take_response
end_cmd is_sent sent at s =
    let (found, rest) = take_response at s.resp_list in
    let s' = record s { resp_list = rest } in
    if not is_sent then (sent, none, s') else elim found [
      | none ↦ (error, none, s')
      | some cs ↦ elim cs.status [
        | none_yet ↦ (error, none, s')
        | succeeded ↦ (success, some cs.response, s')
        | failed ↦ (cmd_failed, some cs.response, s')
      ]
    ]
