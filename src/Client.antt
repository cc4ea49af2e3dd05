-- ===== src/Client.antt =====
-- wv_ipc/wave_ipc_client.c: a client of the daemon. A message is its address; `ipc_header_pop` takes its header
-- off, `none` where it fails. A ring of messages that answer one command is the list of them in order;
-- `Ipc.Multi` has the ring in memory. Each message that the client has received is on one of the lists of
-- `Client`, so that a message that is on none is lost, and one that is on two is given back twice.
-- The nodes of `queued_msgs` and `resp_list` are taken to be there when they are needed.
pub mod Commands
pub mod Total
pub mod Dispatch
pub mod Runs
pub mod Calls
pub mod Bare
pub mod Closing
pub mod Resources
pub mod Collect
pub mod Connection
pub mod Descriptors
pub mod Waiting
pub mod Told
pub mod Tests
use dwpal.Common.{
  ℕ, zero, suc, ◌+◌, ◌%◌, Bool, true, false, not, ◌&&◌, ◌||◌, List, [], ◌∷◌, ◌++◌, Option, none,
  some, if◌then◌else◌, ◌==◌, length,
}

-- WAVE_IPC_MSG_CMD, WAVE_IPC_MSG_RESP, WAVE_IPC_MSG_REQ_FAIL and WAVE_IPC_MSG_EVENT
abbrev pub msg_cmd : ℕ
msg_cmd = 1

abbrev pub msg_resp : ℕ
msg_resp = 2

abbrev pub msg_req_fail : ℕ
msg_req_fail = 4

abbrev pub msg_event : ℕ
msg_event = 5

-- `ipc_header`: the type of the message, the sequence number, and whether more responses follow.
pub record Header : Type 0 where
  pub kind : ℕ
  pub seq_num : ℕ
  pub more : ℕ

pub record Packet : Type 0 where
  pub msg : ℕ
  pub header : Option Header

-- `cmd_response_status`
pub data Status : Type 0 where
  resp_none resp_success resp_failure : Status

-- `cmd_response` at the address `at`; no message is NULL.
pub record CmdResponse : Type 0 where
  pub at : ℕ
  pub seq_num : ℕ
  pub status : Status
  pub response : List ℕ

-- What of `struct _wv_ipclient` and `listener_thread_data` holds messages: those that wait in `queued_msgs`, the
-- responses in `resp_list`, and the works of `events_serializer`; with the messages that were given to `wave_ipc_msg_put`, those that a
-- callback has taken, and the sequence numbers for which `wave_ipcc_send_req_failed` was called.
pub record Client : Type 0 where
  pub queued_msgs : List Packet
  pub resp_list : List CmdResponse
  pub works : List ℕ
  pub put_msgs : List ℕ
  pub taken : List ℕ
  pub req_failed : List ℕ

abbrev pub put_msg : ℕ → Client → Client
put_msg m s = record s { put_msgs = m ∷ s.put_msgs }

-- The search by sequence number in `ipcc_handle_response_from_listener_ctx`.
unfoldable pub find_response : ℕ → List CmdResponse → Option CmdResponse
find_response seq [] = none
find_response seq (cs ∷ l) =
    let rest = find_response seq l in if cs.seq_num == seq then some cs else rest

-- The list after the write through the pointer to the entry that was found.
unfoldable pub set_response : ℕ → CmdResponse → List CmdResponse → List CmdResponse
set_response seq new [] = []
set_response seq new (cs ∷ l) =
    let rest = set_response seq new l in if cs.seq_num == seq then new ∷ l else cs ∷ rest

-- What becomes of the entry for a response.
unfoldable pub add_response : ℕ → Header → CmdResponse → CmdResponse
add_response m h cs =
    if h.kind == msg_resp
    then record cs {
      status = if h.more == 0 then resp_success else cs.status;
      response = cs.response ++ m ∷ [];
    }
    else record cs { status = resp_failure; response = m ∷ [] }

-- The client when the entry `cs` is found.
unfoldable pub store_response : ℕ → Header → CmdResponse → Client → Client
store_response m h cs s = record s {
  resp_list = set_response h.seq_num (add_response m h cs) s.resp_list;
  put_msgs = if h.kind == msg_resp then s.put_msgs else cs.response ++ s.put_msgs;
}

-- `ipcc_handle_response_from_listener_ctx`; the Boolean says that the callers that wait are notified.
unfoldable pub handle_response : ℕ → Header → Client → Bool × Client
handle_response m h s = elim (find_response h.seq_num s.resp_list) [
  | none ↦ (false, put_msg m s)
  | some cs ↦ (not (h.kind == msg_resp) || h.more == 0, store_response m h cs s)
]

-- What a callback returns: WAVE_IPC_EVENT_TAKE_OWNERSHIP, 0 or another value.
pub data ClbRet : Type 0 where
  take_ownership clb_success clb_error : ClbRet

-- The callbacks of a listener, as what they return; `exec_async` is what `serializer_exec_work_async` returns where the listener has a
-- thread for its events, true for 0.
pub record Callbacks : Type 0 where
  pub event_clb : ℕ → ClbRet
  pub cmd_clb : Option (ℕ → ClbRet)
  pub exec_async : Option (ℕ → Bool)

-- A message that a callback was called with.
unfoldable pub after_event : ClbRet → ℕ → Client → Client
after_event take_ownership m s = record s { taken = m ∷ s.taken }
after_event clb_success m s = put_msg m s
after_event clb_error m s = put_msg m s

unfoldable pub after_cmd : ClbRet → ℕ → ℕ → Client → Client
after_cmd take_ownership m seq s = record s { taken = m ∷ s.taken }
after_cmd clb_success m seq s = put_msg m s
after_cmd clb_error m seq s = put_msg m (record s { req_failed = seq ∷ s.req_failed })

-- The case WAVE_IPC_MSG_CMD of both listeners.
unfoldable pub dispatch_cmd : Callbacks → ℕ → ℕ → Client → Client
dispatch_cmd c m seq s = elim c.cmd_clb [
  | none ↦ put_msg m s
  | some clb ↦ after_cmd (clb m) m seq s
]

-- The case WAVE_IPC_MSG_EVENT of `ipcc_listener`.
unfoldable pub dispatch_event : Callbacks → ℕ → Client → Client
dispatch_event c m s = elim c.exec_async [
  | none ↦ after_event (c.event_clb m) m s
  | some exec ↦ if exec m then record s { works = s.works ++ m ∷ [] } else put_msg m s
]

-- The `switch` of `ipcc_listener`.
unfoldable pub dispatch : Callbacks → ℕ → Header → Client → Client
dispatch c m h s =
    if h.kind == msg_event
    then dispatch_event c m s
    else if h.kind == msg_req_fail || h.kind == msg_resp
    then (handle_response m h s).1
    else if h.kind == msg_cmd
    then dispatch_cmd c m h.seq_num s
    else put_msg m s

-- The `switch` of `wave_ipcc_blocked_event_listener`, which has no thread for events and gives up responses.
unfoldable pub blocked_dispatch : Callbacks → ℕ → Header → Client → Client
blocked_dispatch c m h s =
    if h.kind == msg_event
    then after_event (c.event_clb m) m s
    else if h.kind == msg_cmd
    then dispatch_cmd c m h.seq_num s
    else put_msg m s

-- A turn of a listener with a message that has arrived, or that was queued before.
unfoldable pub turn : (ℕ → Header → Client → Client) → Packet → Client → Client
turn switch p s = elim p.header [ none ↦ put_msg p.msg s | some h ↦ switch p.msg h s ]

-- The start of both loops: a queued message is taken first; else `arrived` is what `ipcc_wait_for_message` gives, `none` for
-- WAVE_IPC_ERROR, which ends the loop.
unfoldable pub listen : (ℕ → Header → Client → Client) → Option Packet → Client → Option Client
listen switch arrived s = elim s.queued_msgs [
  | [] ↦ elim arrived [ none ↦ none | some p ↦ some (turn switch p s) ]
  | p ∷ ps ↦ some (turn switch p (record s { queued_msgs = ps }))
]

-- `_serialized_event_work` and `_serialized_event_work_free` on the first work of the thread for events: the callback is called, whatever it
-- returns the message is given back.
unfoldable pub serialized_event : Client → Client
serialized_event s = elim s.works [ [] ↦ s | m ∷ ms ↦ put_msg m (record s { works = ms }) ]

-- The loop of `wave_ipcc_disconnect` over the queued messages: those that it gives back, the latest first.
unfoldable pub put_all : List Packet → List ℕ
put_all [] = []
put_all (p ∷ ps) = put_all ps ++ p.msg ∷ []

-- `wave_ipcc_disconnect`, before it frees the client.
unfoldable pub disconnect : Client → Client
disconnect s = record s { queued_msgs = []; put_msgs = put_all s.queued_msgs ++ s.put_msgs }

-- A client that `wave_ipcc_connect` has made.
abbrev pub new_client : Client
new_client = record {
  queued_msgs = [];
  resp_list = [];
  works = [];
  put_msgs = [];
  taken = [];
  req_failed = [];
}

-- `serializer_destroy` of the thread for events gives the works that are left to `_serialized_event_work_free`.
unfoldable pub put_works : List ℕ → List ℕ
put_works [] = []
put_works (m ∷ ms) = put_works ms ++ m ∷ []

-- What the entries hold whose list `list_free` frees.
unfoldable pub in_entries : List CmdResponse → List ℕ
in_entries [] = []
in_entries (cs ∷ l) = cs.response ++ in_entries l

-- `wave_ipcc_stop_listener`, after `pthread_join`: the messages that are lost with the entries, and the client.
unfoldable pub stop_listener : Client → List ℕ × Client
stop_listener s = (
  in_entries s.resp_list,
  record s { works = []; resp_list = []; put_msgs = put_works s.works ++ s.put_msgs },
)
