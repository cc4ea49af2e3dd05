-- ===== src/Server.antt =====
-- wv_ipc/wave_ipc_server.c: the stations of the daemon and their queues. A message is named by its bytes; a
-- station also records what was sent to it, in order.
pub mod Queue
pub mod Pending
pub mod History
pub mod Stations
pub mod Responses
pub mod Tests
use dwpal.Common.{
  ℕ, ◌+◌, ◌-◌, Bool, true, false, not, ◌&&◌, ◌||◌, List, [], ◌∷◌, ◌++◌, Option, none, some,
  if◌then◌else◌, leb, ◌==◌, length,
}
use dwpal.Ipc.Message.{Ret, success, disconnected, error, would_block}

-- The two queues: `pending_replies` and `pending_msgs`.
pub data Kind : Type 0 where
  reply event : Kind

abbrev pub is_same_kind : Kind → Kind → Bool
is_same_kind reply reply = true
is_same_kind event event = true
is_same_kind _ _ = false

-- MAX_NUM_PENDING_IPC_MSGS, STA_MAX_NUM_PENDING_ON_SERV_LIMIT and the attempts after which a client is
-- removed
abbrev pub max_pending : ℕ
max_pending = 1000

abbrev pub sta_limit : ℕ
sta_limit = 200

abbrev pub max_attempts : ℕ
max_attempts = 10

-- `struct _wv_ipstation`; `has_socket` says that `socket` is not -1.
pub record Station : Type 0 where
  pub refcnt : ℕ
  pub has_socket : Bool
  pub is_connected : Bool
  pub has_pending_msgs : Bool
  pub resend_attempts : ℕ
  pub pending_msgs : List ℕ
  pub pending_replies : List ℕ
  pub sent : List (Kind × ℕ)

abbrev pub is_success : Ret → Bool
is_success success = true
is_success _ = false

abbrev pub is_would_block : Ret → Bool
is_would_block would_block = true
is_would_block _ = false

-- `list_push_back` to one of the queues; without a node the list stays as it is.
unfoldable pub enqueue : Kind → ℕ → Bool → Station → Station
enqueue k m false st = st
enqueue reply m true st = record st { pending_replies = st.pending_replies ++ m ∷ [] }
enqueue event m true st = record st { pending_msgs = st.pending_msgs ++ m ∷ [] }

-- `wave_ipcs_send_would_block` with `station_has_pending_msgs` before and after: `dup_ok` says that
-- `wave_ipc_msg_dup` gave a copy, `node_ok` that the list gets a node, whose want the code does not look at.
unfoldable pub send_would_block : Bool → Bool → ℕ → Station → Kind → ℕ → Ret × Station × ℕ
unfolding enqueue
send_would_block dup_ok node_ok pending st k m =
    if not dup_ok
    then (error, st, pending)
    else if not st.is_connected
    then (disconnected, st, pending)
    else if leb max_pending pending
        && leb sta_limit (length st.pending_msgs + length st.pending_replies)
    then (error, st, pending)
    else (success, record (enqueue k m node_ok st) { has_pending_msgs = true }, pending + 1)

-- `wave_ipcs_send_reply` for replies and `wave_ipcs_send_to` for events, where `net` is what
-- `wave_ipc_send_msg` returns if it is called.
unfoldable pub send : Ret → Bool → Bool → ℕ → Station → Kind → ℕ → Ret × Station × ℕ
unfolding send_would_block
send net dup_ok node_ok pending st k m =
    if not st.has_socket
    then (error, st, pending)
    else if st.has_pending_msgs || is_would_block net
    then send_would_block dup_ok node_ok pending st k m
    else if is_success net
    then (net, record st { sent = st.sent ++ (k, m) ∷ [] }, pending)
    else (net, st, pending)

-- The variables of `wave_ipcs_sta_resend_pending`; `tries` counts the calls of `wave_ipc_send_msg`.
pub record Resend : Type 0 where
  pub ret : Ret
  pub failed_on_first : Bool
  pub tries : ℕ
  pub attempts : ℕ
  pub pending : ℕ
  pub out : List (Kind × ℕ)

-- One pass of its loop, over one queue; with the messages that stay. `net` gives the result of each call.
unfoldable pub resend_list : (ℕ → Ret) → Kind → List ℕ → Resend → Resend × List ℕ
resend_list net k [] r = (r, [])
resend_list net k (m ∷ ms) r = elim (is_success (net r.tries)) [
  | true ↦ resend_list net k ms (record {
    ret = success;
    failed_on_first = false;
    tries = r.tries + 1;
    attempts = 0;
    pending = r.pending - 1;
    out = r.out ++ (k, m) ∷ [];
  })
  | false ↦ (
    record r {
      ret = net r.tries;
      tries = r.tries + 1;
      attempts = if r.failed_on_first then r.attempts + 1 else r.attempts;
    },
    m ∷ ms,
  )
]

-- Both passes: the second is made if the first has sent all replies.
unfoldable pub resend_both : (ℕ → Ret) → ℕ → Station → Resend × List ℕ × List ℕ
unfolding resend_list
resend_both net pending st =
    let (r, replies) = resend_list net reply st.pending_replies (record {
      ret = success;
      failed_on_first = true;
      tries = 0;
      attempts = st.resend_attempts;
      pending = pending;
      out = st.sent;
    }) in
    let (r', msgs) = resend_list net event st.pending_msgs r in
    if is_success r.ret then (r', replies, msgs) else (r, replies, st.pending_msgs)

-- `wave_ipcs_sta_resend_pending`
unfoldable pub resend_pending : (ℕ → Ret) → ℕ → Station → Station × ℕ
unfolding resend_both
resend_pending net pending st =
    let (r, replies, msgs) = resend_both net pending st in
    (
      record st {
        has_pending_msgs = not (length replies == 0) || not (length msgs == 0);
        resend_attempts = r.attempts;
        pending_msgs = msgs;
        pending_replies = replies;
        sent = r.out;
      },
      r.pending,
    )
