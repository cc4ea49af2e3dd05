-- ===== src/Client/Tests.antt =====
-- wv_ipc/wave_ipc_client.c on small inputs.
use dwpal.Common.{◌≢◌, ◌⊎◌, ℕ, ◌≡◌, refl, true, false, List, [], ◌∷◌, ◌++◌, some, ◌+◌}
use dwpal.Ipc.Message.{success, error}
use dwpal.Client.{
  msg_resp, msg_event, Header, Packet, Client, Callbacks, clb_success, clb_error, dispatch, turn,
}
use dwpal.Client.Commands.{
  begin_cmd, Ended, Input, interrupted, received, cmd_loop, cmd_message, cmd_turn, other_message,
}
use dwpal.Client.Resources.{IsClean, start_listener, lone, start_listener-IsClean}
use dwpal.Client.Runs.{arrives}
use dwpal.Client.Collect.{Open, nothing, signal, part, late, stray, Collects, cmd_loop-Collects}
use dwpal.Client.Connection.{
  disconnect_called, reconnect_called, Connection, System, socket_deinit, make_socket, make_pipe,
  socket_init, Attempt, connects, unavailable, connection_attempt, first_attempt, connect, Select,
  quiet, arrives, broken, Wait, reconnect, lose_connection, await, wait_turn, wait_for_message,
}
use dwpal.Client.Descriptors.{Closes}
use dwpal.Client.Waiting.{wait_for_message-Closes}
use dwpal.Client.Told.{IsTold, Answers, wait_for_message-Answers}

abbrev idle : Client
idle = record {
  queued_msgs = [];
  resp_list = [];
  works = [];
  put_msgs = [];
  taken = [];
  req_failed = [];
}

abbrev header : ℕ → ℕ → ℕ → Header
header kind seq more = record { kind = kind; seq_num = seq; more = more }

abbrev packet : ℕ → Header → Packet
packet m h = record { msg = m; header = some h }

-- Events go to a thread of their own, commands are refused.
abbrev callbacks : Callbacks
callbacks = record {
  event_clb = λ _. clb_success;
  cmd_clb = some (λ _. clb_error);
  exec_async = some (λ _. true);
}

-- The command 7 has its entry at the address 1; its two responses and an event arrive.
abbrev asked : Client
asked = begin_cmd 1 7 idle

abbrev got_part : Client
got_part = turn (dispatch callbacks) (packet 20 (header msg_resp 7 1)) asked

abbrev got_event : Client
got_event = turn (dispatch callbacks) (packet 21 (header msg_event 0 0)) got_part

abbrev got_all : Client
got_all = turn (dispatch callbacks) (packet 22 (header msg_resp 7 0)) got_event

abbrev listener_gives : Ended
listener_gives = record {
  result = success;
  reply = 20 ∷ 22 ∷ [];
  lost = [];
  after = record idle { works = 21 ∷ [] };
}

-- Then the listener's thread sends the command 8 from a callback; an event comes before the response and is queued.
abbrev own_waits : Client
own_waits = record listener_gives.after { queued_msgs = packet 25 (header msg_event 0 0) ∷ [] }

abbrev own_gives : Ended
own_gives = record { result = success; reply = 26 ∷ []; lost = []; after = own_waits }

abbrev got_queued : Client
got_queued =
    turn (dispatch callbacks) (packet 25 (header msg_event 0 0))
      (record own_waits { queued_msgs = [] })

-- The same without a listener, with a response to another command.
abbrev script : List Input
script =
    received (packet 20 (header msg_resp 7 1))
    ∷ interrupted
    ∷ received (packet 21 (header msg_event 0 0))
    ∷ received (packet 23 (header msg_resp 6 0))
    ∷ []

script-Open : Open 7 script (20 ∷ []) (packet 21 (header msg_event 0 0) ∷ [])
script-Open = part 20 (header msg_resp 7 1) refl refl refl (
    signal (late 21 (header msg_event 0 0) refl (stray 23 (header msg_resp 6 0) refl refl nothing)))

cmd_loop-Collects_example :
    Collects 7 false script
      (interrupted ∷ [])
      (20 ∷ [])
      (packet 21 (header msg_event 0 0) ∷ [])
      (packet 22 (header msg_resp 7 0))
      []
      idle
cmd_loop-Collects_example =
    cmd_loop-Collects 7 false script (interrupted ∷ []) (20 ∷ [])
      (packet 21 (header msg_event 0 0) ∷ []) 22 (header msg_resp 7 0) [] idle script-Open refl refl
      refl

abbrev loop_gives : Ended
loop_gives = record {
  result = success;
  reply = 20 ∷ 22 ∷ [];
  lost = [];
  after = record idle { queued_msgs = packet 21 (header msg_event 0 0) ∷ []; put_msgs = 23 ∷ [] };
}

loop_answers :
    cmd_loop 7 false
      (script ++ received (packet 22 (header msg_resp 7 0)) ∷ interrupted ∷ [])
      []
      idle
    ≡ some (loop_gives, interrupted ∷ [])
unfolding cmd_loop cmd_turn cmd_message other_message
loop_answers = refl

-- The daemon is not there at first, comes, goes, and comes again; then a message arrives.
abbrev works_with : ℕ → System
works_with n = record {
  close_ok = true;
  unlink_ok = true;
  new_pipe = some (n, n + 1);
  nonblock_ok = true;
  new_socket = some (n + 2);
  cloexec_ok = true;
  bind_ok = true;
}

abbrev wait : Attempt → Select → Wait
wait attempt select = record { is_over = false; attempt = attempt; select = select }

abbrev waits : List Wait
waits =
    wait unavailable quiet
    ∷ wait connects quiet
    ∷ wait connects quiet
    ∷ wait connects (broken (works_with 6))
    ∷ wait connects quiet
    ∷ wait connects arrives
    ∷ []

abbrev attached : Connection
attached = record {
  socket = some 8;
  pipe_read = some 6;
  pipe_write = some 7;
  is_connected = true;
  is_after_reconnect = true;
  opened = 8 ∷ 6 ∷ 7 ∷ 5 ∷ 3 ∷ 4 ∷ [];
  closed = 5 ∷ 4 ∷ 3 ∷ [];
  calls = reconnect_called ∷ disconnect_called ∷ reconnect_called ∷ [];
}

waits_for_message :
    wait_for_message true true waits (connect (works_with 3) (works_with 9) unavailable).1
    ≡ some (success, attached)
unfolding wait_for_message wait_turn await lose_connection reconnect connection_attempt connect
    first_attempt socket_init socket_deinit make_pipe make_socket
waits_for_message = refl

wait_for_message-Closes_example :
    Closes (socket_deinit (works_with 9) attached).1
    × (((connect (works_with 3) (works_with 9) unavailable).0 ≢ error)
        ⊎ Closes (connect (works_with 3) (works_with 9) unavailable).1)
wait_for_message-Closes_example =
    wait_for_message-Closes (works_with 3) (works_with 9) (works_with 9) unavailable true true waits
      success attached waits_for_message

starts-IsTold : IsTold false (connect (works_with 3) (works_with 9) unavailable).1
unfolding connection_attempt connect first_attempt socket_init socket_deinit make_pipe make_socket
starts-IsTold = (refl, refl)

wait_for_message-Answers_example : Answers false success attached
wait_for_message-Answers_example =
    wait_for_message-Answers false waits (connect (works_with 3) (works_with 9) unavailable).1
      success attached waits_for_message starts-IsTold

start_listener-IsClean_example : IsClean (lone [] false) (
    start_listener
      (record { memory_ok = true; serializer_ok = true; list_ok = true; thread_ok = true })
      true
      (lone [] false))
start_listener-IsClean_example =
    start_listener-IsClean [] false
      (record { memory_ok = true; serializer_ok = true; list_ok = true; thread_ok = true }) true
