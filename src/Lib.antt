-- ===== src/Lib.antt =====
-- A model of the inter-process communication of dwpal and of the daemon's interfaces, and what is shown of it.
--
-- The daemon and its clients exchange messages over a socket. Six parts of wv_ipc carry this, each in C and
-- each a module here; three parts of the daemon stand above them:
--   Ipc (wv_ipc/wave_ipc_core.c, wave_ipc_core.h, wave_ipc.h): messages. `Ipc.Message` has the data of a
--     message: `fill_data` is wave_ipc_msg_fill_data, and likewise `append_data`, `reserve_data`,
--     `shrink_data`, `get_data` and `get_size`; `reset` is what wave_ipc_msg_alloc does to an object.
--     `Ipc.Header` has the stack of headers, wave_ipc_msg_push_hdr and wave_ipc_msg_pop_hdr, with the
--     typed header of wave_ipc_core.h in `Ipc.Header.Typed`. `Ipc.Multi` has the rings of messages that
--     answer one request: wave_ipc_multi_msg_append, wave_ipc_multi_msg_get_next, wave_ipc_msg_put.
--     `Ipc.Socket` has wave_ipc_send_msg and wave_ipc_recv_msg.
--   Serializer (wv_ipc/work_serializer.c): works that callers queue and one thread executes.
--     `Serializer.Caller` has serializer_exec_work, serializer_exec_work_async and
--     serializer_add_delayed_work, cut where the code takes or gives up its lock: `exec_work` up to the
--     loop, `try_queue` for one attempt, `exec_return` after the wait. `Serializer.Worker` has
--     serializer_work_thread: `round` is one turn of its inner loop, `call_work` the calls without the
--     lock, `finish` the rest. `Serializer.Cancel` has serializer_cancel_delayed_work,
--     serializer_stop_all_by_ctx and serializer_destroy. The state is `Serializer`: the two lists of works as
--     lists of addresses, and the memory of the works, so that a use after a free is a fault.
--   ObjPool (wv_ipc/obj_pool.c): pools of objects, on the memory of the process. Messages and list nodes
--     come from pools.
--   LinkedList (wv_ipc/linked_list.c, linked_list.h): lists whose nodes come from a pool. The list knows its
--     pool through the interface `LinkedList.Allocator`; `ObjPool.Allocator` fills it with the pool. The
--     loops that the macros list_foreach_start and list_foreach_end make are recursive functions.
--   Server (wv_ipc/wave_ipc_server.c): the daemon's side of the sockets. `Server.Stations` has the array of
--     stations: `accept_new_client`, `disconnect` (the end of wave_ipcs_handle_station_msg), `resend_place` (the
--     body of the resending loop of wave_ipcs_run), `sta_incref` and `sta_decref`. The module `Server` has one
--     station: `send` is wave_ipcs_send_to and wave_ipcs_send_reply, `resend_pending` is
--     wave_ipcs_sta_resend_pending. `Server.Responses` has the commands of the daemon and what answers
--     them: `begin_cmd` and `end_cmd` are the two ends of _wave_ipcs_send_cmd_to, `handle_response` is
--     wave_ipcs_handle_response_from_client.
--   Client (wv_ipc/wave_ipc_client.c): the clients' side. `Client.Connection` has the socket with its pipe,
--     wave_ipcc_connect and ipcc_wait_for_message (`wait_for_message`, with `wait_turn` for a turn of its loop).
--     The module `Client` has what a client does with a message: `handle_response` is
--     ipcc_handle_response_from_listener_ctx, `listen` with `dispatch` or `blocked_dispatch` is a turn of
--     ipcc_listener or of wave_ipcc_blocked_event_listener, `serialized_event` is a work of the thread for
--     events. `Client.Commands` has wave_ipcc_send_cmd_listener, cut at its wait into `begin_cmd` and
--     `end_cmd`, and the loop of wave_ipcc_send_cmd_no_listener, `cmd_loop`. `Client.Resources` has what
--     wave_ipcc_start_listener and wave_ipcc_stop_listener acquire and release.
--   Hostap (daemon/dwpald_hostap_parse.c): hexadecimal text (`str_to_hex`, `hex_to_str` for
--     dwpald_str_to_hex and dwpald_hex_to_str) and, in `Hostap.Command`, the building of commands
--     for hostapd: `cmd_build` and `cmd_format`, with the numbers that sprintf_s prints.
--   HostapIface (daemon/hostap_iface.c): which stations hear which events of an interface of hostapd:
--     `register_sta_to_event`, `register_sta_to_events`, `unregister_sta_from_events` and `send_event` for
--     the functions of these names that begin with hostap_ in C.
--   IfaceManager (daemon/iface_manager.c): the works that attach clients to interfaces and detach them, all
--     executed by one serializer. `IfaceManager.Works` has the works, named as in C; `IfaceManager.Requests` the
--     functions that queue them; `IfaceManager.Start` the start and the end. A driver is known through the
--     interface `ManagerApis`, the struct of functions of the code; `IfaceManager.Hostap` fills it with
--     HostapIface, and `EventLaws` is what the manager's theorems ask of a driver.
-- `Common` has the helpers: arrays of bytes over the native numbers, memcpy_s, and stores by address.
--
-- Threads: each function is cut into steps at the points where the code holds its lock without a break, and
-- the steps of all threads follow one another in any order (`Serializer.Ownership.Steps`). The steps of the
-- server are in `Server.Stations.Steps`. The lists of the serializer and of the server are lists of addresses or
-- messages; the list in memory is modelled in LinkedList. The works of the manager run one at a time
-- (`IfaceManager.Steps`); the listener of a client, its thread for
-- events and the callers of commands take turns in any order (`Client.Runs`).
--
-- Numbers: lengths and sizes are natural numbers, with the wrap-around of the types of C written out
-- where the code can reach it: uint16_t for the length of the data, size_t for sums, uint8_t for the
-- index of wave_ipc_msg_pop_hdr and for sequence numbers, unsigned int for seconds. A time has seconds of
-- 64 bits that do not wrap. The counters of waiting messages and of references are int in C; they are taken
-- to stay below its limit.
--
-- Fuel: the loops over the array of headers get 33 rounds, and each round goes on by at least two bytes of 32,
-- so that this is enough; `pop_scan` is the exception that `Ipc.Header.Loops` is about. Loops over a list
-- get one round more than the list has nodes, which the theorems take as a condition. Other loops are
-- recursive on the list; the loops of a client that wait are recursive on what comes. `register_loop` of HostapIface gets one turn
-- more than the message has bytes, and each turn takes a byte at least.
--
-- memcpy_s is a function of the C library's Annex K: where its arguments violate a constraint it writes
-- zeros. sprintf_s and strnlen_s are of the same annex; what sprintf_s returns where the text does not fit
-- is a parameter, a number below zero where a theorem needs it. The names of interfaces have at most 16
-- characters. malloc and the conditions of pthread are parameters: which calls of malloc succeed, which address
-- they give, and when a wait ends. So are the results of send and recv; recv stores at most the bytes that
-- it is asked for.
--
-- Not modelled: the calls of the system (send, recv, select, accept, connect), whose results are arguments, and a call
-- of send that sends only some of the bytes; lists whose nodes cannot be had, where a comment does not say otherwise;
-- of the client, emulated events and the sending of responses; of the server, the dispatch of messages by their
-- type; of the daemon, the parsing of responses (the rest of dwpald_hostap_parse.c), hostap_execute_command,
-- the layout of the message of an event, the bridges of the system, results of a driver's send_event other than 0,
-- dwpal_daemon.c, nl_iface.c and the library of its clients, dwpald_client.c; the parsers of hostapd's text in
-- dwpal.c and the event interface dwpal_ext.c; the command line and the statistics, which read and print;
-- wpa_ctrl.c and os_unix.c, copies of another project's files; logging. The checks for a NULL list, pool or
-- message at the start of functions are left out where they return at once.
pub mod Common
pub mod Ipc
pub mod Serializer
pub mod ObjPool
pub mod LinkedList
pub mod Server
pub mod Hostap
pub mod HostapIface
pub mod IfaceManager
pub mod Client
