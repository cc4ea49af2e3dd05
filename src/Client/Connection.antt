-- ===== src/Client/Connection.antt =====
-- wv_ipc/wave_ipc_client.c: the socket of a client and its pipe, connecting, and waiting for a message. What the system
-- returns is an argument. A descriptor is closed by `close` whatever it returns, as Linux does; the callbacks are taken
-- to leave the client alone.
use dwpal.Common.{
  ℕ, Bool, true, false, not, ◌&&◌, ◌||◌, List, [], ◌∷◌, Option, none, some, if◌then◌else◌,
}
use dwpal.Ipc.Message.{Ret, success, disconnected, error}

-- Which callback was called.
pub data Call : Type 0 where
  disconnect_called reconnect_called : Call

-- The descriptors of `struct _wv_ipclient`, `none` for -1, and its two flags; with the descriptors that the
-- client has opened and those that it has closed, and the callbacks that were called, the latest first.
pub record Connection : Type 0 where
  pub socket : Option ℕ
  pub pipe_read : Option ℕ
  pub pipe_write : Option ℕ
  pub is_connected : Bool
  pub is_after_reconnect : Bool
  pub opened : List ℕ
  pub closed : List ℕ
  pub calls : List Call

-- What the system returns while a socket is made: `close` and `unlink` without error (ENOENT counts as none), `pipe`, both `fcntl`,
-- `socket` and `bind`.
pub record System : Type 0 where
  pub close_ok : Bool
  pub unlink_ok : Bool
  pub new_pipe : Option (ℕ × ℕ)
  pub nonblock_ok : Bool
  pub new_socket : Option ℕ
  pub cloexec_ok : Bool
  pub bind_ok : Bool

-- `if (fd != -1) close(fd);`
abbrev pub close_fd : Option ℕ → List ℕ → List ℕ
close_fd none closed = closed
close_fd (some fd) closed = fd ∷ closed

abbrev pub is_open : Option ℕ → Bool
is_open none = false
is_open (some fd) = true

-- `wave_ipcc_socket_deinit`; true for WAVE_IPC_SUCCESS.
unfoldable pub socket_deinit : System → Connection → Bool × Connection
socket_deinit sys c = (
  (not (is_open c.socket) || sys.close_ok) && sys.unlink_ok,
  record c {
    socket = none;
    pipe_read = none;
    pipe_write = none;
    closed = close_fd c.socket (close_fd c.pipe_write (close_fd c.pipe_read c.closed));
  },
)

-- The label `failure` of `wave_ipcc_socket_init`.
unfoldable pub failure : Connection → Bool × Connection
failure c = (
  false,
  record c {
    socket = none;
    pipe_read = none;
    pipe_write = none;
    closed = close_fd c.pipe_write (close_fd c.pipe_read (close_fd c.socket c.closed));
  },
)

-- From the call of `socket` on.
unfoldable pub make_socket : System → Connection → Bool × Connection
make_socket sys c = elim sys.new_socket [
  | none ↦ failure (record c { socket = none })
  | some fd ↦
      let c' : Connection = record c { socket = some fd; opened = fd ∷ c.opened } in
      if not sys.cloexec_ok then failure c' else if not sys.bind_ok then failure c' else (true, c')
]

-- From the call of `pipe` on.
unfoldable pub make_pipe : System → Connection → Bool × Connection
make_pipe sys c = elim sys.new_pipe [
  | none ↦ failure c
  | some fds ↦
      let c' : Connection = record c {
        pipe_read = some fds.0;
        pipe_write = some fds.1;
        opened = fds.0 ∷ fds.1 ∷ c.opened;
      } in
      if not sys.nonblock_ok then failure c' else make_socket sys c'
]

-- `wave_ipcc_socket_init`; true for WAVE_IPC_SUCCESS.
unfoldable pub socket_init : System → Connection → Bool × Connection
socket_init sys c =
    let r = socket_deinit sys c in if not r.0 then (false, r.1) else make_pipe sys r.1

-- How `connect` ends: with 0, with ENOENT or ECONNREFUSED, or with another error.
pub data Attempt : Type 0 where
  connects unavailable refused : Attempt

-- `wave_ipcc_connection_attempt`: what it returns, and what it does.
unfoldable pub attempt_ret : Attempt → Ret
attempt_ret connects = success
attempt_ret unavailable = disconnected
attempt_ret refused = error

unfoldable pub connection_attempt : Attempt → Connection → Connection
connection_attempt connects c = record c { is_connected = true }
connection_attempt unavailable c = c
connection_attempt refused c = c

-- A client after `memset` and the assignments of -1 in `wave_ipcc_connect`.
abbrev pub fresh : Connection
fresh = record {
  socket = none;
  pipe_read = none;
  pipe_write = none;
  is_connected = false;
  is_after_reconnect = false;
  opened = [];
  closed = [];
  calls = [];
}

-- The attempt of `wave_ipcc_connect`; `freeing` is what `wave_ipcc_socket_deinit` meets.
unfoldable pub first_attempt : System → Attempt → Connection → Ret × Connection
first_attempt freeing connects c =
    (success, record (connection_attempt connects c) { is_after_reconnect = true })
first_attempt freeing unavailable c = (disconnected, connection_attempt unavailable c)
first_attempt freeing refused c = (error, (socket_deinit freeing (connection_attempt refused c)).1)

-- `wave_ipcc_connect`, once there is memory: what it returns, and the client, which is freed on WAVE_IPC_ERROR.
unfoldable pub connect : System → System → Attempt → Ret × Connection
connect sys freeing attempt =
    let r = socket_init sys fresh in
    if not r.0 then (error, r.1) else first_attempt freeing attempt r.1

-- What `select` and what follows it give: an error, nothing, a message, a failure of `wave_ipc_recv_msg` with what the system then
-- returns, or the pipe, with whether a listener is there that is not to end.
pub data Select : Type 0 where
  interrupted failed quiet arrives : Select
  broken : System → Select
  signalled : Bool → Select

-- What a turn of the loop of `ipcc_wait_for_message` meets: whether its condition fails, the result of `connect`, and that of `select`.
pub record Wait : Type 0 where
  pub is_over : Bool
  pub attempt : Attempt
  pub select : Select

pub data WaitTurn : Type 0 where
  goes_on : Connection → WaitTurn
  returns : Ret → Connection → WaitTurn

-- The branch without a connection.
unfoldable pub reconnect : (has_reconnect_clb : Bool) → Attempt → Connection → WaitTurn
reconnect has_clb connects c =
    let c' = connection_attempt connects c in
    goes_on (record c' {
      is_after_reconnect = true;
      calls = if has_clb then reconnect_called ∷ c'.calls else c'.calls;
    })
reconnect has_clb unavailable c = goes_on (connection_attempt unavailable c)
reconnect has_clb refused c = returns error (connection_attempt refused c)

-- What follows a failure of `wave_ipc_recv_msg`.
unfoldable pub lose_connection : (has_disconnect_clb : Bool) → System → Connection → WaitTurn
lose_connection has_clb sys c =
    let r = socket_init sys (record c { is_connected = false; is_after_reconnect = false }) in
    let r' : Connection = r.1 in
    if not r.0
    then returns error r'
    else goes_on (record r' { calls = if has_clb then disconnect_called ∷ r'.calls else r'.calls })

-- The branch with a connection.
unfoldable pub await : (has_disconnect_clb : Bool) → Select → Connection → WaitTurn
await has_clb interrupted c = goes_on c
await has_clb failed c = returns error c
await has_clb quiet c = goes_on c
await has_clb arrives c = returns success c
await has_clb (broken sys) c = lose_connection has_clb sys c
await has_clb (signalled listens) c = if listens then goes_on c else returns error c

unfoldable pub wait_turn :
    (has_disconnect_clb has_reconnect_clb : Bool) → Wait → Connection → WaitTurn
wait_turn has_disconnect_clb has_reconnect_clb w c =
    if w.is_over
    then returns error c
    else if not c.is_connected
    then reconnect has_reconnect_clb w.attempt c
    else await has_disconnect_clb w.select c

-- `ipcc_wait_for_message` over what its turns meet, `none` where it still waits.
unfoldable pub wait_for_message :
    (has_disconnect_clb has_reconnect_clb : Bool)
    → List Wait
    → Connection
    → Option (Ret × Connection)
wait_for_message has_disconnect_clb has_reconnect_clb [] c = none
wait_for_message has_disconnect_clb has_reconnect_clb (w ∷ ws) c =
    elim (wait_turn has_disconnect_clb has_reconnect_clb w c) [
      | goes_on c' ↦ wait_for_message has_disconnect_clb has_reconnect_clb ws c'
      | returns ret c' ↦ some (ret, c')
    ]
