-- ===== src/Server/Stations.antt =====
-- wv_ipc/wave_ipc_server.c: the array of stations, whose places are taken and given up, and the references
-- that keep a station's memory.
pub mod Total
pub mod Counter
pub mod Removal
pub mod Holders
pub mod Kept
pub mod Sound
pub mod Steps
use dwpal.Common.{
  ℕ, ◌+◌, ◌-◌, Bool, true, false, not, ◌||◌, List, [], ◌∷◌, Option, none, some, if◌then◌else◌, leb,
  ◌==◌, length, null, update, set, get_or, count, replicate,
}
use dwpal.Ipc.Message.{Ret, success, error, disconnected}
use dwpal.Server.{Kind, Station, max_attempts, send, resend_pending}

-- IPC_CLIENT_ARR_SIZE
abbrev pub client_arr_size : ℕ
client_arr_size = 36

-- `struct _wv_ipserver`: `stations` holds addresses, with 0 for NULL; `memory` has the station at an address,
-- `none` where none is allocated. `fault` says that memory without a station was used.
pub record Server : Type 0 where
  pub stations : List ℕ
  pub memory : ℕ → Option Station
  pub station_has_pending_msgs : ℕ
  pub fault : Bool

-- `wave_ipcs_sta_incref`
unfoldable pub sta_incref : ℕ → Server → Server
sta_incref p s = elim (s.memory p) [
  | none ↦ record s { fault = true }
  | some st ↦ record s { memory = update s.memory p (some (record st { refcnt = st.refcnt + 1 })) }
]

-- `wave_ipcs_sta_decref`, which frees the station and its queues with the last reference. The counter is
-- an `int`; a call with no reference left is not modelled.
unfoldable pub sta_decref : ℕ → Server → Server
sta_decref p s = elim (s.memory p) [
  | none ↦ record s { fault = true }
  | some st ↦
      if st.refcnt == 1
      then record s { memory = update s.memory p none }
      else record s { memory = update s.memory p (some (record st { refcnt = st.refcnt - 1 })) }
]

-- The station that `wave_ipcs_accept_new_client` sets up, before it has a place.
abbrev pub new_station : Station
new_station = record {
  refcnt = 0;
  has_socket = true;
  is_connected = true;
  has_pending_msgs = false;
  resend_attempts = 0;
  pending_msgs = [];
  pending_replies = [];
  sent = [];
}

-- The search for the first free place, with the array in which it is taken; `none` if there is none.
unfoldable pub take_place : ℕ → List ℕ → Option (List ℕ)
take_place p [] = none
take_place p (q ∷ qs) =
    let rest = take_place p qs in
    if q == null then some (p ∷ qs) else elim rest [ none ↦ none | some l ↦ some (q ∷ l) ]

-- `wave_ipcs_accept_new_client`: `ptr` is what `malloc` returned, `sock_ok` and `lists_ok` say that `accept`
-- and both calls of `list_init` succeeded. `num_stas` is never counted, so its test never holds.
unfoldable pub accept_new_client : Option ℕ → Bool → Bool → Server → Ret × Server
unfolding take_place sta_incref
accept_new_client ptr sock_ok lists_ok s = elim ptr [
  | none ↦ (error, s)
  | some p ↦ if not sock_ok || not lists_ok then (error, s) else elim (take_place p s.stations) [
    | none ↦ (error, s)
    | some places ↦ (
      success,
      sta_incref p (record s { stations = places; memory = update s.memory p (some new_station) }),
    )
  ]
]

-- A station leaves its place: the end of `wave_ipcs_handle_station_msg` and that of a client that is stuck.
unfoldable pub remove_station : ℕ → ℕ → Station → Server → Server
unfolding sta_decref
remove_station i p st s =
    let s' = sta_decref p (record s {
      station_has_pending_msgs =
          s.station_has_pending_msgs - (length st.pending_msgs + length st.pending_replies);
      memory = update s.memory p (some (record st { is_connected = false }));
    }) in
    record s' { stations = set s'.stations i null }

-- The disconnection of the station in place `i`, when its messages cannot be received or handled.
unfoldable pub disconnect : ℕ → Server → Server
unfolding remove_station
disconnect i s =
    let p = get_or s.stations i null in
    if p == null
    then s
    else elim (s.memory p) [ none ↦ record s { fault = true } | some st ↦ remove_station i p st s ]

-- A call of `wave_ipcs_send_reply` or `wave_ipcs_send_to` for the station at an address, whose queue gets a
-- node if it needs one.
unfoldable pub send_to : Ret → Bool → Kind → ℕ → ℕ → Server → Ret × Server
unfolding send
send_to net dup_ok k m p s = elim (s.memory p) [
  | none ↦ (error, record s { fault = true })
  | some st ↦
      let (r, st', pending) = send net dup_ok true s.station_has_pending_msgs st k m in
      (r, record s { memory = update s.memory p (some st'); station_has_pending_msgs = pending })
]

-- The state after a station in place `i` has been resent its messages; it is removed if it is stuck.
unfoldable pub resent : ℕ → ℕ → Station → Server → Server
unfolding remove_station
resent i p st s =
    let s' = record s { memory = update s.memory p (some st) } in
    if leb max_attempts st.resend_attempts then remove_station i p st s' else s'

-- The body of the resending loop of `wave_ipcs_run` for the place `i`.
unfoldable pub resend_place : (ℕ → Ret) → ℕ → Server → Server
unfolding resent resend_pending
resend_place net i s =
    let p = get_or s.stations i null in
    if p == null then s else elim (s.memory p) [
      | none ↦ record s { fault = true }
      | some st ↦
          if not st.has_pending_msgs
          then s
          else let (st', pending) = resend_pending net s.station_has_pending_msgs st in
            resent i p st' (record s { station_has_pending_msgs = pending })
    ]

-- `wave_ipcs_create`
unfoldable pub create : Server
create = record {
  stations = replicate client_arr_size null;
  memory = λ _. none;
  station_has_pending_msgs = 0;
  fault = false;
}
