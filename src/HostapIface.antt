-- ===== src/HostapIface.antt =====
-- daemon/hostap_iface.c: the events of hostapd that stations ask for, for one interface.
pub mod Names
pub mod Receivers
pub mod Sound
pub mod Request
pub mod Forced
pub mod Sends
pub mod Closed
pub mod Tests
use dwpal.Common.{
  ℕ, zero, suc, ◌+◌, ◌-◌, Bool, true, false, not, ◌&&◌, ◌||◌, List, [], ◌∷◌, Option, none, some,
  if◌then◌else◌, ltb, leb, ◌==◌, length, take, drop, get_or, without,
}
use dwpal.Hostap.{c_str}

-- `!strncmp(a, b, n)`
unfoldable pub is_same : ℕ → List ℕ → List ℕ → Bool
is_same zero a b = true
is_same (suc n) [] [] = true
is_same (suc n) [] (y ∷ ys) = false
is_same (suc n) (x ∷ xs) [] = false
is_same (suc n) (x ∷ xs) (y ∷ ys) = x == y && is_same n xs ys

-- `sizeof(op_code)`
abbrev pub op_code_size : ℕ
op_code_size = 64

-- `hostap_event`; a station is its address.
pub record Event : Type 0 where
  pub op_code : List ℕ
  pub registered_stations : List ℕ

-- A station to the front of a list, and off its place in it.
abbrev pub to_front : ℕ → List ℕ → List ℕ
to_front sta stations = sta ∷ without sta stations

-- The loop of `hostap_register_sta_to_event` with what it does to the event that it finds; `none` where there
-- is none. The list nodes that `list_push_front` asks for are there; the code does not look at its result.
unfoldable pub add_station : ℕ → List ℕ → List Event → Option (List Event)
add_station sta op_code [] = none
add_station sta op_code (e ∷ es) =
    let rest = add_station sta op_code es in
    if is_same op_code_size op_code e.op_code
    then some (record e { registered_stations = to_front sta e.registered_stations } ∷ es)
    else elim rest [ none ↦ none | some es' ↦ some (e ∷ es') ]

-- `hostap_register_sta_to_event`, which is true for the result 0. `memory_ok` says for which events `calloc`
-- and `list_init` succeed.
unfoldable pub register_sta_to_event : (List ℕ → Bool) → ℕ → List ℕ → List Event → Bool × List Event
register_sta_to_event memory_ok sta op_code events = elim (add_station sta op_code events) [
  | some events' ↦ (true, events')
  | none ↦
      if memory_ok op_code
      then (
        true,
        record { op_code = take (op_code_size - 1) op_code; registered_stations = sta ∷ [] }
            ∷ events,
      )
      else (false, events)
]

-- `g_intf_events`: "INTERFACE_CONNECTED_OK", "INTERFACE_RECONNECTED_OK" and "INTERFACE_DISCONNECTED".
abbrev pub connected_ok : List ℕ
connected_ok =
    73 ∷ 78 ∷ 84 ∷ 69 ∷ 82 ∷ 70 ∷ 65 ∷ 67 ∷ 69 ∷ 95 ∷ 67 ∷ 79 ∷ 78 ∷ 78 ∷ 69 ∷ 67 ∷ 84 ∷ 69 ∷ 68
    ∷ 95 ∷ 79 ∷ 75 ∷ []

abbrev pub reconnected_ok : List ℕ
reconnected_ok =
    73 ∷ 78 ∷ 84 ∷ 69 ∷ 82 ∷ 70 ∷ 65 ∷ 67 ∷ 69 ∷ 95 ∷ 82 ∷ 69 ∷ 67 ∷ 79 ∷ 78 ∷ 78 ∷ 69 ∷ 67 ∷ 84
    ∷ 69 ∷ 68 ∷ 95 ∷ 79 ∷ 75 ∷ []

abbrev pub disconnected : List ℕ
disconnected =
    73 ∷ 78 ∷ 84 ∷ 69 ∷ 82 ∷ 70 ∷ 65 ∷ 67 ∷ 69 ∷ 95 ∷ 68 ∷ 73 ∷ 83 ∷ 67 ∷ 79 ∷ 78 ∷ 78 ∷ 69 ∷ 67
    ∷ 84 ∷ 69 ∷ 68 ∷ []

-- `intf_flags`
pub record Flags : Type 0 where
  pub has_connected : Bool
  pub has_reconnected : Bool
  pub has_disconnected : Bool

abbrev pub starts_with : List ℕ → List ℕ → Bool
starts_with name op_code = is_same (length name) op_code name

-- The loop over `g_intf_events` that sets one flag.
unfoldable pub mark : List ℕ → Flags → Flags
mark op_code f =
    if starts_with connected_ok op_code
    then record f { has_connected = true }
    else if starts_with reconnected_ok op_code
    then record f { has_reconnected = true }
    else if starts_with disconnected op_code
    then record f { has_disconnected = true }
    else f

-- How the loop over a request ends: at its end, with the result 1, with a read behind the buffer, or not within the
-- fuel.
pub data Outcome : Type 0 where
  ended : List Event → Flags → Outcome
  refused : List Event → Outcome
  overrun unfinished : Outcome

-- The `while` of `hostap_register_sta_to_events` from the index `i` on. `buffer` is the memory at `reg_str`, of
-- which `len` bytes are the request.
unfoldable pub register_loop :
    (List ℕ → Bool) → ℕ → List ℕ → ℕ → ℕ → ℕ → List Event → Flags → Outcome
register_loop memory_ok sta buffer len zero i events flags = unfinished
register_loop memory_ok sta buffer len (suc fuel) i events flags =
    let n = get_or buffer i 0 in
    let op_code = c_str (take n (drop (i + 1) buffer)) in
    let (ok, events') = register_sta_to_event memory_ok sta op_code events in
    let rest =
      register_loop memory_ok sta buffer len fuel (i + 1 + n) events' (mark op_code flags) in
    if not (ltb i len)
    then ended events flags
    else if not (ltb i (length buffer))
    then overrun
    else if n == 0
    then ended events flags
    else if leb op_code_size n
    then refused events
    else if ltb (length buffer) (i + 1 + n)
    then overrun
    else if ok
    then rest
    else refused events'

-- One turn of the last loop of `hostap_register_sta_to_events`.
unfoldable pub force : (List ℕ → Bool) → ℕ → Bool → List ℕ → Bool × List Event → Bool × List Event
force memory_ok sta flag name (ok, events) =
    if not ok
    then (false, events)
    else if flag
    then (true, events)
    else register_sta_to_event memory_ok sta name events

unfoldable pub force_all : (List ℕ → Bool) → ℕ → Flags → List Event → Bool × List Event
force_all memory_ok sta f events = force memory_ok sta f.has_disconnected disconnected (
    force memory_ok sta f.has_reconnected reconnected_ok
      (force memory_ok sta f.has_connected connected_ok (true, events)))

abbrev pub no_flags : Flags
no_flags = record { has_connected = false; has_reconnected = false; has_disconnected = false }

-- `hostap_register_sta_to_events`, true for the result 0; `none` for a read behind the buffer. Every turn of
-- the loop goes at least two bytes on.
unfoldable pub register_sta_to_events :
    (List ℕ → Bool) → ℕ → List ℕ → ℕ → List Event → Option (Bool × List Event)
register_sta_to_events memory_ok sta buffer len events =
    elim (register_loop memory_ok sta buffer len (len + 1) 0 events no_flags) [
      | ended events' flags ↦ some (force_all memory_ok sta flags events')
      | refused events' ↦ some (false, events')
      | overrun ↦ none
      | unfinished ↦ none
    ]

-- `hostap_unregister_sta_from_events`
unfoldable pub unregister_sta_from_events : ℕ → List Event → List Event
unregister_sta_from_events sta [] = []
unregister_sta_from_events sta (e ∷ es) =
    let rest = unregister_sta_from_events sta es in
    let left = without sta e.registered_stations in
    if length left == 0 then rest else record e { registered_stations = left } ∷ rest

-- The stations of the first event with this name, as the last loops of `hostap_send_event` find them. For some
-- names it returns before these loops, see `send_event`.
unfoldable pub receivers : List ℕ → List Event → List ℕ
receivers op_code [] = []
receivers op_code (e ∷ es) =
    let rest = receivers op_code es in
    if is_same op_code_size op_code e.op_code then e.registered_stations else rest

-- INTERFACE_DWPAL_STATE_CONNECTED and INTERFACE_DWPAL_STATE_DISCONNECTED
abbrev pub state_connected : ℕ
state_connected = 1

abbrev pub state_disconnected : ℕ
state_disconnected = 2

-- `hostap_send_event`, without what it does to the bridges of the system: the stations that the event is sent to, in their order,
-- and the new state.
unfoldable pub send_event : List ℕ → List Event → ℕ → List ℕ × ℕ
send_event op_code events state =
    let to = receivers op_code events in
    if starts_with reconnected_ok op_code
    then (to, state_connected)
    else if starts_with disconnected op_code
    then (to, state_disconnected)
    else if starts_with connected_ok op_code
    then ([], state_connected)
    else (to, state)
