-- ===== src/HostapIface/Tests.antt =====
-- daemon/hostap_iface.c on small inputs.
use dwpal.Common.{ℕ, ◌≡◌, ◌≢◌, refl, Bool, true, List, [], ◌∷◌, some, if◌then◌else◌, without, arith}
use dwpal.HostapIface.{
  starts_with, is_same, op_code_size, Event, to_front, add_station, register_sta_to_event,
  register_sta_to_events, register_loop, force, force_all, mark, no_flags, connected_ok,
  reconnected_ok, disconnected, receivers, unfinished, send_event, state_disconnected,
  state_connected,
}
use dwpal.HostapIface.Sends.{Hears, register_sta_to_events-Hears, send_event-register_sta_to_event}
use dwpal.HostapIface.Sound.{Reach, started, registers}
use dwpal.HostapIface.Request.{register_loop_ends}
use dwpal.HostapIface.Forced.{IsRegistered}

abbrev memory : List ℕ → Bool
memory _ = true

-- The stations 7 and 9 ask for the event "A".
abbrev one : List Event
one = (register_sta_to_event memory 7 (65 ∷ []) []).1

abbrev two : List Event
two = (register_sta_to_event memory 9 (65 ∷ []) one).1

two-Reach : Reach two
two-Reach =
    registers memory 9 (65 ∷ []) (omega arith) (registers memory 7 (65 ∷ []) (omega arith) started)

two-receivers : receivers (65 ∷ []) two ≡ 9 ∷ 7 ∷ []
unfolding receivers register_sta_to_event add_station is_same without
two-receivers = refl

send_event-register_sta_to_event_example : (send_event (65 ∷ []) two state_connected).0 ≡ (
    if starts_with connected_ok (65 ∷ [])
    then []
    else if is_same op_code_size (65 ∷ []) (65 ∷ [])
    then to_front 9 (send_event (65 ∷ []) one state_connected).0
    else (send_event (65 ∷ []) one state_connected).0)
unfolding register_sta_to_event add_station is_same
send_event-register_sta_to_event_example =
    send_event-register_sta_to_event memory 9 (65 ∷ []) (65 ∷ []) one state_connected (omega arith)
      refl

-- A request for "A", of two bytes.
abbrev request : List ℕ
request = 1 ∷ 65 ∷ 0 ∷ []

register_loop_ends_example : register_loop memory 7 request 2 3 0 [] no_flags ≢ unfinished
register_loop_ends_example =
    register_loop_ends memory 7 request 2 3 0 [] no_flags (omega arith) (omega arith)

abbrev asked : List Event
asked = (force_all memory 7 no_flags one).1

asked-done : register_sta_to_events memory 7 request 2 [] ≡ some (true, asked)
unfolding register_sta_to_events register_loop force_all force register_sta_to_event add_station
    mark is_same
asked-done = refl

register_sta_to_events-Hears_example :
    IsRegistered 7 connected_ok asked × (Hears 7 reconnected_ok asked × Hears 7 disconnected asked)
register_sta_to_events-Hears_example =
    register_sta_to_events-Hears memory 7 request 2 [] asked asked-done

-- The daemon notes the loss of the connection, and the client hears of it.
lost : send_event disconnected asked state_connected ≡ (7 ∷ [], state_disconnected)
unfolding send_event receivers force_all force register_sta_to_event add_station is_same
lost = refl
