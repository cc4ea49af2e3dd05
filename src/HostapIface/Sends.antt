-- ===== src/HostapIface/Sends.antt =====
-- daemon/hostap_iface.c: the stations that `hostap_send_event` sends an event to.
use dwpal.Common.{
  ℕ, zero, suc, ◌<◌, ◌≡◌, ◌≢◌, refl, sym, ◌∙◌, Bool, true, false, List, [], ◌∷◌, some,
  if◌then◌else◌, length, get_or, count, arith, Bool-cases, if-cases, inl, inr,
}
use dwpal.HostapIface.{
  is_same, op_code_size, Event, to_front, register_sta_to_event, register_sta_to_events, receivers,
  connected_ok, reconnected_ok, disconnected, starts_with, send_event, unregister_sta_from_events,
}
use dwpal.HostapIface.Receivers.{receivers-register_sta_to_event}
use dwpal.HostapIface.Forced.{IsRegistered, register_sta_to_events-IsRegistered}
use dwpal.HostapIface.Sound.{Reach, unregister-silent}

-- Names that are the same up to a number of characters agree in each of them.
same_at :
    (n : ℕ) (a b : List ℕ) (i : ℕ) → is_same n a b ≡ true → i < n → get_or a i 0 ≡ get_or b i 0
unfolding is_same
same_at zero a b i h k = absurd (omega (arith, k))
same_at (suc n) [] [] i h k = refl
same_at (suc n) [] (y ∷ b) i h k = absurd (cc h)
same_at (suc n) (x ∷ a) [] i h k = absurd (cc h)
same_at (suc n) (x ∷ a) (y ∷ b) zero h k = ground (arith, h)
same_at (suc n) (x ∷ a) (y ∷ b) (suc i) h k = same_at n a b i (ground (arith, h)) (omega (arith, k))

-- The eleventh character tells the names apart.
starts_apart :
    (name op_code : List ℕ)
    → 10 < length name
    → get_or name 10 0 ≢ 67
    → starts_with name op_code ≡ true
    → starts_with connected_ok op_code ≡ false
starts_apart name op_code long other h = elim (Bool-cases (starts_with connected_ok op_code)) [
  | inl both ↦
      let here = same_at (length name) op_code name 10 h long in
      absurd (other (sym here ∙ same_at 22 op_code connected_ok 10 both (omega arith)))
  | inr not_connected ↦ not_connected
]

-- An event goes to the stations that are registered for it, unless its name starts with "INTERFACE_CONNECTED_OK": the daemon's
-- clients make that event themselves.
pub send_event-receivers :
    (op_code : List ℕ) (events : List Event) (state : ℕ)
    → (send_event op_code events state).0
      ≡ (if starts_with connected_ok op_code then [] else receivers op_code events)
unfolding send_event
send_event-receivers op_code events state = elim (Bool-cases (starts_with reconnected_ok op_code)) [
  | inl re ↦ rw (re, starts_apart reconnected_ok op_code (omega arith) (omega arith) re) refl
  | inr not_re ↦ elim (Bool-cases (starts_with disconnected op_code)) [
    | inl dis ↦
        rw (not_re, dis, starts_apart disconnected op_code (omega arith) (omega arith) dis) refl
    | inr not_dis ↦ elim (Bool-cases (starts_with connected_ok op_code)) [
      | inl con ↦ rw (not_re, not_dis, con) refl
      | inr not_con ↦ rw (not_re, not_dis, not_con) refl
    ]
  ]
]

-- When `hostap_register_sta_to_event` succeeds, for a name of less than 64 characters, then `hostap_send_event` sends an event with
-- this name to the station first and then to the stations that it would have sent it to before, and every other event to the
-- stations that it would have sent it to before; only an event whose name starts with "INTERFACE_CONNECTED_OK" it sends to none, neither
-- before nor after. The condition is that `list_push_front` gets its nodes.
pub send_event-register_sta_to_event :
    (memory_ok : List ℕ → Bool) (sta : ℕ) (op_code name : List ℕ) (events : List Event) (state : ℕ)
    → length op_code < op_code_size
    → (register_sta_to_event memory_ok sta op_code events).0 ≡ true
    → (send_event name (register_sta_to_event memory_ok sta op_code events).1 state).0 ≡ (
        if starts_with connected_ok name
        then []
        else if is_same op_code_size name op_code
        then to_front sta (send_event name events state).0
        else (send_event name events state).0)
send_event-register_sta_to_event memory_ok sta op_code name events state short ok =
    let r = register_sta_to_event memory_ok sta op_code events in
    elim (Bool-cases (starts_with connected_ok name)) [
      | inl con ↦ rw (send_event-receivers name r.1 state, con) refl
      | inr not_con ↦
          rw (send_event-receivers name r.1 state, send_event-receivers name events state, not_con)
            (receivers-register_sta_to_event memory_ok sta op_code name events short ok)
    ]

-- An event that starts with the name is sent to the station, whatever the state.
abbrev pub Hears : ℕ → List ℕ → List Event → Type 0
Hears sta name events =
    (op_code : List ℕ) × ((starts_with name op_code ≡ true)
      × ((state : ℕ) → 0 < count sta (send_event op_code events state).0))

IsRegistered-Hears :
    (sta : ℕ) (name : List ℕ) (events : List Event)
    → 10 < length name
    → get_or name 10 0 ≢ 67
    → IsRegistered sta name events
    → Hears sta name events
IsRegistered-Hears sta name events long other (op_code, (start, h)) = (
  op_code,
  (
    start,
    (λ state.
        rw (send_event-receivers op_code events state, starts_apart name op_code long other start)
          h),
  ),
)

-- When `hostap_register_sta_to_events` succeeds, then for both "INTERFACE_RECONNECTED_OK" and "INTERFACE_DISCONNECTED", which a client
-- needs to follow the connection, `hostap_send_event` sends the station an event whose name starts with that name; for
-- "INTERFACE_CONNECTED_OK", which it sends to no station, the station is registered all the same. The condition is that
-- `list_push_front` gets its nodes.
pub register_sta_to_events-Hears :
    (memory_ok : List ℕ → Bool) (sta : ℕ) (buffer : List ℕ) (len : ℕ) (events events' : List Event)
    → register_sta_to_events memory_ok sta buffer len events ≡ some (true, events')
    → IsRegistered sta connected_ok events'
      × (Hears sta reconnected_ok events' × Hears sta disconnected events')
register_sta_to_events-Hears memory_ok sta buffer len events events' h =
    let (con, (re, dis)) =
      register_sta_to_events-IsRegistered memory_ok sta buffer len events events' h in
    (
      con,
      (
        IsRegistered-Hears sta reconnected_ok events' (omega arith) (omega arith) re,
        IsRegistered-Hears sta disconnected events' (omega arith) (omega arith) dis,
      ),
    )

-- After `hostap_unregister_sta_from_events` on events that operations have made, no event is sent to the station.
pub unregister_sta_from_events-silent :
    (sta : ℕ) (events : List Event) (name : List ℕ) (state : ℕ)
    → Reach events
    → count sta (send_event name (unregister_sta_from_events sta events) state).0 ≡ 0
unregister_sta_from_events-silent sta events name state r =
    let left = unregister_sta_from_events sta events in
    rw (send_event-receivers name left state) (
      if-cases (λ l. count sta l ≡ 0) (starts_with connected_ok name) [] (receivers name left)
        (λ _. refl) (λ _. unregister-silent sta events name r))
