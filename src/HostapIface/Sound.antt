-- ===== src/HostapIface/Sound.antt =====
-- daemon/hostap_iface.c: what is true of the events of an interface between the operations on them.
use dwpal.Common.{
  ℕ, ◌-◌, ◌<◌, ◌≤◌, ◌≡◌, sym, subst, Bool, true, false, List, [], ◌∷◌, none, some, ◌==◌, length,
  All, count, without, count-without, arith, Bool-cases, Option-cases, inl, inr,
}
use dwpal.HostapIface.{
  is_same, op_code_size, Event, to_front, add_station, register_sta_to_event,
  unregister_sta_from_events, receivers,
}
use dwpal.HostapIface.Names.{take_short}
use dwpal.HostapIface.Receivers.{IsListed, IsRegistry, receivers-unregister}

-- Another name than those of all events.
abbrev IsNew : List ℕ → List Event → Type 0
IsNew op_code events = All (λ e. is_same op_code_size op_code e.op_code ≡ false) events

to_front-IsListed : (sta : ℕ) (l : List ℕ) → ((x : ℕ) → count x l ≤ 1) → IsListed (to_front sta l)
to_front-IsListed sta l h = (omega arith, λ x. ground (arith, count-without x sta l, h x))

without-IsListed :
    (sta : ℕ) (l : List ℕ)
    → IsListed l
    → (length (without sta l) == 0) ≡ false
    → IsListed (without sta l)
without-IsListed sta l h e = (ground (arith, e), λ x. ground (arith, count-without x sta l, h.1 x))

add_station-IsNew :
    (sta : ℕ) (op_code : List ℕ) (events : List Event)
    → add_station sta op_code events ≡ none
    → IsNew op_code events
unfolding add_station
add_station-IsNew sta op_code [] h = tt
add_station-IsNew sta op_code (e ∷ es) h =
    elim (Bool-cases (is_same op_code_size op_code e.op_code)) [
      | inl found ↦ absurd (ground (arith, found, h))
      | inr other ↦ elim (Option-cases (add_station sta op_code es)) [
        | inl gone ↦ (other, add_station-IsNew sta op_code es gone)
        | inr (es', found) ↦ absurd (ground (arith, other, found, h))
      ]
    ]

-- An event keeps its name when a station is added to it.
add_station-keeps :
    (sta : ℕ) (op_code name : List ℕ) (events events' : List Event)
    → add_station sta op_code events ≡ some events'
    → IsNew name events
    → IsNew name events'
unfolding add_station
add_station-keeps sta op_code name [] events' h new = absurd (cc h)
add_station-keeps sta op_code name (e ∷ es) events' h new =
    elim (Bool-cases (is_same op_code_size op_code e.op_code)) [
      | inl same ↦
          let found : record e { registered_stations = to_front sta e.registered_stations } ∷ es
              ≡ events' =
            ground (arith, same, h) in
          subst (IsNew name) found (new.0, new.1)
      | inr other ↦ elim (Option-cases (add_station sta op_code es)) [
        | inl gone ↦ absurd (ground (arith, other, gone, h))
        | inr (es', found) ↦
            let whole : e ∷ es' ≡ events' = ground (arith, other, found, h) in
            subst (IsNew name) whole (new.0, add_station-keeps sta op_code name es es' found new.1)
      ]
    ]

add_station-IsRegistry :
    (sta : ℕ) (op_code : List ℕ) (events events' : List Event)
    → add_station sta op_code events ≡ some events'
    → IsRegistry events
    → IsRegistry events'
unfolding add_station
add_station-IsRegistry sta op_code [] events' h v = absurd (cc h)
add_station-IsRegistry sta op_code (e ∷ es) events' h v =
    elim (Bool-cases (is_same op_code_size op_code e.op_code)) [
      | inl same ↦
          let found : record e { registered_stations = to_front sta e.registered_stations } ∷ es
              ≡ events' =
            ground (arith, same, h) in
          subst IsRegistry found (record {
            distinct = v.distinct;
            listed = (to_front-IsListed sta e.registered_stations v.listed.0.1, v.listed.1);
          })
      | inr other ↦ elim (Option-cases (add_station sta op_code es)) [
        | inl gone ↦ absurd (ground (arith, other, gone, h))
        | inr (es', found) ↦
            let whole : e ∷ es' ≡ events' = ground (arith, other, found, h) in
            let ih =
              add_station-IsRegistry sta op_code es es' found
                (record { distinct = v.distinct.1; listed = v.listed.1 }) in
            subst IsRegistry whole (record {
              distinct =
                  (add_station-keeps sta op_code e.op_code es es' found v.distinct.0, ih.distinct);
              listed = (v.listed.0, ih.listed);
            })
      ]
    ]

register-IsRegistry :
    (memory_ok : List ℕ → Bool) (sta : ℕ) (op_code : List ℕ) (events : List Event)
    → length op_code < op_code_size
    → IsRegistry events
    → IsRegistry (register_sta_to_event memory_ok sta op_code events).1
unfolding register_sta_to_event
register-IsRegistry memory_ok sta op_code events short v =
    elim (Option-cases (add_station sta op_code events)) [
      | inr (events', found) ↦
          let e : register_sta_to_event memory_ok sta op_code events ≡ (true, events') =
            ground (arith, found) in
          subst (λ r. IsRegistry r.1) (sym e)
            (add_station-IsRegistry sta op_code events events' found v)
      | inl gone ↦ elim (Bool-cases (memory_ok op_code)) [
        | inl ok ↦
            let new : Event = record { op_code = op_code; registered_stations = sta ∷ [] } in
            let e : register_sta_to_event memory_ok sta op_code events ≡ (true, new ∷ events) =
              ground (arith, gone, ok, take_short (op_code_size - 1) op_code (omega arith)) in
            subst (λ r. IsRegistry r.1) (sym e)
              (record {
                distinct = (add_station-IsNew sta op_code events gone, v.distinct);
                listed = ((omega arith, λ x. ground arith), v.listed);
              })
        | inr short_of ↦
            let e : register_sta_to_event memory_ok sta op_code events ≡ (false, events) =
              ground (arith, gone, short_of) in
            subst (λ r. IsRegistry r.1) (sym e) v
      ]
    ]

unregister-IsNew :
    (sta : ℕ) (name : List ℕ) (events : List Event)
    → IsNew name events
    → IsNew name (unregister_sta_from_events sta events)
unfolding unregister_sta_from_events
unregister-IsNew sta name [] h = tt
unregister-IsNew sta name (e ∷ es) h =
    elim (Bool-cases (length (without sta e.registered_stations) == 0)) [
      | inl emptied ↦ rw emptied (unregister-IsNew sta name es h.1)
      | inr kept ↦ rw kept (h.0, unregister-IsNew sta name es h.1)
    ]

unregister-IsRegistry :
    (sta : ℕ) (events : List Event)
    → IsRegistry events
    → IsRegistry (unregister_sta_from_events sta events)
unfolding unregister_sta_from_events
unregister-IsRegistry sta [] v = v
unregister-IsRegistry sta (e ∷ es) v =
    let ih =
      unregister-IsRegistry sta es (record { distinct = v.distinct.1; listed = v.listed.1 }) in
    elim (Bool-cases (length (without sta e.registered_stations) == 0)) [
      | inl emptied ↦ rw emptied ih
      | inr kept ↦ rw kept (record {
        distinct = (unregister-IsNew sta e.op_code es v.distinct.0, ih.distinct);
        listed = (without-IsListed sta e.registered_stations v.listed.0 kept, ih.listed);
      })
    ]

-- What the operations make of the events of an interface, from none on.
pub data Reach : List Event → Type 0 where
  started : Reach []
  registers :
      {events : List Event} (memory_ok : List ℕ → Bool) (sta : ℕ) (op_code : List ℕ)
      → length op_code < op_code_size
      → Reach events
      → Reach (register_sta_to_event memory_ok sta op_code events).1
  unregisters :
      {events : List Event} (sta : ℕ) → Reach events → Reach (unregister_sta_from_events sta events)

-- However stations register for events with names of less than 64 characters and leave, no two events of the
-- interface have the same name, and each has stations, none of them twice.
pub Reach-IsRegistry : (events : List Event) → Reach events → IsRegistry events
Reach-IsRegistry [] started = record { distinct = tt; listed = tt }
Reach-IsRegistry _ (registers {events} memory_ok sta op_code short r) =
    register-IsRegistry memory_ok sta op_code events short (Reach-IsRegistry events r)
Reach-IsRegistry _ (unregisters {events} sta r) =
    unregister-IsRegistry sta events (Reach-IsRegistry events r)

receivers-count :
    (name : List ℕ) (events : List Event) (x : ℕ)
    → All (λ e. IsListed e.registered_stations) events
    → count x (receivers name events) ≤ 1
unfolding receivers
receivers-count name [] x h = omega arith
receivers-count name (e ∷ es) x h = elim (Bool-cases (is_same op_code_size name e.op_code)) [
  | inl this ↦ rw this (h.0.1 x)
  | inr other ↦ rw other (receivers-count name es x h.1)
]

-- After `hostap_unregister_sta_from_events` on events that operations have made, no event has the
-- station.
pub unregister-silent :
    (sta : ℕ) (events : List Event) (name : List ℕ)
    → Reach events
    → count sta (receivers name (unregister_sta_from_events sta events)) ≡ 0
unregister-silent sta events name r =
    let v = Reach-IsRegistry events r in
    rw (receivers-unregister sta events name v.distinct) (
      ground (
        arith,
        count-without sta sta (receivers name events),
        receivers-count name events sta v.listed,
      ))
