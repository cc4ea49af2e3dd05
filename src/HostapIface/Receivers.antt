-- ===== src/HostapIface/Receivers.antt =====
-- daemon/hostap_iface.c: the stations of an event, after each operation on the list of events.
use dwpal.Common.{
  ℕ, ◌-◌, ◌<◌, ◌≤◌, ◌≡◌, refl, sym, ap, subst, ◌∙◌, Bool, true, false, List, [], ◌∷◌, none, some,
  if◌then◌else◌, ◌==◌, length, All, count, without, arith, Bool-cases, Option-cases, inl, inr,
}
use dwpal.HostapIface.{
  is_same, op_code_size, Event, to_front, add_station, register_sta_to_event,
  unregister_sta_from_events, receivers,
}
use dwpal.HostapIface.Names.{is_same_sym, is_same_replace, take_short, length-nil}

receivers-add_station :
    (sta : ℕ) (op_code : List ℕ) (events events' : List Event) (name : List ℕ)
    → add_station sta op_code events ≡ some events'
    → receivers name events' ≡ (
        if is_same op_code_size name op_code
        then to_front sta (receivers name events)
        else receivers name events)
unfolding add_station receivers
receivers-add_station sta op_code [] events' name h = absurd (cc h)
receivers-add_station sta op_code (e ∷ es) events' name h =
    elim (Bool-cases (is_same op_code_size op_code e.op_code)) [
      | inl same ↦
          let found : record e { registered_stations = to_front sta e.registered_stations } ∷ es
              ≡ events' =
            ground (arith, same, h) in
          let r = is_same_replace op_code_size op_code e.op_code name same in
          subst
            (λ z. receivers name z ≡ (
              if is_same op_code_size name op_code
              then to_front sta (receivers name (e ∷ es))
              else receivers name (e ∷ es)))
            found
            (rw r (elim (Bool-cases (is_same op_code_size name e.op_code)) [
              | inl this ↦ rw this refl
              | inr not_this ↦ rw not_this refl
            ]))
      | inr other ↦ elim (Option-cases (add_station sta op_code es)) [
        | inl gone ↦ absurd (ground (arith, other, gone, h))
        | inr (es', found) ↦
            let whole : e ∷ es' ≡ events' = ground (arith, other, found, h) in
            let ih = receivers-add_station sta op_code es es' name found in
            subst
              (λ z. receivers name z ≡ (
                if is_same op_code_size name op_code
                then to_front sta (receivers name (e ∷ es))
                else receivers name (e ∷ es)))
              whole
              (elim (Bool-cases (is_same op_code_size name e.op_code)) [
                | inl this ↦
                    let not_asked : is_same op_code_size name op_code ≡ false =
                      is_same_sym op_code_size name op_code
                      ∙ is_same_replace op_code_size name e.op_code op_code this
                      ∙ other in
                    rw (this, not_asked) refl
                | inr not_this ↦ rw (not_this) ih
              ])
      ]
    ]

-- Where no event is found, no event with this name has receivers.
receivers-nil :
    (sta : ℕ) (op_code : List ℕ) (events : List Event) (name : List ℕ)
    → add_station sta op_code events ≡ none
    → is_same op_code_size name op_code ≡ true
    → receivers name events ≡ []
unfolding add_station receivers
receivers-nil sta op_code [] name h same = refl
receivers-nil sta op_code (e ∷ es) name h same =
    elim (Bool-cases (is_same op_code_size op_code e.op_code)) [
      | inl found ↦ absurd (ground (arith, found, h))
      | inr other ↦ elim (Option-cases (add_station sta op_code es)) [
        | inl gone ↦
            let not_this : is_same op_code_size name e.op_code ≡ false =
              is_same_sym op_code_size name e.op_code
              ∙ is_same_replace op_code_size name op_code e.op_code same
              ∙ is_same_sym op_code_size e.op_code op_code
              ∙ other in
            rw not_this (receivers-nil sta op_code es name gone same)
        | inr (es', found) ↦ absurd (ground (arith, other, found, h))
      ]
    ]

-- When `hostap_register_sta_to_event` succeeds, for a name of less than 64 characters, the stations of the event with this
-- name are the station first and then those that it had before, and every other event has the stations that it had before.
pub receivers-register_sta_to_event :
    (memory_ok : List ℕ → Bool) (sta : ℕ) (op_code name : List ℕ) (events : List Event)
    → length op_code < op_code_size
    → (register_sta_to_event memory_ok sta op_code events).0 ≡ true
    → receivers name (register_sta_to_event memory_ok sta op_code events).1 ≡ (
        if is_same op_code_size name op_code
        then to_front sta (receivers name events)
        else receivers name events)
unfolding register_sta_to_event receivers without
receivers-register_sta_to_event memory_ok sta op_code name events short h =
    let Goes = λ (es : List Event). receivers name es ≡ (
      if is_same op_code_size name op_code
      then to_front sta (receivers name events)
      else receivers name events) in
    elim (Option-cases (add_station sta op_code events)) [
      | inr (events', found) ↦
          let e : register_sta_to_event memory_ok sta op_code events ≡ (true, events') =
            ground (arith, found) in
          subst (λ r. Goes r.1) (sym e)
            (receivers-add_station sta op_code events events' name found)
      | inl gone ↦ elim (Bool-cases (memory_ok op_code)) [
        | inl ok ↦
            let new : Event = record { op_code = op_code; registered_stations = sta ∷ [] } in
            let e : register_sta_to_event memory_ok sta op_code events ≡ (true, new ∷ events) =
              ground (arith, gone, ok, take_short (op_code_size - 1) op_code (omega arith)) in
            subst (λ r. Goes r.1) (sym e)
              (elim (Bool-cases (is_same op_code_size name op_code)) [
                | inl asked ↦ rw (asked, receivers-nil sta op_code events name gone asked) refl
                | inr other ↦ rw other refl
              ])
        | inr short_of ↦
            let e : register_sta_to_event memory_ok sta op_code events ≡ (false, events) =
              ground (arith, gone, short_of) in
            absurd (ground (arith, e, h))
      ]
    ]

-- No two events have the same name.
abbrev pub IsDistinct : List Event → Type 0
IsDistinct [] = Unit
IsDistinct (e ∷ es) =
    All (λ e'. is_same op_code_size e.op_code e'.op_code ≡ false) es × IsDistinct es

-- A list of stations that is not empty and has no station twice.
abbrev pub IsListed : List ℕ → Type 0
IsListed stations = (0 < length stations) × ((x : ℕ) → count x stations ≤ 1)

-- What is true of the events of an interface between two operations.
pub record IsRegistry (events : List Event) : Type 0 where
  pub distinct : IsDistinct events
  pub listed : All (λ e. IsListed e.registered_stations) events

receivers-unlisted :
    (e : List ℕ) (es : List Event) (name : List ℕ)
    → All (λ e'. is_same op_code_size e e'.op_code ≡ false) es
    → is_same op_code_size name e ≡ true
    → receivers name es ≡ []
unfolding receivers
receivers-unlisted e [] name a h = refl
receivers-unlisted e (x ∷ es) name a h =
    let other : is_same op_code_size name x.op_code ≡ false =
      is_same_sym op_code_size name x.op_code
      ∙ is_same_replace op_code_size name e x.op_code h
      ∙ is_same_sym op_code_size x.op_code e
      ∙ a.0 in
    rw other (receivers-unlisted e es name a.1 h)

-- After `hostap_unregister_sta_from_events`, each event has the stations that it had before, without this
-- one, in their order.
pub receivers-unregister :
    (sta : ℕ) (events : List Event) (name : List ℕ)
    → IsDistinct events
    → receivers name (unregister_sta_from_events sta events) ≡ without sta (receivers name events)
unfolding receivers unregister_sta_from_events without
receivers-unregister sta [] name d = refl
receivers-unregister sta (e ∷ es) name d =
    let ih = receivers-unregister sta es name d.1 in
    elim (Bool-cases (is_same op_code_size name e.op_code)) [
      | inl this ↦ elim (Bool-cases (length (without sta e.registered_stations) == 0)) [
        | inl emptied ↦
            rw (this, emptied)
              (ih
                ∙ ap (without sta) (receivers-unlisted e.op_code es name d.0 this)
                ∙ sym (length-nil (without sta e.registered_stations) emptied))
        | inr kept ↦ rw (this, kept, this) refl
      ]
      | inr other ↦ elim (Bool-cases (length (without sta e.registered_stations) == 0)) [
        | inl emptied ↦ rw (other, emptied) ih
        | inr kept ↦ rw (other, kept, other) ih
      ]
    ]
