-- ===== src/HostapIface/Forced.antt =====
-- daemon/hostap_iface.c: the events that a station is registered for when its request succeeds, those that the
-- code adds included.
use dwpal.Common.{
  ℕ, zero, suc, ◌+◌, ◌<◌, ◌≤◌, ◌≡◌, refl, ap, subst, Bool, true, false, List, [], ◌∷◌, none, some,
  if◌then◌else◌, length, take, drop, get_or, count, arith, Bool-cases, if-cases, inl, inr,
}
use dwpal.Hostap.{c_str}
use dwpal.HostapIface.{
  is_same, op_code_size, Event, register_sta_to_event, receivers, connected_ok, reconnected_ok,
  disconnected, Flags, no_flags, starts_with, mark, Outcome, ended, refused, overrun, unfinished,
  register_loop, force, force_all, register_sta_to_events,
}
use dwpal.HostapIface.Names.{is_same_refl}
use dwpal.HostapIface.Receivers.{receivers-register_sta_to_event}
use dwpal.HostapIface.Request.{register_loop-turn}

pub length-c_str : (xs : List ℕ) → length (c_str xs) ≤ length xs
length-c_str [] = omega arith
length-c_str (x ∷ xs) = ground (arith, length-c_str xs)

pub length-take : (n : ℕ) (xs : List ℕ) → length (take n xs) ≤ n
length-take zero xs = omega arith
length-take (suc n) [] = omega arith
length-take (suc n) (x ∷ xs) = omega (arith, length-take n xs)

-- The station is registered for an event whose name starts with the name.
abbrev pub IsRegistered : ℕ → List ℕ → List Event → Type 0
IsRegistered sta name events =
    (op_code : List ℕ) × ((starts_with name op_code ≡ true)
      × (0 < count sta (receivers op_code events)))

register-adds :
    (memory_ok : List ℕ → Bool) (sta : ℕ) (op_code : List ℕ) (events : List Event)
    → length op_code < op_code_size
    → (register_sta_to_event memory_ok sta op_code events).0 ≡ true
    → 0 < count sta (receivers op_code (register_sta_to_event memory_ok sta op_code events).1)
register-adds memory_ok sta op_code events short ok =
    rw
      (
        receivers-register_sta_to_event memory_ok sta op_code op_code events short ok,
        is_same_refl op_code_size op_code,
      )
      (ground arith)

register-keeps :
    (memory_ok : List ℕ → Bool) (sta : ℕ) (op_code name : List ℕ) (events : List Event)
    → length op_code < op_code_size
    → (register_sta_to_event memory_ok sta op_code events).0 ≡ true
    → 0 < count sta (receivers name events)
    → 0 < count sta (receivers name (register_sta_to_event memory_ok sta op_code events).1)
register-keeps memory_ok sta op_code name events short ok h =
    rw (receivers-register_sta_to_event memory_ok sta op_code name events short ok)
      (elim (Bool-cases (is_same op_code_size name op_code)) [
        | inl asked ↦ rw asked (ground arith)
        | inr other ↦ rw other h
      ])

-- Each flag that is set stands for an event that the station is registered for.
record IsBacked (sta : ℕ) (f : Flags) (events : List Event) : Type 0 where
  connected_back : f.has_connected ≡ true → IsRegistered sta connected_ok events
  reconnected_back : f.has_reconnected ≡ true → IsRegistered sta reconnected_ok events
  disconnected_back : f.has_disconnected ≡ true → IsRegistered sta disconnected events

module _ (memory_ok : List ℕ → Bool) (sta : ℕ) where
  IsRegistered-register :
      (op_code name : List ℕ) (events : List Event)
      → length op_code < op_code_size
      → (register_sta_to_event memory_ok sta op_code events).0 ≡ true
      → IsRegistered sta name events
      → IsRegistered sta name (register_sta_to_event memory_ok sta op_code events).1
  IsRegistered-register op_code name events short ok (o, (start, h)) =
      (o, (start, register-keeps memory_ok sta op_code o events short ok h))

  mark-IsBacked :
      (op_code : List ℕ) (f : Flags) (events : List Event)
      → length op_code < op_code_size
      → (register_sta_to_event memory_ok sta op_code events).0 ≡ true
      → IsBacked sta f events
      → IsBacked sta (mark op_code f) (register_sta_to_event memory_ok sta op_code events).1
  unfolding mark
  mark-IsBacked op_code f events short ok b =
      let events' = (register_sta_to_event memory_ok sta op_code events).1 in
      let new : (name : List ℕ) → starts_with name op_code ≡ true → IsRegistered sta name events' =
        λ name start. (op_code, (start, register-adds memory_ok sta op_code events short ok)) in
      let c : f.has_connected ≡ true → IsRegistered sta connected_ok events' =
        λ e. IsRegistered-register op_code connected_ok events short ok (b.connected_back e) in
      let r : f.has_reconnected ≡ true → IsRegistered sta reconnected_ok events' =
        λ e. IsRegistered-register op_code reconnected_ok events short ok (b.reconnected_back e) in
      let d : f.has_disconnected ≡ true → IsRegistered sta disconnected events' =
        λ e. IsRegistered-register op_code disconnected events short ok (b.disconnected_back e) in
      let with_d : Flags =
        if starts_with disconnected op_code then record f { has_disconnected = true } else f in
      let with_r : Flags =
        if starts_with reconnected_ok op_code
        then record f { has_reconnected = true }
        else with_d in
      let P = λ (g : Flags). IsBacked sta g events' in
      if-cases P (starts_with connected_ok op_code) (record f { has_connected = true }) with_r
        (λ start. record {
          connected_back = λ _. new connected_ok start;
          reconnected_back = r;
          disconnected_back = d;
        })
        (λ _.
          if-cases P (starts_with reconnected_ok op_code) (record f { has_reconnected = true })
            with_d
            (λ start. record {
              connected_back = c;
              reconnected_back = λ _. new reconnected_ok start;
              disconnected_back = d;
            })
            (λ _.
              if-cases P (starts_with disconnected op_code) (record f { has_disconnected = true }) f
                (λ start. record {
                  connected_back = c;
                  reconnected_back = r;
                  disconnected_back = λ _. new disconnected start;
                })
                (λ _. record { connected_back = c; reconnected_back = r; disconnected_back = d })))

  -- What an end of the loop has to be.
  EndsBacked : Outcome → Type 0
  EndsBacked (ended events f) = IsBacked sta f events
  EndsBacked (refused events) = Unit
  EndsBacked overrun = Unit
  EndsBacked unfinished = Unit

  register_loop-EndsBacked :
      (buffer : List ℕ) (len fuel i : ℕ) (events : List Event) (f : Flags)
      → IsBacked sta f events
      → EndsBacked (register_loop memory_ok sta buffer len fuel i events f)
  unfolding EndsBacked register_loop
  register_loop-EndsBacked buffer len zero i events f b = tt
  register_loop-EndsBacked buffer len (suc fuel) i events f b =
      register_loop-turn memory_ok sta buffer len EndsBacked fuel i events f b tt tt
        (λ inside some fits.
          let n = get_or buffer i 0 in
          let op_code = c_str (take n (drop (i + 1) buffer)) in
          let short : length op_code < op_code_size = omega (
            arith,
            length-c_str (take n (drop (i + 1) buffer)),
            length-take n (drop (i + 1) buffer),
          ) in
          (
            tt,
            (λ ok.
                register_loop-EndsBacked buffer len fuel (i + 1 + n) _ (mark op_code f)
                  (mark-IsBacked op_code f events short ok b)),
          ))

  force_step :
      (flag ok : Bool) (name : List ℕ) (events events' : List Event)
      → length name < op_code_size
      → force memory_ok sta flag name (ok, events) ≡ (true, events')
      → (ok ≡ true)
        × (((flag ≡ true → IsRegistered sta name events) → IsRegistered sta name events')
            × ((other : List ℕ) → IsRegistered sta other events → IsRegistered sta other events'))
  unfolding force
  force_step flag false name events events' short h = absurd (ground (arith, h))
  force_step true true name events events' short h =
      let e : events ≡ events' = cc h in
      (
        refl,
        (
          (λ back. subst (IsRegistered sta name) e (back refl)),
          (λ other o. subst (IsRegistered sta other) e o),
        ),
      )
  force_step false true name events events' short h =
      let ok : (register_sta_to_event memory_ok sta name events).0 ≡ true = ap (λ r. r.0) h in
      let e : (register_sta_to_event memory_ok sta name events).1 ≡ events' = ap (λ r. r.1) h in
      (
        refl,
        (
          (λ back. subst (IsRegistered sta name) e (
            name,
            (is_same_refl (length name) name, register-adds memory_ok sta name events short ok),
          )),
          (λ other o.
              subst (IsRegistered sta other) e
                (IsRegistered-register name other events short ok o)),
        ),
      )

  force_all-IsRegistered :
      (f : Flags) (events events' : List Event)
      → IsBacked sta f events
      → force_all memory_ok sta f events ≡ (true, events')
      → IsRegistered sta connected_ok events'
        × (IsRegistered sta reconnected_ok events' × IsRegistered sta disconnected events')
  unfolding force_all
  force_all-IsRegistered f events events' b h =
      let s1 = force memory_ok sta f.has_connected connected_ok (true, events) in
      let s2 = force memory_ok sta f.has_reconnected reconnected_ok s1 in
      let t3 = force_step f.has_disconnected s2.0 disconnected s2.1 events' (omega arith) h in
      let e2 : s2 ≡ (true, s2.1) = ap (λ ok. (ok, s2.1)) t3.0 in
      let t2 = force_step f.has_reconnected s1.0 reconnected_ok s1.1 s2.1 (omega arith) e2 in
      let e1 : s1 ≡ (true, s1.1) = ap (λ ok. (ok, s1.1)) t2.0 in
      let t1 = force_step f.has_connected true connected_ok events s1.1 (omega arith) e1 in
      let c1 : IsRegistered sta connected_ok s1.1 = t1.1.0 b.connected_back in
      let r2 : IsRegistered sta reconnected_ok s2.1 =
        t2.1.0 (λ e. t1.1.1 reconnected_ok (b.reconnected_back e)) in
      let d3 : IsRegistered sta disconnected events' =
        t3.1.0 (λ e. t2.1.1 disconnected (t1.1.1 disconnected (b.disconnected_back e))) in
      (t3.1.1 connected_ok (t2.1.1 connected_ok c1), (t3.1.1 reconnected_ok r2, d3))

-- When `hostap_register_sta_to_events` succeeds, the station is registered for each of the three names.
pub register_sta_to_events-IsRegistered :
    (memory_ok : List ℕ → Bool) (sta : ℕ) (buffer : List ℕ) (len : ℕ) (events events' : List Event)
    → register_sta_to_events memory_ok sta buffer len events ≡ some (true, events')
    → IsRegistered sta connected_ok events'
      × (IsRegistered sta reconnected_ok events' × IsRegistered sta disconnected events')
unfolding register_sta_to_events EndsBacked
register_sta_to_events-IsRegistered memory_ok sta buffer len events events' h =
    go (register_loop memory_ok sta buffer len (len + 1) 0 events no_flags)
      (register_loop-EndsBacked memory_ok sta buffer len (len + 1) 0 events no_flags (record {
        connected_back = λ e. absurd (cc e);
        reconnected_back = λ e. absurd (cc e);
        disconnected_back = λ e. absurd (cc e);
      }))
      h
  where
    go :
        (o : Outcome)
        → EndsBacked memory_ok sta o
        → (elim o [
          | ended es f ↦ some (force_all memory_ok sta f es)
          | refused es ↦ some (false, es)
          | overrun ↦ none
          | unfinished ↦ none
        ])
          ≡ some (true, events')
        → IsRegistered sta connected_ok events'
          × (IsRegistered sta reconnected_ok events' × IsRegistered sta disconnected events')
    go (ended es f) b k = force_all-IsRegistered memory_ok sta f es events' b (cc k)
    go (refused es) b k = absurd (ground (arith, k))
    go overrun b k = absurd (cc k)
    go unfinished b k = absurd (cc k)
