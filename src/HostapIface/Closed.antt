-- ===== src/HostapIface/Closed.antt =====
-- daemon/hostap_iface.c: a request for several events as registrations for one event each.
use dwpal.Common.{
  ℕ, zero, suc, ◌+◌, ◌<◌, ◌≡◌, subst, Bool, true, false, List, none, some, length, take, drop,
  get_or, arith,
}
use dwpal.Hostap.{c_str}
use dwpal.HostapIface.{
  Event, register_sta_to_events, op_code_size, Flags, no_flags, mark, force, force_all,
  connected_ok, reconnected_ok, disconnected, Outcome, ended, refused, overrun, unfinished,
  register_loop,
}
use dwpal.HostapIface.Sound.{Reach, registers}
use dwpal.HostapIface.Request.{register_loop-turn}
use dwpal.HostapIface.Forced.{length-c_str, length-take}

-- The events that an end of the loop leaves.
IsReached : Outcome → Type 0
IsReached (ended events f) = Reach events
IsReached (refused events) = Reach events
IsReached overrun = Unit
IsReached unfinished = Unit

module _ (memory_ok : List ℕ → Bool) (sta : ℕ) where
  register_loop-IsReached :
      (buffer : List ℕ) (len fuel i : ℕ) (events : List Event) (f : Flags)
      → Reach events
      → IsReached (register_loop memory_ok sta buffer len fuel i events f)
  unfolding IsReached register_loop
  register_loop-IsReached buffer len zero i events f r = tt
  register_loop-IsReached buffer len (suc fuel) i events f r =
      register_loop-turn memory_ok sta buffer len IsReached fuel i events f r tt r
        (λ inside more fits.
          let n = get_or buffer i 0 in
          let op_code = c_str (take n (drop (i + 1) buffer)) in
          let short : length op_code < op_code_size = omega (
            arith,
            length-c_str (take n (drop (i + 1) buffer)),
            length-take n (drop (i + 1) buffer),
          ) in
          let r' = registers memory_ok sta op_code short r in
          (r', (λ ok. register_loop-IsReached buffer len fuel (i + 1 + n) _ (mark op_code f) r')))

  force-Reach :
      (flag : Bool) (name : List ℕ) (s : Bool × List Event)
      → length name < op_code_size
      → Reach s.1
      → Reach (force memory_ok sta flag name s).1
  unfolding force
  force-Reach flag name (false, events) short r = r
  force-Reach true name (true, events) short r = r
  force-Reach false name (true, events) short r = registers memory_ok sta name short r

  force_all-Reach :
      (f : Flags) (events : List Event) → Reach events → Reach (force_all memory_ok sta f events).1
  unfolding force_all
  force_all-Reach f events r = force-Reach f.has_disconnected disconnected _ (omega arith) (
      force-Reach f.has_reconnected reconnected_ok _ (omega arith)
        (force-Reach f.has_connected connected_ok (true, events) (omega arith) r))

  -- The events that `hostap_register_sta_to_events` leaves, whether it succeeds or not, are such as registrations for one event
  -- each can leave.
  pub register_sta_to_events-Reach :
      (buffer : List ℕ) (len : ℕ) (events : List Event) (r : Bool × List Event)
      → Reach events
      → register_sta_to_events memory_ok sta buffer len events ≡ some r
      → Reach r.1
  unfolding register_sta_to_events IsReached
  register_sta_to_events-Reach buffer len events r h e =
      go (register_loop memory_ok sta buffer len (len + 1) 0 events no_flags)
        (register_loop-IsReached buffer len (len + 1) 0 events no_flags h) e
    where
      go :
          (o : Outcome)
          → IsReached o
          → (elim o [
            | ended es f ↦ some (force_all memory_ok sta f es)
            | refused es ↦ some (false, es)
            | overrun ↦ none
            | unfinished ↦ none
          ])
            ≡ some r
          → Reach r.1
      go (ended es f) b k =
          let same : force_all memory_ok sta f es ≡ r = cc k in
          subst (λ z. Reach z.1) same (force_all-Reach f es b)
      go (refused es) b k = let same : (false, es) ≡ r = cc k in subst (λ z. Reach z.1) same b
      go overrun b k = absurd (cc k)
      go unfinished b k = absurd (cc k)
