-- ===== src/IfaceManager/Hostap.antt =====
-- daemon/hostap_iface.c: the functions that the manager of the interfaces of hostapd is given.
use dwpal.Common.{
  ℕ, ◌≡◌, sym, subst, Bool, true, false, List, [], ◌++◌, none, some, length, count, arith, All,
  All-map, Option-cases, inl, inr,
}
use dwpal.HostapIface.{
  Event, state_connected, state_disconnected, register_sta_to_events, unregister_sta_from_events,
  send_event,
}
use dwpal.HostapIface.Sound.{Reach, started, unregisters}
use dwpal.HostapIface.Sends.{unregister_sta_from_events-silent}
use dwpal.HostapIface.Closed.{register_sta_to_events-Reach}
use dwpal.IfaceManager.{ManagerApis, Manager}
use dwpal.IfaceManager.Works.{sta_disconnect_work}
use dwpal.IfaceManager.Silent.{Run, sta_disconnect_work-IsSilent}
use dwpal.IfaceManager.Events.{EventLaws}

-- What `dwpal_ext_hostap_interface_attach` returns: DWPAL_SUCCESS, DWPAL_FAILURE or another value.
pub data DwpalRet : Type 0 where
  dwpal_success dwpal_failure dwpal_interface_is_down : DwpalRet

-- `hostap_iface_attach`
unfoldable pub hostap_iface_attach : (List ℕ → DwpalRet) → List ℕ → ℕ → Bool × ℕ
hostap_iface_attach interface_attach ifname state = elim (interface_attach ifname) [
  | dwpal_failure ↦ (false, state)
  | dwpal_success ↦ (true, state_connected)
  | dwpal_interface_is_down ↦ (true, state_disconnected)
]

-- `hostap_register_sta_to_events` on the data of a message, behind which the memory has the bytes `behind`. A
-- read behind these as well counts as a failure.
unfoldable pub register_message :
    (List ℕ → Bool) → List ℕ → List Event → ℕ → List ℕ → Bool × List Event
register_message memory_ok behind events ipsta bytes =
    elim (register_sta_to_events memory_ok ipsta (bytes ++ behind) (length bytes) events) [
      | none ↦ (false, events)
      | some r ↦ r
    ]

-- `apis`: the functions of hostap_iface.c, on those of dwpal_ext.c.
unfoldable pub hostap_apis :
    (List ℕ → Bool) → List ℕ → (List ℕ → DwpalRet) → (ℕ → ℕ → ℕ → Bool) → ManagerApis (List Event)
hostap_apis memory_ok behind interface_attach execute_command = record {
  no_events = [];
  execute_command = execute_command;
  iface_attach = hostap_iface_attach interface_attach;
  register_sta_to_events = register_message memory_ok behind;
  unregister_sta_from_events = λ events ipsta. (true, unregister_sta_from_events ipsta events);
  send_event = send_event;
}

register_message-Reach :
    (memory_ok : List ℕ → Bool) (behind : List ℕ) (events : List Event) (ipsta : ℕ) (bytes : List ℕ)
    → Reach events
    → Reach (register_message memory_ok behind events ipsta bytes).1
unfolding register_message
register_message-Reach memory_ok behind events ipsta bytes h =
    let call = register_sta_to_events memory_ok ipsta (bytes ++ behind) (length bytes) events in
    elim (Option-cases call) [
      | inl outside ↦
          let e : register_message memory_ok behind events ipsta bytes ≡ (false, events) =
            ground (arith, outside) in
          subst (λ z. Reach z.1) (sym e) h
      | inr (r, done) ↦
          let e : register_message memory_ok behind events ipsta bytes ≡ r = ground (arith, done) in
          subst (λ z. Reach z.1) (sym e)
            (register_sta_to_events-Reach memory_ok ipsta (bytes ++ behind) (length bytes) events r
              h done)
    ]

-- The functions of hostap_iface.c keep what the manager relies on.
hostap_laws :
    (memory_ok : List ℕ → Bool) (behind : List ℕ) (interface_attach : List ℕ → DwpalRet)
    (execute_command : ℕ → ℕ → ℕ → Bool)
    → EventLaws (hostap_apis memory_ok behind interface_attach execute_command)
unfolding hostap_apis
hostap_laws memory_ok behind interface_attach execute_command = record {
  IsGood = Reach;
  IsSilent = λ ipsta events.
      (name : List ℕ) (state : ℕ) → count ipsta (send_event name events state).0 ≡ 0;
  no_events-IsGood = started;
  register-IsGood =
      λ events ipsta bytes h. register_message-Reach memory_ok behind events ipsta bytes h;
  unregister-IsGood = λ events ipsta h. unregisters ipsta h;
  unregister-IsSilent =
      λ events ipsta h name state. unregister_sta_from_events-silent ipsta events name state h;
}

module _ (memory_ok : List ℕ → Bool) (behind : List ℕ) (interface_attach : List ℕ → DwpalRet)
    (execute_command : ℕ → ℕ → ℕ → Bool) where
  -- A manager of interfaces of hostapd, from one without registrations on: when the work for a station that has disconnected is
  -- carried out, in any state that the works lead to, then `hostap_send_event` sends that station no event of any interface any
  -- more. It is so whichever calls for memory fail, in the works before and in this one; the nodes of lists are there.
  pub hostap_disconnect-silent :
      (alloc_ok add_ok : List ℕ → Bool) (ipsta : ℕ) (start m : Manager (List Event))
      → Run (hostap_apis memory_ok behind interface_attach execute_command) start m
      → All (λ a. a.events ≡ []) start.attached_ifaces
      → All
          (λ a. (name : List ℕ) (state : ℕ) → count ipsta (send_event name a.events state).0 ≡ 0)
          (sta_disconnect_work
            (hostap_apis memory_ok behind interface_attach execute_command)
            alloc_ok
            add_ok
            ipsta
            m).attached_ifaces
  unfolding hostap_laws
  hostap_disconnect-silent alloc_ok add_ok ipsta start m r fresh =
      sta_disconnect_work-IsSilent (hostap_laws memory_ok behind interface_attach execute_command)
        alloc_ok add_ok ipsta start m r
        (All-map (λ a. a.events ≡ []) (λ a. Reach a.events) start.attached_ifaces
          (λ a e. subst Reach (sym e) started) fresh)
