-- ===== src/IfaceManager/Works.antt =====
-- daemon/iface_manager.c: the works of the manager, which its serializer executes one after the other.
use dwpal.Common.{
  ℕ, ◌+◌, ◌-◌, Bool, true, false, not, ◌&&◌, List, [], ◌∷◌, ◌++◌, Option, none, some, if◌then◌else◌,
  ltb, ◌==◌, length, take, drop, without, map,
}
use dwpal.Hostap.{c_str}
use dwpal.IfaceManager.{
  ifname_size, ManagerApis, Output, attach_resp, update_event_resp, detach_resp, req_failed,
  event_sent, detached, AttachedInterface, Manager, emit, find, put, drop_iface, is_unused, cancel,
}

-- `cmd_work`: the data of its message, and who sent it.
pub record CmdWork : Type 0 where
  pub cmd : ℕ
  pub data_of : List ℕ
  pub seq_num : ℕ
  pub ipsta : ℕ

-- `detach_work`; the manager's own have no station.
pub record DetachWork : Type 0 where
  pub ifname : List ℕ
  pub seq_num : ℕ
  pub ipsta : Option ℕ

-- The name at the start of a message's data.
abbrev pub name_of : List ℕ → List ℕ
name_of bytes = c_str (take (ifname_size - 1) bytes)

module _ {E : Type 0} where
  -- The failure of a request.
  abbrev pub fail : CmdWork → Manager E → Bool × Manager E
  fail w m = (false, emit (req_failed w.ipsta w.seq_num ∷ []) m)

  -- The end of a request that has gone well or not; `resp_ok` says that there is a message for the answer.
  abbrev pub answer : Bool → Bool → CmdWork → Output → Manager E → Bool × Manager E
  answer ok resp_ok w o m =
      if not ok then fail w m else if not resp_ok then fail w m else (true, emit (o ∷ []) m)

module _ {E : Type 0} (apis : ManagerApis E) where
  -- `execute_cmd_work`
  unfoldable pub execute_cmd_work : CmdWork → Manager E → Bool × Manager E
  execute_cmd_work w m =
      if apis.execute_command w.cmd w.ipsta w.seq_num then (true, m) else fail w m

  -- `send_event_work`, once it has found the interface: without `info` to the clients of the interface, else to
  -- whom `send_event` finds; its result is 0, the only one that `hostap_send_event` has.
  unfoldable pub send_to_iface :
      ℕ → List ℕ → Option (List ℕ) → AttachedInterface E → Manager E → Bool × Manager E
  send_to_iface event ifname none a m =
      (true, emit (map (λ ipsta. event_sent event ipsta) a.attached_clients) m)
  send_to_iface event ifname (some i) a m =
      let (to, state') = apis.send_event i a.events a.state in
      (
        true,
        emit (map (λ ipsta. event_sent event ipsta) to) (record m {
          attached_ifaces = put ifname (record a { state = state' }) m.attached_ifaces;
        }),
      )

  -- `send_event_work`
  unfoldable pub send_event_work : ℕ → List ℕ → Option (List ℕ) → Manager E → Bool × Manager E
  send_event_work event ifname info m = elim (find ifname m.attached_ifaces) [
    | none ↦ (false, m)
    | some a ↦ send_to_iface event ifname info a m
  ]

  -- An interface that is attached for the first time; `alloc_ok` says that `calloc` and `list_init` succeed.
  unfoldable pub attach_new :
      Bool
      → List ℕ
      → List (AttachedInterface E)
      → Option (AttachedInterface E) × List (AttachedInterface E)
  attach_new alloc_ok ifname ifaces =
      let (ok, state') = apis.iface_attach ifname 0 in
      let a : AttachedInterface E = record {
        ifname = ifname;
        state = state';
        events = apis.no_events;
        attached_clients = [];
        keep_attached = false;
      } in
      if not alloc_ok
      then (none, ifaces)
      else if not ok
      then (none, ifaces)
      else (some a, ifaces ++ a ∷ [])

  -- One that is attached already.
  unfoldable pub attach_known :
      AttachedInterface E
      → List ℕ
      → List (AttachedInterface E)
      → Option (AttachedInterface E) × List (AttachedInterface E)
  attach_known a ifname ifaces =
      let (ok, state') = apis.iface_attach ifname a.state in
      let a' = record a { state = state' } in
      if ok then (some a', put ifname a' ifaces) else (none, put ifname a' ifaces)

  -- The first part of `iface_attach_work`: the interface, and the list with it; `none` for a failure.
  unfoldable pub attach_iface :
      Bool
      → List ℕ
      → List (AttachedInterface E)
      → Option (AttachedInterface E) × List (AttachedInterface E)
  attach_iface alloc_ok ifname ifaces = elim (find ifname ifaces) [
    | none ↦ attach_new alloc_ok ifname ifaces
    | some a ↦ attach_known a ifname ifaces
  ]

  -- The registration for the events that a request asks for, if any.
  unfoldable pub register_events : ℕ → List ℕ → AttachedInterface E → Bool × AttachedInterface E
  register_events ipsta bytes a =
      let (ok, events') = apis.register_sta_to_events a.events ipsta bytes in
      if length bytes == 0 then (true, a) else (ok, record a { events = events' })

  -- The rest of `iface_attach_work`, for the interface `a` in the list.
  unfoldable pub attach_client : Bool → CmdWork → AttachedInterface E → Manager E → Bool × Manager E
  attach_client resp_ok w a m =
      let clients = without w.ipsta a.attached_clients ++ w.ipsta ∷ [] in
      let (ok, a') =
        register_events w.ipsta (drop ifname_size w.data_of)
          (record a { attached_clients = clients }) in
      let m' = record m { attached_ifaces = put (name_of w.data_of) a' m.attached_ifaces } in
      answer ok resp_ok w (attach_resp w.ipsta w.seq_num a'.state) m'

  unfoldable pub after_attach :
      Bool → CmdWork → Option (AttachedInterface E) → Manager E → Bool × Manager E
  after_attach resp_ok w none m = fail w m
  after_attach resp_ok w (some a) m = attach_client resp_ok w a m

  -- `iface_attach_work`
  unfoldable pub iface_attach_work : Bool → Bool → CmdWork → Manager E → Bool × Manager E
  iface_attach_work alloc_ok resp_ok w m =
      let (found, ifaces) = attach_iface alloc_ok (name_of w.data_of) m.attached_ifaces in
      if ltb (length w.data_of) ifname_size
      then fail w m
      else after_attach resp_ok w found (record m { attached_ifaces = ifaces })

  -- The events of `iface_update_event_work`.
  unfoldable pub update_events : ℕ → List ℕ → AttachedInterface E → Bool × AttachedInterface E
  update_events ipsta bytes a =
      let (gone, events') = apis.unregister_sta_from_events a.events ipsta in
      let (ok, events'') = apis.register_sta_to_events events' ipsta bytes in
      if length bytes == 0
      then (true, a)
      else if gone
      then (ok, record a { events = events'' })
      else (false, record a { events = events' })

  -- The rest of `iface_update_event_work`, for the interface that it found.
  unfoldable pub update_client : Bool → CmdWork → AttachedInterface E → Manager E → Bool × Manager E
  update_client resp_ok w a m =
      let (ok, a') = update_events w.ipsta (drop ifname_size w.data_of) a in
      let m' = record m { attached_ifaces = put (name_of w.data_of) a' m.attached_ifaces } in
      answer ok resp_ok w (update_event_resp w.ipsta w.seq_num) m'

  -- `iface_update_event_work`
  unfoldable pub iface_update_event_work : Bool → CmdWork → Manager E → Bool × Manager E
  iface_update_event_work resp_ok w m =
      let ifname = name_of w.data_of in
      if ltb (length w.data_of) ifname_size
      then fail w m
      else elim (find ifname m.attached_ifaces) [
        | none ↦ fail w m
        | some a ↦ update_client resp_ok w a m
      ]

  -- A station that leaves an interface.
  unfoldable pub leave : ℕ → AttachedInterface E → AttachedInterface E
  leave ipsta a = record a {
    events = (apis.unregister_sta_from_events a.events ipsta).1;
    attached_clients = without ipsta a.attached_clients;
  }

  -- `iface_detach_work` for a station, once the interface is found. `add_ok` says that the delayed work is added; the
  -- object of one that is not added is never freed.
  unfoldable pub detach_client :
      Bool → Bool → DetachWork → ℕ → AttachedInterface E → Manager E → Bool × Manager E
  detach_client add_ok resp_ok w ipsta a m =
      let a' = leave ipsta a in
      let m' = record m {
        attached_ifaces = put w.ifname a' m.attached_ifaces;
        delayed = if is_unused a' && add_ok then m.delayed ++ w.ifname ∷ [] else m.delayed;
      } in
      if resp_ok then (true, emit (detach_resp ipsta w.seq_num ∷ []) m') else (false, m')

  -- The rest of `iface_detach_work` for a work of the manager's own.
  unfoldable pub detach_unused : DetachWork → AttachedInterface E → Manager E → Bool × Manager E
  detach_unused w a m =
      let m' = record m { detach_objs = m.detach_objs - 1 } in
      if is_unused a
      then (
        true,
        emit (detached w.ifname ∷ [])
            (record m' { attached_ifaces = drop_iface w.ifname m.attached_ifaces }),
      )
      else (true, m')

  -- `iface_detach_work`; `alloc_ok` says that the `calloc` of `future_detach` succeeds.
  unfoldable pub iface_detach_work : Bool → Bool → Bool → DetachWork → Manager E → Bool × Manager E
  iface_detach_work alloc_ok add_ok resp_ok w m =
      let left = cancel w.ifname m.delayed in
      let m' = record m {
        delayed = left;
        detach_objs = m.detach_objs + 1 - (length m.delayed - length left);
      } in
      if not alloc_ok then (false, m) else elim (find w.ifname m.attached_ifaces) [
        | none ↦
            let m'' = record m' { detach_objs = m'.detach_objs - 1 } in
            elim w.ipsta [
              | none ↦ (false, m'')
              | some ipsta ↦ (false, emit (req_failed ipsta w.seq_num ∷ []) m'')
            ]
        | some a ↦ elim w.ipsta [
          | none ↦ detach_unused w a m'
          | some ipsta ↦ detach_client add_ok resp_ok w ipsta a m'
        ]
      ]

  -- The body of the loop of `sta_disconnect_work`, on the interface that the station has left: the delayed works,
  -- and the number of objects.
  unfoldable pub plan_detach :
      Bool → Bool → AttachedInterface E → List (List ℕ) × ℕ → List (List ℕ) × ℕ
  plan_detach alloc_ok add_ok a (delayed, objs) =
      let left = cancel a.ifname delayed in
      if not (is_unused a) then (delayed, objs) else if not alloc_ok then (delayed, objs) else (
        (if add_ok then left ++ a.ifname ∷ [] else left),
        objs + 1 - (length delayed - length left),
      )

  -- The loop of `sta_disconnect_work`; `alloc_ok` and `add_ok` say for which interfaces the calls succeed.
  unfoldable pub disconnect_loop :
      (List ℕ → Bool)
      → (List ℕ → Bool)
      → ℕ
      → List (AttachedInterface E)
      → List (List ℕ) × ℕ
      → List (AttachedInterface E) × (List (List ℕ) × ℕ)
  disconnect_loop alloc_ok add_ok ipsta [] d = ([], d)
  disconnect_loop alloc_ok add_ok ipsta (a ∷ others) d =
      let a' = leave ipsta a in
      let (others', d') =
        disconnect_loop alloc_ok add_ok ipsta others
          (plan_detach (alloc_ok a.ifname) (add_ok a.ifname) a' d) in
      (a' ∷ others', d')

  -- `sta_disconnect_work`
  unfoldable pub sta_disconnect_work : (List ℕ → Bool) → (List ℕ → Bool) → ℕ → Manager E → Manager E
  sta_disconnect_work alloc_ok add_ok ipsta m =
      let (ifaces, (delayed', objs)) =
        disconnect_loop alloc_ok add_ok ipsta m.attached_ifaces (m.delayed, m.detach_objs) in
      record m { attached_ifaces = ifaces; delayed = delayed'; detach_objs = objs }
