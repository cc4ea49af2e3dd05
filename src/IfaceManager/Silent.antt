-- ===== src/IfaceManager/Silent.antt =====
-- daemon/iface_manager.c: the events of the interfaces, whatever works are carried out, and those of a station
-- that has disconnected.
use dwpal.Common.{
  ℕ, ◌-◌, ◌≡◌, sym, subst, Bool, true, false, List, [], ◌∷◌, ◌++◌, Option, none, some, All, arith,
  Bool-cases, Option-cases, if-cases, inl, inr,
}
use dwpal.IfaceManager.{ManagerApis, AttachedInterface, Manager, find, is_unused}
use dwpal.IfaceManager.Works.{
  CmdWork, iface_attach_work, iface_update_event_work, DetachWork, execute_cmd_work,
  send_event_work, send_to_iface, leave, detach_client, detach_unused, iface_detach_work,
  plan_detach, disconnect_loop, sta_disconnect_work, fail,
}
use dwpal.IfaceManager.Events.{
  EventLaws, AreGood, put-AreGood, drop_iface-AreGood, found-IsGood, iface_attach_work-AreGood,
  iface_update_event_work-AreGood,
}

module _ {E : Type 0} (apis : ManagerApis E) where
  -- A work that the serializer carries out, whichever calls for memory fail.
  pub data Step : Manager E → Manager E → Type 0 where
    attaches :
        (alloc_ok resp_ok : Bool) (w : CmdWork) (m : Manager E)
        → Step m (iface_attach_work apis alloc_ok resp_ok w m).1
    updates :
        (resp_ok : Bool) (w : CmdWork) (m : Manager E)
        → Step m (iface_update_event_work apis resp_ok w m).1
    executes : (w : CmdWork) (m : Manager E) → Step m (execute_cmd_work apis w m).1
    sends :
        (event : ℕ) (ifname : List ℕ) (info : Option (List ℕ)) (m : Manager E)
        → Step m (send_event_work apis event ifname info m).1
    detaches :
        (alloc_ok add_ok resp_ok : Bool) (w : DetachWork) (m : Manager E)
        → Step m (iface_detach_work apis alloc_ok add_ok resp_ok w m).1
    expires :
        (alloc_ok add_ok resp_ok : Bool) (before after : List (List ℕ)) (ifname : List ℕ)
        (m : Manager E)
        → m.delayed ≡ before ++ (ifname ∷ after)
        → Step m (
            let m' =
              (iface_detach_work apis alloc_ok add_ok resp_ok
                (record { ifname = ifname; seq_num = 0; ipsta = none })
                (record m { delayed = before ++ after })).1 in
            record m' { detach_objs = m'.detach_objs - 1 })
    disconnects :
        (alloc_ok add_ok : List ℕ → Bool) (ipsta : ℕ) (m : Manager E)
        → Step m (sta_disconnect_work apis alloc_ok add_ok ipsta m)

  pub data Run (start : Manager E) : Manager E → Type 0 where
    begun : Run start start
    goes : {m m' : Manager E} → Run start m → Step m m' → Run start m'

module _ {E : Type 0} {apis : ManagerApis E} (laws : EventLaws apis) where
  iface_detach_work-AreGood :
      (add_ok resp_ok : Bool) (w : DetachWork) (m : Manager E)
      → AreGood laws m.attached_ifaces
      → AreGood laws (iface_detach_work apis true add_ok resp_ok w m).1.attached_ifaces
  unfolding iface_detach_work detach_client detach_unused leave
  iface_detach_work-AreGood add_ok resp_ok w m h =
      elim (Option-cases (find w.ifname m.attached_ifaces)) [
        | inl gone ↦ elim (Option-cases w.ipsta) [
          | inl own ↦ rw (gone, own) h
          | inr (ipsta, client) ↦ rw (gone, client) h
        ]
        | inr (a, found) ↦ elim (Option-cases w.ipsta) [
          | inl own ↦ elim (Bool-cases (is_unused a)) [
            | inl unused ↦
                rw (found, own, unused) (drop_iface-AreGood laws w.ifname m.attached_ifaces h)
            | inr used ↦ rw (found, own, used) h
          ]
          | inr (ipsta, client) ↦
              let a' = leave apis ipsta a in
              let g =
                laws.unregister-IsGood a.events ipsta
                  (found-IsGood laws w.ifname m.attached_ifaces a found h) in
              elim (Bool-cases resp_ok) [
                | inl ok ↦
                    rw (found, client, ok) (put-AreGood laws w.ifname a' m.attached_ifaces h g)
                | inr short ↦
                    rw (found, client, short) (put-AreGood laws w.ifname a' m.attached_ifaces h g)
              ]
        ]
      ]

  any_detach-AreGood :
      (alloc_ok add_ok resp_ok : Bool) (w : DetachWork) (m : Manager E)
      → AreGood laws m.attached_ifaces
      → AreGood laws (iface_detach_work apis alloc_ok add_ok resp_ok w m).1.attached_ifaces
  any_detach-AreGood true add_ok resp_ok w m h = iface_detach_work-AreGood add_ok resp_ok w m h
  any_detach-AreGood false add_ok resp_ok w m h = unfold iface_detach_work in h

  disconnect_loop-AreGood :
      (alloc_ok add_ok : List ℕ → Bool) (ipsta : ℕ) (l : List (AttachedInterface E))
      (d : List (List ℕ) × ℕ)
      → AreGood laws l
      → AreGood laws (disconnect_loop apis alloc_ok add_ok ipsta l d).0
        × All (λ a. laws.IsSilent ipsta a.events) (disconnect_loop apis alloc_ok add_ok ipsta l d).0
  unfolding disconnect_loop leave
  disconnect_loop-AreGood alloc_ok add_ok ipsta [] d h = (tt, tt)
  disconnect_loop-AreGood alloc_ok add_ok ipsta (a ∷ l) d h =
      let ih =
        disconnect_loop-AreGood alloc_ok add_ok ipsta l
          (plan_detach apis (alloc_ok a.ifname) (add_ok a.ifname) (leave apis ipsta a) d) h.1 in
      (
        (laws.unregister-IsGood a.events ipsta h.0, ih.0),
        (laws.unregister-IsSilent a.events ipsta h.0, ih.1),
      )

  send_to_iface-AreGood :
      (event : ℕ) (ifname : List ℕ) (info : Option (List ℕ)) (a : AttachedInterface E)
      (m : Manager E)
      → laws.IsGood a.events
      → AreGood laws m.attached_ifaces
      → AreGood laws (send_to_iface apis event ifname info a m).1.attached_ifaces
  unfolding send_to_iface
  send_to_iface-AreGood event ifname none a m g h = h
  send_to_iface-AreGood event ifname (some i) a m g h =
      put-AreGood laws ifname (record a { state = (apis.send_event i a.events a.state).1 })
        m.attached_ifaces h g

  Step-AreGood :
      (m m' : Manager E)
      → Step apis m m'
      → AreGood laws m.attached_ifaces
      → AreGood laws m'.attached_ifaces
  unfolding send_event_work execute_cmd_work sta_disconnect_work
  Step-AreGood m _ (attaches alloc_ok resp_ok w _) h =
      iface_attach_work-AreGood laws alloc_ok resp_ok w m h
  Step-AreGood m _ (updates resp_ok w _) h = iface_update_event_work-AreGood laws resp_ok w m h
  Step-AreGood m _ (executes w _) h =
      if-cases (λ (r : Bool × Manager E). AreGood laws r.1.attached_ifaces)
        (apis.execute_command w.cmd w.ipsta w.seq_num) (true, m) (fail w m) (λ _. h) (λ _. h)
  Step-AreGood m _ (sends event ifname info _) h =
      elim (Option-cases (find ifname m.attached_ifaces)) [
        | inl gone ↦
            let e : send_event_work apis event ifname info m ≡ (false, m) = ground (arith, gone) in
            subst (λ r. AreGood laws r.1.attached_ifaces) (sym e) h
        | inr (a, found) ↦
            let e : send_event_work apis event ifname info m
                ≡ send_to_iface apis event ifname info a m =
              ground (arith, found) in
            subst (λ r. AreGood laws r.1.attached_ifaces) (sym e)
              (send_to_iface-AreGood event ifname info a m
                (found-IsGood laws ifname m.attached_ifaces a found h) h)
      ]
  Step-AreGood m _ (detaches alloc_ok add_ok resp_ok w _) h =
      any_detach-AreGood alloc_ok add_ok resp_ok w m h
  Step-AreGood m _ (expires alloc_ok add_ok resp_ok before after ifname _ e) h =
      any_detach-AreGood alloc_ok add_ok resp_ok
        (record { ifname = ifname; seq_num = 0; ipsta = none })
        (record m { delayed = before ++ after }) h
  Step-AreGood m _ (disconnects alloc_ok add_ok ipsta _) h =
      (disconnect_loop-AreGood alloc_ok add_ok ipsta m.attached_ifaces (m.delayed, m.detach_objs)
        h).0

  Run-AreGood :
      (start m : Manager E)
      → Run apis start m
      → AreGood laws start.attached_ifaces
      → AreGood laws m.attached_ifaces
  Run-AreGood start _ begun h = h
  Run-AreGood start _ (goes {m} {m'} r s) h = Step-AreGood m m' s (Run-AreGood start m r h)

  -- After the work for a station that has disconnected, in any state that works lead to, no interface has an event
  -- for the station, whether or not there is memory for the delayed works.
  pub sta_disconnect_work-IsSilent :
      (alloc_ok add_ok : List ℕ → Bool) (ipsta : ℕ) (start m : Manager E)
      → Run apis start m
      → AreGood laws start.attached_ifaces
      → All
          (λ a. laws.IsSilent ipsta a.events)
          (sta_disconnect_work apis alloc_ok add_ok ipsta m).attached_ifaces
  unfolding sta_disconnect_work
  sta_disconnect_work-IsSilent alloc_ok add_ok ipsta start m r h =
      (disconnect_loop-AreGood alloc_ok add_ok ipsta m.attached_ifaces (m.delayed, m.detach_objs)
        (Run-AreGood start m r h)).1
