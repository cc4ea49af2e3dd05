-- ===== src/IfaceManager/Steps.antt =====
-- daemon/iface_manager.c: the works in any order, from a manager with the interfaces that are to stay.
use dwpal.Common.{
  ℕ, ◌-◌, ◌≡◌, refl, sym, ap, subst, Bool, true, false, List, [], ◌∷◌, ◌++◌, Option, none, some,
  length, All-map, arith, Option-cases, if-cases, inl, inr, length-append,
}
use dwpal.IfaceManager.{ManagerApis, AttachedInterface, Manager, find, req_failed}
use dwpal.IfaceManager.Works.{
  CmdWork, DetachWork, iface_attach_work, iface_update_event_work, execute_cmd_work,
  send_event_work, send_to_iface, iface_detach_work, sta_disconnect_work, fail,
}
use dwpal.IfaceManager.Names.{find-All}
use dwpal.IfaceManager.Sound.{
  waits, waits-remove, IsFine, IsKept-map, IsManaged, emit-IsManaged, Weak, IsFine-Weak,
}
use dwpal.IfaceManager.Attach.{
  IsFine-put, iface_attach_work-IsManaged, iface_update_event_work-IsManaged,
}
use dwpal.IfaceManager.Detach.{iface_detach_work-IsDone}
use dwpal.IfaceManager.Disconnect.{sta_disconnect_work-IsManaged}

-- A delayed work that has come up, in the place between two parts of the list, is carried out; then the serializer frees it.
unfoldable pub expire :
    {E : Type 0} → ManagerApis E → List (List ℕ) → List ℕ → List (List ℕ) → Manager E → Manager E
expire apis before ifname after m =
    let m' =
      (iface_detach_work apis true true true (record { ifname = ifname; seq_num = 0; ipsta = none })
        (record m { delayed = before ++ after })).1 in
    record m' { detach_objs = m'.detach_objs - 1 }

module _ {E : Type 0} (apis : ManagerApis E) where
  -- A work that the serializer carries out, with memory for the delayed works that it plans.
  pub data Step : Manager E → Manager E → Type 0 where
    attaches :
        (alloc_ok resp_ok : Bool) (w : CmdWork) (m : Manager E)
        → Step m (iface_attach_work apis alloc_ok resp_ok w m).1
    updates :
        (resp_ok : Bool) (w : CmdWork) (m : Manager E)
        → Step m (iface_update_event_work apis resp_ok w m).1
    executes : (w : CmdWork) (m : Manager E) → Step m (execute_cmd_work apis w m).1
    sends :
        (event : ℕ) (ifname : List ℕ) (info : Option (List ℕ)) (m : Manager E)
        → Step m (send_event_work apis event ifname info m).1
    detaches :
        (resp_ok : Bool) (w : DetachWork) (ipsta : ℕ) (m : Manager E)
        → w.ipsta ≡ some ipsta
        → Step m (iface_detach_work apis true true resp_ok w m).1
    expires :
        (before after : List (List ℕ)) (ifname : List ℕ) (m : Manager E)
        → m.delayed ≡ before ++ (ifname ∷ after)
        → Step m (expire apis before ifname after m)
    disconnects :
        (ipsta : ℕ) (m : Manager E)
        → Step m (sta_disconnect_work apis (λ _. true) (λ _. true) ipsta m)

  pub data Reach (start : Manager E) : Manager E → Type 0 where
    begun : Reach start start
    goes : {m m' : Manager E} → Reach start m → Step m m' → Reach start m'

  execute_cmd_work-IsManaged :
      (w : CmdWork) (m : Manager E) → IsManaged m → IsManaged (execute_cmd_work apis w m).1
  unfolding execute_cmd_work
  execute_cmd_work-IsManaged w m v =
      if-cases (λ (r : Bool × Manager E). IsManaged r.1)
        (apis.execute_command w.cmd w.ipsta w.seq_num) (true, m) (fail w m) (λ _. v)
        (λ _. emit-IsManaged (req_failed w.ipsta w.seq_num ∷ []) m v)

  send_to_iface-IsManaged :
      (event : ℕ) (ifname : List ℕ) (info : Option (List ℕ)) (a : AttachedInterface E)
      (m : Manager E)
      → find ifname m.attached_ifaces ≡ some a
      → IsManaged m
      → IsManaged (send_to_iface apis event ifname info a m).1
  unfolding send_to_iface
  send_to_iface-IsManaged event ifname none a m found v = record {
    distinct = v.distinct;
    fine = v.fine;
    objs = v.objs;
  }
  send_to_iface-IsManaged event ifname (some i) a m found v =
      let a' : AttachedInterface E = record a { state = (apis.send_event i a.events a.state).1 } in
      let old = find-All (IsFine m.delayed) ifname m.attached_ifaces a found v.fine in
      let p =
        IsFine-put apis m.delayed ifname a a' m.attached_ifaces found refl v.distinct v.fine
          old.0 in
      record { distinct = p.0; fine = p.1; objs = v.objs }

  send_event_work-IsManaged :
      (event : ℕ) (ifname : List ℕ) (info : Option (List ℕ)) (m : Manager E)
      → IsManaged m
      → IsManaged (send_event_work apis event ifname info m).1
  unfolding send_event_work
  send_event_work-IsManaged event ifname info m v =
      elim (Option-cases (find ifname m.attached_ifaces)) [
        | inl gone ↦
            let e : send_event_work apis event ifname info m ≡ (false, m) = ground (arith, gone) in
            subst (λ r. IsManaged r.1) (sym e) v
        | inr (a, found) ↦
            let e : send_event_work apis event ifname info m
                ≡ send_to_iface apis event ifname info a m =
              ground (arith, found) in
            subst (λ r. IsManaged r.1) (sym e)
              (send_to_iface-IsManaged event ifname info a m found v)
      ]

  detach-IsManaged :
      (resp_ok : Bool) (w : DetachWork) (m : Manager E)
      → IsManaged m
      → IsManaged (iface_detach_work apis true true resp_ok w m).1
  detach-IsManaged resp_ok w m v =
      let d = iface_detach_work-IsDone apis resp_ok w 0 m (record {
        distinct = v.distinct;
        weak = IsFine-Weak m.delayed w.ifname m.attached_ifaces v.fine;
        objs = omega (arith, v.objs);
      }) in
      record { distinct = d.distinct; fine = d.fine; objs = omega (arith, d.objs) }

  expire-IsManaged :
      (before after : List (List ℕ)) (ifname : List ℕ) (m : Manager E)
      → m.delayed ≡ before ++ (ifname ∷ after)
      → IsManaged m
      → IsManaged (expire apis before ifname after m)
  unfolding expire Weak
  expire-IsManaged before after ifname m e v =
      let w : DetachWork = record { ifname = ifname; seq_num = 0; ipsta = none } in
      let d =
        iface_detach_work-IsDone apis true w 1 (record m { delayed = before ++ after })
          (record {
            distinct = v.distinct;
            weak =
                All-map (IsFine m.delayed) (Weak (before ++ after) ifname) m.attached_ifaces
                  (λ b q. (
                    q.0,
                    (λ o.
                        IsKept-map m.delayed (before ++ after) b
                          (λ h.
                            waits-remove b.ifname ifname before after o
                              (subst (λ d. waits b.ifname d ≡ true) e h))
                          q.1),
                  ))
                  v.fine;
            objs = omega (
              arith,
              v.objs,
              ap length e,
              length-append before (ifname ∷ after),
              length-append before after,
            );
          }) in
      record { distinct = d.distinct; fine = d.fine; objs = omega (arith, d.objs) }

  Step-IsManaged : (m m' : Manager E) → Step m m' → IsManaged m → IsManaged m'
  Step-IsManaged m _ (attaches alloc_ok resp_ok w _) v =
      iface_attach_work-IsManaged apis alloc_ok resp_ok w m v
  Step-IsManaged m _ (updates resp_ok w _) v = iface_update_event_work-IsManaged apis resp_ok w m v
  Step-IsManaged m _ (executes w _) v = execute_cmd_work-IsManaged w m v
  Step-IsManaged m _ (sends event ifname info _) v = send_event_work-IsManaged event ifname info m v
  Step-IsManaged m _ (detaches resp_ok w ipsta _ _) v = detach-IsManaged resp_ok w m v
  Step-IsManaged m _ (expires before after ifname _ e) v =
      expire-IsManaged before after ifname m e v
  Step-IsManaged m _ (disconnects ipsta _) v = (sta_disconnect_work-IsManaged apis ipsta m v).0

  -- From a manager that is as it should be, in whatever order the works are carried out, with memory for the delayed works that they plan: no two
  -- interfaces have the same name, no client is twice on the list of an interface, and an interface that is not to stay and has no client left has a delayed work
  -- that will detach it.
  pub Reach-IsManaged : (start m : Manager E) → Reach start m → IsManaged start → IsManaged m
  Reach-IsManaged start _ begun v = v
  Reach-IsManaged start _ (goes {m} {m'} r s) v =
      Step-IsManaged m m' s (Reach-IsManaged start m r v)
