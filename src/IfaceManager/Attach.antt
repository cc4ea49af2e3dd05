-- ===== src/IfaceManager/Attach.antt =====
-- daemon/iface_manager.c: the works that attach a client to an interface or change what it gets.
use dwpal.Common.{
  ℕ, ◌≤◌, ◌≡◌, refl, sym, ap, subst, Bool, false, not, List, [], ◌∷◌, ◌++◌, Option, none, some,
  if◌then◌else◌, ltb, ◌==◌, length, All, All-append, without, drop, arith, Bool-cases, Option-cases,
  if-cases, inl, inr, length-append,
}
use dwpal.HostapIface.Names.{is_same_refl}
use dwpal.IfaceManager.{
  ifname_size, ManagerApis, AttachedInterface, Manager, find, put, req_failed, attach_resp,
  update_event_resp,
}
use dwpal.IfaceManager.Works.{
  CmdWork, name_of, attach_iface, attach_new, attach_known, register_events, attach_client,
  after_attach, update_client, iface_attach_work, update_events, iface_update_event_work, fail,
}
use dwpal.IfaceManager.Names.{
  IsDistinct, names, find-All, names-put, All-put, find-put, find-append, append-IsDistinct,
}
use dwpal.IfaceManager.Sound.{
  IsOnce, rejoin-IsOnce, IsFine, IsManaged, emit-IsManaged, same-IsFine, Weak, IsFine-Weak,
  answer-IsManaged,
}

module _ {E : Type 0} (apis : ManagerApis E) where
  -- The list with a changed interface in the place of the one that was found.
  pub IsFine-put :
      (d : List (List ℕ)) (ifname : List ℕ) (a a' : AttachedInterface E)
      (l : List (AttachedInterface E))
      → find ifname l ≡ some a
      → a'.ifname ≡ a.ifname
      → IsDistinct (names l)
      → All (IsFine d) l
      → IsFine d a'
      → IsDistinct (names (put ifname a' l)) × All (IsFine d) (put ifname a' l)
  IsFine-put d ifname a a' l h e dist fine new = (
    subst IsDistinct (sym (names-put ifname a a' l h e)) dist,
    All-put (IsFine d) (IsFine d) ifname a' l dist (λ b o p. p) fine new,
  )

  -- What the first part of an attachment leaves: a list that is fine but for the interface found.
  Attached :
      List (List ℕ) → List ℕ → Option (AttachedInterface E) × List (AttachedInterface E) → Type 0
  Attached d ifname (none, l) = IsDistinct (names l) × All (IsFine d) l
  Attached d ifname (some a, l) =
      (find ifname l ≡ some a)
      × (IsOnce a.attached_clients × (IsDistinct (names l) × All (Weak d ifname) l))

  module _ (d : List (List ℕ)) (ifname : List ℕ) (l : List (AttachedInterface E))
      (dist : IsDistinct (names l)) (fine : All (IsFine d) l) where
    attach_new-Attached :
        (alloc_ok : Bool)
        → find ifname l ≡ none
        → Attached d ifname (attach_new apis alloc_ok ifname l)
    unfolding Attached attach_new Weak
    attach_new-Attached alloc_ok gone =
        let new : AttachedInterface E = record {
          ifname = ifname;
          state = (apis.iface_attach ifname 0).1;
          events = apis.no_events;
          attached_clients = [];
          keep_attached = false;
        } in
        let attached : Attached d ifname (some new, l ++ new ∷ []) = (
          find-append l new gone,
          (
            (λ x. omega arith),
            (
              append-IsDistinct l new gone dist,
              All-append (Weak d ifname) l (new ∷ []) (IsFine-Weak d ifname l fine) (
                (
                  (λ x. omega arith),
                  (λ o. absurd (ground (arith, o, is_same_refl ifname_size ifname))),
                ),
                tt,
              ),
            ),
          ),
        ) in
        let inner : Option (AttachedInterface E) × List (AttachedInterface E) =
          if not (apis.iface_attach ifname 0).0 then (none, l) else (some new, l ++ new ∷ []) in
        if-cases (Attached d ifname) (not alloc_ok) (none, l) inner (λ _. (dist, fine))
          (λ _.
            if-cases (Attached d ifname) (not (apis.iface_attach ifname 0).0) (none, l)
              (some new, l ++ new ∷ []) (λ _. (dist, fine)) (λ _. attached))

    attach_known-Attached :
        (a : AttachedInterface E)
        → find ifname l ≡ some a
        → Attached d ifname (attach_known apis a ifname l)
    unfolding Attached attach_known
    attach_known-Attached a found =
        let a' : AttachedInterface E = record a { state = (apis.iface_attach ifname a.state).1 } in
        let old = find-All (IsFine d) ifname l a found fine in
        let r = IsFine-put d ifname a a' l found refl dist fine old.0 in
        if-cases (Attached d ifname) (apis.iface_attach ifname a.state).0 (some a', put ifname a' l)
          (none, put ifname a' l)
          (λ _. (
            find-put ifname a a' l found refl,
            (old.0.0, (r.0, IsFine-Weak d ifname (put ifname a' l) r.1)),
          ))
          (λ _. r)

    attach_iface-Attached :
        (alloc_ok : Bool) → Attached d ifname (attach_iface apis alloc_ok ifname l)
    attach_iface-Attached alloc_ok = elim (Option-cases (find ifname l)) [
      | inl gone ↦
          let e : attach_iface apis alloc_ok ifname l ≡ attach_new apis alloc_ok ifname l =
            unfold attach_iface in ground (arith, gone) in
          subst (Attached d ifname) (sym e) (attach_new-Attached alloc_ok gone)
      | inr (a, found) ↦
          let e : attach_iface apis alloc_ok ifname l ≡ attach_known apis a ifname l =
            unfold attach_iface in ground (arith, found) in
          subst (Attached d ifname) (sym e) (attach_known-Attached a found)
    ]

  -- Events are not what makes an interface fine.
  register_events-keeps :
      (ipsta : ℕ) (bytes : List ℕ) (a : AttachedInterface E)
      → ((register_events apis ipsta bytes a).1.ifname ≡ a.ifname)
        × ((register_events apis ipsta bytes a).1.attached_clients ≡ a.attached_clients)
  unfolding register_events
  register_events-keeps ipsta bytes a = elim (Bool-cases (length bytes == 0)) [
    | inl e ↦ rw e (refl, refl)
    | inr e ↦ rw e (refl, refl)
  ]

  update_events-keeps :
      (ipsta : ℕ) (bytes : List ℕ) (a : AttachedInterface E)
      → ((update_events apis ipsta bytes a).1.ifname ≡ a.ifname)
        × (((update_events apis ipsta bytes a).1.attached_clients ≡ a.attached_clients)
            × ((update_events apis ipsta bytes a).1.keep_attached ≡ a.keep_attached))
  unfolding update_events
  update_events-keeps ipsta bytes a = elim (Bool-cases (length bytes == 0)) [
    | inl e ↦ rw e (refl, (refl, refl))
    | inr e ↦ elim (Bool-cases (apis.unregister_sta_from_events a.events ipsta).0) [
      | inl gone ↦ rw (e, gone) (refl, (refl, refl))
      | inr still ↦ rw (e, still) (refl, (refl, refl))
    ]
  ]

  attach_client-IsManaged :
      (resp_ok : Bool) (w : CmdWork) (a : AttachedInterface E) (m : Manager E)
      → Attached m.delayed (name_of w.data_of) (some a, m.attached_ifaces)
      → length m.delayed ≤ m.detach_objs
      → IsManaged (attach_client apis resp_ok w a m).1
  unfolding Attached Weak attach_client
  attach_client-IsManaged resp_ok w a m (found, (once, (dist, weak))) objs =
      let d = m.delayed in
      let ifname = name_of w.data_of in
      let clients = without w.ipsta a.attached_clients ++ w.ipsta ∷ [] in
      let r =
        register_events apis w.ipsta (drop ifname_size w.data_of)
          (record a { attached_clients = clients }) in
      let k =
        register_events-keeps w.ipsta (drop ifname_size w.data_of)
          (record a { attached_clients = clients }) in
      let new : IsFine d r.1 = (
        subst IsOnce (sym k.1) (rejoin-IsOnce w.ipsta a.attached_clients once),
        inr (
            inl (
              omega (
                arith,
                ap length k.1,
                length-append (without w.ipsta a.attached_clients) (w.ipsta ∷ []),
              ))),
      ) in
      let m' : Manager E = record m { attached_ifaces = put ifname r.1 m.attached_ifaces } in
      let v : IsManaged m' = record {
        distinct = subst IsDistinct (sym (names-put ifname a r.1 m.attached_ifaces found k.0)) dist;
        fine =
            All-put (Weak d ifname) (IsFine d) ifname r.1 m.attached_ifaces dist
              (λ b o p. (p.0, p.1 o)) weak new;
        objs = objs;
      } in
      answer-IsManaged r.0 resp_ok w (attach_resp w.ipsta w.seq_num r.1.state) m' v

  after_attach-IsManaged :
      (resp_ok : Bool) (w : CmdWork) (r : Option (AttachedInterface E) × List (AttachedInterface E))
      (m : Manager E)
      → length m.delayed ≤ m.detach_objs
      → Attached m.delayed (name_of w.data_of) r
      → IsManaged (after_attach apis resp_ok w r.0 (record m { attached_ifaces = r.1 })).1
  unfolding Attached after_attach
  after_attach-IsManaged resp_ok w (none, l) m objs h = record {
    distinct = h.0;
    fine = h.1;
    objs = objs;
  }
  after_attach-IsManaged resp_ok w (some a, l) m objs h =
      attach_client-IsManaged resp_ok w a (record m { attached_ifaces = l }) h objs

  -- After an attachment that succeeds or fails, the manager is as it should be.
  pub iface_attach_work-IsManaged :
      (alloc_ok resp_ok : Bool) (w : CmdWork) (m : Manager E)
      → IsManaged m
      → IsManaged (iface_attach_work apis alloc_ok resp_ok w m).1
  unfolding iface_attach_work
  iface_attach_work-IsManaged alloc_ok resp_ok w m v =
      let ifname = name_of w.data_of in
      let r = attach_iface apis alloc_ok ifname m.attached_ifaces in
      if-cases (λ (r : Bool × Manager E). IsManaged r.1) (ltb (length w.data_of) ifname_size)
        (fail w m) (after_attach apis resp_ok w r.0 (record m { attached_ifaces = r.1 }))
        (λ _. emit-IsManaged (req_failed w.ipsta w.seq_num ∷ []) m v)
        (λ _.
          after_attach-IsManaged resp_ok w r m v.objs
            (attach_iface-Attached m.delayed ifname m.attached_ifaces v.distinct v.fine alloc_ok))

  update_client-IsManaged :
      (resp_ok : Bool) (w : CmdWork) (a : AttachedInterface E) (m : Manager E)
      → find (name_of w.data_of) m.attached_ifaces ≡ some a
      → IsManaged m
      → IsManaged (update_client apis resp_ok w a m).1
  unfolding update_client
  update_client-IsManaged resp_ok w a m found v =
      let r = update_events apis w.ipsta (drop ifname_size w.data_of) a in
      let k = update_events-keeps w.ipsta (drop ifname_size w.data_of) a in
      let old = find-All (IsFine m.delayed) (name_of w.data_of) m.attached_ifaces a found v.fine in
      let new = same-IsFine m.delayed a r.1 k.0 k.1.0 k.1.1 old.0 in
      let p =
        IsFine-put m.delayed (name_of w.data_of) a r.1 m.attached_ifaces found k.0 v.distinct v.fine
          new in
      answer-IsManaged r.0 resp_ok w (update_event_resp w.ipsta w.seq_num)
        (record m { attached_ifaces = put (name_of w.data_of) r.1 m.attached_ifaces })
        (record { distinct = p.0; fine = p.1; objs = v.objs })

  pub iface_update_event_work-IsManaged :
      (resp_ok : Bool) (w : CmdWork) (m : Manager E)
      → IsManaged m
      → IsManaged (iface_update_event_work apis resp_ok w m).1
  unfolding iface_update_event_work
  iface_update_event_work-IsManaged resp_ok w m v =
      elim (Bool-cases (ltb (length w.data_of) ifname_size)) [
        | inl short ↦ rw short (emit-IsManaged (req_failed w.ipsta w.seq_num ∷ []) m v)
        | inr long ↦ elim (Option-cases (find (name_of w.data_of) m.attached_ifaces)) [
          | inl gone ↦ rw (long, gone) (emit-IsManaged (req_failed w.ipsta w.seq_num ∷ []) m v)
          | inr (a, found) ↦ rw (long, found) (update_client-IsManaged resp_ok w a m found v)
        ]
      ]
