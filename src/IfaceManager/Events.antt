-- ===== src/IfaceManager/Events.antt =====
-- daemon/iface_manager.c: what the manager relies on for the events of its interfaces.
use dwpal.Common.{
  ℕ, ◌≡◌, sym, subst, Bool, true, false, not, List, [], ◌∷◌, ◌++◌, Option, none, some, ltb, ◌==◌,
  length, All, All-append, without, drop, arith, Bool-cases, Option-cases, if-cases, inl, inr,
}
use dwpal.HostapIface.{is_same}
use dwpal.IfaceManager.{
  ifname_size, ManagerApis, AttachedInterface, Manager, find, put, drop_iface, Output, attach_resp,
  update_event_resp,
}
use dwpal.IfaceManager.Works.{
  CmdWork, name_of, attach_iface, attach_new, attach_known, register_events, attach_client,
  after_attach, update_client, iface_attach_work, update_events, iface_update_event_work, fail,
  answer,
}
use dwpal.IfaceManager.Names.{find-All}

-- A property of events that every function of the interface keeps, and what `unregister_sta_from_events` makes true.
pub record EventLaws {E : Type 0} (apis : ManagerApis E) : Type 1 where
  pub IsGood : E → Type 0
  pub IsSilent : ℕ → E → Type 0
  pub no_events-IsGood : IsGood apis.no_events
  pub register-IsGood :
      (e : E) (ipsta : ℕ) (bytes : List ℕ)
      → IsGood e
      → IsGood (apis.register_sta_to_events e ipsta bytes).1
  pub unregister-IsGood :
      (e : E) (ipsta : ℕ) → IsGood e → IsGood (apis.unregister_sta_from_events e ipsta).1
  pub unregister-IsSilent :
      (e : E) (ipsta : ℕ) → IsGood e → IsSilent ipsta (apis.unregister_sta_from_events e ipsta).1

module _ {E : Type 0} {apis : ManagerApis E} (laws : EventLaws apis) where
  abbrev pub AreGood : List (AttachedInterface E) → Type 0
  AreGood l = All (λ a. laws.IsGood a.events) l

  -- Any change of one interface that keeps the property of its events.
  pub put-AreGood :
      (ifname : List ℕ) (a' : AttachedInterface E) (l : List (AttachedInterface E))
      → AreGood l
      → laws.IsGood a'.events
      → AreGood (put ifname a' l)
  unfolding put
  put-AreGood ifname a' [] h g = tt
  put-AreGood ifname a' (b ∷ l) h g = elim (Bool-cases (is_same ifname_size b.ifname ifname)) [
    | inl same ↦ rw same (g, h.1)
    | inr other ↦ rw other (h.0, put-AreGood ifname a' l h.1 g)
  ]

  pub drop_iface-AreGood :
      (ifname : List ℕ) (l : List (AttachedInterface E)) → AreGood l → AreGood (drop_iface ifname l)
  unfolding drop_iface
  drop_iface-AreGood ifname [] h = tt
  drop_iface-AreGood ifname (b ∷ l) h = elim (Bool-cases (is_same ifname_size b.ifname ifname)) [
    | inl same ↦ rw same h.1
    | inr other ↦ rw other (h.0, drop_iface-AreGood ifname l h.1)
  ]

  pub found-IsGood :
      (ifname : List ℕ) (l : List (AttachedInterface E)) (a : AttachedInterface E)
      → find ifname l ≡ some a
      → AreGood l
      → laws.IsGood a.events
  found-IsGood ifname l a found h = (find-All (λ b. laws.IsGood b.events) ifname l a found h).0

  answer-AreGood :
      (ok resp_ok : Bool) (w : CmdWork) (o : Output) (m : Manager E)
      → AreGood m.attached_ifaces
      → AreGood (answer ok resp_ok w o m).1.attached_ifaces
  answer-AreGood false resp_ok w o m h = h
  answer-AreGood true false w o m h = h
  answer-AreGood true true w o m h = h

  register_events-IsGood :
      (ipsta : ℕ) (bytes : List ℕ) (a : AttachedInterface E)
      → laws.IsGood a.events
      → laws.IsGood (register_events apis ipsta bytes a).1.events
  unfolding register_events
  register_events-IsGood ipsta bytes a g = elim (Bool-cases (length bytes == 0)) [
    | inl e ↦ rw e g
    | inr e ↦ rw e (laws.register-IsGood a.events ipsta bytes g)
  ]

  update_events-IsGood :
      (ipsta : ℕ) (bytes : List ℕ) (a : AttachedInterface E)
      → laws.IsGood a.events
      → laws.IsGood (update_events apis ipsta bytes a).1.events
  unfolding update_events
  update_events-IsGood ipsta bytes a g =
      let g' = laws.unregister-IsGood a.events ipsta g in
      elim (Bool-cases (length bytes == 0)) [
        | inl e ↦ rw e g
        | inr e ↦ elim (Bool-cases (apis.unregister_sta_from_events a.events ipsta).0) [
          | inl gone ↦
              rw (e, gone)
                (laws.register-IsGood (apis.unregister_sta_from_events a.events ipsta).1 ipsta bytes
                  g')
          | inr still ↦ rw (e, still) g'
        ]
      ]

  -- The interface that the first part of an attachment gives, and the list.
  IsGoodPair : Option (AttachedInterface E) × List (AttachedInterface E) → Type 0
  IsGoodPair (none, l) = AreGood l
  IsGoodPair (some a, l) = laws.IsGood a.events × AreGood l

  attach_new-IsGoodPair :
      (alloc_ok : Bool) (ifname : List ℕ) (l : List (AttachedInterface E))
      → AreGood l
      → IsGoodPair (attach_new apis alloc_ok ifname l)
  unfolding attach_new IsGoodPair
  attach_new-IsGoodPair false ifname l h = h
  attach_new-IsGoodPair true ifname l h =
      let new : AttachedInterface E = record {
        ifname = ifname;
        state = (apis.iface_attach ifname 0).1;
        events = apis.no_events;
        attached_clients = [];
        keep_attached = false;
      } in
      if-cases IsGoodPair (not (apis.iface_attach ifname 0).0) (none, l) (some new, l ++ new ∷ [])
        (λ _. h)
        (λ _. (
          laws.no_events-IsGood,
          All-append (λ b. laws.IsGood b.events) l (new ∷ []) h (laws.no_events-IsGood, tt),
        ))

  attach_known-IsGoodPair :
      (a : AttachedInterface E) (ifname : List ℕ) (l : List (AttachedInterface E))
      → laws.IsGood a.events
      → AreGood l
      → IsGoodPair (attach_known apis a ifname l)
  unfolding attach_known IsGoodPair
  attach_known-IsGoodPair a ifname l g h =
      let a' : AttachedInterface E = record a { state = (apis.iface_attach ifname a.state).1 } in
      let h' = put-AreGood ifname a' l h g in
      if-cases IsGoodPair (apis.iface_attach ifname a.state).0 (some a', put ifname a' l)
        (none, put ifname a' l) (λ _. (g, h')) (λ _. h')

  attach_iface-IsGoodPair :
      (alloc_ok : Bool) (ifname : List ℕ) (l : List (AttachedInterface E))
      → AreGood l
      → IsGoodPair (attach_iface apis alloc_ok ifname l)
  attach_iface-IsGoodPair alloc_ok ifname l h = elim (Option-cases (find ifname l)) [
    | inl gone ↦
        let e : attach_iface apis alloc_ok ifname l ≡ attach_new apis alloc_ok ifname l =
          unfold attach_iface in ground (arith, gone) in
        subst IsGoodPair (sym e) (attach_new-IsGoodPair alloc_ok ifname l h)
    | inr (a, found) ↦
        let e : attach_iface apis alloc_ok ifname l ≡ attach_known apis a ifname l =
          unfold attach_iface in ground (arith, found) in
        subst IsGoodPair (sym e)
          (attach_known-IsGoodPair a ifname l (found-IsGood ifname l a found h) h)
  ]

  after_attach-AreGood :
      (resp_ok : Bool) (w : CmdWork) (r : Option (AttachedInterface E) × List (AttachedInterface E))
      (m : Manager E)
      → IsGoodPair r
      → AreGood
          (after_attach apis resp_ok w r.0 (record m { attached_ifaces = r.1 })).1.attached_ifaces
  unfolding after_attach attach_client IsGoodPair
  after_attach-AreGood resp_ok w (none, l) m h = h
  after_attach-AreGood resp_ok w (some a, l) m h =
      let b : AttachedInterface E = record a {
        attached_clients = without w.ipsta a.attached_clients ++ w.ipsta ∷ [];
      } in
      let r = register_events apis w.ipsta (drop ifname_size w.data_of) b in
      answer-AreGood r.0 resp_ok w (attach_resp w.ipsta w.seq_num r.1.state)
        (record m { attached_ifaces = put (name_of w.data_of) r.1 l })
        (put-AreGood (name_of w.data_of) r.1 l h.1
          (register_events-IsGood w.ipsta (drop ifname_size w.data_of) b h.0))

  pub iface_attach_work-AreGood :
      (alloc_ok resp_ok : Bool) (w : CmdWork) (m : Manager E)
      → AreGood m.attached_ifaces
      → AreGood (iface_attach_work apis alloc_ok resp_ok w m).1.attached_ifaces
  unfolding iface_attach_work
  iface_attach_work-AreGood alloc_ok resp_ok w m h =
      let r = attach_iface apis alloc_ok (name_of w.data_of) m.attached_ifaces in
      if-cases (λ (r' : Bool × Manager E). AreGood r'.1.attached_ifaces)
        (ltb (length w.data_of) ifname_size) (fail w m)
        (after_attach apis resp_ok w r.0 (record m { attached_ifaces = r.1 })) (λ _. h)
        (λ _.
          after_attach-AreGood resp_ok w r m
            (attach_iface-IsGoodPair alloc_ok (name_of w.data_of) m.attached_ifaces h))

  pub iface_update_event_work-AreGood :
      (resp_ok : Bool) (w : CmdWork) (m : Manager E)
      → AreGood m.attached_ifaces
      → AreGood (iface_update_event_work apis resp_ok w m).1.attached_ifaces
  unfolding iface_update_event_work update_client
  iface_update_event_work-AreGood resp_ok w m h =
      elim (Bool-cases (ltb (length w.data_of) ifname_size)) [
        | inl short ↦ rw short h
        | inr long ↦ elim (Option-cases (find (name_of w.data_of) m.attached_ifaces)) [
          | inl gone ↦ rw (long, gone) h
          | inr (a, found) ↦
              let r = update_events apis w.ipsta (drop ifname_size w.data_of) a in
              let g = found-IsGood (name_of w.data_of) m.attached_ifaces a found h in
              rw (long, found)
                (answer-AreGood r.0 resp_ok w (update_event_resp w.ipsta w.seq_num)
                  (record m { attached_ifaces = put (name_of w.data_of) r.1 m.attached_ifaces })
                  (put-AreGood (name_of w.data_of) r.1 m.attached_ifaces h
                    (update_events-IsGood w.ipsta (drop ifname_size w.data_of) a g)))
        ]
      ]
