-- ===== src/IfaceManager/Answers.antt =====
-- daemon/iface_manager.c: the answer to each request of a client.
use dwpal.Common.{
  ℕ, ◌≡◌, refl, ap, Bool, true, false, [], ◌∷◌, ◌++◌, Option, none, some, ltb, length, without,
  drop, Bool-cases, Option-cases, if-cases, inl, inr, ◌⊎◌,
}
use dwpal.IfaceManager.{
  ifname_size, ManagerApis, AttachedInterface, Manager, find, put, req_failed, Output, attach_resp,
  update_event_resp,
}
use dwpal.IfaceManager.Works.{
  CmdWork, name_of, attach_iface, register_events, attach_client, after_attach, update_client,
  iface_attach_work, update_events, iface_update_event_work, fail, answer,
}

module _ {E : Type 0} (apis : ManagerApis E) where
  -- A request ends well with one answer, or fails with one message that says so.
  abbrev pub Answers : CmdWork → (Output → Type 0) → Manager E → Bool × Manager E → Type 0
  Answers w P m r =
      ((r.0 ≡ true) × ((o : Output) × (P o × (r.1.outputs ≡ m.outputs ++ o ∷ []))))
      ⊎ ((r.0 ≡ false) × (r.1.outputs ≡ m.outputs ++ req_failed w.ipsta w.seq_num ∷ []))

  answer-Answers :
      (ok resp_ok : Bool) (w : CmdWork) (P : Output → Type 0) (o : Output) (m m' : Manager E)
      → P o
      → m'.outputs ≡ m.outputs
      → Answers w P m (answer ok resp_ok w o m')
  answer-Answers false resp_ok w P o m m' p e =
      inr (refl, ap (λ l. l ++ req_failed w.ipsta w.seq_num ∷ []) e)
  answer-Answers true false w P o m m' p e =
      inr (refl, ap (λ l. l ++ req_failed w.ipsta w.seq_num ∷ []) e)
  answer-Answers true true w P o m m' p e = inl (refl, (o, (p, ap (λ l. l ++ o ∷ []) e)))

  -- The answer to the request to attach.
  abbrev pub IsAttachResp : CmdWork → Output → Type 0
  IsAttachResp w o = (state : ℕ) × (o ≡ attach_resp w.ipsta w.seq_num state)

  after_attach-Answers :
      (resp_ok : Bool) (w : CmdWork) (o : Option (AttachedInterface E)) (m m' : Manager E)
      → m'.outputs ≡ m.outputs
      → Answers w (IsAttachResp w) m (after_attach apis resp_ok w o m')
  unfolding after_attach attach_client
  after_attach-Answers resp_ok w none m m' e =
      inr (refl, ap (λ l. l ++ req_failed w.ipsta w.seq_num ∷ []) e)
  after_attach-Answers resp_ok w (some a) m m' e =
      let clients = without w.ipsta a.attached_clients ++ w.ipsta ∷ [] in
      let r =
        register_events apis w.ipsta (drop ifname_size w.data_of)
          (record a { attached_clients = clients }) in
      answer-Answers r.0 resp_ok w (IsAttachResp w) (attach_resp w.ipsta w.seq_num r.1.state) m
        (record m' { attached_ifaces = put (name_of w.data_of) r.1 m'.attached_ifaces })
        (r.1.state, refl) e

  -- On every path of `iface_attach_work`, the client that asked gets one message: the response if the work
  -- returns 0, and else that the request has failed.
  pub iface_attach_work-Answers :
      (alloc_ok resp_ok : Bool) (w : CmdWork) (m : Manager E)
      → Answers w (IsAttachResp w) m (iface_attach_work apis alloc_ok resp_ok w m)
  unfolding iface_attach_work
  iface_attach_work-Answers alloc_ok resp_ok w m =
      let r = attach_iface apis alloc_ok (name_of w.data_of) m.attached_ifaces in
      if-cases (Answers w (IsAttachResp w) m) (ltb (length w.data_of) ifname_size) (fail w m)
        (after_attach apis resp_ok w r.0 (record m { attached_ifaces = r.1 }))
        (λ _. inr (refl, refl))
        (λ _. after_attach-Answers resp_ok w r.0 m (record m { attached_ifaces = r.1 }) refl)

  -- The same for `iface_update_event_work`.
  pub iface_update_event_work-Answers :
      (resp_ok : Bool) (w : CmdWork) (m : Manager E)
      → Answers w
          (λ o. o ≡ update_event_resp w.ipsta w.seq_num)
          m
          (iface_update_event_work apis resp_ok w m)
  unfolding iface_update_event_work update_client
  iface_update_event_work-Answers resp_ok w m =
      elim (Bool-cases (ltb (length w.data_of) ifname_size)) [
        | inl short ↦ rw short (inr (refl, refl))
        | inr long ↦ elim (Option-cases (find (name_of w.data_of) m.attached_ifaces)) [
          | inl gone ↦ rw (long, gone) (inr (refl, refl))
          | inr (a, found) ↦
              let r = update_events apis w.ipsta (drop ifname_size w.data_of) a in
              rw (long, found)
                (answer-Answers r.0 resp_ok w (λ o. o ≡ update_event_resp w.ipsta w.seq_num)
                  (update_event_resp w.ipsta w.seq_num) m
                  (record m { attached_ifaces = put (name_of w.data_of) r.1 m.attached_ifaces })
                  refl refl)
        ]
      ]
