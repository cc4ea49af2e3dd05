-- ===== src/IfaceManager/Leak.antt =====
-- daemon/iface_manager.c: what a client that leaves an interface gets, and what is left of the memory of the work.
use dwpal.Common.{
  ℕ, ◌+◌, ◌-◌, ◌≤◌, ◌≡◌, refl, Bool, true, false, [], ◌∷◌, ◌++◌, none, some, length, arith,
  Bool-cases, Option-cases, inl, inr, ◌⊎◌,
}
use dwpal.IfaceManager.{
  ManagerApis, AttachedInterface, Manager, find, is_unused, detach_resp, req_failed,
}
use dwpal.IfaceManager.Works.{DetachWork, leave, detach_client, iface_detach_work}
use dwpal.IfaceManager.Sound.{length-cancel}

module _ {E : Type 0} (apis : ManagerApis E) where
  -- A request to detach returns 0 and gets its response, or it returns 1 and the client is told that it failed, where the interface
  -- is not there, or nothing is sent at all, where memory is short.
  pub iface_detach_work-answers :
      (alloc_ok add_ok resp_ok : Bool) (w : DetachWork) (ipsta : ℕ) (m : Manager E)
      → w.ipsta ≡ some ipsta
      → let r = iface_detach_work apis alloc_ok add_ok resp_ok w m in
        ((r.0 ≡ true) × (r.1.outputs ≡ m.outputs ++ detach_resp ipsta w.seq_num ∷ []))
        ⊎ ((r.0 ≡ false)
            × (((find w.ifname m.attached_ifaces ≡ none)
                  × (r.1.outputs ≡ m.outputs ++ req_failed ipsta w.seq_num ∷ []))
                ⊎ (((alloc_ok ≡ false) ⊎ (resp_ok ≡ false)) × (r.1.outputs ≡ m.outputs))))
  unfolding iface_detach_work detach_client
  iface_detach_work-answers false add_ok resp_ok w ipsta m c = inr (refl, inr (inl refl, refl))
  iface_detach_work-answers true add_ok resp_ok w ipsta m c =
      elim (Option-cases (find w.ifname m.attached_ifaces)) [
        | inl gone ↦ rw (gone, c) (inr (refl, inl (refl, refl)))
        | inr (a, found) ↦ elim (Bool-cases resp_ok) [
          | inl ok ↦ rw (found, c, ok) (inl (refl, refl))
          | inr short ↦ rw (found, c, short) (inr (refl, inr (inr refl, refl)))
        ]
      ]

  -- When a client leaves an interface that is to stay or has other clients, and memory is there, the `future_detach`
  -- object that `iface_detach_work` allocates is neither on the list of delayed works nor freed: the number of
  -- objects that are allocated but not on the list grows by one.
  pub iface_detach_work-leaks :
      (add_ok resp_ok : Bool) (w : DetachWork) (ipsta : ℕ) (a : AttachedInterface E) (m : Manager E)
      → w.ipsta ≡ some ipsta
      → find w.ifname m.attached_ifaces ≡ some a
      → is_unused (leave apis ipsta a) ≡ false
      → length m.delayed ≤ m.detach_objs
      → let m' = (iface_detach_work apis true add_ok resp_ok w m).1 in
        m'.detach_objs - length m'.delayed ≡ m.detach_objs - length m.delayed + 1
  unfolding iface_detach_work detach_client
  iface_detach_work-leaks add_ok resp_ok w ipsta a m c found used objs = elim (Bool-cases resp_ok) [
    | inl ok ↦ rw (found, c, used, ok) (omega (arith, length-cancel w.ifname m.delayed))
    | inr short ↦ rw (found, c, used, short) (omega (arith, length-cancel w.ifname m.delayed))
  ]
