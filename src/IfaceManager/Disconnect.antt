-- ===== src/IfaceManager/Disconnect.antt =====
-- daemon/iface_manager.c: the work for a station that has disconnected.
use dwpal.Common.{
  ℕ, ◌+◌, ◌≤◌, ◌≡◌, refl, sym, ap, subst, ◌∙◌, true, List, [], ◌∷◌, length, All, All-map, count,
  count-without, arith, Bool-cases, inl, inr, length-append,
}
use dwpal.HostapIface.{is_same}
use dwpal.HostapIface.Names.{is_same_refl, is_same_sym}
use dwpal.IfaceManager.{ifname_size, ManagerApis, AttachedInterface, Manager, is_unused, cancel}
use dwpal.IfaceManager.Works.{leave, plan_detach, disconnect_loop, sta_disconnect_work}
use dwpal.IfaceManager.Names.{IsDistinct, names}
use dwpal.IfaceManager.Sound.{
  waits, waits-cancel, waits-append, waits-added, length-cancel, without-IsOnce, IsKept, IsFine,
  IsKept-map, used-IsKept, IsManaged,
}

module _ {E : Type 0} (apis : ManagerApis E) where
  -- A delayed work for the interface is there afterwards, and every other one that was there still is.
  plan_detach-IsKept :
      (a : AttachedInterface E) (d : List (List ℕ)) (objs k : ℕ)
      → length d + k ≤ objs
      → let r = plan_detach apis true true a (d, objs) in
        IsKept r.0 a
        × (((n : List ℕ) → waits n d ≡ true → waits n r.0 ≡ true) × (length r.0 + k ≤ r.1))
  unfolding plan_detach
  plan_detach-IsKept a d objs k h = elim (Bool-cases (is_unused a)) [
    | inl unused ↦ rw unused (
      inr (
          inr (
            waits-added a.ifname a.ifname (cancel a.ifname d) (is_same_refl ifname_size a.ifname))),
      (
        (λ n w. elim (Bool-cases (is_same ifname_size a.ifname n)) [
          | inl same ↦ waits-added n a.ifname (cancel a.ifname d) same
          | inr other ↦
              waits-append n a.ifname (cancel a.ifname d)
                (waits-cancel n a.ifname d (is_same_sym ifname_size n a.ifname ∙ other) ∙ w)
        ]),
        omega
            (arith, length-append (cancel a.ifname d) (a.ifname ∷ []), length-cancel a.ifname d, h),
      ),
    )
    | inr used ↦ rw used (used-IsKept d a used, ((λ n w. w), h))
  ]

  -- What the loop over the interfaces leaves.
  record IsLeft (ipsta k : ℕ) (d : List (List ℕ)) (l : List (AttachedInterface E))
      (r : List (AttachedInterface E) × (List (List ℕ) × ℕ)) : Type 0 where
    same_names : names r.0 ≡ names l
    fine : All (IsFine r.1.0) r.0
    gone : All (λ a. count ipsta a.attached_clients ≡ 0) r.0
    more : (n : List ℕ) → waits n d ≡ true → waits n r.1.0 ≡ true
    objs : length r.1.0 + k ≤ r.1.1

  disconnect_loop-IsLeft :
      (ipsta k : ℕ) (l : List (AttachedInterface E)) (d : List (List ℕ)) (objs : ℕ)
      → All (IsFine d) l
      → length d + k ≤ objs
      → IsLeft ipsta k d l (disconnect_loop apis (λ _. true) (λ _. true) ipsta l (d, objs))
  unfolding disconnect_loop leave
  disconnect_loop-IsLeft ipsta k [] d objs fine h = record {
    same_names = refl;
    fine = tt;
    gone = tt;
    more = λ n w. w;
    objs = h;
  }
  disconnect_loop-IsLeft ipsta k (a ∷ l) d objs fine h =
      let a' = leave apis ipsta a in
      let p = plan_detach-IsKept a' d objs k h in
      let r = plan_detach apis true true a' (d, objs) in
      let fine' : All (IsFine r.0) l =
        All-map (IsFine d) (IsFine r.0) l (λ b q. (q.0, IsKept-map d r.0 b (p.1.0 b.ifname) q.1))
          fine.1 in
      let ih = disconnect_loop-IsLeft ipsta k l r.0 r.1 fine' p.1.1 in
      record {
        same_names = ap (λ ns. a.ifname ∷ ns) ih.same_names;
        fine = (
          (
            without-IsOnce ipsta a.attached_clients fine.0.0,
            IsKept-map r.0 (disconnect_loop apis (λ _. true) (λ _. true) ipsta l r).1.0 a'
                (ih.more a.ifname) p.0,
          ),
          ih.fine,
        );
        gone =
            (ground (arith, count-without ipsta ipsta a.attached_clients, fine.0.0 ipsta), ih.gone);
        more = λ n w. ih.more n (p.1.0 n w);
        objs = ih.objs;
      }

  -- After the disconnection of a station, with memory for the works that it plans, the manager is as it should be and the
  -- station is a client of no interface.
  pub sta_disconnect_work-IsManaged :
      (ipsta : ℕ) (m : Manager E)
      → IsManaged m
      → IsManaged (sta_disconnect_work apis (λ _. true) (λ _. true) ipsta m)
        × All
            (λ a. count ipsta a.attached_clients ≡ 0)
            (sta_disconnect_work apis (λ _. true) (λ _. true) ipsta m).attached_ifaces
  unfolding sta_disconnect_work
  sta_disconnect_work-IsManaged ipsta m v =
      let r =
        disconnect_loop-IsLeft ipsta 0 m.attached_ifaces m.delayed m.detach_objs v.fine
          (omega (arith, v.objs)) in
      (
        record {
          distinct = subst IsDistinct (sym r.same_names) v.distinct;
          fine = r.fine;
          objs = omega (arith, r.objs);
        },
        r.gone,
      )
