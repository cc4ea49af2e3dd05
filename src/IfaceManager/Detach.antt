-- ===== src/IfaceManager/Detach.antt =====
-- daemon/iface_manager.c: the works that detach a client from an interface, and the manager's own that detach the interface.
use dwpal.Common.{
  ℕ, ◌+◌, ◌-◌, ◌≤◌, ◌≡◌, refl, sym, subst, ◌∙◌, Bool, true, false, List, [], ◌∷◌, none, some,
  length, All, All-map, arith, Option-cases, if-cases, inl, inr,
}
use dwpal.HostapIface.{is_same}
use dwpal.HostapIface.Names.{is_same_sym}
use dwpal.IfaceManager.{
  ifname_size, ManagerApis, AttachedInterface, Manager, find, put, drop_iface, is_unused, cancel,
  detached, detach_resp, req_failed, emit, Output,
}
use dwpal.IfaceManager.Works.{DetachWork, leave, detach_client, detach_unused, iface_detach_work}
use dwpal.IfaceManager.Names.{
  IsDistinct, names, find-All, names-put, All-put, All-drop_iface, All-missing, put-same,
  drop_iface-IsDistinct,
}
use dwpal.IfaceManager.Sound.{
  waits-cancel, length-cancel, without-IsOnce, IsFine, IsKept-map, used-IsKept, planned,
  planned-IsKept, Weak,
}

-- The manager while a work is carried out for an interface that may have no reason to be there; `k` is the number of
-- objects that are not on the list of delayed works.
pub record IsBusy {E : Type 0} (ifname : List ℕ) (k : ℕ) (m : Manager E) : Type 0 where
  pub distinct : IsDistinct (names m.attached_ifaces)
  pub weak : All (Weak m.delayed ifname) m.attached_ifaces
  pub objs : length m.delayed + k ≤ m.detach_objs

-- The same at its end.
pub record IsDone {E : Type 0} (k : ℕ) (m : Manager E) : Type 0 where
  pub distinct : IsDistinct (names m.attached_ifaces)
  pub fine : All (IsFine m.delayed) m.attached_ifaces
  pub objs : length m.delayed + k ≤ m.detach_objs

module _ {E : Type 0} (apis : ManagerApis E) where
  -- The state after `serializer_cancel_delayed_work`, with a new object.
  abbrev cancelled : List ℕ → Manager E → Manager E
  cancelled ifname m = record m {
    delayed = cancel ifname m.delayed;
    detach_objs = m.detach_objs + 1 - (length m.delayed - length (cancel ifname m.delayed));
  }

  cancelled-IsBusy :
      (ifname : List ℕ) (k : ℕ) (m : Manager E)
      → IsBusy ifname k m
      → IsBusy ifname (k + 1) (cancelled ifname m)
  unfolding Weak
  cancelled-IsBusy ifname k m v = record {
    distinct = v.distinct;
    weak =
        All-map (Weak m.delayed ifname) (Weak (cancel ifname m.delayed) ifname) m.attached_ifaces
          (λ b p. (
            p.0,
            (λ o.
                IsKept-map m.delayed (cancel ifname m.delayed) b
                  (λ h. waits-cancel b.ifname ifname m.delayed o ∙ h) (p.1 o)),
          ))
          v.weak;
    objs = omega (arith, length-cancel ifname m.delayed, v.objs);
  }

  emit-IsDone : (o : List Output) (k : ℕ) (m : Manager E) → IsDone k m → IsDone k (emit o m)
  emit-IsDone o k m v = record { distinct = v.distinct; fine = v.fine; objs = v.objs }

  detach_client-IsDone :
      (resp_ok : Bool) (w : DetachWork) (ipsta k : ℕ) (a : AttachedInterface E) (m : Manager E)
      → find w.ifname m.attached_ifaces ≡ some a
      → IsBusy w.ifname (k + 1) m
      → IsDone k (detach_client apis true resp_ok w ipsta a m).1
  unfolding detach_client leave Weak
  detach_client-IsDone resp_ok w ipsta k a m found v =
      let a' = leave apis ipsta a in
      let d' = planned a' w.ifname m.delayed in
      let old = find-All (Weak m.delayed w.ifname) w.ifname m.attached_ifaces a found v.weak in
      let same : is_same ifname_size w.ifname a.ifname ≡ true =
        is_same_sym ifname_size w.ifname a.ifname ∙ old.1 in
      let p = planned-IsKept a' w.ifname m.delayed same in
      let m' : Manager E = record m {
        attached_ifaces = put w.ifname a' m.attached_ifaces;
        delayed = d';
      } in
      let done : IsDone k m' = record {
        distinct =
            subst IsDistinct (sym (names-put w.ifname a a' m.attached_ifaces found refl))
              v.distinct;
        fine =
            All-put (Weak m.delayed w.ifname) (IsFine d') w.ifname a' m.attached_ifaces v.distinct
              (λ b o q. (q.0, p.1.0 b (q.1 o))) v.weak
              (without-IsOnce ipsta a.attached_clients old.0.0, p.0);
        objs = omega (arith, p.1.1, v.objs);
      } in
      if-cases (λ (r : Bool × Manager E). IsDone k r.1) resp_ok
        (true, emit (detach_resp ipsta w.seq_num ∷ []) m') (false, m')
        (λ _. emit-IsDone (detach_resp ipsta w.seq_num ∷ []) k m' done) (λ _. done)

  detach_unused-IsDone :
      (w : DetachWork) (k : ℕ) (a : AttachedInterface E) (m : Manager E)
      → find w.ifname m.attached_ifaces ≡ some a
      → IsBusy w.ifname (k + 1) m
      → IsDone k (detach_unused apis w a m).1
  unfolding detach_unused Weak
  detach_unused-IsDone w k a m found v =
      let others : (b : AttachedInterface E)
          → is_same ifname_size b.ifname w.ifname ≡ false
          → Weak m.delayed w.ifname b
          → IsFine m.delayed b =
        λ b o q. (q.0, q.1 o) in
      let m' : Manager E = record m { detach_objs = m.detach_objs - 1 } in
      let dropped : Manager E = record m' {
        attached_ifaces = drop_iface w.ifname m.attached_ifaces;
      } in
      if-cases (λ (r : Bool × Manager E). IsDone k r.1) (is_unused a)
        (true, emit (detached w.ifname ∷ []) dropped) (true, m')
        (λ _. emit-IsDone (detached w.ifname ∷ []) k dropped (record {
          distinct = drop_iface-IsDistinct w.ifname m.attached_ifaces v.distinct;
          fine =
              All-drop_iface (Weak m.delayed w.ifname) (IsFine m.delayed) w.ifname m.attached_ifaces
                v.distinct others v.weak;
          objs = omega (arith, v.objs);
        }))
        (λ used. record {
          distinct = v.distinct;
          fine =
              let old =
                find-All (Weak m.delayed w.ifname) w.ifname m.attached_ifaces a found v.weak in
              subst (All (IsFine m.delayed)) (put-same w.ifname a m.attached_ifaces found) (
                All-put (Weak m.delayed w.ifname) (IsFine m.delayed) w.ifname a m.attached_ifaces
                  v.distinct others v.weak (old.0.0, used-IsKept m.delayed a used));
          objs = omega (arith, v.objs);
        })

  -- Nothing is there to detach.
  missing-IsDone :
      (ifname : List ℕ) (k : ℕ) (m : Manager E)
      → find ifname m.attached_ifaces ≡ none
      → IsBusy ifname (k + 1) m
      → IsDone k (record m { detach_objs = m.detach_objs - 1 })
  unfolding Weak
  missing-IsDone ifname k m gone v = record {
    distinct = v.distinct;
    fine =
        All-missing (Weak m.delayed ifname) (IsFine m.delayed) ifname m.attached_ifaces gone
          (λ b o q. (q.0, q.1 o)) v.weak;
    objs = omega (arith, v.objs);
  }

  pub iface_detach_work-IsDone :
      (resp_ok : Bool) (w : DetachWork) (k : ℕ) (m : Manager E)
      → IsBusy w.ifname k m
      → IsDone k (iface_detach_work apis true true resp_ok w m).1
  unfolding iface_detach_work
  iface_detach_work-IsDone resp_ok w k m v =
      let m' = cancelled w.ifname m in
      let b = cancelled-IsBusy w.ifname k m v in
      elim (Option-cases (find w.ifname m.attached_ifaces)) [
        | inl gone ↦
            let done = missing-IsDone w.ifname k m' gone b in
            elim (Option-cases w.ipsta) [
              | inl own ↦ rw (gone, own) done
              | inr (ipsta, client) ↦
                  rw (gone, client)
                    (emit-IsDone (req_failed ipsta w.seq_num ∷ []) k
                      (record m' { detach_objs = m'.detach_objs - 1 }) done)
            ]
        | inr (a, found) ↦ elim (Option-cases w.ipsta) [
          | inl own ↦ rw (found, own) (detach_unused-IsDone w k a m' found b)
          | inr (ipsta, client) ↦
              rw (found, client) (detach_client-IsDone resp_ok w ipsta k a m' found b)
        ]
      ]
