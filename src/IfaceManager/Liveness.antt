-- ===== src/IfaceManager/Liveness.antt =====
-- daemon/iface_manager.c: the end of an interface that no client uses any more.
use dwpal.Common.{
  ℕ, ◌+◌, ◌-◌, ◌≡◌, refl, sym, ap, ◌∙◌, true, false, List, [], ◌∷◌, ◌++◌, none, some, length, All,
  arith, Bool-cases, inl, inr,
}
use dwpal.HostapIface.{is_same}
use dwpal.HostapIface.Names.{is_same_sym, is_same_replace}
use dwpal.IfaceManager.{
  ifname_size, ManagerApis, AttachedInterface, Manager, find, drop_iface, is_unused, cancel,
}
use dwpal.IfaceManager.Works.{DetachWork, detach_unused, iface_detach_work}
use dwpal.IfaceManager.Names.{IsDistinct, names, find-All}
use dwpal.IfaceManager.Sound.{waits, IsKept, IsFine, IsManaged}
use dwpal.IfaceManager.Steps.{expire}

-- The delayed work that waits for an interface, in its place on the list.
waits_at :
    (ifname : List ℕ) (d : List (List ℕ))
    → waits ifname d ≡ true
    → (before : List (List ℕ)) × ((n : List ℕ) × ((after : List (List ℕ)) × ((d
              ≡ before ++ (n ∷ after))
            × (is_same ifname_size n ifname ≡ true))))
waits_at ifname [] h = absurd (cc h)
waits_at ifname (x ∷ d) h = elim (Bool-cases (is_same ifname_size x ifname)) [
  | inl same ↦ ([], (x, (d, (refl, same))))
  | inr other ↦
      let rest : waits ifname d ≡ true = ground (arith, other, h) in
      let (before, (n, (after, (e, same)))) = waits_at ifname d rest in
      (x ∷ before, (n, (after, (ap (λ t. x ∷ t) e, same))))
]

module _ {E : Type 0} (apis : ManagerApis E) where
  find-same :
      (n ifname : List ℕ) (l : List (AttachedInterface E))
      → is_same ifname_size n ifname ≡ true
      → find n l ≡ find ifname l
  unfolding find
  find-same n ifname [] h = refl
  find-same n ifname (b ∷ l) h =
      rw (is_same_replace ifname_size n ifname b.ifname h, find-same n ifname l h) refl

  find-nil :
      (ifname m : List ℕ) (l : List (AttachedInterface E))
      → is_same ifname_size m ifname ≡ true
      → All (λ n'. is_same ifname_size m n' ≡ false) (names l)
      → find ifname l ≡ none
  unfolding find
  find-nil ifname m [] h d = refl
  find-nil ifname m (b ∷ l) h d =
      let other : is_same ifname_size b.ifname ifname ≡ false =
        sym (is_same_replace ifname_size m ifname b.ifname h)
        ∙ is_same_sym ifname_size b.ifname m
        ∙ d.0 in
      rw other (find-nil ifname m l h d.1)

  find-drop_iface :
      (ifname : List ℕ) (l : List (AttachedInterface E))
      → IsDistinct (names l)
      → find ifname (drop_iface ifname l) ≡ none
  unfolding find drop_iface
  find-drop_iface ifname [] d = refl
  find-drop_iface ifname (b ∷ l) d = elim (Bool-cases (is_same ifname_size b.ifname ifname)) [
    | inl same ↦ rw same (find-nil ifname b.ifname l same d.0)
    | inr other ↦ rw (other, other) (find-drop_iface ifname l d.1)
  ]

  expire-drop_iface :
      (before after : List (List ℕ)) (n : List ℕ) (a : AttachedInterface E) (m : Manager E)
      → find n m.attached_ifaces ≡ some a
      → is_unused a ≡ true
      → (expire apis before n after m).attached_ifaces ≡ drop_iface n m.attached_ifaces
  unfolding expire detach_unused
  expire-drop_iface before after n a m found unused =
      let own : DetachWork = record { ifname = n; seq_num = 0; ipsta = none } in
      let m0 : Manager E = record m { delayed = before ++ after } in
      let m1 : Manager E = record m0 {
        delayed = cancel n m0.delayed;
        detach_objs = m0.detach_objs + 1 - (length m0.delayed - length (cancel n m0.delayed));
      } in
      let e : iface_detach_work apis true true true own m0 ≡ detach_unused apis own a m1 =
        unfold iface_detach_work in ground (arith, found) in
      ap (λ r. r.1.attached_ifaces) e ∙ rw unused refl

  -- When the manager is as it should be and an interface that is not to stay has no client, there is a delayed work for it, and when that is carried out,
  -- with memory for its object, the interface is not on the list any more.
  pub unused_is_detached :
      (ifname : List ℕ) (a : AttachedInterface E) (m : Manager E)
      → IsManaged m
      → find ifname m.attached_ifaces ≡ some a
      → is_unused a ≡ true
      → (before : List (List ℕ)) × ((n : List ℕ) × ((after : List (List ℕ)) × ((m.delayed
                ≡ before ++ (n ∷ after))
              × (find ifname (expire apis before n after m).attached_ifaces ≡ none))))
  unused_is_detached ifname a m v found unused =
      let old = find-All (IsFine m.delayed) ifname m.attached_ifaces a found v.fine in
      let planned_work : waits a.ifname m.delayed ≡ true =
        unused_waits m.delayed a unused old.0.1 in
      let (before, (n, (after, (e, same)))) = waits_at a.ifname m.delayed planned_work in
      let same' : is_same ifname_size n ifname ≡ true =
        sym (is_same_replace ifname_size a.ifname ifname n old.1) ∙ same in
      let found' : find n m.attached_ifaces ≡ some a =
        find-same n ifname m.attached_ifaces same' ∙ found in
      (
        before,
        (
          n,
          (
            after,
            (
              e,
              sym (find-same n ifname (expire apis before n after m).attached_ifaces same')
                  ∙ ap (find n) (expire-drop_iface before after n a m found' unused)
                  ∙ find-drop_iface n m.attached_ifaces v.distinct,
            ),
          ),
        ),
      )
    where
      unused_waits :
          (d : List (List ℕ)) (a : AttachedInterface E)
          → is_unused a ≡ true
          → IsKept d a
          → waits a.ifname d ≡ true
      unused_waits d a u (inl kept) = absurd (ground (arith, kept, u))
      unused_waits d a u (inr (inl some_left)) = absurd (ground (arith, some_left, u))
      unused_waits d a u (inr (inr w)) = w
