-- ===== src/IfaceManager/Start.antt =====
-- daemon/iface_manager.c: the start and the end of the manager.
use dwpal.Common.{
  ℕ, ◌-◌, ◌≡◌, refl, sym, ap, subst, ◌∙◌, Bool, true, not, List, [], ◌∷◌, Option, none, some,
  if◌then◌else◌, ltb, length, All, take, arith, Bool-cases, Option-cases, inl, inr,
}
use dwpal.IfaceManager.{ifname_size, ManagerApis, AttachedInterface, Manager, detached, Output}
use dwpal.IfaceManager.Names.{IsDistinct, names}
use dwpal.IfaceManager.Sound.{IsFine, IsManaged, same-IsFine}

module _ {E : Type 0} (apis : ManagerApis E) where
  -- The interface of a name of `seed_ifaces`, which is to stay.
  abbrev pub seed : List ℕ → AttachedInterface E
  seed ifname = record {
    ifname = take (ifname_size - 1) ifname;
    state = 0;
    events = apis.no_events;
    attached_clients = [];
    keep_attached = true;
  }

  unfoldable pub seeds : List (List ℕ) → List (AttachedInterface E)
  seeds [] = []
  seeds (n ∷ ns) = seed n ∷ seeds ns

  -- The loop that attaches the interfaces; `none` when one fails.
  unfoldable pub attach_all : List (AttachedInterface E) → Option (List (AttachedInterface E))
  attach_all [] = some []
  attach_all (a ∷ others) =
      let (ok, state') = apis.iface_attach a.ifname a.state in
      let rest = attach_all others in
      if not ok
      then none
      else elim rest [ none ↦ none | some l ↦ some (record a { state = state' } ∷ l) ]

  -- The names of which `iface_detach` is called.
  unfoldable pub detach_all : List (AttachedInterface E) → List Output
  detach_all [] = []
  detach_all (a ∷ others) = detached a.ifname ∷ detach_all others

  -- `iface_manager_init`, with what it does to the outside; `none` for NULL. `memory` says for how many of
  -- the interfaces there is memory, `none` that there is none for the manager and its list, and `serializer_ok` that the serializer starts.
  unfoldable pub iface_manager_init :
      Option ℕ → Bool → List (List ℕ) → Option (Manager E) × List Output
  iface_manager_init none serializer_ok seed_ifaces = (none, [])
  iface_manager_init (some memory) serializer_ok seed_ifaces =
      let l = seeds seed_ifaces in
      if ltb memory (length seed_ifaces)
      then (none, detach_all (seeds (take memory seed_ifaces)))
      else if not serializer_ok
      then (none, detach_all l)
      else elim (attach_all l) [
        | none ↦ (none, detach_all l)
        | some l' ↦ (
          some (record { attached_ifaces = l'; delayed = []; detach_objs = 0; outputs = [] }),
          [],
        )
      ]

  -- `iface_manager_deinit`
  unfoldable pub iface_manager_deinit : Manager E → List Output
  iface_manager_deinit m = detach_all m.attached_ifaces

  names-attach_all :
      (l l' : List (AttachedInterface E))
      → attach_all l ≡ some l'
      → All (IsFine []) l
      → (names l' ≡ names l) × All (IsFine []) l'
  unfolding attach_all
  names-attach_all [] l' h fine =
      let e : [] ≡ l' = cc h in (ap names (sym e), subst (All (IsFine [])) e tt)
  names-attach_all (a ∷ l) l' h fine = elim (Bool-cases (apis.iface_attach a.ifname a.state).0) [
    | inr refused ↦ absurd (ground (arith, refused, h))
    | inl ok ↦ elim (Option-cases (attach_all l)) [
      | inl failed ↦ absurd (ground (arith, ok, failed, h))
      | inr (r, done) ↦
          let e : record a { state = (apis.iface_attach a.ifname a.state).1 } ∷ r ≡ l' =
            ground (arith, ok, done, h) in
          let ih = names-attach_all l r done fine.1 in
          (
            ap names (sym e) ∙ ap (λ ns. a.ifname ∷ ns) ih.0,
            subst (All (IsFine [])) e (
              same-IsFine [] a (record a { state = (apis.iface_attach a.ifname a.state).1 }) refl
                  refl refl fine.0,
              ih.1,
            ),
          )
    ]
  ]

  seeds-IsFine : (ns : List (List ℕ)) → All (IsFine []) (seeds ns)
  unfolding seeds
  seeds-IsFine [] = tt
  seeds-IsFine (n ∷ ns) = (((λ x. omega arith), inl refl), seeds-IsFine ns)

  -- If `iface_manager_init` gives a manager, for seeds of which no two have the same name, the manager is as it should be: its
  -- interfaces are the seeds, and nothing is planned.
  pub iface_manager_init-IsManaged :
      (memory : Option ℕ) (serializer_ok : Bool) (seed_ifaces : List (List ℕ)) (m : Manager E)
      → IsDistinct (names (seeds seed_ifaces))
      → (iface_manager_init memory serializer_ok seed_ifaces).0 ≡ some m
      → IsManaged m × (names m.attached_ifaces ≡ names (seeds seed_ifaces))
  unfolding iface_manager_init
  iface_manager_init-IsManaged none serializer_ok seed_ifaces m d h = absurd (cc h)
  iface_manager_init-IsManaged (some memory) serializer_ok seed_ifaces m d h =
      elim (Bool-cases (ltb memory (length seed_ifaces))) [
        | inl short ↦ absurd (ground (arith, short, h))
        | inr enough ↦ elim (Bool-cases serializer_ok) [
          | inr refused ↦ absurd (ground (arith, enough, refused, h))
          | inl ok ↦ elim (Option-cases (attach_all (seeds seed_ifaces))) [
            | inl failed ↦ absurd (ground (arith, enough, ok, failed, h))
            | inr (l, done) ↦
                let new : Manager E = record {
                  attached_ifaces = l;
                  delayed = [];
                  detach_objs = 0;
                  outputs = [];
                } in
                let e : new ≡ m = ground (arith, enough, ok, done, h) in
                let k = names-attach_all (seeds seed_ifaces) l done (seeds-IsFine seed_ifaces) in
                subst (λ z. IsManaged z × (names z.attached_ifaces ≡ names (seeds seed_ifaces))) e
                  (
                    record {
                      distinct = subst IsDistinct (sym k.0) d;
                      fine = k.1;
                      objs = omega arith;
                    },
                    k.0,
                  )
          ]
        ]
      ]
