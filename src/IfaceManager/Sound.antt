-- ===== src/IfaceManager/Sound.antt =====
-- daemon/iface_manager.c: what is true of the manager between two works.
use dwpal.Common.{
  ℕ, ◌+◌, ◌<◌, ◌≤◌, ◌≡◌, refl, sym, ap, subst, ◌∙◌, Bool, true, false, ◌&&◌, ◌||◌, List, [], ◌∷◌,
  ◌++◌, if◌then◌else◌, length, All, All-map, count, without, count-without, count-append, keep,
  arith, Bool-cases, inl, inr, ◌⊎◌,
}
use dwpal.HostapIface.{is_same}
use dwpal.HostapIface.Names.{is_same_sym, is_same_replace}
use dwpal.IfaceManager.{
  ifname_size, AttachedInterface, Manager, cancel, is_unused, Output, req_failed, emit,
}
use dwpal.IfaceManager.Works.{CmdWork, answer}
use dwpal.IfaceManager.Names.{IsDistinct, names}

-- Whether a delayed work for an interface waits.
abbrev pub waits : List ℕ → List (List ℕ) → Bool
waits ifname [] = false
waits ifname (n ∷ ns) = is_same ifname_size n ifname || waits ifname ns

-- The cancelled works are those for this interface only.
pub waits-cancel :
    (other ifname : List ℕ) (delayed : List (List ℕ))
    → is_same ifname_size other ifname ≡ false
    → waits other (cancel ifname delayed) ≡ waits other delayed
unfolding cancel keep is_same
waits-cancel other ifname [] h = refl
waits-cancel other ifname (n ∷ ns) h =
    let ih = waits-cancel other ifname ns h in
    elim (Bool-cases (is_same ifname_size n ifname)) [
      | inl same ↦
          let unlike : is_same ifname_size n other ≡ false =
            is_same_sym ifname_size n other ∙ is_same_replace ifname_size n ifname other same ∙ h in
          rw (same, unlike) ih
      | inr kept ↦ rw kept (ap (λ b. is_same ifname_size n other || b) ih)
    ]

pub waits-append :
    (ifname n : List ℕ) (delayed : List (List ℕ))
    → waits ifname delayed ≡ true
    → waits ifname (delayed ++ n ∷ []) ≡ true
waits-append ifname n [] h = absurd (cc h)
waits-append ifname n (x ∷ delayed) h = elim (Bool-cases (is_same ifname_size x ifname)) [
  | inl same ↦ rw same refl
  | inr other ↦
      let rest : waits ifname delayed ≡ true = ground (arith, other, h) in
      rw other (waits-append ifname n delayed rest)
]

pub waits-added :
    (ifname n : List ℕ) (delayed : List (List ℕ))
    → is_same ifname_size n ifname ≡ true
    → waits ifname (delayed ++ n ∷ []) ≡ true
waits-added ifname n [] h = rw h refl
waits-added ifname n (x ∷ delayed) h = elim (Bool-cases (is_same ifname_size x ifname)) [
  | inl same ↦ rw same refl
  | inr other ↦ rw other (waits-added ifname n delayed h)
]

pub waits-remove :
    (n ifname : List ℕ) (before after : List (List ℕ))
    → is_same ifname_size n ifname ≡ false
    → waits n (before ++ (ifname ∷ after)) ≡ true
    → waits n (before ++ after) ≡ true
waits-remove n ifname [] after o h = ground (arith, h, is_same_sym ifname_size n ifname, o)
waits-remove n ifname (x ∷ before) after o h = elim (Bool-cases (is_same ifname_size x n)) [
  | inl same ↦ rw same refl
  | inr other ↦
      let rest : waits n (before ++ (ifname ∷ after)) ≡ true = ground (arith, other, h) in
      rw other (waits-remove n ifname before after o rest)
]

pub length-cancel :
    (ifname : List ℕ) (delayed : List (List ℕ)) → length (cancel ifname delayed) ≤ length delayed
unfolding cancel keep
length-cancel ifname [] = omega arith
length-cancel ifname (n ∷ ns) = ground (arith, length-cancel ifname ns)

length-snoc : (d : List (List ℕ)) (n : List ℕ) → length (d ++ n ∷ []) ≡ length d + 1
length-snoc [] n = refl
length-snoc (x ∷ d) n = omega (arith, length-snoc d n)

-- A list with no station twice.
abbrev pub IsOnce : List ℕ → Type 0
IsOnce l = (x : ℕ) → count x l ≤ 1

pub without-IsOnce : (sta : ℕ) (l : List ℕ) → IsOnce l → IsOnce (without sta l)
without-IsOnce sta l h x = ground (arith, count-without x sta l, h x)

pub rejoin-IsOnce : (sta : ℕ) (l : List ℕ) → IsOnce l → IsOnce (without sta l ++ sta ∷ [])
rejoin-IsOnce sta l h x =
    ground (arith, count-append x (without sta l) (sta ∷ []), count-without x sta l, h x)

module _ {E : Type 0} where
  -- An interface has a reason to be there: it is to stay, it has clients, or its end is planned.
  abbrev pub IsKept : List (List ℕ) → AttachedInterface E → Type 0
  IsKept delayed a =
      (a.keep_attached ≡ true) ⊎ ((0 < length a.attached_clients) ⊎ (waits a.ifname delayed ≡ true))

  abbrev pub IsFine : List (List ℕ) → AttachedInterface E → Type 0
  IsFine delayed a = IsOnce a.attached_clients × IsKept delayed a

  -- Fine, but the interface with this name may have no reason to be there.
  unfoldable pub Weak : List (List ℕ) → List ℕ → AttachedInterface E → Type 0
  Weak d ifname b =
      IsOnce b.attached_clients × (is_same ifname_size b.ifname ifname ≡ false → IsKept d b)

  pub IsFine-Weak :
      (d : List (List ℕ)) (ifname : List ℕ) (l : List (AttachedInterface E))
      → All (IsFine d) l
      → All (Weak d ifname) l
  unfolding Weak
  IsFine-Weak d ifname l h = All-map (IsFine d) (Weak d ifname) l (λ b f. (f.0, (λ _. f.1))) h

  pub IsKept-map :
      (d d' : List (List ℕ)) (a : AttachedInterface E)
      → (waits a.ifname d ≡ true → waits a.ifname d' ≡ true)
      → IsKept d a
      → IsKept d' a
  IsKept-map d d' a f (inl k) = inl k
  IsKept-map d d' a f (inr (inl c)) = inr (inl c)
  IsKept-map d d' a f (inr (inr w)) = inr (inr (f w))

  pub used-IsKept : (d : List (List ℕ)) (a : AttachedInterface E) → is_unused a ≡ false → IsKept d a
  used-IsKept d a h = elim (Bool-cases a.keep_attached) [
    | inl k ↦ inl k
    | inr left ↦ inr (inl (ground (arith, left, h)))
  ]

  -- The delayed works with one for an interface that has become unused.
  abbrev pub planned : AttachedInterface E → List ℕ → List (List ℕ) → List (List ℕ)
  planned a ifname d = if is_unused a && true then d ++ ifname ∷ [] else d

  pub planned-IsKept :
      (a : AttachedInterface E) (ifname : List ℕ) (d : List (List ℕ))
      → is_same ifname_size ifname a.ifname ≡ true
      → IsKept (planned a ifname d) a
        × (((b : AttachedInterface E) → IsKept d b → IsKept (planned a ifname d) b)
            × (length (planned a ifname d) ≤ length d + 1))
  planned-IsKept a ifname d same = elim (Bool-cases (is_unused a)) [
    | inl unused ↦ rw unused (
      inr (inr (waits-added a.ifname ifname d same)),
      (
        (λ b k. IsKept-map d (d ++ ifname ∷ []) b (waits-append b.ifname ifname d) k),
        omega (arith, length-snoc d ifname),
      ),
    )
    | inr used ↦ rw used (used-IsKept d a used, ((λ b k. k), omega arith))
  ]

  -- The state and the events of an interface are not what makes it fine.
  pub same-IsFine :
      (d : List (List ℕ)) (a a' : AttachedInterface E)
      → a'.ifname ≡ a.ifname
      → a'.attached_clients ≡ a.attached_clients
      → a'.keep_attached ≡ a.keep_attached
      → IsFine d a
      → IsFine d a'
  same-IsFine d a a' n c k (once, inl kept) = (subst IsOnce (sym c) once, inl (k ∙ kept))
  same-IsFine d a a' n c k (once, inr (inl some_left)) =
      (subst IsOnce (sym c) once, inr (inl (subst (λ l. 0 < length l) (sym c) some_left)))
  same-IsFine d a a' n c k (once, inr (inr planned)) =
      (subst IsOnce (sym c) once, inr (inr (subst (λ x. waits x d ≡ true) (sym n) planned)))

  -- What is true of the manager between two works.
  pub record IsManaged (m : Manager E) : Type 0 where
    pub distinct : IsDistinct (names m.attached_ifaces)
    pub fine : All (IsFine m.delayed) m.attached_ifaces
    pub objs : length m.delayed ≤ m.detach_objs

  pub emit-IsManaged : (o : List Output) (m : Manager E) → IsManaged m → IsManaged (emit o m)
  emit-IsManaged o m v = record { distinct = v.distinct; fine = v.fine; objs = v.objs }

  pub answer-IsManaged :
      (ok resp_ok : Bool) (w : CmdWork) (o : Output) (m : Manager E)
      → IsManaged m
      → IsManaged (answer ok resp_ok w o m).1
  answer-IsManaged false resp_ok w o m v = emit-IsManaged (req_failed w.ipsta w.seq_num ∷ []) m v
  answer-IsManaged true false w o m v = emit-IsManaged (req_failed w.ipsta w.seq_num ∷ []) m v
  answer-IsManaged true true w o m v = emit-IsManaged (o ∷ []) m v
