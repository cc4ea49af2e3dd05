-- ===== src/IfaceManager/Names.antt =====
-- daemon/iface_manager.c: the list of interfaces, found by name.
use dwpal.Common.{
  ℕ, ◌≡◌, refl, sym, ap, subst, ◌∙◌, true, false, List, [], ◌∷◌, ◌++◌, none, some, All, arith,
  Bool-cases, inl, inr,
}
use dwpal.HostapIface.{is_same}
use dwpal.HostapIface.Names.{is_same_refl, is_same_sym, is_same_replace}
use dwpal.IfaceManager.{ifname_size, AttachedInterface, find, put, drop_iface}

-- Names that are pairwise not the same.
abbrev pub IsDistinct : List (List ℕ) → Type 0
IsDistinct [] = Unit
IsDistinct (n ∷ ns) = All (λ n'. is_same ifname_size n n' ≡ false) ns × IsDistinct ns

module _ {E : Type 0} where
  abbrev pub names : List (AttachedInterface E) → List (List ℕ)
  names [] = []
  names (a ∷ others) = a.ifname ∷ names others

  pub find-All :
      (P : AttachedInterface E → Type 0) (ifname : List ℕ) (l : List (AttachedInterface E))
      (a : AttachedInterface E)
      → find ifname l ≡ some a
      → All P l
      → P a × (is_same ifname_size a.ifname ifname ≡ true)
  unfolding find
  find-All P ifname [] a h p = absurd (cc h)
  find-All P ifname (b ∷ l) a h p = elim (Bool-cases (is_same ifname_size b.ifname ifname)) [
    | inl same ↦
        let e : b ≡ a = ground (arith, same, h) in
        subst (λ z. P z × (is_same ifname_size z.ifname ifname ≡ true)) e (p.0, same)
    | inr other ↦
        let rest : find ifname l ≡ some a = ground (arith, other, h) in
        find-All P ifname l a rest p.1
  ]

  pub names-put :
      (ifname : List ℕ) (a a' : AttachedInterface E) (l : List (AttachedInterface E))
      → find ifname l ≡ some a
      → a'.ifname ≡ a.ifname
      → names (put ifname a' l) ≡ names l
  unfolding find put
  names-put ifname a a' [] h e = absurd (cc h)
  names-put ifname a a' (b ∷ l) h e = elim (Bool-cases (is_same ifname_size b.ifname ifname)) [
    | inl same ↦
        let found : b ≡ a = ground (arith, same, h) in
        rw same (ap (λ n. n ∷ names l) (e ∙ ap (λ z. z.ifname) (sym found)))
    | inr other ↦
        let rest : find ifname l ≡ some a = ground (arith, other, h) in
        rw other (ap (λ ns. b.ifname ∷ ns) (names-put ifname a a' l rest e))
  ]

  -- Interfaces whose names are not the same as one that is the same as `ifname`.
  unlike :
      (P Q : AttachedInterface E → Type 0) (n ifname : List ℕ) (l : List (AttachedInterface E))
      → is_same ifname_size n ifname ≡ true
      → All (λ n'. is_same ifname_size n n' ≡ false) (names l)
      → ((b : AttachedInterface E) → is_same ifname_size b.ifname ifname ≡ false → P b → Q b)
      → All P l
      → All Q l
  unlike P Q n ifname [] h d f p = tt
  unlike P Q n ifname (b ∷ l) h d f p =
      let other : is_same ifname_size b.ifname ifname ≡ false =
        sym (is_same_replace ifname_size n ifname b.ifname h)
        ∙ is_same_sym ifname_size b.ifname n
        ∙ d.0 in
      (f b other p.0, unlike P Q n ifname l h d.1 f p.1)

  -- What changes only for the interface with a name.
  pub All-put :
      (P Q : AttachedInterface E → Type 0) (ifname : List ℕ) (a' : AttachedInterface E)
      (l : List (AttachedInterface E))
      → IsDistinct (names l)
      → ((b : AttachedInterface E) → is_same ifname_size b.ifname ifname ≡ false → P b → Q b)
      → All P l
      → Q a'
      → All Q (put ifname a' l)
  unfolding put
  All-put P Q ifname a' [] d f p q = tt
  All-put P Q ifname a' (b ∷ l) d f p q = elim (Bool-cases (is_same ifname_size b.ifname ifname)) [
    | inl same ↦ rw same (q, unlike P Q b.ifname ifname l same d.0 f p.1)
    | inr other ↦ rw other (f b other p.0, All-put P Q ifname a' l d.1 f p.1 q)
  ]

  pub All-drop_iface :
      (P Q : AttachedInterface E → Type 0) (ifname : List ℕ) (l : List (AttachedInterface E))
      → IsDistinct (names l)
      → ((b : AttachedInterface E) → is_same ifname_size b.ifname ifname ≡ false → P b → Q b)
      → All P l
      → All Q (drop_iface ifname l)
  unfolding drop_iface
  All-drop_iface P Q ifname [] d f p = tt
  All-drop_iface P Q ifname (b ∷ l) d f p =
      elim (Bool-cases (is_same ifname_size b.ifname ifname)) [
        | inl same ↦ rw same (unlike P Q b.ifname ifname l same d.0 f p.1)
        | inr other ↦ rw other (f b other p.0, All-drop_iface P Q ifname l d.1 f p.1)
      ]

  pub All-missing :
      (P Q : AttachedInterface E → Type 0) (ifname : List ℕ) (l : List (AttachedInterface E))
      → find ifname l ≡ none
      → ((b : AttachedInterface E) → is_same ifname_size b.ifname ifname ≡ false → P b → Q b)
      → All P l
      → All Q l
  unfolding find
  All-missing P Q ifname [] h f p = tt
  All-missing P Q ifname (b ∷ l) h f p = elim (Bool-cases (is_same ifname_size b.ifname ifname)) [
    | inl same ↦ absurd (ground (arith, same, h))
    | inr other ↦
        let rest : find ifname l ≡ none = ground (arith, other, h) in
        (f b other p.0, All-missing P Q ifname l rest f p.1)
  ]

  pub find-put :
      (ifname : List ℕ) (a a' : AttachedInterface E) (l : List (AttachedInterface E))
      → find ifname l ≡ some a
      → a'.ifname ≡ a.ifname
      → find ifname (put ifname a' l) ≡ some a'
  unfolding find put
  find-put ifname a a' [] h e = absurd (cc h)
  find-put ifname a a' (b ∷ l) h e = elim (Bool-cases (is_same ifname_size b.ifname ifname)) [
    | inl same ↦
        let found : b ≡ a = ground (arith, same, h) in
        let again : is_same ifname_size a'.ifname ifname ≡ true =
          rw (e, sym (ap (λ z. z.ifname) found)) same in
        rw (same, again) refl
    | inr other ↦
        let rest : find ifname l ≡ some a = ground (arith, other, h) in
        rw (other, other) (find-put ifname a a' l rest e)
  ]

  pub put-same :
      (ifname : List ℕ) (a : AttachedInterface E) (l : List (AttachedInterface E))
      → find ifname l ≡ some a
      → put ifname a l ≡ l
  unfolding find put
  put-same ifname a [] h = absurd (cc h)
  put-same ifname a (b ∷ l) h = elim (Bool-cases (is_same ifname_size b.ifname ifname)) [
    | inl same ↦
        let found : b ≡ a = ground (arith, same, h) in rw same (ap (λ c. c ∷ l) (sym found))
    | inr other ↦
        let rest : find ifname l ≡ some a = ground (arith, other, h) in
        rw other (ap (λ t. b ∷ t) (put-same ifname a l rest))
  ]

  pub find-append :
      (l : List (AttachedInterface E)) (a : AttachedInterface E)
      → find a.ifname l ≡ none
      → find a.ifname (l ++ a ∷ []) ≡ some a
  unfolding find
  find-append [] a h = rw (is_same_refl ifname_size a.ifname) refl
  find-append (b ∷ l) a h = elim (Bool-cases (is_same ifname_size b.ifname a.ifname)) [
    | inl same ↦ absurd (ground (arith, same, h))
    | inr other ↦
        let rest : find a.ifname l ≡ none = ground (arith, other, h) in
        rw other (find-append l a rest)
  ]

  names-All :
      (P : List ℕ → Type 0) (l : List (AttachedInterface E))
      → All (λ a. P a.ifname) l
      → All P (names l)
  names-All P [] h = tt
  names-All P (a ∷ l) h = (h.0, names-All P l h.1)

  All-names :
      (P : List ℕ → Type 0) (l : List (AttachedInterface E))
      → All P (names l)
      → All (λ a. P a.ifname) l
  All-names P [] h = tt
  All-names P (a ∷ l) h = (h.0, All-names P l h.1)

  pub drop_iface-IsDistinct :
      (ifname : List ℕ) (l : List (AttachedInterface E))
      → IsDistinct (names l)
      → IsDistinct (names (drop_iface ifname l))
  unfolding drop_iface
  drop_iface-IsDistinct ifname [] d = tt
  drop_iface-IsDistinct ifname (b ∷ l) d = elim (Bool-cases (is_same ifname_size b.ifname ifname)) [
    | inl same ↦ rw same d.1
    | inr other ↦
        let P = λ (a : AttachedInterface E). is_same ifname_size b.ifname a.ifname ≡ false in
        let kept : All P (drop_iface ifname l) =
          All-drop_iface P P ifname l d.1 (λ c o p. p)
            (All-names (λ n. is_same ifname_size b.ifname n ≡ false) l d.0) in
        rw other (
          names-All (λ n. is_same ifname_size b.ifname n ≡ false) (drop_iface ifname l) kept,
          drop_iface-IsDistinct ifname l d.1,
        )
  ]

  pub append-IsDistinct :
      (l : List (AttachedInterface E)) (a : AttachedInterface E)
      → find a.ifname l ≡ none
      → IsDistinct (names l)
      → IsDistinct (names (l ++ a ∷ []))
  unfolding find
  append-IsDistinct [] a h d = (tt, tt)
  append-IsDistinct (b ∷ l) a h d = elim (Bool-cases (is_same ifname_size b.ifname a.ifname)) [
    | inl same ↦ absurd (ground (arith, same, h))
    | inr other ↦
        let rest : find a.ifname l ≡ none = ground (arith, other, h) in
        (end b.ifname l a other d.0, append-IsDistinct l a rest d.1)
  ]
    where
      end :
          (n : List ℕ) (l : List (AttachedInterface E)) (a : AttachedInterface E)
          → is_same ifname_size n a.ifname ≡ false
          → All (λ n'. is_same ifname_size n n' ≡ false) (names l)
          → All (λ n'. is_same ifname_size n n' ≡ false) (names (l ++ a ∷ []))
      end n [] a o h' = (o, tt)
      end n (c ∷ l) a o h' = (h'.0, end n l a o h'.1)
