-- ===== src/Ipc/Multi/Ring.antt =====
-- wv_ipc/wave_ipc_core.c: the ring as the list of the messages behind its head.
use dwpal.Common.{
  ℕ, ◌≡◌, ◌≢◌, refl, sym, ap, subst, ◌∙◌, true, false, List, [], ◌∷◌, ◌++◌, arith, null, All,
  All-map, All-split,
}
use dwpal.Ipc.Message.{Msg, success}
use dwpal.Ipc.Multi.{Store, multi_msg_append, start_ring, extend_ring}

-- The links from `p` on lead over exactly the messages `xs`, none of them a head, and then to `h`.
abbrev pub Chain : Store → ℕ → List ℕ → ℕ → Type 0
Chain s p [] h = p ≡ h
Chain s p (x ∷ xs) h = (p ≡ x) × (x ≢ null) × ((s x).is_head ≡ false) × Chain s (s x).next xs h

-- The head `h` of a ring with the messages `xs` and then `last` behind it.
pub record IsRing (s : Store) (h : ℕ) (xs : List ℕ) (last : ℕ) : Type 0 where
  pub here : h ≢ null
  pub head : (s h).is_head ≡ true
  pub chain : Chain s (s h).next (xs ++ last ∷ []) h
  pub end : (s h).prev ≡ last
  pub distinct : All (λ y. y ≢ last) xs

-- A message that is in no ring.
pub record IsLone (s : Store) (m : ℕ) : Type 0 where
  pub there : m ≢ null
  pub unlinked : (s m).next ≡ null
  pub plain : (s m).is_head ≡ false

-- Appending to a chain changes the link of its last message only.
Chain-snoc :
    (s s' : Store) (p h last m : ℕ) (xs : List ℕ)
    → All (λ y. s' y ≡ s y) xs
    → Chain s p (xs ++ last ∷ []) h
    → (s' last).is_head ≡ (s last).is_head
    → (s' last).next ≡ m
    → m ≢ null
    → (s' m).is_head ≡ false
    → (s' m).next ≡ h
    → Chain s' p ((xs ++ last ∷ []) ++ m ∷ []) h
Chain-snoc s s' p h last m [] a c same link there plain back =
    (c.0, c.1, same ∙ c.2, (link, there, plain, back))
Chain-snoc s s' p h last m (x ∷ xs) a c same link there plain back =
    let rest = Chain-snoc s s' (s x).next h last m xs a.1 c.3 same link there plain back in
    let moved =
      subst (λ t. Chain s' t ((xs ++ last ∷ []) ++ m ∷ []) h) (ap (λ (t : Msg). t.next) (sym a.0))
        rest in
    (c.0, c.1, ap (λ (t : Msg). t.is_head) a.0 ∙ c.2, moved)

-- A message of a ring is linked and is no head.
abbrev IsLinked : Store → ℕ → Type 0
IsLinked s y = ((s y).next ≢ null) × ((s y).is_head ≡ false)

Chain-IsLinked :
    (s : Store) (p h : ℕ) (xs : List ℕ) → h ≢ null → Chain s p xs h → All (IsLinked s) xs
Chain-IsLinked s p h [] there c = tt
Chain-IsLinked s p h (x ∷ []) there c = ((λ e. there (sym c.3 ∙ e), c.2), tt)
Chain-IsLinked s p h (x ∷ y ∷ xs) there c =
    ((λ e. c.3.1 (sym c.3.0 ∙ e), c.2), Chain-IsLinked s (s x).next h (y ∷ xs) there c.3)

started :
    (s : Store) (h m : ℕ)
    → h ≢ m
    → (start_ring s h m h ≡ record (s h) { is_head = true; next = m; prev = m })
      × (start_ring s h m m ≡ record (s m) { prev = h; next = h })
unfolding start_ring
started s h m ne = (ground arith, ground arith)

-- `wave_ipc_multi_msg_append` of a lone message to another makes a ring of the two.
pub append-IsLone :
    (s : Store) (h m : ℕ)
    → IsLone s h
    → IsLone s m
    → h ≢ m
    → ((multi_msg_append s h m).0 ≡ success) × IsRing (multi_msg_append s h m).1 h [] m
append-IsLone s h m lh lm ne = rw calls (refl, made)
  where
    calls : multi_msg_append s h m ≡ (success, start_ring s h m)
    calls = unfold multi_msg_append in ground arith

    made : IsRing (start_ring s h m) h [] m
    made =
        let f = started s h m ne in
        record {
          here = lh.there;
          head = ground (arith, f.0);
          chain = (ground (arith, f.0), lm.there, ground (arith, f.1), ground (arith, f.1));
          end = ground (arith, f.0);
          distinct = tt;
        }

module _ (s : Store) (h last m : ℕ) (hm : h ≢ m) (hl : h ≢ last) (ml : m ≢ last)
    (e : (s h).prev ≡ last) where
  extended_head : extend_ring s h m h ≡ record (s h) { prev = m }
  unfolding extend_ring
  extended_head = ground arith

  extended_last : extend_ring s h m last ≡ record (s last) { next = m }
  unfolding extend_ring
  extended_last = ground arith

  extended_new : extend_ring s h m m ≡ record (s m) { prev = last; next = h }
  unfolding extend_ring
  extended_new = ground arith

  extended_other : (y : ℕ) → y ≢ h → y ≢ last → y ≢ m → extend_ring s h m y ≡ s y
  unfolding extend_ring
  extended_other y a b c = ground arith

pub Chain-there :
    (s : Store) (p h last : ℕ) (xs : List ℕ) → Chain s p (xs ++ last ∷ []) h → p ≢ null
Chain-there s p h last [] c = λ e. c.1 (sym c.0 ∙ e)
Chain-there s p h last (x ∷ xs) c = λ e. c.1 (sym c.0 ∙ e)

others_same :
    (s : Store) (h last m : ℕ) (xs : List ℕ)
    → h ≢ m
    → h ≢ last
    → m ≢ last
    → (s h).prev ≡ last
    → (s h).is_head ≡ true
    → (s m).next ≡ null
    → All (IsLinked s) xs
    → All (λ y. y ≢ last) xs
    → All (λ y. extend_ring s h m y ≡ s y) xs
others_same s h last m [] hm hl ml e head lone a d = tt
others_same s h last m (x ∷ xs) hm hl ml e head lone a d = (
  extended_other s h last m hm hl ml e x (λ p. ground (arith, ap s p, a.0.1)) d.0
      (λ p. a.0.0 (ap (λ t. (s t).next) p ∙ lone)),
  others_same s h last m xs hm hl ml e head lone a.1 d.1,
)

-- `wave_ipc_multi_msg_append` of a lone message to a ring puts it behind the last.
pub append-IsRing :
    (s : Store) (h last m : ℕ) (xs : List ℕ)
    → IsRing s h xs last
    → IsLone s m
    → ((multi_msg_append s h m).0 ≡ success)
      × IsRing (multi_msg_append s h m).1 h (xs ++ last ∷ []) m
append-IsRing s h last m xs r lm = rw calls (refl, made)
  where
    linked : All (IsLinked s) xs × All (IsLinked s) (last ∷ [])
    linked =
        All-split (IsLinked s) xs (last ∷ [])
          (Chain-IsLinked s (s h).next h (xs ++ last ∷ []) r.here r.chain)

    next_there : (s h).next ≢ null
    next_there = Chain-there s (s h).next h last xs r.chain

    calls : multi_msg_append s h m ≡ (success, extend_ring s h m)
    calls = unfold multi_msg_append in ground (arith, next_there)

    hm : h ≢ m
    hm p = ground (arith, ap s p)

    ml : m ≢ last
    ml p = ground (arith, ap s p, linked.1.0)

    hl : h ≢ last
    hl p = ground (arith, ap s p, linked.1.0)

    made : IsRing (extend_ring s h m) h (xs ++ last ∷ []) m
    made =
        let s' = extend_ring s h m in
        let at_h = extended_head s h last m hm hl ml r.end in
        let at_l = extended_last s h last m hm hl ml r.end in
        let at_m = extended_new s h last m hm hl ml r.end in
        let same =
          others_same s h last m xs hm hl ml r.end r.head lm.unlinked linked.0 r.distinct in
        record {
          here = r.here;
          head = ap (λ (t : Msg). t.is_head) at_h ∙ r.head;
          chain =
              subst (λ t. Chain s' t ((xs ++ last ∷ []) ++ m ∷ []) h)
                (ap (λ (t : Msg). t.next) (sym at_h))
                (Chain-snoc s s' (s h).next h last m xs same r.chain
                  (ap (λ (t : Msg). t.is_head) at_l) (ap (λ (t : Msg). t.next) at_l) lm.there
                  (ap (λ (t : Msg). t.is_head) at_m ∙ lm.plain) (ap (λ (t : Msg). t.next) at_m));
          end = ap (λ (t : Msg). t.prev) at_h;
          distinct =
              All-map (IsLinked s) (λ y. y ≢ m) (xs ++ last ∷ [])
                (λ y l p. l.0 (ap (λ t. (s t).next) p ∙ lm.unlinked))
                (Chain-IsLinked s (s h).next h (xs ++ last ∷ []) r.here r.chain);
        }
