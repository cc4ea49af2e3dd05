-- ===== src/Server/Stations/Total.antt =====
-- wv_ipc/wave_ipc_server.c: the number of messages that wait for the stations of the array.
use dwpal.Common.{
  ℕ, zero, suc, ◌+◌, ◌<◌, ◌≡◌, ◌≢◌, refl, ap, List, [], ◌∷◌, Option, none, some, if◌then◌else◌,
  ◌==◌, length, arith, Bool-cases, Option-cases, inl, inr, subst, null, update, set, get_or, count,
}
use dwpal.Server.{Station}
use dwpal.Server.Queue.{load}
use dwpal.Server.Stations.{take_place}

abbrev pub load_of : Option Station → ℕ
load_of none = 0
load_of (some st) = load st

abbrev pub total : (ℕ → Option Station) → List ℕ → ℕ
total memory [] = 0
total memory (p ∷ ps) = (if p == null then 0 else load_of (memory p)) + total memory ps

-- Only the stations of the array matter.
pub total_ext :
    (memory memory' : ℕ → Option Station) (l : List ℕ)
    → ((q : ℕ) → q ≢ null → 0 < count q l → memory' q ≡ memory q)
    → total memory' l ≡ total memory l
total_ext memory memory' [] h = refl
total_ext memory memory' (q ∷ l) h =
    let rest = total_ext memory memory' l (λ x k c. h x k (omega (arith, c))) in
    ground (arith, rest, h q)

pub total_other :
    (memory : ℕ → Option Station) (p : ℕ) (v : Option Station) (l : List ℕ)
    → count p l ≡ 0
    → total (update memory p v) l ≡ total memory l
total_other memory p v [] h = refl
total_other memory p v (q ∷ l) h = ground (arith, total_other memory p v l (omega arith))

pub total_here :
    (memory : ℕ → Option Station) (p : ℕ) (v : Option Station) (l : List ℕ)
    → count p l ≡ 1
    → p ≢ null
    → total (update memory p v) l + load_of (memory p) ≡ total memory l + load_of v
total_here memory p v [] h k = absurd (omega arith)
total_here memory p v (q ∷ l) h k = elim (Bool-cases (q == p)) [
  | inl same ↦
      let none_behind : count p l ≡ 0 = ground (arith, h, same) in
      let e : q ≡ p = ground arith in
      ground (arith, total_other memory p v l none_behind, same, ap memory e)
  | inr differs ↦ ground (arith, total_here memory p v l (ground (arith, h, differs)) k, differs)
]

pub total-set :
    (memory : ℕ → Option Station) (l : List ℕ) (i : ℕ)
    → get_or l i null ≢ null
    → total memory (set l i null) + load_of (memory (get_or l i null)) ≡ total memory l
total-set memory [] i h = absurd (h refl)
total-set memory (q ∷ l) zero h = ground arith
total-set memory (q ∷ l) (suc i) h = omega (arith, total-set memory l i h)

pub count-set :
    (q : ℕ) (l : List ℕ) (i : ℕ)
    → get_or l i null ≢ null
    → q ≢ null
    → count q (set l i null) + (if get_or l i null == q then 1 else 0) ≡ count q l
count-set q [] i h k = absurd (h refl)
count-set q (p ∷ l) zero h k = ground arith
count-set q (p ∷ l) (suc i) h k = omega (arith, count-set q l i h k)

abbrev Taken : (ℕ → Option Station) → ℕ → List ℕ → List ℕ → Type 0
Taken memory p l l' =
    ((q : ℕ) → q ≢ null → count q l' ≡ (if p == q then 1 else 0) + count q l)
    × (total memory l' ≡ load_of (memory p) + total memory l)
    × (length l' ≡ length l)

pub take_place_lem :
    (memory : ℕ → Option Station) (p : ℕ) (l l' : List ℕ)
    → p ≢ null
    → take_place p l ≡ some l'
    → ((q : ℕ) → q ≢ null → count q l' ≡ (if p == q then 1 else 0) + count q l)
      × (total memory l' ≡ load_of (memory p) + total memory l)
      × (length l' ≡ length l)
unfolding take_place
take_place_lem memory p [] l' h e = absurd (cc e)
take_place_lem memory p (q ∷ l) l' h e = elim (Bool-cases (q == null)) [
  | inl free ↦
      let same : p ∷ l ≡ l' = ground (arith, free, e) in
      let z : q ≡ null = ground arith in
      subst (Taken memory p (q ∷ l)) same
        ((λ x k. ground (arith, z, k)), ground (arith, z, h), refl)
  | inr used ↦ elim (Option-cases (take_place p l)) [
    | inl full ↦ absurd (ground (arith, used, full, e))
    | inr (l1, at) ↦
        let same : q ∷ l1 ≡ l' = ground (arith, used, at, e) in
        let ih = take_place_lem memory p l l1 h at in
        subst (Taken memory p (q ∷ l)) same
          ((λ x k. omega (arith, ih.0 x k)), omega (arith, ih.1), omega (arith, ih.2))
  ]
]
