-- ===== src/Server/Stations/Removal.antt =====
-- wv_ipc/wave_ipc_server.c: references that are given up, and stations that leave their place.
use dwpal.Common.{
  ℕ, zero, suc, ◌+◌, ◌-◌, ◌<◌, ◌≡◌, ◌≢◌, inl, inr, refl, ap, subst, sym, ◌∙◌, false, List, [], ◌∷◌,
  Option, none, some, if◌then◌else◌, ◌==◌, length, arith, null, update, update_self, update_ne, set,
  get_or, count, Bool-cases,
}
use dwpal.Server.{Station}
use dwpal.Server.Queue.{load}
use dwpal.Server.Stations.{client_arr_size, Server, sta_decref, remove_station}
use dwpal.Server.Stations.Total.{load_of, total, total_ext, total_other, total-set, count-set}
use dwpal.Server.Stations.Counter.{Placed, IsCounted, change-IsCounted}

-- The server after the memory of addresses without a place, and of at most `p` beside, has changed.
pub moved-IsCounted :
    (s t : Server) (p : ℕ)
    → IsCounted s
    → t.fault ≡ false
    → ((q : ℕ) → q ≢ p → t.memory q ≡ s.memory q)
    → ((q : ℕ) → q ≢ null → q ≢ p → count q t.stations ≡ count q s.stations)
    → Placed (t.memory p) (count p t.stations)
    → t.station_has_pending_msgs ≡ total t.memory t.stations
    → length t.stations ≡ client_arr_size
    → IsCounted t
moved-IsCounted s t p v fine elsewhere places now sum long = record {
  no_fault = fine;
  counted = sum;
  placed = λ q k. elim (Bool-cases (q == p)) [
    | inl is_p ↦
        let e : q ≡ p = ground arith in
        subst (λ x. Placed (t.memory x) (count x t.stations)) (sym e) now
    | inr other ↦
        let ne : q ≢ p = ground arith in
        subst (λ n. Placed (t.memory q) n) (sym (places q k ne))
          (subst (λ m. Placed m (count q s.stations)) (sym (elsewhere q ne)) (v.placed q k))
  ];
  size = long;
}

pub sta_decref-IsCounted :
    (p : ℕ) (s : Server)
    → IsCounted s
    → p ≢ null
    → (st : Station) → s.memory p ≡ some st
    → count p s.stations < st.refcnt
    → IsCounted (sta_decref p s)
sta_decref-IsCounted p s v h st at spare = elim (Bool-cases (st.refcnt == 1)) [
  | inl last ↦
      let nowhere : count p s.stations ≡ 0 = ground (arith, spare, last) in
      let e : sta_decref p s ≡ record s { memory = update s.memory p none } =
        unfold sta_decref in ground (arith, at, last) in
      subst IsCounted (sym e) (
        moved-IsCounted s (record s { memory = update s.memory p none }) p v v.no_fault
          (λ q k. update_ne s.memory p none q k) (λ q k n. refl)
          (subst (λ t. Placed t (count p s.stations)) (sym (update_self s.memory p none)) nowhere)
          (v.counted ∙ sym (total_other s.memory p none s.stations nowhere)) v.size)
  | inr more ↦
      let was = subst (λ t. Placed t (count p s.stations)) at (v.placed p h) in
      let e : sta_decref p s
          ≡ record s { memory = update s.memory p (some (record st { refcnt = st.refcnt - 1 })) } =
        unfold sta_decref in ground (arith, at, more) in
      subst IsCounted (sym e) (
        change-IsCounted s p st (record st { refcnt = st.refcnt - 1 }) s.station_has_pending_msgs v
          h at refl (λ c. omega (arith, c, spare)) was.0 (λ _. refl) (λ _. refl))
]

length-set-null : (l : List ℕ) (i : ℕ) → length (set l i null) ≡ length l
length-set-null [] i = refl
length-set-null (x ∷ l) zero = refl
length-set-null (x ∷ l) (suc i) = ap suc (length-set-null l i)

-- What becomes of a station that leaves its place.
abbrev left_behind : Station → Option Station
left_behind st =
    if st.refcnt == 1
    then none
    else some (record st { is_connected = false; refcnt = st.refcnt - 1 })

pub remove_station-IsCounted :
    (i p : ℕ) (st : Station) (s : Server)
    → IsCounted s
    → p ≢ null
    → get_or s.stations i null ≡ p
    → s.memory p ≡ some st
    → IsCounted (remove_station i p st s)
remove_station-IsCounted i p st s v h place at =
    moved-IsCounted s t p v (unfold remove_station in ground (arith, v.no_fault))
      (λ q k. ground (arith, mem q, k))
      (λ q k n. ground (arith, ap (count q) array, count-set q s.stations i there k, place, n)) now
      sum (ap length array ∙ length-set-null s.stations i ∙ v.size)
  where
    t : Server
    t = remove_station i p st s

    mem : (q : ℕ) → t.memory q ≡ (if q == p then left_behind st else s.memory q)
    mem q = unfold remove_station in ground arith

    array : t.stations ≡ set s.stations i null
    array = unfold remove_station in ground arith

    there : get_or s.stations i null ≢ null
    there e = h (sym place ∙ e)

    was : Placed (some st) (count p s.stations)
    was = subst (λ t. Placed t (count p s.stations)) at (v.placed p h)

    freed : count p (set s.stations i null) + 1 ≡ count p s.stations
    freed = ground (arith, count-set p s.stations i there h, place)

    nowhere : count p t.stations ≡ 0
    nowhere = elim was.1 [
      | inl (_, one, _) ↦ omega (arith, freed, one, ap (count p) array)
      | inr (_, none_at) ↦ absurd (omega (arith, freed, none_at))
    ]

    left : Placed (left_behind st) (count p t.stations)
    left = elim (Bool-cases (st.refcnt == 1)) [
      | inl last ↦ rw last nowhere
      | inr more ↦ rw more (was.0, inr (refl, nowhere))
    ]

    now : Placed (t.memory p) (count p t.stations)
    now = subst (λ m. Placed m (count p t.stations)) (sym (ground (arith, mem p))) left

    pend : t.station_has_pending_msgs ≡ s.station_has_pending_msgs - load st
    pend = unfold remove_station in ground arith

    kept : total t.memory (set s.stations i null) ≡ total s.memory (set s.stations i null)
    kept = total_ext s.memory t.memory (set s.stations i null) λ q k c. elim (Bool-cases (q == p)) [
      | inl same ↦
          let e : q ≡ p = ground arith in
          absurd (
            omega
              (arith, c, ap (λ x. count x (set s.stations i null)) e, ap (count p) array, nowhere))
      | inr other ↦ ground (arith, mem q, other)
    ]

    sum : t.station_has_pending_msgs ≡ total t.memory t.stations
    sum =
        let whole = total-set s.memory s.stations i there in
        let mine : load_of (s.memory (get_or s.stations i null)) ≡ load st =
          ap (λ x. load_of (s.memory x)) place ∙ ap load_of at in
        omega (arith, pend, kept, whole, mine, v.counted, ap (total t.memory) array)
