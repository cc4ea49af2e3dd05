-- ===== src/Server/Stations/Holders.antt =====
-- wv_ipc/wave_ipc_server.c: the references to a station, against its places and its holders.
use dwpal.Common.{
  ℕ, ◌+◌, ◌-◌, ◌<◌, ◌≡◌, ◌≢◌, ◌⊎◌, inl, inr, refl, ap, subst, sym, ◌∙◌, Bool, true, false, List,
  ◌∷◌, Option, none, some, if◌then◌else◌, ◌==◌, arith, null, update, update_self, update_ne, set,
  get_or, count, without, count-without, Bool-cases, Option-cases,
}
use dwpal.Ipc.Message.{Ret}
use dwpal.Server.{Kind, Station, send}
use dwpal.Server.Queue.{send_keeps}
use dwpal.Server.Stations.{Server, sta_incref, sta_decref, remove_station, send_to}
use dwpal.Server.Stations.Total.{count-set}

-- What is allocated at an address, against the number of its places and that of its holders.
abbrev pub Refs : Option Station → (places held : ℕ) → Type 0
Refs none places held = (places ≡ 0) × (held ≡ 0)
Refs (some st) places held = (st.refcnt ≡ places + held) × (0 < st.refcnt)

-- A station is allocated as long as there is a reference to it, and its counter counts them.
abbrev pub IsHeld : Server → List ℕ → Type 0
IsHeld s holders = (p : ℕ) → p ≢ null → Refs (s.memory p) (count p s.stations) (count p holders)

-- A station that the daemon may use: it is in the array, or there is a reference to it.
abbrev pub Known : ℕ → Server → List ℕ → Type 0
Known p s holders = (p ≢ null) × ((0 < count p s.stations) ⊎ (0 < count p holders))

pub station_of :
    (p : ℕ) (s : Server) (holders : List ℕ)
    → IsHeld s holders
    → Known p s holders
    → (st : Station) × (s.memory p ≡ some st)
station_of p s holders v k = elim (Option-cases (s.memory p)) [
  | inl gone ↦
      let r : Refs none (count p s.stations) (count p holders) =
        subst (λ o. Refs o (count p s.stations) (count p holders)) gone (v p k.0) in
      elim k.1 [
        | inl placed ↦ absurd (omega (arith, placed, r.0))
        | inr held ↦ absurd (omega (arith, held, r.1))
      ]
  | inr found ↦ found
]

-- A change of one station and of what refers to it.
pub moved-IsHeld :
    (s t : Server) (h h' : List ℕ) (p : ℕ)
    → IsHeld s h
    → ((q : ℕ) → q ≢ p → t.memory q ≡ s.memory q)
    → ((q : ℕ) → q ≢ null → q ≢ p → count q t.stations ≡ count q s.stations)
    → ((q : ℕ) → q ≢ p → count q h' ≡ count q h)
    → Refs (t.memory p) (count p t.stations) (count p h')
    → IsHeld t h'
moved-IsHeld s t h h' p v elsewhere places holders now q k = elim (Bool-cases (q == p)) [
  | inl is_p ↦
      let e : q ≡ p = ground arith in
      subst (λ x. Refs (t.memory x) (count x t.stations) (count x h')) (sym e) now
  | inr other ↦
      let ne : q ≢ p = ground arith in rw (elsewhere q ne, places q k ne, holders q ne) (v q k)
]

-- The same with the station replaced by one with a reference more or less, or none.
pub changed-IsHeld :
    (s : Server) (h h' : List ℕ) (p : ℕ) (new : Option Station) (pending : ℕ)
    → IsHeld s h
    → ((q : ℕ) → q ≢ p → count q h' ≡ count q h)
    → Refs new (count p s.stations) (count p h')
    → IsHeld (record s { memory = update s.memory p new; station_has_pending_msgs = pending }) h'
changed-IsHeld s h h' p new pending v holders now =
    moved-IsHeld s (record s { memory = update s.memory p new; station_has_pending_msgs = pending })
      h h' p v (λ q k. update_ne s.memory p new q k) (λ q k n. refl) holders
      (subst (λ o. Refs o (count p s.stations) (count p h')) (sym (update_self s.memory p new)) now)

pub reference_count :
    (p : ℕ) (st : Station) (s : Server) (h : List ℕ)
    → IsHeld s h
    → p ≢ null
    → s.memory p ≡ some st
    → Refs (some st) (count p s.stations) (count p h)
reference_count p st s h v k at = subst (λ o. Refs o (count p s.stations) (count p h)) at (v p k)

pub sta_incref-IsHeld :
    (p : ℕ) (st : Station) (s : Server) (h : List ℕ)
    → IsHeld s h
    → p ≢ null
    → s.memory p ≡ some st
    → IsHeld (sta_incref p s) (p ∷ h)
sta_incref-IsHeld p st s h v k at =
    let st' = record st { refcnt = st.refcnt + 1 } in
    let e : sta_incref p s ≡ record s { memory = update s.memory p (some st') } =
      unfold sta_incref in ground (arith, at) in
    let r = reference_count p st s h v k at in
    subst (λ t. IsHeld t (p ∷ h)) (sym e)
      (changed-IsHeld s h (p ∷ h) p (some st') s.station_has_pending_msgs v
        (λ q n. ground (arith, n)) (ground (arith, r.0), omega arith))

pub sta_decref-IsHeld :
    (p : ℕ) (st : Station) (s : Server) (h : List ℕ)
    → IsHeld s h
    → p ≢ null
    → s.memory p ≡ some st
    → 0 < count p h
    → IsHeld (sta_decref p s) (without p h)
sta_decref-IsHeld p st s h v k at held =
    let r = reference_count p st s h v k at in
    let less : count p (without p h) ≡ count p h - 1 = ground (arith, count-without p p h) in
    let others : (q : ℕ) → q ≢ p → count q (without p h) ≡ count q h =
      λ q n. ground (arith, count-without q p h, n) in
    elim (Bool-cases (st.refcnt == 1)) [
      | inl last ↦
          let e : sta_decref p s ≡ record s { memory = update s.memory p none } =
            unfold sta_decref in ground (arith, at, last) in
          subst (λ t. IsHeld t (without p h)) (sym e)
            (changed-IsHeld s h (without p h) p none s.station_has_pending_msgs v others
              (ground (arith, r.0, last, held), ground (arith, less, r.0, last, held)))
      | inr more ↦
          let st' = record st { refcnt = st.refcnt - 1 } in
          let e : sta_decref p s ≡ record s { memory = update s.memory p (some st') } =
            unfold sta_decref in ground (arith, at, more) in
          subst (λ t. IsHeld t (without p h)) (sym e)
            (changed-IsHeld s h (without p h) p (some st') s.station_has_pending_msgs v others
              (omega (arith, less, r.0, held), ground (arith, r.1, more)))
    ]

pub send_to-IsHeld :
    (net : Ret) (dup_ok : Bool) (kind : Kind) (m p : ℕ) (st : Station) (s : Server) (h : List ℕ)
    → IsHeld s h
    → p ≢ null
    → s.memory p ≡ some st
    → IsHeld (send_to net dup_ok kind m p s).1 h
send_to-IsHeld net dup_ok kind m p st s h v k at =
    let r = send net dup_ok true s.station_has_pending_msgs st kind m in
    let refs = reference_count p st s h v k at in
    let same = (send_keeps net dup_ok s.station_has_pending_msgs st kind m).1 in
    let e : (send_to net dup_ok kind m p s).1
        ≡ record s { memory = update s.memory p (some r.1); station_has_pending_msgs = r.2 } =
      unfold send_to in ground (arith, at) in
    subst (λ t. IsHeld t h) (sym e)
      (changed-IsHeld s h h p (some r.1) r.2 v (λ q n. refl)
        (same ∙ refs.0, omega (arith, same, refs.1)))

pub remove_station-IsHeld :
    (i p : ℕ) (st : Station) (s : Server) (h : List ℕ)
    → IsHeld s h
    → p ≢ null
    → get_or s.stations i null ≡ p
    → s.memory p ≡ some st
    → IsHeld (remove_station i p st s) h
remove_station-IsHeld i p st s h v k place at =
    moved-IsHeld s t h h p v (λ q n. ground (arith, mem q, n))
      (λ q z n. ground (arith, ap (count q) array, count-set q s.stations i there z, place, n))
      (λ q n. refl)
      (subst (λ o. Refs o (count p t.stations) (count p h)) (sym (ground (arith, mem p))) now)
  where
    t : Server
    t = remove_station i p st s

    left : Option Station
    left =
        if st.refcnt == 1
        then none
        else some (record st { is_connected = false; refcnt = st.refcnt - 1 })

    mem : (q : ℕ) → t.memory q ≡ (if q == p then left else s.memory q)
    mem q = unfold remove_station in ground arith

    array : t.stations ≡ set s.stations i null
    array = unfold remove_station in ground arith

    there : get_or s.stations i null ≢ null
    there e = k (sym place ∙ e)

    freed : count p t.stations + 1 ≡ count p s.stations
    freed = ground (arith, ap (count p) array, count-set p s.stations i there k, place)

    now : Refs left (count p t.stations) (count p h)
    now =
        let r = reference_count p st s h v k at in
        elim (Bool-cases (st.refcnt == 1)) [
          | inl last ↦ rw last (ground (arith, r.0, last, freed), ground (arith, r.0, last, freed))
          | inr more ↦ rw more (omega (arith, r.0, freed), ground (arith, r.1, more))
        ]
