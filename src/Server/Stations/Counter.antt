-- ===== src/Server/Stations/Counter.antt =====
-- wv_ipc/wave_ipc_server.c: the count of the messages that wait, against the stations in the array.
use dwpal.Common.{
  ℕ, ◌+◌, ◌≤◌, ◌<◌, ◌≡◌, ◌≢◌, ◌⊎◌, inl, inr, refl, ap, subst, sym, ◌∙◌, Bool, true, false, List, [],
  ◌∷◌, Option, none, some, ◌==◌, length, arith, null, update, update_self, update_ne, count,
  Bool-cases,
}
use dwpal.Ipc.Message.{Ret}
use dwpal.Server.{Kind, Station, send}
use dwpal.Server.Queue.{load, IsTidy, send-line, send_keeps}
use dwpal.Server.Stations.{client_arr_size, Server, sta_incref, send_to}
use dwpal.Server.Stations.Total.{load_of, total, total_other, total_here}

-- An address against the number of its places: a station is connected while it has its place, which holds a
-- reference to it.
abbrev pub Placed : Option Station → ℕ → Type 0
Placed none places = places ≡ 0
Placed (some st) places =
    IsTidy st
    × (((st.is_connected ≡ true) × (places ≡ 1) × (0 < st.refcnt))
        ⊎ ((st.is_connected ≡ false) × (places ≡ 0)))

pub record IsCounted (s : Server) : Type 0 where
  pub no_fault : s.fault ≡ false
  pub counted : s.station_has_pending_msgs ≡ total s.memory s.stations
  pub placed : (p : ℕ) → p ≢ null → Placed (s.memory p) (count p s.stations)
  pub size : length s.stations ≡ client_arr_size

pub load_le_total :
    (memory : ℕ → Option Station) (p : ℕ) (l : List ℕ)
    → p ≢ null
    → 0 < count p l
    → load_of (memory p) ≤ total memory l
load_le_total memory p [] h k = absurd (omega arith)
load_le_total memory p (q ∷ l) h k = elim (Bool-cases (q == p)) [
  | inl same ↦ let e : q ≡ p = ground arith in ground (arith, ap memory e)
  | inr differs ↦ omega (arith, load_le_total memory p l h (ground (arith, differs)))
]

-- The station at `p` in a sound server is replaced by one with the same connection, and the counter follows.
pub change-IsCounted :
    (s : Server) (p : ℕ) (st st' : Station) (pending : ℕ)
    → IsCounted s
    → p ≢ null
    → s.memory p ≡ some st
    → st'.is_connected ≡ st.is_connected
    → (0 < count p s.stations → 0 < st'.refcnt)
    → IsTidy st'
    → ((st.is_connected ≡ true) → pending + load st ≡ s.station_has_pending_msgs + load st')
    → ((st.is_connected ≡ false) → pending ≡ s.station_has_pending_msgs)
    → IsCounted
        (record s { memory = update s.memory p (some st'); station_has_pending_msgs = pending })
change-IsCounted s p st st' pending v h at same refs tidy on off = record {
  no_fault = v.no_fault;
  counted = elim was.1 [
    | inl (connected, one, held) ↦ omega (
      arith,
      on connected,
      total_here s.memory p (some st') s.stations one h,
      ap load_of at,
      v.counted,
    )
    | inr (gone, nowhere) ↦
        off gone ∙ v.counted ∙ sym (total_other s.memory p (some st') s.stations nowhere)
  ];
  placed = λ q k. elim (Bool-cases (q == p)) [
    | inl is_p ↦
        let e : q ≡ p = ground arith in
        subst (λ x. Placed (update s.memory p (some st') x) (count x s.stations)) (sym e)
          (subst (λ t. Placed t (count p s.stations)) (sym (update_self s.memory p (some st'))) now)
    | inr other ↦
        subst (λ t. Placed t (count q s.stations))
          (sym (update_ne s.memory p (some st') q (ground arith))) (v.placed q k)
  ];
  size = v.size;
}
  where
    was : Placed (some st) (count p s.stations)
    was = subst (λ t. Placed t (count p s.stations)) at (v.placed p h)

    now : Placed (some st') (count p s.stations)
    now = (
      tidy,
      elim was.1 [
        | inl (connected, one, held) ↦ inl (same ∙ connected, one, refs (omega (arith, one)))
        | inr (gone, nowhere) ↦ inr (same ∙ gone, nowhere)
      ],
    )

pub send_to-IsCounted :
    (net : Ret) (dup_ok : Bool) (k : Kind) (m p : ℕ) (s : Server)
    → IsCounted s
    → p ≢ null
    → (st : Station) → s.memory p ≡ some st
    → IsCounted (send_to net dup_ok k m p s).1
send_to-IsCounted net dup_ok k m p s v h st at =
    let r = send net dup_ok true s.station_has_pending_msgs st k m in
    let was = subst (λ t. Placed t (count p s.stations)) at (v.placed p h) in
    let line = send-line net dup_ok s.station_has_pending_msgs st k k m was.0 in
    let keeps = send_keeps net dup_ok s.station_has_pending_msgs st k m in
    let e : (send_to net dup_ok k m p s).1
        ≡ record s { memory = update s.memory p (some r.1); station_has_pending_msgs = r.2 } =
      unfold send_to in ground (arith, at) in
    subst IsCounted (sym e) (
      change-IsCounted s p st r.1 r.2 v h at keeps.0
        (λ c. elim was.1 [
          | inl (_, _, held) ↦ omega (arith, held, keeps.1)
          | inr (_, nowhere) ↦ absurd (omega (arith, c, nowhere))
        ])
        line.1 (λ _. line.2) keeps.2)

pub sta_incref-IsCounted :
    (p : ℕ) (s : Server)
    → IsCounted s
    → p ≢ null
    → (st : Station) → s.memory p ≡ some st
    → IsCounted (sta_incref p s)
sta_incref-IsCounted p s v h st at =
    let was = subst (λ t. Placed t (count p s.stations)) at (v.placed p h) in
    let e : sta_incref p s
        ≡ record s { memory = update s.memory p (some (record st { refcnt = st.refcnt + 1 })) } =
      unfold sta_incref in ground (arith, at) in
    subst IsCounted (sym e) (
      change-IsCounted s p st (record st { refcnt = st.refcnt + 1 }) s.station_has_pending_msgs v h
        at refl (λ _. omega arith) was.0 (λ _. refl) (λ _. refl))
