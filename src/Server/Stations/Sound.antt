-- ===== src/Server/Stations/Sound.antt =====
-- wv_ipc/wave_ipc_server.c: each operation of the server keeps its count of waiting messages.
use dwpal.Common.{
  ℕ, zero, suc, ◌≤◌, ◌<◌, ◌≡◌, ◌≢◌, inl, inr, refl, ap, subst, sym, ◌∙◌, Bool, true, not, ◌||◌, leb,
  List, none, some, ◌==◌, arith, null, update, update_self, get_or, count, Bool-cases, Option-cases,
  length-replicate, replicate,
}
use dwpal.Ipc.Message.{Ret}
use dwpal.Server.{Station, max_attempts, resend_pending}
use dwpal.Server.Queue.{load}
use dwpal.Server.Pending.{resend-line}
use dwpal.Server.Stations.{
  client_arr_size, Server, new_station, take_place, accept_new_client, remove_station, disconnect,
  resent, resend_place, create,
}
use dwpal.Server.Stations.Total.{load_of, total, total_here, count-set, take_place_lem}
use dwpal.Server.Stations.Counter.{Placed, IsCounted, load_le_total, change-IsCounted}
use dwpal.Server.Stations.Removal.{moved-IsCounted, remove_station-IsCounted}

count_at : (l : List ℕ) (i : ℕ) → get_or l i null ≢ null → 0 < count (get_or l i null) l
count_at l i h = ground (arith, count-set (get_or l i null) l i h h)

-- The station in a place of a sound server.
in_place :
    (s : Server) (i : ℕ)
    → IsCounted s
    → get_or s.stations i null ≢ null
    → (st : Station) × (s.memory (get_or s.stations i null) ≡ some st)
in_place s i v h =
    let p = get_or s.stations i null in
    elim (Option-cases (s.memory p)) [
      | inl gone ↦
          let nowhere : count p s.stations ≡ 0 =
            subst (λ t. Placed t (count p s.stations)) gone (v.placed p h) in
          absurd (omega (arith, nowhere, count_at s.stations i h))
      | inr found ↦ found
    ]

pub disconnect-IsCounted : (i : ℕ) (s : Server) → IsCounted s → IsCounted (disconnect i s)
disconnect-IsCounted i s v =
    let p = get_or s.stations i null in
    elim (Bool-cases (p == null)) [
      | inl free ↦
          let e : disconnect i s ≡ s = unfold disconnect in ground (arith, free) in
          subst IsCounted (sym e) v
      | inr taken ↦
          let h : p ≢ null = ground arith in
          let found = in_place s i v h in
          let e : disconnect i s ≡ remove_station i p found.0 s =
            unfold disconnect in ground (arith, taken, found.1) in
          subst IsCounted (sym e) (remove_station-IsCounted i p found.0 s v h refl found.1)
    ]

resent-IsCounted :
    (i p : ℕ) (st : Station) (s : Server)
    → p ≢ null
    → get_or s.stations i null ≡ p
    → IsCounted (record s { memory = update s.memory p (some st) })
    → IsCounted (resent i p st s)
resent-IsCounted i p st s h place v = elim (Bool-cases (leb max_attempts st.resend_attempts)) [
  | inl stuck ↦
      let s' = record s { memory = update s.memory p (some st) } in
      let e : resent i p st s ≡ remove_station i p st s' = unfold resent in ground (arith, stuck) in
      subst IsCounted (sym e)
        (remove_station-IsCounted i p st s' v h place (update_self s.memory p (some st)))
  | inr fine ↦
      let e : resent i p st s ≡ record s { memory = update s.memory p (some st) } =
        unfold resent in ground (arith, fine) in
      subst IsCounted (sym e) v
]

pub resend_place-IsCounted :
    (net : ℕ → Ret) (i : ℕ) (s : Server) → IsCounted s → IsCounted (resend_place net i s)
resend_place-IsCounted net i s v =
    let p = get_or s.stations i null in
    elim (Bool-cases (p == null)) [
      | inl free ↦
          let e : resend_place net i s ≡ s = unfold resend_place in ground (arith, free) in
          subst IsCounted (sym e) v
      | inr taken ↦
          let h : p ≢ null = ground arith in
          let (st, at) = in_place s i v h in
          elim (Bool-cases st.has_pending_msgs) [
            | inr idle ↦
                let e : resend_place net i s ≡ s =
                  unfold resend_place in ground (arith, taken, at, idle) in
                subst IsCounted (sym e) v
            | inl waiting ↦
                let r = resend_pending net s.station_has_pending_msgs st in
                let e : resend_place net i s
                    ≡ resent i p r.0 (record s { station_has_pending_msgs = r.1 }) =
                  unfold resend_place in ground (arith, taken, at, waiting) in
                let there = count_at s.stations i h in
                let enough : load st ≤ s.station_has_pending_msgs =
                  omega (
                    arith,
                    load_le_total s.memory p s.stations h there,
                    ap load_of at,
                    v.counted,
                  ) in
                let line = resend-line net s.station_has_pending_msgs st enough in
                let same_conn : r.0.is_connected ≡ st.is_connected =
                  unfold resend_pending in refl in
                let same_refs : r.0.refcnt ≡ st.refcnt = unfold resend_pending in refl in
                let was = subst (λ t. Placed t (count p s.stations)) at (v.placed p h) in
                let held : 0 < st.refcnt = elim was.1 [
                  | inl (_, _, k) ↦ k
                  | inr (_, nowhere) ↦ absurd (omega (arith, there, nowhere))
                ] in
                let on : st.is_connected ≡ true = elim was.1 [
                  | inl (k, _, _) ↦ k
                  | inr (_, nowhere) ↦ absurd (omega (arith, there, nowhere))
                ] in
                subst IsCounted (sym e) (
                  resent-IsCounted i p r.0 (record s { station_has_pending_msgs = r.1 }) h refl
                    (change-IsCounted s p st r.0 r.1 v h at same_conn
                      (λ _. omega (arith, held, same_refs)) line.1 (λ _. line.2)
                      (λ off. absurd (cc (on, off)))))
          ]
    ]

pub accept_new_client-IsCounted :
    (p : ℕ) (sock_ok lists_ok : Bool) (s : Server)
    → IsCounted s
    → p ≢ null
    → s.memory p ≡ none
    → IsCounted (accept_new_client (some p) sock_ok lists_ok s).1
accept_new_client-IsCounted p sock_ok lists_ok s v h fresh =
    elim (Bool-cases (not sock_ok || not lists_ok)) [
      | inl bad ↦
          let e : (accept_new_client (some p) sock_ok lists_ok s).1 ≡ s =
            unfold accept_new_client in ground (arith, bad) in
          subst IsCounted (sym e) v
      | inr fine ↦ elim (Option-cases (take_place p s.stations)) [
        | inl full ↦
            let e : (accept_new_client (some p) sock_ok lists_ok s).1 ≡ s =
              unfold accept_new_client in ground (arith, fine, full) in
            subst IsCounted (sym e) v
        | inr (places, at) ↦
            let first = record new_station { refcnt = 1 } in
            let t : Server = record s {
              stations = places;
              memory = update (update s.memory p (some new_station)) p (some first);
            } in
            let e : (accept_new_client (some p) sock_ok lists_ok s).1 ≡ t =
              unfold accept_new_client in ground (arith, fine, at) in
            let taken = take_place_lem s.memory p s.stations places h at in
            let was : count p s.stations ≡ 0 =
              subst (λ m. Placed m (count p s.stations)) fresh (v.placed p h) in
            let one : count p places ≡ 1 = ground (arith, taken.0 p h, was) in
            let m1 = update s.memory p (some new_station) in
            let set_up = total_here s.memory p (some new_station) places one h in
            let counted_in = total_here m1 p (some first) places one h in
            let empty : load_of (m1 p) ≡ 0 =
              ap load_of (update_self s.memory p (some new_station)) in
            subst IsCounted (sym e) (
              moved-IsCounted s t p v v.no_fault (λ q k. ground (arith, k))
                (λ q k n. ground (arith, taken.0 q k, n))
                (subst (λ m. Placed m (count p places)) (sym (update_self m1 p (some first)))
                  ((λ _. (refl, refl)), inl (refl, one, omega arith)))
                (omega (arith, set_up, counted_in, empty, ap load_of fresh, taken.1, v.counted))
                (taken.2 ∙ v.size))
      ]
    ]

total_empty : (n : ℕ) → total (λ _. none) (replicate n null) ≡ 0
total_empty zero = refl
total_empty (suc n) = omega (arith, total_empty n)

pub count_empty : (p n : ℕ) → p ≢ null → count p (replicate n null) ≡ 0
count_empty p zero h = refl
count_empty p (suc n) h = ground (arith, count_empty p n h)

pub create-IsCounted : IsCounted create
unfolding create
create-IsCounted = record {
  no_fault = refl;
  counted = sym (total_empty client_arr_size);
  placed = λ p h. count_empty p client_arr_size h;
  size = length-replicate {0} {A = ℕ} client_arr_size 0;
}
