-- ===== src/Server/Stations/Kept.antt =====
-- wv_ipc/wave_ipc_server.c: the operations on places of the array keep the count of references.
use dwpal.Common.{
  ℕ, ◌≡◌, ◌≢◌, inl, inr, refl, subst, sym, ◌∙◌, Bool, not, ◌||◌, leb, List, none, some, ◌==◌, arith,
  null, update, update_self, get_or, count, Bool-cases, Option-cases,
}
use dwpal.Ipc.Message.{Ret}
use dwpal.Server.{Station, max_attempts, resend_pending}
use dwpal.Server.Stations.{
  Server, new_station, take_place, accept_new_client, remove_station, disconnect, resent,
  resend_place,
}
use dwpal.Server.Stations.Total.{count-set, take_place_lem}
use dwpal.Server.Stations.Holders.{
  Refs, IsHeld, station_of, moved-IsHeld, changed-IsHeld, reference_count, remove_station-IsHeld,
}

-- The station in a place.
in_place :
    (s : Server) (i : ℕ) (h : List ℕ)
    → IsHeld s h
    → get_or s.stations i null ≢ null
    → (st : Station) × (s.memory (get_or s.stations i null) ≡ some st)
in_place s i h v k =
    station_of (get_or s.stations i null) s h v
      (k, inl (ground (arith, count-set (get_or s.stations i null) s.stations i k k)))

pub disconnect-IsHeld : (i : ℕ) (s : Server) (h : List ℕ) → IsHeld s h → IsHeld (disconnect i s) h
disconnect-IsHeld i s h v =
    let p = get_or s.stations i null in
    elim (Bool-cases (p == null)) [
      | inl free ↦
          let e : disconnect i s ≡ s = unfold disconnect in ground (arith, free) in
          subst (λ t. IsHeld t h) (sym e) v
      | inr taken ↦
          let k : p ≢ null = ground arith in
          let found = in_place s i h v k in
          let e : disconnect i s ≡ remove_station i p found.0 s =
            unfold disconnect in ground (arith, taken, found.1) in
          subst (λ t. IsHeld t h) (sym e) (remove_station-IsHeld i p found.0 s h v k refl found.1)
    ]

resent-IsHeld :
    (i p : ℕ) (st : Station) (s : Server) (h : List ℕ)
    → p ≢ null
    → get_or s.stations i null ≡ p
    → IsHeld (record s { memory = update s.memory p (some st) }) h
    → IsHeld (resent i p st s) h
resent-IsHeld i p st s h k place v = elim (Bool-cases (leb max_attempts st.resend_attempts)) [
  | inl stuck ↦
      let s' = record s { memory = update s.memory p (some st) } in
      let e : resent i p st s ≡ remove_station i p st s' = unfold resent in ground (arith, stuck) in
      subst (λ t. IsHeld t h) (sym e)
        (remove_station-IsHeld i p st s' h v k place (update_self s.memory p (some st)))
  | inr fine ↦
      let e : resent i p st s ≡ record s { memory = update s.memory p (some st) } =
        unfold resent in ground (arith, fine) in
      subst (λ t. IsHeld t h) (sym e) v
]

pub resend_place-IsHeld :
    (net : ℕ → Ret) (i : ℕ) (s : Server) (h : List ℕ) → IsHeld s h → IsHeld (resend_place net i s) h
resend_place-IsHeld net i s h v =
    let p = get_or s.stations i null in
    elim (Bool-cases (p == null)) [
      | inl free ↦
          let e : resend_place net i s ≡ s = unfold resend_place in ground (arith, free) in
          subst (λ t. IsHeld t h) (sym e) v
      | inr taken ↦
          let k : p ≢ null = ground arith in
          let (st, at) = in_place s i h v k in
          elim (Bool-cases st.has_pending_msgs) [
            | inr idle ↦
                let e : resend_place net i s ≡ s =
                  unfold resend_place in ground (arith, taken, at, idle) in
                subst (λ t. IsHeld t h) (sym e) v
            | inl waiting ↦
                let r = resend_pending net s.station_has_pending_msgs st in
                let e : resend_place net i s
                    ≡ resent i p r.0 (record s { station_has_pending_msgs = r.1 }) =
                  unfold resend_place in ground (arith, taken, at, waiting) in
                let same : r.0.refcnt ≡ st.refcnt = unfold resend_pending in refl in
                let refs = reference_count p st s h v k at in
                subst (λ t. IsHeld t h) (sym e)
                  (resent-IsHeld i p r.0 (record s { station_has_pending_msgs = r.1 }) h k refl
                    (changed-IsHeld s h h p (some r.0) r.1 v (λ q n. refl)
                      (same ∙ refs.0, omega (arith, same, refs.1))))
          ]
    ]

pub accept_new_client-IsHeld :
    (p : ℕ) (sock_ok lists_ok : Bool) (s : Server) (h : List ℕ)
    → IsHeld s h
    → p ≢ null
    → s.memory p ≡ none
    → IsHeld (accept_new_client (some p) sock_ok lists_ok s).1 h
accept_new_client-IsHeld p sock_ok lists_ok s h v k fresh =
    elim (Bool-cases (not sock_ok || not lists_ok)) [
      | inl bad ↦
          let e : (accept_new_client (some p) sock_ok lists_ok s).1 ≡ s =
            unfold accept_new_client in ground (arith, bad) in
          subst (λ t. IsHeld t h) (sym e) v
      | inr fine ↦ elim (Option-cases (take_place p s.stations)) [
        | inl full ↦
            let e : (accept_new_client (some p) sock_ok lists_ok s).1 ≡ s =
              unfold accept_new_client in ground (arith, fine, full) in
            subst (λ t. IsHeld t h) (sym e) v
        | inr (places, at) ↦
            let first = record new_station { refcnt = 1 } in
            let m1 = update s.memory p (some new_station) in
            let t : Server = record s { stations = places; memory = update m1 p (some first) } in
            let e : (accept_new_client (some p) sock_ok lists_ok s).1 ≡ t =
              unfold accept_new_client in ground (arith, fine, at) in
            let taken = take_place_lem s.memory p s.stations places k at in
            let was : Refs none (count p s.stations) (count p h) =
              subst (λ o. Refs o (count p s.stations) (count p h)) fresh (v p k) in
            subst (λ u. IsHeld u h) (sym e)
              (moved-IsHeld s t h h p v (λ q n. ground (arith, n))
                (λ q z n. ground (arith, taken.0 q z, n)) (λ q n. refl)
                (subst (λ o. Refs o (count p places) (count p h))
                  (sym (update_self m1 p (some first)))
                  (ground (arith, taken.0 p k, was.0, was.1), omega arith)))
      ]
    ]
