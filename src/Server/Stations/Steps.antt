-- ===== src/Server/Stations/Steps.antt =====
-- wv_ipc/wave_ipc_server.c: the steps of the server and its count of waiting messages.
use dwpal.Common.{
  ℕ, ◌<◌, ◌≡◌, ◌≢◌, inr, refl, subst, Bool, [], ◌∷◌, without, List, none, some, arith, null, count,
}
use dwpal.Ipc.Message.{Ret}
use dwpal.Server.{Kind}
use dwpal.Server.Stations.{
  client_arr_size, Server, accept_new_client, disconnect, sta_incref, sta_decref, send_to,
  resend_place, create,
}
use dwpal.Server.Stations.Holders.{
  Refs, IsHeld, Known, station_of, sta_incref-IsHeld, sta_decref-IsHeld, send_to-IsHeld,
}
use dwpal.Server.Stations.Kept.{disconnect-IsHeld, resend_place-IsHeld, accept_new_client-IsHeld}
use dwpal.Server.Stations.Counter.{IsCounted, send_to-IsCounted, sta_incref-IsCounted}
use dwpal.Server.Stations.Removal.{sta_decref-IsCounted}
use dwpal.Server.Stations.Sound.{
  disconnect-IsCounted, resend_place-IsCounted, accept_new_client-IsCounted, create-IsCounted,
  count_empty,
}

-- A call of the daemon, an event on its sockets, or a turn of its loop, with the holders of references beside the array, an
-- address for each reference. `malloc` gives any address that is not allocated. The daemon sends to a station, and takes a
-- reference to it, that is in the array or to which there is a reference, and a reference is given up by one who holds it.
pub data Step (s : Server) (h : List ℕ) : Server → List ℕ → Type 0 where
  accepts :
      (p : ℕ) (sock_ok lists_ok : Bool)
      → p ≢ null
      → s.memory p ≡ none
      → Step s h (accept_new_client (some p) sock_ok lists_ok s).1 h
  disconnects : (i : ℕ) → Step s h (disconnect i s) h
  sends :
      (net : Ret) (dup_ok : Bool) (k : Kind) (m p : ℕ)
      → Known p s h
      → Step s h (send_to net dup_ok k m p s).1 h
  resends : (net : ℕ → Ret) (i : ℕ) → Step s h (resend_place net i s) h
  increfs : (p : ℕ) → Known p s h → Step s h (sta_incref p s) (p ∷ h)
  decrefs : (p : ℕ) → p ≢ null → 0 < count p h → Step s h (sta_decref p s) (without p h)

pub data Reach (s : Server) : Server → List ℕ → Type 0 where
  here : Reach s s []
  next : {t u : Server} {h h' : List ℕ} → Reach s t h → Step t h u h' → Reach s u h'

create-IsHeld : IsHeld create []
unfolding create
create-IsHeld p h = (count_empty p client_arr_size h, refl)

Step-IsCounted :
    (s t : Server) (h h' : List ℕ)
    → IsCounted s
    → IsHeld s h
    → Step s h t h'
    → IsCounted t × IsHeld t h'
Step-IsCounted s _ h _ v w (accepts p sock_ok lists_ok k fresh) = (
  accept_new_client-IsCounted p sock_ok lists_ok s v k fresh,
  accept_new_client-IsHeld p sock_ok lists_ok s h w k fresh,
)
Step-IsCounted s _ h _ v w (disconnects i) = (disconnect-IsCounted i s v, disconnect-IsHeld i s h w)
Step-IsCounted s _ h _ v w (sends net dup_ok k m p known) =
    let (st, at) = station_of p s h w known in
    (
      send_to-IsCounted net dup_ok k m p s v known.0 st at,
      send_to-IsHeld net dup_ok k m p st s h w known.0 at,
    )
Step-IsCounted s _ h _ v w (resends net i) =
    (resend_place-IsCounted net i s v, resend_place-IsHeld net i s h w)
Step-IsCounted s _ h _ v w (increfs p known) =
    let (st, at) = station_of p s h w known in
    (sta_incref-IsCounted p s v known.0 st at, sta_incref-IsHeld p st s h w known.0 at)
Step-IsCounted s _ h _ v w (decrefs p k held) =
    let (st, at) = station_of p s h w (k, inr held) in
    let refs : Refs (some st) (count p s.stations) (count p h) =
      subst (λ o. Refs o (count p s.stations) (count p h)) at (w p k) in
    (
      sta_decref-IsCounted p s v k st at (omega (arith, refs.0, held)),
      sta_decref-IsHeld p st s h w k at held,
    )

-- Whatever clients connect, send, block and disconnect, and whatever the daemon sends, in whatever order:
-- `station_has_pending_msgs` is the number of messages that wait for the stations of the array, no step uses
-- a freed station, each connected station has exactly one place, and each station is allocated as long as it has a place or a
-- holder, with both counted by its references.
-- The conditions are that `list_push_back` gets its nodes, that the daemon sends to a station and takes a reference to it only
-- while it is in the array or some holder has a reference to it, and that only a holder gives a reference up.
pub Reach-IsCounted : {s : Server} {h : List ℕ} → Reach create s h → IsCounted s × IsHeld s h
Reach-IsCounted here = (create-IsCounted, create-IsHeld)
Reach-IsCounted (next {t = t} {u = u} {h = h} {h' = h'} r st) =
    let (v, w) = Reach-IsCounted r in Step-IsCounted t u h h' v w st
