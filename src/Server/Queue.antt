-- ===== src/Server/Queue.antt =====
-- wv_ipc/wave_ipc_server.c: the order of the messages to one station.
use dwpal.Common.{
  ℕ, ◌+◌, ◌≡◌, ◌⊎◌, subst, refl, sym, ap, ◌∙◌, Bool, true, false, ◌&&◌, ◌||◌, List, [], ◌∷◌, ◌++◌,
  if◌then◌else◌, leb, length, arith, length-append, Bool-cases, inl, inr,
}
use mathlib.Core.List.{append_assoc}
use dwpal.Ipc.Message.{Ret, success, disconnected, error}
use dwpal.Server.{
  Kind, reply, event, is_same_kind, Station, is_success, is_would_block, max_pending, sta_limit,
  enqueue, send_would_block, send,
}

-- The messages of one kind.
unfoldable pub of_kind : Kind → List (Kind × ℕ) → List ℕ
of_kind k [] = []
of_kind k ((j, m) ∷ l) = let rest = of_kind k l in if is_same_kind k j then m ∷ rest else rest

abbrev pub queue : Kind → Station → List ℕ
queue reply st = st.pending_replies
queue event st = st.pending_msgs

-- What was sent to the station of a kind, and what waits.
abbrev pub line : Kind → Station → List ℕ
line k st = of_kind k st.sent ++ queue k st

abbrev pub load : Station → ℕ
load st = length st.pending_msgs + length st.pending_replies

-- Messages wait only while the flag says so, so that no new message overtakes them.
abbrev pub IsTidy : Station → Type 0
IsTidy st = st.has_pending_msgs ≡ false → (st.pending_msgs ≡ []) × (st.pending_replies ≡ [])

pub of_kind-append :
    (k : Kind) (l l' : List (Kind × ℕ)) → of_kind k (l ++ l') ≡ of_kind k l ++ of_kind k l'
unfolding of_kind
of_kind-append k [] l' = refl
of_kind-append k ((j, m) ∷ l) l' = elim (Bool-cases (is_same_kind k j)) [
  | inl same ↦ rw same (ap (λ t. m ∷ t) (of_kind-append k l l'))
  | inr other ↦ rw other (of_kind-append k l l')
]

pub append_nil : (l : List ℕ) → l ++ [] ≡ l
append_nil [] = refl
append_nil (x ∷ l) = ap (λ t. x ∷ t) (append_nil l)

-- One message more of a kind.
abbrev pub grown : Kind → Kind → ℕ → List ℕ → List ℕ
grown k j m l = if is_same_kind k j then l ++ m ∷ [] else l

abbrev direct : Station → Kind → ℕ → Station
direct st k m = record st { sent = st.sent ++ (k, m) ∷ [] }

abbrev waits : Station → Kind → ℕ → Station
waits st k m = record (enqueue k m true st) { has_pending_msgs = true }

-- The three outcomes of a call: refused, sent at once, or queued.
abbrev Outcome : Ret → ℕ → Station → Kind → ℕ → Ret × Station × ℕ → Type 0
Outcome net pending st j m t =
    ((r : Ret) × (is_success r ≡ false) × (t ≡ (r, st, pending)))
    ⊎ (((st.has_pending_msgs ≡ false)
          × (is_success net ≡ true)
          × (t ≡ (net, direct st j m, pending)))
        ⊎ (t ≡ (success, waits st j m, pending + 1)))

would_block_cases :
    (net : Ret) (dup_ok : Bool) (pending : ℕ) (st : Station) (j : Kind) (m : ℕ)
    → Outcome net pending st j m (send_would_block dup_ok true pending st j m)
unfolding send_would_block
would_block_cases net false pending st j m = inl (error, refl, refl)
would_block_cases net true pending st j m = elim (Bool-cases st.is_connected) [
  | inr gone ↦ rw gone (inl (disconnected, refl, refl))
  | inl there ↦
      elim (Bool-cases (
        leb max_pending pending
        && leb sta_limit (length st.pending_msgs + length st.pending_replies))) [
          | inl full ↦ rw (there, full) (inl (error, refl, refl))
          | inr room ↦ rw (there, room) (inr (inr refl))
        ]
]

send_cases :
    (net : Ret) (dup_ok : Bool) (pending : ℕ) (st : Station) (j : Kind) (m : ℕ)
    → Outcome net pending st j m (send net dup_ok true pending st j m)
unfolding send
send_cases net dup_ok pending st j m = elim (Bool-cases st.has_socket) [
  | inr closed ↦ inl (error, refl, ground (arith, closed))
  | inl ready ↦ elim (Bool-cases (st.has_pending_msgs || is_would_block net)) [
    | inl blocked ↦
        let e : send net dup_ok true pending st j m ≡ send_would_block dup_ok true pending st j m =
          ground (arith, ready, blocked) in
        subst (Outcome net pending st j m) (sym e) (would_block_cases net dup_ok pending st j m)
    | inr free ↦ elim (Bool-cases (is_success net)) [
      | inl done ↦ inr (inl (ground (arith, free), done, ground (arith, ready, free, done)))
      | inr failed ↦ inl (net, failed, ground (arith, ready, free, failed))
    ]
  ]
]

line-direct :
    (st : Station) (j k : Kind) (m : ℕ)
    → IsTidy st
    → st.has_pending_msgs ≡ false
    → line k (direct st j m) ≡ grown k j m (line k st)
unfolding of_kind
line-direct st j k m t idle =
    ap (λ q. of_kind k (direct st j m).sent ++ q) (same k ∙ empty k)
    ∙ append_nil _
    ∙ of_kind-append k st.sent ((j, m) ∷ [])
    ∙ added (of_kind k st.sent)
    ∙ ap (λ l. grown k j m l) (sym (ap (λ q. of_kind k st.sent ++ q) (empty k) ∙ append_nil _))
  where
    empty : (k : Kind) → queue k st ≡ []
    empty reply = (t idle).1
    empty event = (t idle).0

    same : (k : Kind) → queue k (direct st j m) ≡ queue k st
    same reply = refl
    same event = refl

    added : (l : List ℕ) → l ++ of_kind k ((j, m) ∷ []) ≡ grown k j m l
    added l = elim (Bool-cases (is_same_kind k j)) [
      | inl yes_same ↦ rw yes_same refl
      | inr other ↦ rw other (append_nil l)
    ]

line-waits : (st : Station) (j k : Kind) (m : ℕ) → line k (waits st j m) ≡ grown k j m (line k st)
unfolding enqueue
line-waits st reply reply m = sym (append_assoc (of_kind reply st.sent) st.pending_replies (m ∷ []))
line-waits st reply event m = refl
line-waits st event reply m = refl
line-waits st event event m = sym (append_assoc (of_kind event st.sent) st.pending_msgs (m ∷ []))

load-waits : (st : Station) (j : Kind) (m : ℕ) → load (waits st j m) ≡ load st + 1
unfolding enqueue
load-waits st reply m = omega (arith, length-append {0} st.pending_replies (m ∷ []))
load-waits st event m = omega (arith, length-append {0} st.pending_msgs (m ∷ []))

abbrev Sends : ℕ → Station → Kind → Kind → ℕ → Ret × Station × ℕ → Type 0
Sends pending st j k m t =
    (line k t.1 ≡ (if is_success t.0 then grown k j m (line k st) else line k st))
    × IsTidy t.1
    × (t.2 + load st ≡ pending + load t.1)

-- `wave_ipcs_send_reply` and `wave_ipcs_send_to`, for a station whose flag is set if messages wait, and
-- with a node for the queue: a message that is accepted goes behind all earlier ones of its kind, sent or
-- waiting; one that is refused changes nothing. The flag stays right, and the count of all waiting
-- messages changes with those of this station.
pub send-line :
    (net : Ret) (dup_ok : Bool) (pending : ℕ) (st : Station) (j k : Kind) (m : ℕ)
    → IsTidy st
    → let (r, st', pending') = send net dup_ok true pending st j m in
      (line k st' ≡ (if is_success r then grown k j m (line k st) else line k st))
      × IsTidy st'
      × (pending' + load st ≡ pending + load st')
send-line net dup_ok pending st j k m t = elim (send_cases net dup_ok pending st j m) [
  | inl (r, bad, e) ↦ subst (Sends pending st j k m) (sym e) (rw bad refl, t, refl)
  | inr (inl (idle, done, e)) ↦
      subst (Sends pending st j k m) (sym e) (rw done (line-direct st j k m t idle), t, refl)
  | inr (inr e) ↦
      subst (Sends pending st j k m) (sym e)
        (line-waits st j k m, (λ h. cc h), omega (arith, load-waits st j m))
]

-- A call leaves the connection and the references of the station alone, and nothing is queued for a station
-- that has gone.
pub send_keeps :
    (net : Ret) (dup_ok : Bool) (pending : ℕ) (st : Station) (k : Kind) (m : ℕ)
    → let (r, st', pending') = send net dup_ok true pending st k m in
      (st'.is_connected ≡ st.is_connected)
      × (st'.refcnt ≡ st.refcnt)
      × (st.is_connected ≡ false → pending' ≡ pending)
unfolding send send_would_block enqueue
send_keeps net dup_ok pending st reply m = (ground arith, ground arith, λ e. ground (arith, e))
send_keeps net dup_ok pending st event m = (ground arith, ground arith, λ e. ground (arith, e))
