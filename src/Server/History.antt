-- ===== src/Server/History.antt =====
-- wv_ipc/wave_ipc_server.c: what a station has been sent after any calls and resending.
use dwpal.Common.{
  ℕ, ◌≤◌, ◌≡◌, refl, sym, ap, ◌∙◌, Bool, true, false, List, [], ◌∷◌, ◌++◌, ◌&&◌, if◌then◌else◌,
  arith, Bool-cases, inl, inr,
}
use mathlib.Core.List.{append_assoc}
use dwpal.Ipc.Message.{Ret}
use dwpal.Server.{Kind, is_same_kind, is_success, Station, send, resend_pending}
use dwpal.Server.Queue.{line, load, IsTidy, send-line, append_nil, grown}
use dwpal.Server.Pending.{resend-line}

-- A call for the station, with the results of the socket and of the pool, or a turn of resending.
pub data Act : Type 0 where
  sends : Ret → Bool → Kind → ℕ → Act
  resends : (ℕ → Ret) → Act

-- The station and the count of all waiting messages after the acts.
unfoldable pub act : Act → Station × ℕ → Station × ℕ
unfolding send resend_pending
act (sends net dup_ok k m) (st, pending) =
    (let (r, st', pending') = send net dup_ok true pending st k m in (st', pending'))
act (resends net) (st, pending) = resend_pending net pending st

unfoldable pub acts : List Act → Station × ℕ → Station × ℕ
unfolding act
acts [] t = t
acts (a ∷ l) t = acts l (act a t)

-- The messages of a kind whose calls returned WAVE_IPC_SUCCESS, in order.
unfoldable pub accepted : Kind → List Act → Station × ℕ → List ℕ
unfolding act
accepted k [] t = []
accepted k (resends net ∷ l) t = accepted k l (act (resends net) t)
accepted k (sends net dup_ok j m ∷ l) t =
    let rest = accepted k l (act (sends net dup_ok j m) t) in
    if is_success (send net dup_ok true t.1 t.0 j m).0 && is_same_kind k j then m ∷ rest else rest

-- For a station whose flag is set if messages wait, and which the count covers, in whatever way calls and
-- resending alternate and however the socket blocks: of each kind, what was sent to the station and what
-- still waits for it are together the accepted messages, in the order of the calls, each once, behind what
-- there was before. Each queue gets its nodes.
pub acts-line :
    (l : List Act) (st : Station) (pending : ℕ) (k : Kind)
    → IsTidy st
    → load st ≤ pending
    → line k (acts l (st, pending)).0 ≡ line k st ++ accepted k l (st, pending)
unfolding acts accepted act
acts-line [] st pending k t h = sym (append_nil _)
acts-line (resends net ∷ l) st pending k t h =
    let r = resend_pending net pending st in
    let step = resend-line net pending st h in
    acts-line l r.0 r.1 k step.1 (omega (arith, step.2, h))
    ∙ ap (λ x. x ++ accepted k l r) (step.0 k)
acts-line (sends net dup_ok j m ∷ l) st pending k t h =
    let r = send net dup_ok true pending st j m in
    let step = send-line net dup_ok pending st j k m t in
    let rest = acts-line l r.1 r.2 k step.1 (omega (arith, step.2, h)) in
    rest
    ∙ ap (λ x. x ++ accepted k l (r.1, r.2)) step.0
    ∙ moved (line k st) (accepted k l (r.1, r.2)) (is_success r.0)
  where
    moved :
        (x y : List ℕ) (b : Bool)
        → (if b then grown k j m x else x) ++ y ≡ x ++ (if b && is_same_kind k j then m ∷ y else y)
    moved x y false = refl
    moved x y true = elim (Bool-cases (is_same_kind k j)) [
      | inl same ↦ rw same (append_assoc x (m ∷ []) y)
      | inr other ↦ rw other refl
    ]
