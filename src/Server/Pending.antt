-- ===== src/Server/Pending.antt =====
-- wv_ipc/wave_ipc_server.c: what resending does to the queues of a station.
use dwpal.Common.{
  ℕ, ◌+◌, ◌-◌, ◌≤◌, ◌≡◌, ◌≢◌, subst, refl, sym, ap, ◌∙◌, true, false, not, ◌||◌, List, [], ◌∷◌,
  ◌++◌, if◌then◌else◌, ◌==◌, length, arith, Bool-cases, inl, inr,
}
use mathlib.Core.List.{append_assoc}
use dwpal.Ipc.Message.{Ret, success}
use dwpal.Server.{
  Kind, reply, event, Station, is_success, Resend, resend_list, resend_both, resend_pending,
}
use dwpal.Server.Queue.{of_kind, line, load, IsTidy, of_kind-append, append_nil}

abbrev other : Kind → Kind
other reply = event
other event = reply

-- What a pass over the queue `ms` of a kind comes to.
record Passed (k : Kind) (ms : List ℕ) (r : Resend) (t : Resend × List ℕ) : Type 0 where
  moved : of_kind k t.0.out ++ t.1 ≡ of_kind k r.out ++ ms
  others : of_kind (other k) t.0.out ≡ of_kind (other k) r.out
  counted : length ms ≤ r.pending → t.0.pending + length ms ≡ r.pending + length t.1
  less : length t.1 ≤ length ms
  all_sent : is_success t.0.ret ≡ true → t.1 ≡ []

sent_one :
    (k : Kind) (m : ℕ) (out : List (Kind × ℕ))
    → of_kind k (out ++ (k, m) ∷ []) ≡ of_kind k out ++ m ∷ []
unfolding of_kind
sent_one reply m out = of_kind-append reply out ((reply, m) ∷ [])
sent_one event m out = of_kind-append event out ((event, m) ∷ [])

sent_other :
    (k : Kind) (m : ℕ) (out : List (Kind × ℕ))
    → of_kind (other k) (out ++ (k, m) ∷ []) ≡ of_kind (other k) out
unfolding of_kind
sent_other reply m out = of_kind-append event out ((reply, m) ∷ []) ∙ append_nil _
sent_other event m out = of_kind-append reply out ((event, m) ∷ []) ∙ append_nil _

resend_list-Passed :
    (net : ℕ → Ret) (k : Kind) (ms : List ℕ) (r : Resend) → Passed k ms r (resend_list net k ms r)
unfolding resend_list
resend_list-Passed net k [] r = record {
  moved = refl;
  others = refl;
  counted = λ h. refl;
  less = omega arith;
  all_sent = λ h. refl;
}
resend_list-Passed net k (m ∷ ms) r = elim (Bool-cases (is_success (net r.tries))) [
  | inr bad ↦
      let e : resend_list net k (m ∷ ms) r ≡ (
        record r {
          ret = net r.tries;
          tries = r.tries + 1;
          attempts = if r.failed_on_first then r.attempts + 1 else r.attempts;
        },
        m ∷ ms,
      ) =
        ground (arith, bad) in
      subst (Passed k (m ∷ ms) r) (sym e) (record {
        moved = refl;
        others = refl;
        counted = λ h. refl;
        less = omega arith;
        all_sent = λ h. absurd (cc (bad, h));
      })
  | inl good ↦
      let r' : Resend = record {
        ret = success;
        failed_on_first = false;
        tries = r.tries + 1;
        attempts = 0;
        pending = r.pending - 1;
        out = r.out ++ (k, m) ∷ [];
      } in
      let ih = resend_list-Passed net k ms r' in
      let e : resend_list net k (m ∷ ms) r ≡ resend_list net k ms r' = ground (arith, good) in
      subst (Passed k (m ∷ ms) r) (sym e) (record {
        moved =
            ih.moved
            ∙ ap (λ t. t ++ ms) (sent_one k m r.out)
            ∙ append_assoc (of_kind k r.out) (m ∷ []) ms;
        others = ih.others ∙ sent_other k m r.out;
        counted = λ h. omega (arith, ih.counted (omega (arith, h)), h);
        less = omega (arith, ih.less);
        all_sent = ih.all_sent;
      })
]

none_left : (l : List ℕ) → (not (length l == 0)) ≡ false → l ≡ []
none_left [] h = refl
none_left (x ∷ l) h = ground arith

kinds : (P : Kind → Type 0) (_ : P reply) (_ : P event) → (k : Kind) → P k
kinds P a b reply = a
kinds P a b event = b

module _ (net : ℕ → Ret) (pending : ℕ) (st : Station) where
  abbrev begin : Resend
  begin = record {
    ret = success;
    failed_on_first = true;
    tries = 0;
    attempts = st.resend_attempts;
    pending = pending;
    out = st.sent;
  }

  abbrev replies_pass : Resend × List ℕ
  replies_pass = resend_list net reply st.pending_replies begin

  abbrev msgs_pass : Resend × List ℕ
  msgs_pass = resend_list net event st.pending_msgs replies_pass.0

  abbrev after : Resend → List ℕ → List ℕ → Station × ℕ
  after r replies msgs = (
    record st {
      has_pending_msgs = not (length replies == 0) || not (length msgs == 0);
      resend_attempts = r.attempts;
      pending_msgs = msgs;
      pending_replies = replies;
      sent = r.out;
    },
    r.pending,
  )

  abbrev Resent : Station × ℕ → Type 0
  Resent t =
      ((k : Kind) → line k t.0 ≡ line k st)
      × IsTidy t.0
      × (t.1 + load st ≡ pending + load t.0)
      × (t.0.pending_replies ≢ [] → of_kind event t.0.sent ≡ of_kind event st.sent)

  after-IsTidy : (r : Resend) (replies msgs : List ℕ) → IsTidy (after r replies msgs).0
  after-IsTidy r replies msgs h =
      (none_left msgs (ground (arith, h)), none_left replies (ground (arith, h)))

  -- If the count covers the station's own waiting messages, `wave_ipcs_sta_resend_pending` moves messages
  -- from the front of the queues to what was sent, in order and each once; it keeps the count, and
  -- afterwards a flag that is not set says that none wait. While replies are left no event goes out.
  pub resend-line :
      load st ≤ pending
      → let (st', pending') = resend_pending net pending st in
        ((k : Kind) → line k st' ≡ line k st)
        × IsTidy st'
        × (pending' + load st ≡ pending + load st')
        × (st'.pending_replies ≢ [] → of_kind event st'.sent ≡ of_kind event st.sent)
  unfolding resend_pending resend_both
  resend-line h =
      let a = resend_list-Passed net reply st.pending_replies begin in
      let b = resend_list-Passed net event st.pending_msgs replies_pass.0 in
      elim (Bool-cases (is_success replies_pass.0.ret)) [
        | inr bad ↦
            let e : resend_pending net pending st
                ≡ after replies_pass.0 replies_pass.1 st.pending_msgs =
              ground (arith, bad) in
            subst Resent (sym e) (
              kinds _ a.moved (ap (λ t. t ++ st.pending_msgs) a.others),
              after-IsTidy replies_pass.0 replies_pass.1 st.pending_msgs,
              omega (arith, a.counted (omega (arith, h))),
              λ _. a.others,
            )
        | inl good ↦
            let gone = a.all_sent good in
            let e : resend_pending net pending st ≡ after msgs_pass.0 replies_pass.1 msgs_pass.1 =
              ground (arith, good) in
            subst Resent (sym e) (
              kinds _ (ap (λ t. t ++ replies_pass.1) b.others ∙ a.moved)
                  (b.moved ∙ ap (λ t. t ++ st.pending_msgs) a.others),
              after-IsTidy msgs_pass.0 replies_pass.1 msgs_pass.1,
              omega (arith, a.counted (omega (arith, h)), b.counted, ap length gone, h),
              λ left. absurd (left gone),
            )
      ]
