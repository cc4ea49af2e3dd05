-- ===== src/Client/Runs.antt =====
-- wv_ipc/wave_ipc_client.c: what the listener's thread and the callers of commands do, in any order.
use dwpal.Common.{
  Option, sym, none, ℕ, ◌+◌, ◌≡◌, refl, ap, subst, ◌∙◌, Bool, true, false, List, [], ◌∷◌, ◌++◌,
  some, ◌==◌, count, count-append, arith, Bool-cases, Option-cases, inl, inr, ◌⊎◌,
}
use dwpal.Ipc.Message.{Ret, success, error, cmd_failed}
use dwpal.Client.{
  Header, blocked_dispatch, Packet, CmdResponse, Status, resp_none, resp_success, resp_failure,
  Client, Callbacks, dispatch, turn, serialized_event,
}
use dwpal.Client.Calls.{arrived, held, cmd_turn-held}
use dwpal.Client.Commands.{
  begin_cmd, take_response, Ended, finish, end_cmd, Input, interrupted, select_failed, timed_out,
  recv_failed, received, again, ends, cmd_turn,
}
use dwpal.Client.Total.{in_packets, in_responses, total}
use dwpal.Client.Dispatch.{turn-dispatch-total, total-serialized_event}

in_responses-take :
    (x at : ℕ) (l : List CmdResponse) (cs : CmdResponse)
    → (take_response at l).0 ≡ some cs
    → in_responses x l ≡ in_responses x (take_response at l).1 + count x cs.response
unfolding take_response
in_responses-take x at [] cs h = absurd (cc h)
in_responses-take x at (c ∷ l) cs h = elim (Bool-cases (c.at == at)) [
  | inl hit ↦
      let same : c ≡ cs = ground (arith, hit, h) in
      rw hit (omega (arith, ap (λ z. count x z.response) same))
  | inr miss ↦
      let rest : (take_response at l).0 ≡ some cs = ground (arith, miss, h) in
      rw miss (omega (arith, in_responses-take x at l cs rest))
]

-- The messages of the entry go to the caller, or are lost.
finish-total :
    (x : ℕ) (is_sent : Bool) (sent : Ret) (cs : CmdResponse) (s : Client)
    → let e = finish is_sent sent cs s in
      total x e.after + count x e.reply + count x e.lost ≡ total x s + count x cs.response
unfolding finish
finish-total x false sent cs s = omega arith
finish-total x true sent cs s =
    elim cs.status
      as (λ (st : Status).
        (let e : Ended = elim st [
          | resp_none ↦ record { result = error; reply = []; lost = cs.response; after = s }
          | resp_success ↦ record { result = success; reply = cs.response; lost = []; after = s }
          | resp_failure ↦ record { result = cmd_failed; reply = cs.response; lost = []; after = s }
        ] in
          total x e.after + count x e.reply + count x e.lost ≡ total x s + count x cs.response)) [
            | resp_none ↦ omega arith
            | resp_success ↦ omega arith
            | resp_failure ↦ omega arith
          ]

end_cmd-total :
    (x : ℕ) (is_sent : Bool) (sent : Ret) (at : ℕ) (s : Client) (e : Ended)
    → end_cmd is_sent sent at s ≡ some e
    → total x e.after + count x e.reply + count x e.lost ≡ total x s
unfolding end_cmd
end_cmd-total x is_sent sent at s e h =
    let r = take_response at s.resp_list in
    elim (Option-cases r.0) [
      | inl gone ↦ absurd (ground (arith, gone, h))
      | inr (cs, found) ↦
          let s' : Client = record s { resp_list = r.1 } in
          let same : finish is_sent sent cs s' ≡ e = ground (arith, found, h) in
          subst (λ z. total x z.after + count x z.reply + count x z.lost ≡ total x s) same
            (finish-total x is_sent sent cs s'
              ∙ (omega (arith, in_responses-take x at s.resp_list cs found)))
    ]

-- The command of the listener's own thread that is under way, with the responses that it has collected.
abbrev pub collected : Option (ℕ × List ℕ) → List ℕ
collected none = []
collected (some own) = own.1

-- The message that an input brings.
abbrev pub brought : Input → List ℕ
brought (received p) = p.msg ∷ []
brought interrupted = []
brought select_failed = []
brought timed_out = []
brought recv_failed = []

-- The switch of a client with a listener, or of one that calls `wave_ipcc_blocked_event_listener`.
abbrev pub switch_of : Bool → Callbacks → ℕ → Header → Client → Client
switch_of true c = dispatch c
switch_of false c = blocked_dispatch c

-- What a client does, from `start` on, with a listener or without: the messages that have arrived, that callers of commands
-- have got, and that such a call has lost. Between the turns, the thread that takes them may itself send a command, by
-- `wave_ipcc_send_cmd_no_listener`: its `cmd_turn` queues the events and commands that come meanwhile. A callback is called
-- inside a turn, of which the rest only gives the turn's own message back; its command stands after that turn. Other threads
-- send commands, and events have a thread, only where there is a listener.
pub data Run (listens : Bool) (c : Callbacks) (start : Client)
    : (own : Option (ℕ × List ℕ)) (arrived given lost : List ℕ) → Client → Type 0 where
  begun : Run listens c start none [] [] [] start
  arrives :
      {a g l : List ℕ} {s : Client} (p : Packet)
      → s.queued_msgs ≡ []
      → Run listens c start none a g l s
      → Run listens c start none (p.msg ∷ a) g l (turn (switch_of listens c) p s)
  takes_queued :
      {a g l : List ℕ} {s : Client} (p : Packet) (ps : List Packet)
      → s.queued_msgs ≡ p ∷ ps
      → Run listens c start none a g l s
      → Run listens c start none a g l
          (turn (switch_of listens c) p (record s { queued_msgs = ps }))
  asks :
      {a g l : List ℕ} {s : Client} (seq : ℕ)
      → Run listens c start none a g l s
      → Run listens c start (some (seq, [])) a g l s
  collects :
      {seq : ℕ} {ms a g l : List ℕ} {s : Client} (i : Input) (ms' : List ℕ) (s' : Client)
      → cmd_turn seq listens i ms s ≡ again ms' s'
      → Run listens c start (some (seq, ms)) a g l s
      → Run listens c start (some (seq, ms')) (brought i ++ a) g l s'
  concludes :
      {seq : ℕ} {ms a g l : List ℕ} {s : Client} (i : Input) (e : Ended)
      → cmd_turn seq listens i ms s ≡ ends e
      → Run listens c start (some (seq, ms)) a g l s
      → Run listens c start none (brought i ++ a) (e.reply ++ g) (e.lost ++ l) e.after
  events :
      {own : Option (ℕ × List ℕ)} {a g l : List ℕ} {s : Client}
      → listens ≡ true
      → Run listens c start own a g l s
      → Run listens c start own a g l (serialized_event s)
  commands :
      {own : Option (ℕ × List ℕ)} {a g l : List ℕ} {s : Client} (at seq : ℕ)
      → listens ≡ true
      → Run listens c start own a g l s
      → Run listens c start own a g l (begin_cmd at seq s)
  answers :
      {own : Option (ℕ × List ℕ)} {a g l : List ℕ} {s : Client} (is_sent : Bool) (sent : Ret)
      (at : ℕ) (e : Ended)
      → listens ≡ true
      → end_cmd is_sent sent at s ≡ some e
      → Run listens c start own a g l s
      → Run listens c start own a (e.reply ++ g) (e.lost ++ l) e.after

count-brought : (x : ℕ) (i : Input) → count x (brought i) ≡ arrived x i
count-brought x (received p) = refl
count-brought x interrupted = refl
count-brought x select_failed = refl
count-brought x timed_out = refl
count-brought x recv_failed = refl

turn_switch :
    (x : ℕ) (listens : Bool) (c : Callbacks) (p : Packet) (s : Client)
    → total x (turn (switch_of listens c) p s) ≡ total x s + count x (p.msg ∷ [])
turn_switch x true c p s = (turn-dispatch-total x c p s).0
turn_switch x false c p s = (turn-dispatch-total x c p s).1

-- A message that has arrived is held by the client, or a caller has it, or a call has lost it, and that just once: given
-- back, taken by a callback, queued, waiting for the thread for events, or collected for a command.
pub Run-total :
    (listens : Bool) (c : Callbacks) (start : Client) (own : Option (ℕ × List ℕ)) (a g l : List ℕ)
    (s : Client) (x : ℕ)
    → Run listens c start own a g l s
    → total x s + count x (collected own) + count x g + count x l ≡ total x start + count x a
unfolding begin_cmd held
Run-total listens c start _ _ _ _ _ x begun = omega arith
Run-total listens c start _ _ _ _ _ x (arrives {a} {g} {l} {s} p none_queued r) =
    omega (arith, turn_switch x listens c p s, Run-total listens c start none a g l s x r)
Run-total listens c start _ _ _ _ _ x (takes_queued {a} {g} {l} {s} p ps queued r) = omega (
  arith,
  turn_switch x listens c p (record s { queued_msgs = ps }),
  ap (in_packets x) queued,
  Run-total listens c start none a g l s x r,
)
Run-total listens c start _ _ _ _ _ x (asks {a} {g} {l} {s} seq r) =
    omega (arith, Run-total listens c start none a g l s x r)
Run-total listens c start _ _ _ _ _ x (collects {seq} {ms} {a} {g} {l} {s} i ms' s' e r) =
    let k : total x s' + count x ms' ≡ held x (cmd_turn seq listens i ms s) = ap (held x) (sym e) in
    omega (
      arith,
      k,
      cmd_turn-held x seq listens i ms s,
      count-append x (brought i) a,
      count-brought x i,
      Run-total listens c start (some (seq, ms)) a g l s x r,
    )
Run-total listens c start _ _ _ _ _ x (concludes {seq} {ms} {a} {g} {l} {s} i e over r) =
    let k : total x e.after + count x e.reply + count x e.lost
        ≡ held x (cmd_turn seq listens i ms s) =
      ap (held x) (sym over) in
    omega (
      arith,
      k,
      cmd_turn-held x seq listens i ms s,
      count-append x (brought i) a,
      count-brought x i,
      count-append x e.reply g,
      count-append x e.lost l,
      Run-total listens c start (some (seq, ms)) a g l s x r,
    )
Run-total listens c start _ _ _ _ _ x (events {own} {a} {g} {l} {s} _ r) =
    omega (arith, total-serialized_event x s, Run-total listens c start own a g l s x r)
Run-total listens c start _ _ _ _ _ x (commands {own} {a} {g} {l} {s} at seq _ r) =
    omega (arith, Run-total listens c start own a g l s x r)
Run-total listens c start _ _ _ _ _ x (answers {own} {a} {g} {l} {s} is_sent sent at e _ h r) =
    omega (
      arith,
      end_cmd-total x is_sent sent at s e h,
      count-append x e.reply g,
      count-append x e.lost l,
      Run-total listens c start own a g l s x r,
    )

finish-keeps :
    (is_sent : Bool) (sent : Ret) (cs : CmdResponse) (s : Client)
    → let e = finish is_sent sent cs s in
      (e.lost ≡ []) ⊎ (((is_sent ≡ false) ⊎ (e.result ≡ error)) × (e.reply ≡ []))
unfolding finish
finish-keeps false sent cs s = inr (inl refl, refl)
finish-keeps true sent cs s =
    elim cs.status
      as (λ (st : Status).
        (let e : Ended = elim st [
          | resp_none ↦ record { result = error; reply = []; lost = cs.response; after = s }
          | resp_success ↦ record { result = success; reply = cs.response; lost = []; after = s }
          | resp_failure ↦ record { result = cmd_failed; reply = cs.response; lost = []; after = s }
        ] in
          (e.lost ≡ []) ⊎ (((true ≡ false) ⊎ (e.result ≡ error)) × (e.reply ≡ [])))) [
            | resp_none ↦ inr (inr refl, refl)
            | resp_success ↦ inl refl
            | resp_failure ↦ inl refl
          ]

-- A command loses messages only if it could not be sent, or has timed out; then its caller gets none.
pub end_cmd-keeps :
    (is_sent : Bool) (sent : Ret) (at : ℕ) (s : Client) (e : Ended)
    → end_cmd is_sent sent at s ≡ some e
    → (e.lost ≡ []) ⊎ (((is_sent ≡ false) ⊎ (e.result ≡ error)) × (e.reply ≡ []))
unfolding end_cmd
end_cmd-keeps is_sent sent at s e h =
    let r = take_response at s.resp_list in
    elim (Option-cases r.0) [
      | inl gone ↦ absurd (ground (arith, gone, h))
      | inr (cs, found) ↦
          let s' : Client = record s { resp_list = r.1 } in
          let same : finish is_sent sent cs s' ≡ e = ground (arith, found, h) in
          subst (λ z. (z.lost ≡ []) ⊎ (((is_sent ≡ false) ⊎ (z.result ≡ error)) × (z.reply ≡ [])))
            same (finish-keeps is_sent sent cs s')
    ]
