-- ===== src/Client/Told.antt =====
-- wv_ipc/wave_ipc_client.c: the callbacks of a client while it waits follow the connection.
use dwpal.Common.{
  ℕ, ◌≡◌, refl, sym, ap, subst, ◌∙◌, Bool, true, false, not, ◌&&◌, List, [], ◌∷◌, Option, none,
  some, if◌then◌else◌, arith, if-cases, inl, inr, ◌⊎◌,
}
use dwpal.Ipc.Message.{Ret, success, error}
use dwpal.Client.Connection.{
  Call, disconnect_called, reconnect_called, Connection, System, socket_deinit, failure,
  make_socket, make_pipe, socket_init, Attempt, connects, unavailable, refused, connection_attempt,
  Select, interrupted, failed, quiet, arrives, broken, signalled, Wait, WaitTurn, goes_on, returns,
  reconnect, lose_connection, await, wait_turn, wait_for_message,
}
use dwpal.Client.Waiting.{WaitTurn-cases}

-- Whether the callbacks have said that the client is connected, if it was `start` before them.
abbrev pub is_told : Bool → List Call → Bool
is_told start [] = start
is_told start (disconnect_called ∷ l) = false
is_told start (reconnect_called ∷ l) = true

-- No callback says what is known.
abbrev pub is_alternating : Bool → List Call → Bool
is_alternating start [] = true
is_alternating start (disconnect_called ∷ l) = is_told start l && is_alternating start l
is_alternating start (reconnect_called ∷ l) = not (is_told start l) && is_alternating start l

-- The callbacks have said what is so.
abbrev pub IsTold : Bool → Connection → Type 0
IsTold start c = (is_told start c.calls ≡ c.is_connected) × (is_alternating start c.calls ≡ true)

-- What holds when a turn is over: a message has come to a connected client that has been told so; on an error it is told, or could make no
-- socket again.
abbrev pub Answers : Bool → Ret → Connection → Type 0
Answers start ret c =
    ((ret ≡ success) × (IsTold start c × (c.is_connected ≡ true)))
    ⊎ ((ret ≡ error)
        × ((is_alternating start c.calls ≡ true)
            × ((is_told start c.calls ≡ c.is_connected)
                ⊎ ((c.is_connected ≡ false) × (c.socket ≡ none)))))

abbrev Goes : Bool → WaitTurn → Type 0
Goes start (goes_on c) = IsTold start c
Goes start (returns ret c) = Answers start ret c

-- What is the same before and after the socket is made.
abbrev Same : Connection → Bool × Connection → Type 0
Same c r =
    ((r.1.calls ≡ c.calls) × (r.1.is_connected ≡ c.is_connected))
    × ((r.0 ≡ true) ⊎ (r.1.socket ≡ none))

make_socket-Same : (sys : System) (c : Connection) → Same c (make_socket sys c)
unfolding make_socket failure
make_socket-Same sys c =
    elim sys.new_socket
      as (λ (n : Option ℕ). Same c (elim n [
        | none ↦ failure (record c { socket = none })
        | some fd ↦
            let c' : Connection = record c { socket = some fd; opened = fd ∷ c.opened } in
            if not sys.cloexec_ok
            then failure c'
            else if not sys.bind_ok
            then failure c'
            else (true, c')
      ])) [
        | none ↦ ((refl, refl), inr refl)
        | some fd ↦
            let c' : Connection = record c { socket = some fd; opened = fd ∷ c.opened } in
            let bound : Bool × Connection = if not sys.bind_ok then failure c' else (true, c') in
            if-cases (Same c) (not sys.cloexec_ok) (failure c') bound
              (λ _. ((refl, refl), inr refl))
              (λ _.
                if-cases (Same c) (not sys.bind_ok) (failure c') (true, c')
                  (λ _. ((refl, refl), inr refl)) (λ _. ((refl, refl), inl refl)))
      ]

make_pipe-Same : (sys : System) (c : Connection) → Same c (make_pipe sys c)
unfolding make_pipe failure
make_pipe-Same sys c =
    elim sys.new_pipe
      as (λ (n : Option (ℕ × ℕ)). Same c (elim n [
        | none ↦ failure c
        | some fds ↦
            let c' : Connection = record c {
              pipe_read = some fds.0;
              pipe_write = some fds.1;
              opened = fds.0 ∷ fds.1 ∷ c.opened;
            } in
            if not sys.nonblock_ok then failure c' else make_socket sys c'
      ])) [
        | none ↦ ((refl, refl), inr refl)
        | some fds ↦
            let c' : Connection = record c {
              pipe_read = some fds.0;
              pipe_write = some fds.1;
              opened = fds.0 ∷ fds.1 ∷ c.opened;
            } in
            if-cases (Same c) (not sys.nonblock_ok) (failure c') (make_socket sys c')
              (λ _. ((refl, refl), inr refl)) (λ _. make_socket-Same sys c')
      ]

socket_init-Same : (sys : System) (c : Connection) → Same c (socket_init sys c)
unfolding socket_init socket_deinit
socket_init-Same sys c =
    let r = socket_deinit sys c in
    let r' : Connection = r.1 in
    if-cases (Same c) (not r.0) (false, r') (make_pipe sys r') (λ _. ((refl, refl), inr refl))
      (λ _. make_pipe-Same sys r')

module _ (start : Bool) where
  lose_connection-Goes :
      (sys : System) (c : Connection)
      → IsTold start c
      → c.is_connected ≡ true
      → Goes start (lose_connection true sys c)
  unfolding lose_connection
  lose_connection-Goes sys c t on =
      let c₀ : Connection = record c { is_connected = false; is_after_reconnect = false } in
      let r = socket_init sys c₀ in
      let r' : Connection = r.1 in
      let told' : Connection = record r' { calls = disconnect_called ∷ r'.calls } in
      let same : Same c₀ r = socket_init-Same sys c₀ in
      let alternates : is_alternating start r'.calls ≡ true =
        ap (is_alternating start) same.0.0 ∙ t.1 in
      let was : is_told start r'.calls ≡ true = ap (is_told start) same.0.0 ∙ t.0 ∙ on in
      if-cases (Goes start) (not r.0) (returns error r') (goes_on told')
        (λ bad. inr (
          refl,
          (
            alternates,
            inr (
              same.0.1,
              elim same.1 [ inl ok ↦ absurd (ground (arith, ok, bad)) | inr gone ↦ gone ],
            ),
          ),
        ))
        (λ _. (sym same.0.1, rw (was, alternates) refl))

  reconnect-Goes :
      (a : Attempt) (c : Connection)
      → IsTold start c
      → c.is_connected ≡ false
      → Goes start (reconnect true a c)
  unfolding reconnect connection_attempt
  reconnect-Goes connects c t off = (refl, rw (t.0, off, t.1) refl)
  reconnect-Goes unavailable c t off = t
  reconnect-Goes refused c t off = inr (refl, (t.1, inl t.0))

  await-Goes :
      (s : Select) (c : Connection)
      → IsTold start c
      → c.is_connected ≡ true
      → Goes start (await true s c)
  unfolding await
  await-Goes interrupted c t on = t
  await-Goes failed c t on = inr (refl, (t.1, inl t.0))
  await-Goes quiet c t on = t
  await-Goes arrives c t on = inl (refl, (t, on))
  await-Goes (broken sys) c t on = lose_connection-Goes sys c t on
  await-Goes (signalled listens) c t on =
      if-cases (Goes start) listens (goes_on c) (returns error c) (λ _. t)
        (λ _. inr (refl, (t.1, inl t.0)))

  wait_turn-Goes :
      (w : Wait) (c : Connection) → IsTold start c → Goes start (wait_turn true true w c)
  unfolding wait_turn
  wait_turn-Goes w c t =
      let connected : WaitTurn =
        if not c.is_connected then reconnect true w.attempt c else await true w.select c in
      if-cases (Goes start) w.is_over (returns error c) connected (λ _. inr (refl, (t.1, inl t.0)))
        (λ _.
          if-cases (Goes start) (not c.is_connected) (reconnect true w.attempt c)
            (await true w.select c) (λ off. reconnect-Goes w.attempt c t (ground (arith, off)))
            (λ on. await-Goes w.select c t (ground (arith, on))))

  -- While a client with both callbacks waits, they alternate: it hears of a loss of the connection only if it took itself for connected, and of a new
  -- connection only if not. When a message comes it is connected and knows it; on an error it knows how it is, or is without
  -- connection and socket.
  pub wait_for_message-Answers :
      (ws : List Wait) (c : Connection) (ret : Ret) (c' : Connection)
      → wait_for_message true true ws c ≡ some (ret, c')
      → IsTold start c
      → Answers start ret c'
  unfolding wait_for_message
  wait_for_message-Answers [] c ret c' h t = absurd (cc h)
  wait_for_message-Answers (w ∷ ws) c ret c' h t = elim (WaitTurn-cases (wait_turn true true w c)) [
    | inl (c₁, on) ↦
        let rest : wait_for_message true true ws c₁ ≡ some (ret, c') = ground (arith, on, h) in
        wait_for_message-Answers ws c₁ ret c' rest (subst (Goes start) on (wait_turn-Goes w c t))
    | inr (ret₁, (c₁, over)) ↦
        let both : ◌≡◌ {A = Ret × Connection} (ret₁, c₁) (ret, c') = ground (arith, over, h) in
        subst (λ z. Answers start z.0 z.1) both (subst (Goes start) over (wait_turn-Goes w c t))
  ]
