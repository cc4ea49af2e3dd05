-- ===== src/Client/Waiting.antt =====
-- wv_ipc/wave_ipc_client.c: waiting for a message, its descriptors and its callbacks.
use dwpal.Common.{
  ◌≡◌, ◌≢◌, refl, subst, Bool, false, not, List, [], ◌∷◌, some, if◌then◌else◌, arith, if-cases, inl,
  inr, ◌⊎◌,
}
use dwpal.Ipc.Message.{Ret, error}
use dwpal.Client.Connection.{
  disconnect_called, Connection, System, socket_deinit, socket_init, Attempt, connects, unavailable,
  refused, connection_attempt, fresh, first_attempt, connect, Select, interrupted, failed, quiet,
  arrives, broken, signalled, Wait, WaitTurn, goes_on, returns, reconnect, lose_connection, await,
  wait_turn, wait_for_message,
}
use dwpal.Client.Descriptors.{
  Owns, Closes, socket_deinit-Closes, socket_deinit-Owns, socket_init-Made,
}

abbrev pub client_of : WaitTurn → Connection
client_of (goes_on c) = c
client_of (returns ret c) = c

pub WaitTurn-cases :
    (t : WaitTurn)
    → ((c : Connection) × (t ≡ goes_on c))
      ⊎ ((ret : Ret) × ((c : Connection) × (t ≡ returns ret c)))
WaitTurn-cases (goes_on c) = inl (c, refl)
WaitTurn-cases (returns ret c) = inr (ret, (c, refl))

-- What each turn keeps, waiting keeps.
module _ (d r : Bool) (P : Connection → Type 0)
    (keeps : (w : Wait) (c : Connection) → P c → P (client_of (wait_turn d r w c))) where
  pub wait_for_message-keeps :
      (ws : List Wait) (c : Connection) (ret : Ret) (c' : Connection)
      → wait_for_message d r ws c ≡ some (ret, c')
      → P c
      → P c'
  unfolding wait_for_message
  wait_for_message-keeps [] c ret c' h p = absurd (cc h)
  wait_for_message-keeps (w ∷ ws) c ret c' h p =
      let t = wait_turn d r w c in
      elim (WaitTurn-cases t) [
        | inl (c₁, on) ↦
            let rest : wait_for_message d r ws c₁ ≡ some (ret, c') = ground (arith, on, h) in
            wait_for_message-keeps ws c₁ ret c' rest (subst (λ z. P (client_of z)) on (keeps w c p))
        | inr (ret₁, (c₁, over)) ↦
            let both : ◌≡◌ {A = Ret × Connection} (ret₁, c₁) (ret, c') = ground (arith, over, h) in
            subst (λ z. P z.1) both (subst (λ z. P (client_of z)) over (keeps w c p))
      ]

reconnect-Owns :
    (has_clb : Bool) (a : Attempt) (c : Connection)
    → Owns c
    → Owns (client_of (reconnect has_clb a c))
unfolding reconnect connection_attempt
reconnect-Owns has_clb connects c o = o
reconnect-Owns has_clb unavailable c o = o
reconnect-Owns has_clb refused c o = o

lose_connection-Owns :
    (has_clb : Bool) (sys : System) (c : Connection)
    → Owns c
    → Owns (client_of (lose_connection has_clb sys c))
unfolding lose_connection
lose_connection-Owns has_clb sys c o =
    let c₀ : Connection = record c { is_connected = false; is_after_reconnect = false } in
    let r = socket_init sys c₀ in
    let r' : Connection = r.1 in
    let owned : Owns r' = (socket_init-Made sys c₀ o).0 in
    if-cases (λ t. Owns (client_of t)) (not r.0) (returns error r')
      (goes_on (record r' { calls = if has_clb then disconnect_called ∷ r'.calls else r'.calls }))
      (λ _. owned) (λ _. owned)

await-Owns :
    (has_clb : Bool) (s : Select) (c : Connection) → Owns c → Owns (client_of (await has_clb s c))
unfolding await
await-Owns has_clb interrupted c o = o
await-Owns has_clb failed c o = o
await-Owns has_clb quiet c o = o
await-Owns has_clb arrives c o = o
await-Owns has_clb (broken sys) c o = lose_connection-Owns has_clb sys c o
await-Owns has_clb (signalled listens) c o =
    if-cases (λ t. Owns (client_of t)) listens (goes_on c) (returns error c) (λ _. o) (λ _. o)

wait_turn-Owns :
    (d r : Bool) (w : Wait) (c : Connection) → Owns c → Owns (client_of (wait_turn d r w c))
unfolding wait_turn
wait_turn-Owns d r w c o =
    let connected : WaitTurn =
      if not c.is_connected then reconnect r w.attempt c else await d w.select c in
    if-cases (λ t. Owns (client_of t)) w.is_over (returns error c) connected (λ _. o)
      (λ _.
        if-cases (λ t. Owns (client_of t)) (not c.is_connected) (reconnect r w.attempt c)
          (await d w.select c) (λ _. reconnect-Owns r w.attempt c o)
          (λ _. await-Owns d w.select c o))

first_attempt-Owns :
    (freeing : System) (a : Attempt) (c : Connection)
    → Owns c
    → let e = first_attempt freeing a c in Owns e.1 × ((e.0 ≢ error) ⊎ Closes e.1)
unfolding first_attempt connection_attempt
first_attempt-Owns freeing connects c o = (o, inl (λ h. cc h))
first_attempt-Owns freeing unavailable c o = (o, inl (λ h. cc h))
first_attempt-Owns freeing refused c o =
    (socket_deinit-Owns freeing c o, inr (socket_deinit-Closes freeing c o))

connect-Owns :
    (sys freeing : System) (a : Attempt)
    → Owns (connect sys freeing a).1
      × (((connect sys freeing a).0 ≢ error) ⊎ Closes (connect sys freeing a).1)
unfolding connect
connect-Owns sys freeing a =
    let r = socket_init sys fresh in
    let m = socket_init-Made sys fresh (λ x. omega arith) in
    if-cases (λ e. Owns e.1 × ((e.0 ≢ error) ⊎ Closes e.1)) (not r.0) (error, r.1)
      (first_attempt freeing a r.1) (λ bad. (m.0, inr (m.1 (ground (arith, bad)))))
      (λ _. first_attempt-Owns freeing a r.1 m.0)

-- A client connects, waits until `ipcc_wait_for_message` returns, whatever the system does meanwhile, and then its socket is given up:
-- each descriptor that it has opened is closed as often as it was opened. It is so too when `wave_ipcc_connect` fails.
pub wait_for_message-Closes :
    (sys freeing ending : System) (a : Attempt) (d r : Bool) (ws : List Wait) (ret : Ret)
    (c : Connection)
    → wait_for_message d r ws (connect sys freeing a).1 ≡ some (ret, c)
    → Closes (socket_deinit ending c).1
      × (((connect sys freeing a).0 ≢ error) ⊎ Closes (connect sys freeing a).1)
wait_for_message-Closes sys freeing ending a d r ws ret c h = (
  socket_deinit-Closes ending c (
      wait_for_message-keeps d r Owns (wait_turn-Owns d r) ws (connect sys freeing a).1 ret c h
        (connect-Owns sys freeing a).0),
  (connect-Owns sys freeing a).1,
)
