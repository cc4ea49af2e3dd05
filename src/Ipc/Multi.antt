-- ===== src/Ipc/Multi.antt =====
-- wv_ipc/wave_ipc_core.c: responses of several messages, which are linked into a ring through their
-- head. A store gives the message at each address, so that aliasing is modelled; 0 is NULL.
pub mod Ring
pub mod Uses
use dwpal.Common.{
  ℕ, zero, suc, Bool, true, false, not, ◌&&◌, ◌||◌, List, [], ◌∷◌, ◌++◌, Option, none, some,
  if◌then◌else◌, ◌==◌, null, update,
}
use dwpal.Ipc.Message.{Msg, Ret, success, error, disconnected}

abbrev pub Store : Type 0
Store = ℕ → Msg

-- The writes `head->prev = msg; msg->next = head;`, which both branches end in.
unfoldable pub close_ring : Store → ℕ → ℕ → Store
close_ring s head msg =
    let s' = update s head (record (s head) { prev = msg }) in
    update s' msg (record (s' msg) { next = head })

-- The first message that is appended to a lone one, which becomes the head.
unfoldable pub start_ring : Store → ℕ → ℕ → Store
unfolding close_ring
start_ring s head msg =
    let s' = update s head (record (s head) { is_head = true; next = msg }) in
    close_ring (update s' msg (record (s' msg) { prev = head })) head msg

-- A further message, behind the last.
unfoldable pub extend_ring : Store → ℕ → ℕ → Store
unfolding close_ring
extend_ring s head msg =
    let s' = update s msg (record (s msg) { prev = (s head).prev }) in
    let last = (s' head).prev in
    close_ring (update s' last (record (s' last) { next = msg })) head msg

-- `wave_ipc_multi_msg_append`
unfoldable pub multi_msg_append : Store → ℕ → ℕ → Ret × Store
multi_msg_append s head msg =
    if head == null || msg == null
    then (error, s)
    else if not ((s head).next == null) && not (s head).is_head
    then (error, s)
    else if not ((s msg).next == null) || (s msg).is_head
    then (error, s)
    else if (s head).next == null
    then (success, start_ring s head msg)
    else (success, extend_ring s head msg)

-- `wave_ipc_msg_is_multi_msg`
unfoldable pub is_multi_msg : Store → ℕ → Bool
is_multi_msg s msg =
    if msg == null || not (s msg).is_head then false else not ((s msg).next == null)

-- `wave_ipc_multi_msg_get_next`
unfoldable pub get_next : Store → ℕ → ℕ
get_next s msg =
    if msg == null || (s msg).next == null
    then null
    else if (s (s msg).next).is_head
    then null
    else (s msg).next

-- The loop of `wave_ipc_msg_put` over the messages behind the head: the objects in the order in which
-- they go back to the pool, and `none` when the fuel is used up.
unfoldable pub put_rest : ℕ → Store → ℕ → ℕ → Option (List ℕ)
put_rest zero s msg next = none
put_rest (suc fuel) s msg next =
    let rest = put_rest fuel s msg (s next).next in
    if next == msg || next == null
    then some []
    else elim rest [ none ↦ none | some ps ↦ some (next ∷ ps) ]

-- `wave_ipc_msg_put`: all objects that go back to the pool.
unfoldable pub msg_put : ℕ → Store → ℕ → Option (List ℕ)
unfolding is_multi_msg
msg_put fuel s msg =
    if msg == null
    then some []
    else if not ((s msg).next == null) && not (s msg).is_head
    then some []
    else if is_multi_msg s msg
    then elim (put_rest fuel s msg (s msg).next) [ none ↦ none | some ps ↦ some (ps ++ msg ∷ []) ]
    else some (msg ∷ [])

-- A caller's walk with `wave_ipc_multi_msg_get_next`, from a message on to NULL.
unfoldable pub walk : ℕ → Store → ℕ → List ℕ
walk zero s msg = []
walk (suc fuel) s msg =
    let next = get_next s msg in
    let rest = walk fuel s next in if next == null then [] else next ∷ rest
