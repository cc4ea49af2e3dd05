-- ===== src/IfaceManager/Requests.antt =====
-- daemon/iface_manager.c: how a message of a client becomes a work.
use dwpal.Common.{
  ℕ, ◌+◌, ◌-◌, ◌≡◌, refl, sym, ap, take, Bool, true, false, not, List, Option, none, some,
  if◌then◌else◌, ◌==◌, length, arith, Bool-cases, inl, inr, ◌⊎◌,
}
use dwpal.IfaceManager.{ifname_size}
use dwpal.IfaceManager.Works.{CmdWork, DetachWork, name_of}

-- The types of works, with what they carry.
pub data Request : Type 0 where
  man_cmd_work man_attach_work man_update_event_work : CmdWork → Request
  man_detach_work : DetachWork → Request
  man_event_work : (event : ℕ) (ifname : List ℕ) (info : Option (List ℕ)) → Request
  man_disconn_work : (ipsta : ℕ) → Request

-- What a work gives up when it is freed: messages, and references to its station. `cmd_work_obj_clean`,
-- `detach_work_obj_clean`, `event_work_obj_clean` and `sta_disconn_work_obj_clean`.
unfoldable pub clean : Request → ℕ × ℕ
clean (man_cmd_work w) = (1, 1)
clean (man_attach_work w) = (1, 1)
clean (man_update_event_work w) = (1, 1)
clean (man_detach_work w) = elim w.ipsta [ none ↦ (0, 0) | some ipsta ↦ (0, 1) ]
clean (man_event_work event ifname info) = (1, 0)
clean (man_disconn_work ipsta) = (0, 1)

-- A call of `iface_manager_sta_cmd_async`: its result, what it queued, how often the message was given back, and how
-- many references to the station it took that are not given up.
pub record Call : Type 0 where
  pub result : Bool
  pub queued : Option Request
  pub given_back : ℕ
  pub references : ℕ

-- DWPALD_CMD, DWPALD_DETACH_REQ, DWPALD_ATTACH_REQ and DWPALD_UPDATE_EVENT_REQ
abbrev pub dwpald_cmd : ℕ
dwpald_cmd = 1

abbrev pub dwpald_detach_req : ℕ
dwpald_detach_req = 4

abbrev pub dwpald_attach_req : ℕ
dwpald_attach_req = 6

abbrev pub dwpald_update_event_req : ℕ
dwpald_update_event_req = 8

-- The exit `err`, with a message that has not been given back.
abbrev err : Call
err = record { result = false; queued = none; given_back = 1; references = 0 }

-- `serializer_exec_work_async` with a work that has taken `references`, and the function that frees it if that
-- fails.
unfoldable pub exec_async : Bool → ℕ → ℕ → Request → Call
exec_async exec_ok given_back references r =
    if exec_ok
    then record { result = true; queued = some r; given_back = given_back; references = references }
    else record {
      result = false;
      queued = none;
      given_back = given_back + (clean r).0;
      references = references - (clean r).1;
    }

-- The cases of a work that takes the message; `alloc_ok` says that the `calloc` of the work succeeds.
unfoldable pub queue_cmd : Bool → Bool → Request → Call
queue_cmd alloc_ok exec_ok r = if not alloc_ok then err else exec_async exec_ok 0 1 r

-- The case DWPALD_DETACH_REQ, which gives the message back before.
unfoldable pub queue_detach : Bool → Bool → CmdWork → Call
queue_detach alloc_ok exec_ok w =
    if not (length w.data_of == ifname_size)
    then err
    else if not alloc_ok
    then err
    else exec_async exec_ok 1 1 (
        man_detach_work
          (record { ifname = name_of w.data_of; seq_num = w.seq_num; ipsta = some w.ipsta }))

-- `iface_manager_sta_cmd_async`, with the first byte of the header that `dwpald_header_peek` gives.
unfoldable pub sta_cmd_async : Option ℕ → Bool → Bool → CmdWork → Call
sta_cmd_async none alloc_ok exec_ok w = err
sta_cmd_async (some h) alloc_ok exec_ok w =
    if h == dwpald_cmd
    then queue_cmd alloc_ok exec_ok (man_cmd_work w)
    else if h == dwpald_attach_req
    then queue_cmd alloc_ok exec_ok (man_attach_work w)
    else if h == dwpald_detach_req
    then queue_detach alloc_ok exec_ok w
    else if h == dwpald_update_event_req
    then queue_cmd alloc_ok exec_ok (man_update_event_work w)
    else err

-- `iface_manager_event_received`
unfoldable pub event_received :
    Bool → Bool → (event : ℕ) → (ifname : List ℕ) → (info : Option (List ℕ)) → Call
event_received alloc_ok exec_ok event ifname info =
    if not alloc_ok
    then err
    else exec_async exec_ok 0 0 (man_event_work event (take (ifname_size - 1) ifname) info)

-- `iface_manager_sta_disconnected`
unfoldable pub sta_disconnected : Bool → ℕ → Call
sta_disconnected exec_ok ipsta = exec_async exec_ok 0 1 (man_disconn_work ipsta)

-- Of a call that is given `messages`: what is given back, at once or when the work is freed, is just that, and so
-- are the references that are given up just those that were taken.
abbrev pub IsBalanced : ℕ → Call → Type 0
IsBalanced messages c =
    ((r : Request) × ((c.result ≡ true)
        × ((c.queued ≡ some r)
            × ((c.given_back + (clean r).0 ≡ messages) × (c.references ≡ (clean r).1)))))
    ⊎ ((c.result ≡ false) × ((c.queued ≡ none) × ((c.given_back ≡ messages) × (c.references ≡ 0))))

exec_async-IsBalanced :
    (exec_ok : Bool) (given_back references messages : ℕ) (r : Request)
    → given_back + (clean r).0 ≡ messages
    → references ≡ (clean r).1
    → IsBalanced messages (exec_async exec_ok given_back references r)
unfolding exec_async
exec_async-IsBalanced true given_back references messages r g h = inl (r, (refl, (refl, (g, h))))
exec_async-IsBalanced false given_back references messages r g h =
    inr (refl, (refl, (g, omega arith)))

err-IsBalanced : IsBalanced 1 err
err-IsBalanced = inr (refl, (refl, (refl, refl)))

queue_cmd-IsBalanced :
    (alloc_ok exec_ok : Bool) (r : Request)
    → clean r ≡ (1, 1)
    → IsBalanced 1 (queue_cmd alloc_ok exec_ok r)
unfolding queue_cmd
queue_cmd-IsBalanced false exec_ok r h = err-IsBalanced
queue_cmd-IsBalanced true exec_ok r h =
    exec_async-IsBalanced exec_ok 0 1 1 r (ap (λ p. 0 + p.0) h) (sym (ap (λ p. p.1) h))

queue_detach-IsBalanced :
    (alloc_ok exec_ok : Bool) (w : CmdWork) → IsBalanced 1 (queue_detach alloc_ok exec_ok w)
unfolding queue_detach clean
queue_detach-IsBalanced alloc_ok exec_ok w = elim (Bool-cases (length w.data_of == ifname_size)) [
  | inr wrong ↦ rw wrong err-IsBalanced
  | inl right ↦ elim (Bool-cases alloc_ok) [
    | inr short ↦ rw (right, short) err-IsBalanced
    | inl ok ↦
        rw (right, ok)
          (exec_async-IsBalanced exec_ok 1 1 1
            (man_detach_work
              (record { ifname = name_of w.data_of; seq_num = w.seq_num; ipsta = some w.ipsta }))
            refl refl)
  ]
]

-- For every message of a client, `iface_manager_sta_cmd_async` queues a work and returns 0, or queues nothing and
-- returns 1. In both cases, when the work is freed, if there is one, the message has been given back just once, and
-- every reference to the station that was taken is given up.
pub sta_cmd_async-IsBalanced :
    (header : Option ℕ) (alloc_ok exec_ok : Bool) (w : CmdWork)
    → IsBalanced 1 (sta_cmd_async header alloc_ok exec_ok w)
unfolding sta_cmd_async clean
sta_cmd_async-IsBalanced none alloc_ok exec_ok w = err-IsBalanced
sta_cmd_async-IsBalanced (some h) alloc_ok exec_ok w = elim (Bool-cases (h == dwpald_cmd)) [
  | inl e ↦ rw e (queue_cmd-IsBalanced alloc_ok exec_ok (man_cmd_work w) refl)
  | inr e1 ↦ elim (Bool-cases (h == dwpald_attach_req)) [
    | inl e ↦ rw (e1, e) (queue_cmd-IsBalanced alloc_ok exec_ok (man_attach_work w) refl)
    | inr e2 ↦ elim (Bool-cases (h == dwpald_detach_req)) [
      | inl e ↦ rw (e1, e2, e) (queue_detach-IsBalanced alloc_ok exec_ok w)
      | inr e3 ↦ elim (Bool-cases (h == dwpald_update_event_req)) [
        | inl e ↦
            rw (e1, e2, e3, e)
              (queue_cmd-IsBalanced alloc_ok exec_ok (man_update_event_work w) refl)
        | inr e4 ↦ rw (e1, e2, e3, e4) err-IsBalanced
      ]
    ]
  ]
]

-- An event or a disconnection is handed on or given up in the same way; `event_received` has one message.
pub event_received-IsBalanced :
    (alloc_ok exec_ok : Bool) (event : ℕ) (ifname : List ℕ) (info : Option (List ℕ))
    → IsBalanced 1 (event_received alloc_ok exec_ok event ifname info)
unfolding event_received clean
event_received-IsBalanced false exec_ok event ifname info = err-IsBalanced
event_received-IsBalanced true exec_ok event ifname info =
    exec_async-IsBalanced exec_ok 0 0 1 (man_event_work event (take (ifname_size - 1) ifname) info)
      refl refl

pub sta_disconnected-IsBalanced :
    (exec_ok : Bool) (ipsta : ℕ) → IsBalanced 0 (sta_disconnected exec_ok ipsta)
unfolding sta_disconnected clean
sta_disconnected-IsBalanced exec_ok ipsta =
    exec_async-IsBalanced exec_ok 0 1 0 (man_disconn_work ipsta) refl refl
