-- ===== src/IfaceManager.antt =====
-- daemon/iface_manager.c: the interfaces that clients are attached to. The manager knows the kind of interface
-- only by its functions, `ManagerApis`.
pub mod Works
pub mod Requests
pub mod Start
pub mod Names
pub mod Sound
pub mod Attach
pub mod Detach
pub mod Disconnect
pub mod Steps
pub mod Answers
pub mod Leak
pub mod Liveness
pub mod Events
pub mod Silent
pub mod Hostap
pub mod Tests
use dwpal.Common.{
  ℕ, zero, suc, ◌+◌, ◌-◌, Bool, true, false, not, ◌&&◌, ◌||◌, List, [], ◌∷◌, ◌++◌, Option, none,
  some, if◌then◌else◌, ltb, leb, ◌==◌, length, take, drop, without, keep,
}
use dwpal.HostapIface.{is_same}

-- `sizeof(ifname)`: IFNAMSIZ and the terminator.
abbrev pub ifname_size : ℕ
ifname_size = 17

-- `manager_apis`, with the type of what `events` holds. A result is true for the value 0 in C. `send_event`
-- gives the stations that it sends to, and the new state.
pub record ManagerApis (E : Type 0) : Type 0 where
  pub no_events : E
  pub execute_command : (cmd ipsta seq_num : ℕ) → Bool
  pub iface_attach : (ifname : List ℕ) → (state : ℕ) → Bool × ℕ
  pub register_sta_to_events : E → (ipsta : ℕ) → List ℕ → Bool × E
  pub unregister_sta_from_events : E → (ipsta : ℕ) → Bool × E
  pub send_event : (info : List ℕ) → E → (state : ℕ) → List ℕ × ℕ

-- What the manager does to the outside: answers to a request, by station and sequence number, an event to a
-- station, and the calls of `iface_detach`.
pub data Output : Type 0 where
  attach_resp : (ipsta seq_num state : ℕ) → Output
  update_event_resp detach_resp req_failed : (ipsta seq_num : ℕ) → Output
  event_sent : (event ipsta : ℕ) → Output
  detached : List ℕ → Output

module _ (E : Type 0) where
  -- `attached_interface`
  pub record AttachedInterface : Type 0 where
    pub ifname : List ℕ
    pub state : ℕ
    pub events : E
    pub attached_clients : List ℕ
    pub keep_attached : Bool

  -- `iface_manager`, with the delayed works IFACE_MAN_DETACH_WORK of its serializer, by the names of their
  -- interfaces, and the number of `future_detach` objects that are allocated.
  pub record Manager : Type 0 where
    pub attached_ifaces : List AttachedInterface
    pub delayed : List (List ℕ)
    pub detach_objs : ℕ
    pub outputs : List Output

module _ {E : Type 0} where
  abbrev pub emit : List Output → Manager E → Manager E
  emit o m = record m { outputs = m.outputs ++ o }

  -- The first interface with a name, as the loops over `attached_ifaces` find it.
  unfoldable pub find : List ℕ → List (AttachedInterface E) → Option (AttachedInterface E)
  find ifname [] = none
  find ifname (a ∷ others) =
      let rest = find ifname others in if is_same ifname_size a.ifname ifname then some a else rest

  -- The interfaces with another one in the place of the first with a name.
  unfoldable pub put :
      List ℕ → AttachedInterface E → List (AttachedInterface E) → List (AttachedInterface E)
  put ifname a' [] = []
  put ifname a' (a ∷ others) =
      let rest = put ifname a' others in
      if is_same ifname_size a.ifname ifname then a' ∷ others else a ∷ rest

  -- `list_remove` of the first interface with a name.
  unfoldable pub drop_iface : List ℕ → List (AttachedInterface E) → List (AttachedInterface E)
  drop_iface ifname [] = []
  drop_iface ifname (a ∷ others) =
      let rest = drop_iface ifname others in
      if is_same ifname_size a.ifname ifname then others else a ∷ rest

  -- `keep_attached == false && list_get_size(attached_clients) == 0`
  abbrev pub is_unused : AttachedInterface E → Bool
  is_unused a = not a.keep_attached && length a.attached_clients == 0

-- `serializer_cancel_delayed_work` for IFACE_MAN_DETACH_WORK, with `detach_work_obj_cmp` as the test.
unfoldable pub cancel : List ℕ → List (List ℕ) → List (List ℕ)
cancel ifname delayed = keep (λ waiting. not (is_same ifname_size waiting ifname)) delayed
