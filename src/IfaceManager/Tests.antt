-- ===== src/IfaceManager/Tests.antt =====
-- daemon/iface_manager.c with the functions of daemon/hostap_iface.c, on small inputs.
use dwpal.Common.{
  ℕ, ◌+◌, ◌-◌, ◌≡◌, refl, true, false, List, [], ◌∷◌, ◌++◌, none, some, count, without, replicate,
  arith, length, All, inr, ◌⊎◌,
}
use dwpal.IfaceManager.Silent
use dwpal.HostapIface.{Event, send_event, is_same}
use dwpal.IfaceManager.{ManagerApis, Manager, AttachedInterface, req_failed, detach_resp, find}
use dwpal.IfaceManager.Works.{
  CmdWork, DetachWork, iface_attach_work, iface_detach_work, sta_disconnect_work, leave,
}
use dwpal.IfaceManager.Sound.{IsManaged}
use dwpal.IfaceManager.Steps.{Reach, begun, goes, attaches, expire, Reach-IsManaged}
use dwpal.IfaceManager.Answers.{Answers, IsAttachResp, iface_attach_work-Answers}
use dwpal.IfaceManager.Leak.{iface_detach_work-answers, iface_detach_work-leaks}
use dwpal.IfaceManager.Liveness.{unused_is_detached}
use dwpal.IfaceManager.Requests.{IsBalanced, sta_cmd_async, sta_cmd_async-IsBalanced}
use dwpal.IfaceManager.Hostap.{dwpal_success, hostap_apis, hostap_disconnect-silent}

abbrev apis : ManagerApis (List Event)
apis = hostap_apis (λ _. true) (replicate 64 0) (λ _. dwpal_success) (λ _ _ _. true)

abbrev fresh : Manager (List Event)
fresh = record { attached_ifaces = []; delayed = []; detach_objs = 0; outputs = [] }

fresh-IsManaged : IsManaged fresh
fresh-IsManaged = record { distinct = tt; fine = tt; objs = omega arith }

-- The station 9 asks for the interface "w" and the event "A".
abbrev attach : CmdWork
attach = record { cmd = 5; data_of = 119 ∷ (replicate 16 0 ++ 1 ∷ 65 ∷ []); seq_num = 3; ipsta = 9 }

abbrev in_use : Manager (List Event)
in_use = (iface_attach_work apis true true attach fresh).1

in_use-Reach : Reach apis fresh in_use
in_use-Reach = goes begun (attaches true true attach fresh)

Reach-IsManaged_example : IsManaged in_use
Reach-IsManaged_example = Reach-IsManaged apis fresh in_use in_use-Reach fresh-IsManaged

-- The same, and the memory for the delayed end of the interface is not there.
in_use-Run : Silent.Run apis fresh in_use
in_use-Run = Silent.goes Silent.begun (Silent.attaches true true attach fresh)

hostap_disconnect-silent_example :
    All
      (λ a. (name : List ℕ) (state : ℕ) → count 9 (send_event name a.events state).0 ≡ 0)
      (sta_disconnect_work apis (λ _. false) (λ _. true) 9 in_use).attached_ifaces
hostap_disconnect-silent_example =
    hostap_disconnect-silent (λ _. true) (replicate 64 0) (λ _. dwpal_success) (λ _ _ _. true)
      (λ _. false) (λ _. true) 9 fresh in_use in_use-Run tt

iface_attach_work-Answers_example :
    Answers apis attach
      (IsAttachResp apis attach)
      fresh
      (iface_attach_work apis true false attach fresh)
iface_attach_work-Answers_example = iface_attach_work-Answers apis true false attach fresh

-- The interface "w" with the stations 8 and 9.
abbrev shared : AttachedInterface (List Event)
shared = record {
  ifname = 119 ∷ [];
  state = 1;
  events = [];
  attached_clients = 8 ∷ 9 ∷ [];
  keep_attached = false;
}

abbrev busy : Manager (List Event)
busy = record { attached_ifaces = shared ∷ []; delayed = []; detach_objs = 0; outputs = [] }

abbrev detach : DetachWork
detach = record { ifname = 119 ∷ []; seq_num = 4; ipsta = some 9 }

iface_detach_work-answers_example :
    let r = iface_detach_work apis true true true detach busy in
    ((r.0 ≡ true) × (r.1.outputs ≡ [] ++ detach_resp 9 4 ∷ []))
    ⊎ ((r.0 ≡ false)
        × (((find (119 ∷ []) (shared ∷ []) ≡ none) × (r.1.outputs ≡ [] ++ req_failed 9 4 ∷ []))
            ⊎ (((true ≡ false) ⊎ (true ≡ false)) × (r.1.outputs ≡ []))))
iface_detach_work-answers_example = iface_detach_work-answers apis true true true detach 9 busy refl

iface_detach_work-leaks_example :
    let m' = (iface_detach_work apis true true true detach busy).1 in
    m'.detach_objs - length m'.delayed ≡ 0 - 0 + 1
unfolding find is_same leave without
iface_detach_work-leaks_example =
    iface_detach_work-leaks apis true true detach 9 shared busy refl refl refl (omega arith)

-- The interface "w" without clients, whose end is planned.
abbrev idle : AttachedInterface (List Event)
idle = record {
  ifname = 119 ∷ [];
  state = 1;
  events = [];
  attached_clients = [];
  keep_attached = false;
}

abbrev waiting : Manager (List Event)
waiting = record {
  attached_ifaces = idle ∷ [];
  delayed = (119 ∷ []) ∷ [];
  detach_objs = 1;
  outputs = [];
}

waiting-IsManaged : IsManaged waiting
unfolding is_same
waiting-IsManaged = record {
  distinct = (tt, tt);
  fine = (((λ x. omega arith), inr (inr refl)), tt);
  objs = omega arith;
}

unused_is_detached_example :
    (before : List (List ℕ)) × ((n : List ℕ) × ((after : List (List ℕ)) × (((119 ∷ []) ∷ []
            ≡ before ++ (n ∷ after))
          × (find (119 ∷ []) (expire apis before n after waiting).attached_ifaces ≡ none))))
unfolding find is_same
unused_is_detached_example =
    unused_is_detached apis (119 ∷ []) idle waiting waiting-IsManaged refl refl

sta_cmd_async-IsBalanced_example : IsBalanced 1 (sta_cmd_async (some 4) true false attach)
sta_cmd_async-IsBalanced_example = sta_cmd_async-IsBalanced (some 4) true false attach

abbrev seeded : Manager (List Event)
seeded = record {
  attached_ifaces =
      record {
        ifname = 119 ∷ [];
        state = 1;
        events = [];
        attached_clients = [];
        keep_attached = true;
      }
      ∷ [];
  delayed = [];
  detach_objs = 0;
  outputs = [];
}
