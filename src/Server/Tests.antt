-- ===== src/Server/Tests.antt =====
-- wv_ipc/wave_ipc_server.c on small inputs.
use dwpal.Common.{
  ℕ, ◌≡◌, ◌≢◌, refl, true, false, List, [], ◌∷◌, some, if◌then◌else◌, ◌==◌, arith, null, count, inl,
  inr, ◌<◌,
}
use dwpal.Ipc.Message.{success, would_block}
use dwpal.Ipc.Multi.{Store}
use dwpal.Ipc.Multi.Ring.{IsLone}
use dwpal.Server.{event, Station, send, send_would_block, enqueue}
use dwpal.Server.Queue.{line, IsTidy, of_kind}
use dwpal.Server.History.{Act, sends, resends, act, acts, accepted, acts-line}
use dwpal.Server.Stations.{
  Server, accept_new_client, new_station, create, sta_incref, send_to, take_place,
}
use dwpal.Server.Stations.Counter.{IsCounted}
use dwpal.Server.Stations.Holders.{IsHeld}
use dwpal.Server.Stations.Steps.{accepts, sends, increfs, Reach, here, next, Reach-IsCounted}
use dwpal.Server.Responses.{
  none_yet, succeeded, CmdResponse, Commands, msg_resp, find_response, handle_response,
}
use dwpal.Server.Responses.Collect.{Collects, handle_response-Collects}

-- A station whose socket has become full: the event 1 waits.
abbrev blocked : Station
blocked = record new_station { refcnt = 1; has_pending_msgs = true; pending_msgs = 1 ∷ [] }

blocked-IsTidy : IsTidy blocked
blocked-IsTidy h = absurd (cc h)

-- 5 is sent, 6 blocks, 7 waits behind it, and then the socket takes one message.
abbrev script : List Act
script =
    sends success true event 5
    ∷ sends would_block true event 6
    ∷ sends success true event 7
    ∷ resends (λ n. if n == 0 then success else would_block)
    ∷ []

acts-line_example : line event (acts script (new_station, 0)).0 ≡ 5 ∷ 6 ∷ 7 ∷ []
unfolding accepted act send send_would_block enqueue of_kind
acts-line_example = acts-line script new_station 0 event (λ _. (refl, refl)) (omega arith)

abbrev connected : Server
connected = (accept_new_client (some 9) true true create).1

-- The daemon takes a reference to the station and sends it an event.
abbrev referred : Server
referred = sta_incref 9 connected

abbrev told : Server
told = (send_to success true event 5 9 referred).1

placed : 0 < count 9 connected.stations
unfolding create accept_new_client take_place
placed = omega arith

told-Reach : Reach create told (9 ∷ [])
unfolding create
told-Reach =
    next
      (next (next here (accepts 9 true true (omega arith) refl))
        (increfs 9 (omega arith, inl placed)))
      (sends success true event 5 9 (omega arith, inr (omega arith)))

Reach-IsCounted_example : IsCounted told × IsHeld told (9 ∷ [])
Reach-IsCounted_example = Reach-IsCounted told-Reach

-- Messages that are in no ring.
abbrev lone_msgs : Store
lone_msgs =
    λ _. record { prev = null; next = null; is_head = false; data_len = 0; hdr = []; payload = [] }

lone_msgs-IsLone : (m : ℕ) → m ≢ null → IsLone lone_msgs m
lone_msgs-IsLone m h = record { there = h; unlinked = refl; plain = refl }

-- The command 3 to the station 9 has got its first response, the message 1, and more follow.
abbrev asked : CmdResponse
asked = record { at = 50; ipsta = 9; seq_num = 3; status = none_yet; response = null }

abbrev waiting : Commands
waiting = record { cmd_seq_num = 3; resp_list = asked ∷ []; msgs = lone_msgs; put_msgs = [] }

abbrev begun : Commands
begun = record waiting { resp_list = record asked { response = 1 } ∷ [] }

begun-Collects : Collects 9 3 begun 1 []
unfolding find_response
begun-Collects = record {
  cs = record asked { response = 1 };
  found = refl;
  head = refl;
  head_there = omega arith;
  collected = lone_msgs-IsLone 1 (omega arith);
}

-- The message 2 is the last response.
handle_response-Collects_example :
    let t = handle_response 9 2 msg_resp 3 0 begun in
    (w : Collects 9 3 t.1 1 (2 ∷ [])) × (w.cs.status ≡ succeeded)
    × (t.0 ≡ true)
    × (t.1.put_msgs ≡ [])
handle_response-Collects_example =
    handle_response-Collects 9 3 0 begun 2 1 [] begun-Collects (lone_msgs-IsLone 2 (omega arith))
      (omega arith)
