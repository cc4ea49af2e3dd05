-- ===== src/Client/Closing.antt =====
-- wv_ipc/wave_ipc_client.c: what is left of the messages when a client has stopped its listener and is disconnected.
use dwpal.Common.{ℕ, List, [], Bool, true, false}
use dwpal.Client.{Client, stop_listener}

-- The listener, if there is one, is stopped.
abbrev pub close : Bool → Client → List ℕ × Client
close true s = stop_listener s
close false s = ([], s)
