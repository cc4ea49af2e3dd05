-- ===== src/Client/Resources.antt =====
-- wv_ipc/wave_ipc_client.c: the start and the end of a listener, and what they acquire and release.
use dwpal.Common.{◌≡◌, refl, Bool, true, false, not, List, [], ◌∷◌, if◌then◌else◌, ◌⊎◌, inl, inr}
use dwpal.Ipc.Message.{Ret, success, error}

-- What a listener has: its `listener_thread_data`, the serializer of its events, its list, what it waits with, and its thread.
pub data Resource : Type 0 where
  data_memory events_serializer resp_list resp_cond_lock resp_list_lock resp_cond listener_thread :
      Resource

unfoldable pub is_same : Resource → Resource → Bool
is_same data_memory data_memory = true
is_same events_serializer events_serializer = true
is_same resp_list resp_list = true
is_same resp_cond_lock resp_cond_lock = true
is_same resp_list_lock resp_list_lock = true
is_same resp_cond resp_cond = true
is_same listener_thread listener_thread = true
is_same _ _ = false

-- The call that gives a resource up.
unfoldable pub release : Resource → List Resource → List Resource
release r [] = []
release r (h ∷ held) = let rest = release r held in if is_same h r then held else h ∷ rest

-- What is held, the latest first, and `handle->listener`: whether there is one, and whether it has a serializer.
pub record Listening : Type 0 where
  pub held : List Resource
  pub has_listener : Bool
  pub has_serializer : Bool

-- What `malloc`, `serializer_create`, `list_init` and `pthread_create` give.
pub record Available : Type 0 where
  pub memory_ok : Bool
  pub serializer_ok : Bool
  pub list_ok : Bool
  pub thread_ok : Bool

-- `if (listener->events_serializer) serializer_destroy(...)`
unfoldable pub destroy_serializer : Bool → List Resource → List Resource
destroy_serializer has_serializer held =
    if has_serializer then release events_serializer held else held

-- The calls after `pthread_join`, and those after a failure of `pthread_create`.
unfoldable pub clean_up : Bool → List Resource → List Resource
clean_up has_serializer held = release data_memory (
    destroy_serializer has_serializer (
      release resp_list (release resp_cond_lock (release resp_list_lock (release resp_cond held)))))

-- `wave_ipcc_start_listener` from the call of `list_init` on.
unfoldable pub start_thread : Available → Bool → List Resource → Listening → Ret × Listening
start_thread av has_serializer held s =
    let ready = resp_cond ∷ resp_list_lock ∷ resp_cond_lock ∷ resp_list ∷ held in
    if not av.list_ok
    then (error, record s { held = release data_memory (destroy_serializer has_serializer held) })
    else if not av.thread_ok
    then (error, record s { held = clean_up has_serializer ready; has_listener = false })
    else (
      success,
      record {
        held = listener_thread ∷ ready;
        has_listener = true;
        has_serializer = has_serializer;
      },
    )

-- `wave_ipcc_start_listener` with its argument `use_events_thread`.
unfoldable pub start_listener : Available → Bool → Listening → Ret × Listening
start_listener av use_events_thread s =
    if s.has_listener
    then (error, s)
    else if not av.memory_ok
    then (error, s)
    else if not use_events_thread
    then start_thread av false (data_memory ∷ s.held) s
    else if not av.serializer_ok
    then (error, record s { held = release data_memory (data_memory ∷ s.held) })
    else start_thread av true (events_serializer ∷ data_memory ∷ s.held) s

-- `wave_ipcc_stop_listener`, which `pthread_join` may fail.
unfoldable pub end_listener : (join_ok : Bool) → Listening → Ret × Listening
end_listener join_ok s =
    if not s.has_listener then (error, s) else if not join_ok then (error, s) else (
      success,
      record s {
        held = clean_up s.has_serializer (release listener_thread s.held);
        has_listener = false;
      },
    )

-- A start that fails has given up what it acquired; after one that succeeds, the end gives up all.
abbrev pub IsClean : Listening → Ret × Listening → Type 0
IsClean s r =
    ((r.0 ≡ error) × ((r.1.held ≡ s.held) × (r.1.has_listener ≡ s.has_listener)))
    ⊎ ((r.0 ≡ success)
        × (((end_listener true r.1).0 ≡ success)
            × (((end_listener true r.1).1.held ≡ s.held)
                × ((end_listener true r.1).1.has_listener ≡ false))))

module _ (held : List Resource) (has_serializer : Bool) where
  -- A client without a listener.
  abbrev pub lone : Listening
  lone = record { held = held; has_listener = false; has_serializer = has_serializer }

  start_cases :
      (memory_ok serializer_ok list_ok thread_ok use_events_thread : Bool)
      → IsClean lone (
          start_listener
            (record {
              memory_ok = memory_ok;
              serializer_ok = serializer_ok;
              list_ok = list_ok;
              thread_ok = thread_ok;
            })
            use_events_thread
            lone)
  unfolding start_listener start_thread clean_up destroy_serializer release is_same end_listener
  start_cases false z l t e = inl (refl, (refl, refl))
  start_cases true z false t false = inl (refl, (refl, refl))
  start_cases true z true false false = inl (refl, (refl, refl))
  start_cases true z true true false = inr (refl, (refl, (refl, refl)))
  start_cases true false l t true = inl (refl, (refl, refl))
  start_cases true true false t true = inl (refl, (refl, refl))
  start_cases true true true false true = inl (refl, (refl, refl))
  start_cases true true true true true = inr (refl, (refl, (refl, refl)))

  -- Whether `wave_ipcc_start_listener` gets the thread for events or does without, and wherever it fails, what is held is
  -- what was held before; where it succeeds, this is so after `wave_ipcc_stop_listener`, which succeeds if the thread is joined.
  pub start_listener-IsClean :
      (av : Available) (use_events_thread : Bool)
      → IsClean lone (start_listener av use_events_thread lone)
  start_listener-IsClean av use_events_thread =
      start_cases av.memory_ok av.serializer_ok av.list_ok av.thread_ok use_events_thread
