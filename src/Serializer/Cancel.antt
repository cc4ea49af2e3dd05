-- ===== src/Serializer/Cancel.antt =====
-- wv_ipc/work_serializer.c: works that are taken back, by a work that runs or at the end.
use dwpal.Common.{
  ℕ, Bool, true, false, not, ◌&&◌, List, [], ◌∷◌, none, some, if◌then◌else◌, leb, ◌==◌,
}
use dwpal.Serializer.{Work, aborted, is_waiting, Ops, broadcast, Serializer, emit, faulted, store}
use dwpal.Serializer.Worker.{abandon}

-- Whether a delayed work is one that `serializer_cancel_delayed_work` is to take back.
unfoldable pub is_cancelled : Ops → (id key ctx : ℕ) → Work → Bool
is_cancelled ops id key ctx w =
    id == w.id
    && ctx == w.ctx
    && elim (ops.cmp_func id) [ none ↦ true | some cmp ↦ cmp w.obj key == 0 ]

-- The loop of `serializer_cancel_delayed_work`: the entries that stay, and the state.
unfoldable pub cancel_loop : Ops → (Work → Bool) → List ℕ → Serializer → List ℕ × Serializer
unfolding abandon
cancel_loop ops test [] s = ([], s)
cancel_loop ops test (p ∷ ps) s = elim (s.heap p) [
  | none ↦ ([], faulted s)
  | some w ↦ elim (test w) [
    | true ↦ cancel_loop ops test ps (abandon ops p w s)
    | false ↦ let (kept, s') = cancel_loop ops test ps s in (p ∷ kept, s')
  ]
]

-- `serializer_cancel_delayed_work`; the first component is its result.
unfoldable pub cancel_delayed_work : Ops → (id key ctx : ℕ) → Bool → Serializer → Bool × Serializer
unfolding cancel_loop is_cancelled
cancel_delayed_work ops id key ctx in_context s =
    if leb ops.num_ops id
    then (false, s)
    else if not in_context
    then (false, s)
    else let (kept, s') = cancel_loop ops (is_cancelled ops id key ctx) s.delayed_list s in
      (true, record s' { delayed_list = kept })

-- One pass of `serializer_stop_all_by_ctx` over a list: the entries that stay, whether a caller has to be
-- told, and the state. A work that a caller waits for is marked as aborted; after that its state is not
-- WORK_WAITING_FOR_FINISH any more, and so it is freed as well.
unfoldable pub stop_loop : Ops → ℕ → List ℕ → Bool → Serializer → List ℕ × Bool × Serializer
unfolding abandon
stop_loop ops ctx [] notify s = ([], notify, s)
stop_loop ops ctx (p ∷ ps) notify s = elim (s.heap p) [
  | none ↦ ([], notify, faulted s)
  | some w ↦ elim (ctx == w.ctx) [
    | true ↦ elim (is_waiting w.state) [
      | true ↦
          stop_loop ops ctx ps true (abandon ops p w (store p (record w { state = aborted }) s))
      | false ↦ stop_loop ops ctx ps notify (abandon ops p w s)
    ]
    | false ↦ let (kept, n, s') = stop_loop ops ctx ps notify s in (p ∷ kept, n, s')
  ]
]

-- `serializer_stop_all_by_ctx`: the second pass goes over the work list again, not over the delayed works.
unfoldable pub stop_all_by_ctx : Ops → ℕ → Bool → Serializer → Bool × Serializer
unfolding stop_loop
stop_all_by_ctx ops ctx in_context s =
    if not in_context
    then (false, s)
    else let (once, n, s') = stop_loop ops ctx s.work_list false s in
      let (twice, n', s'') = stop_loop ops ctx once n (record s' { work_list = once }) in
      let s3 = record s'' { work_list = twice } in (true, if n' then emit broadcast s3 else s3)

-- The loops of `serializer_destroy` over the two lists.
unfoldable pub drain : Ops → List ℕ → Serializer → Serializer
unfolding abandon
drain ops [] s = s
drain ops (p ∷ ps) s = elim (s.heap p) [
  | none ↦ faulted s
  | some w ↦ drain ops ps (abandon ops p w s)
]

-- `serializer_destroy` after the thread has ended.
unfoldable pub destroy : Ops → Serializer → Serializer
unfolding drain
destroy ops s =
    let s' = drain ops s.work_list (record s { work_list = [] }) in
    drain ops s'.delayed_list (record s' { delayed_list = [] })
