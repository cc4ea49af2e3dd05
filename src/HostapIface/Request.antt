-- ===== src/HostapIface/Request.antt =====
-- daemon/hostap_iface.c: the loop over a request of a station for events.
use dwpal.Common.{
  ℕ, zero, suc, ◌+◌, ◌<◌, ◌≡◌, ◌≢◌, Bool, true, not, List, if◌then◌else◌, ltb, leb, ◌==◌, length,
  take, drop, get_or, arith, if-cases,
}
use dwpal.Hostap.{c_str}
use dwpal.HostapIface.{
  op_code_size, Event, register_sta_to_event, Flags, mark, Outcome, ended, refused, overrun,
  unfinished, register_loop,
}

module _ (memory_ok : List ℕ → Bool) (sta : ℕ) (buffer : List ℕ) (len : ℕ) where
  -- What is true of every end of a turn, and of the turn after it, is true of the loop.
  pub register_loop-turn {ℓ} :
      (P : Outcome → Type ℓ) (fuel i : ℕ) (events : List Event) (flags : Flags)
      → P (ended events flags)
      → P overrun
      → P (refused events)
      → (let n = get_or buffer i 0 in
          let op_code = c_str (take n (drop (i + 1) buffer)) in
          let r = register_sta_to_event memory_ok sta op_code events in
          i < len
          → 0 < n
          → n < op_code_size
          → P (refused r.1)
            × (r.0 ≡ true
                → P (
                    register_loop memory_ok sta buffer len fuel
                      (i + 1 + n)
                      r.1
                      (mark op_code flags))))
      → P (register_loop memory_ok sta buffer len (suc fuel) i events flags)
  unfolding register_loop
  register_loop-turn P fuel i events flags e o r t =
      let n = get_or buffer i 0 in
      let r1 = register_sta_to_event memory_ok sta (c_str (take n (drop (i + 1) buffer))) events in
      let next =
        register_loop memory_ok sta buffer len fuel (i + 1 + n) r1.1
          (mark (c_str (take n (drop (i + 1) buffer))) flags) in
      let registered : Outcome = if r1.0 then next else refused r1.1 in
      let read : Outcome = if ltb (length buffer) (i + 1 + n) then overrun else registered in
      let short : Outcome = if leb op_code_size n then refused events else read in
      let some_left : Outcome = if n == 0 then ended events flags else short in
      let in_buffer : Outcome = if not (ltb i (length buffer)) then overrun else some_left in
      if-cases P (not (ltb i len)) (ended events flags) in_buffer (λ _. e)
        (λ inside.
          if-cases P (not (ltb i (length buffer))) overrun some_left (λ _. o)
            (λ _.
              if-cases P (n == 0) (ended events flags) short (λ _. e)
                (λ more.
                  if-cases P (leb op_code_size n) (refused events) read (λ _. r)
                    (λ fits.
                      if-cases P (ltb (length buffer) (i + 1 + n)) overrun registered (λ _. o)
                        (λ _.
                          let u =
                            t (ground (arith, inside)) (ground (arith, more))
                              (ground (arith, fits)) in
                          if-cases P r1.0 next (refused r1.1) u.1 (λ _. u.0))))))

  -- The loop over a request ends within as many turns as the request has bytes, and one more.
  pub register_loop_ends :
      (fuel i : ℕ) (events : List Event) (flags : Flags)
      → 0 < fuel
      → len < fuel + i
      → register_loop memory_ok sta buffer len fuel i events flags ≢ unfinished
  register_loop_ends zero i events flags pos h = absurd (omega arith)
  register_loop_ends (suc fuel) i events flags pos h =
      register_loop-turn (λ o. o ≢ unfinished) fuel i events flags (λ k. absurd (cc k))
        (λ k. absurd (cc k)) (λ k. absurd (cc k))
        (λ inside some fits.
          ((λ k. absurd (cc k)), (λ ok. register_loop_ends fuel _ _ _ (omega arith) (omega arith))))
