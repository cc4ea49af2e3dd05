-- ===== src/Ipc/Multi/Uses.antt =====
-- wv_ipc/wave_ipc_core.c: what callers see of a ring, the walk over it and its release.
use dwpal.Common.{ℕ, suc, ◌≡◌, ◌≢◌, ap, true, List, [], ◌∷◌, ◌++◌, some, arith, null, length}
use dwpal.Ipc.Multi.{Store, get_next, is_multi_msg, put_rest, msg_put, walk}
use dwpal.Ipc.Multi.Ring.{Chain, IsRing, Chain-there}

walk-Chain :
    (s : Store) (q h : ℕ) (xs : List ℕ)
    → (s h).is_head ≡ true
    → q ≢ null
    → Chain s (s q).next xs h
    → walk (suc (length xs)) s q ≡ xs
unfolding walk get_next
walk-Chain s q h [] head there c = ground (arith, ap s c)
walk-Chain s q h (x ∷ xs) head there c =
    let rest = walk-Chain s x h xs head c.1 c.3 in ground (arith, c.0, c.1, ap s c.0, c.2, rest)

put_rest-Chain :
    (s : Store) (p h : ℕ) (xs : List ℕ)
    → (s h).is_head ≡ true
    → Chain s p xs h
    → put_rest (suc (length xs)) s h p ≡ some xs
unfolding put_rest
put_rest-Chain s p h [] head c = ground (arith, c)
put_rest-Chain s p h (x ∷ xs) head c =
    let other : x ≢ h = λ e. ground (arith, ap s e, c.2) in
    let rest = put_rest-Chain s (s x).next h xs head c.3 in
    ground (arith, c.0, c.1, other, ap s c.0, rest)

-- From the head of a ring, `wave_ipc_multi_msg_get_next` visits the messages behind it in the order in
-- which they were appended, each once, and then gives NULL; and `wave_ipc_msg_put` of the head gives
-- back to the pool each of them and the head, once.
pub ring_uses :
    (s : Store) (h last : ℕ) (xs : List ℕ)
    → IsRing s h xs last
    → let all = xs ++ last ∷ [] in
      (walk (suc (length all)) s h ≡ all)
      × (msg_put (suc (length all)) s h ≡ some (all ++ h ∷ []))
      × (is_multi_msg s h ≡ true)
unfolding msg_put is_multi_msg
ring_uses s h last xs r =
    let all = xs ++ last ∷ [] in
    let put = put_rest-Chain s (s h).next h all r.head r.chain in
    let linked = Chain-there s (s h).next h last xs r.chain in
    (
      walk-Chain s h h all r.head r.here r.chain,
      ground (arith, put, linked, r.head, r.here),
      ground (arith, linked, r.head, r.here),
    )
