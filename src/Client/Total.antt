-- ===== src/Client/Total.antt =====
-- wv_ipc/wave_ipc_client.c: how often a message is held by the client, over all its lists.
use dwpal.Common.{
  ℕ, ◌+◌, ◌≡◌, ap, ◌∙◌, false, not, ◌||◌, List, [], ◌∷◌, ◌++◌, some, if◌then◌else◌, ◌==◌, count,
  count-append, arith, Bool-cases, Option-cases, inl, inr,
}
use dwpal.Client.{
  msg_resp, Header, Packet, resp_success, resp_failure, CmdResponse, Client, put_msg, find_response,
  set_response, add_response, store_response, handle_response,
}

abbrev pub in_packets : ℕ → List Packet → ℕ
in_packets x [] = 0
in_packets x (p ∷ ps) = count x (p.msg ∷ []) + in_packets x ps

abbrev pub in_responses : ℕ → List CmdResponse → ℕ
in_responses x [] = 0
in_responses x (cs ∷ l) = count x cs.response + in_responses x l

-- How often the message `x` is held.
abbrev pub total : ℕ → Client → ℕ
total x s =
    count x s.put_msgs
    + count x s.taken
    + count x s.works
    + in_packets x s.queued_msgs
    + in_responses x s.resp_list

pub in_packets-append :
    (x : ℕ) (ps qs : List Packet) → in_packets x (ps ++ qs) ≡ in_packets x ps + in_packets x qs
in_packets-append x [] qs = omega arith
in_packets-append x (p ∷ ps) qs = omega (arith, in_packets-append x ps qs)

in_responses-set :
    (x seq : ℕ) (cs new : CmdResponse) (l : List CmdResponse)
    → find_response seq l ≡ some cs
    → in_responses x (set_response seq new l) + count x cs.response
      ≡ in_responses x l + count x new.response
unfolding find_response set_response
in_responses-set x seq cs new [] h = absurd (cc h)
in_responses-set x seq cs new (c ∷ l) h = elim (Bool-cases (c.seq_num == seq)) [
  | inl hit ↦
      let same : c ≡ cs = ground (arith, hit, h) in
      let e : count x c.response ≡ count x cs.response = ap (λ z. count x z.response) same in
      rw hit (omega (arith, e))
  | inr miss ↦
      let rest : find_response seq l ≡ some cs = ground (arith, miss, h) in
      rw miss (omega (arith, in_responses-set x seq cs new l rest))
]

total-store_response :
    (x m : ℕ) (h : Header) (cs : CmdResponse) (s : Client)
    → find_response h.seq_num s.resp_list ≡ some cs
    → total x (store_response m h cs s) ≡ total x s + count x (m ∷ [])
unfolding store_response add_response
total-store_response x m h cs s found = elim (Bool-cases (h.kind == msg_resp)) [
  | inl resp ↦
      let r : CmdResponse = record cs {
        status = if h.more == 0 then resp_success else cs.status;
        response = cs.response ++ m ∷ [];
      } in
      rw resp (
        omega (
          arith,
          in_responses-set x h.seq_num cs r s.resp_list found,
          count-append x cs.response (m ∷ []),
        ))
  | inr fail ↦
      let r : CmdResponse = record cs { status = resp_failure; response = m ∷ [] } in
      rw fail (
        omega (
          arith,
          in_responses-set x h.seq_num cs r s.resp_list found,
          count-append x cs.response s.put_msgs,
        ))
]

-- A response that has arrived is held once more, and nothing else changes.
pub total-handle_response :
    (x m : ℕ) (h : Header) (s : Client)
    → total x (handle_response m h s).1 ≡ total x s + count x (m ∷ [])
total-handle_response x m h s = elim (Option-cases (find_response h.seq_num s.resp_list)) [
  | inl gone ↦
      let e : handle_response m h s ≡ (false, put_msg m s) =
        unfold handle_response in ground (arith, gone) in
      ap (λ r. total x r.1) e ∙ (omega arith)
  | inr (cs, found) ↦
      let e : handle_response m h s
          ≡ (not (h.kind == msg_resp) || h.more == 0, store_response m h cs s) =
        unfold handle_response in ground (arith, found) in
      ap (λ r. total x r.1) e ∙ total-store_response x m h cs s found
]
