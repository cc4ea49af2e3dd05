-- ===== src/Server/Responses/Collect.antt =====
-- wv_ipc/wave_ipc_server.c: how the responses to a command are collected.
use dwpal.Common.{
  ℕ, ◌≡◌, ◌≢◌, refl, sym, ap, subst, ◌∙◌, Bool, List, [], ◌∷◌, ◌++◌, some, if◌then◌else◌, ◌==◌,
  null, arith, Bool-cases, inl, inr,
}
use dwpal.Ipc.Multi.{Store, multi_msg_append}
use dwpal.Ipc.Multi.Ring.{IsRing, IsLone, append-IsLone, append-IsRing}
use dwpal.Server.Responses.{
  succeeded, CmdResponse, Commands, msg_resp, matches, find_response, set_response, add_response,
  handle_response,
}

-- The messages behind the head of a response: none, or a ring that ends in the last.
abbrev pub Collected : Store → ℕ → List ℕ → Type 0
Collected msgs h [] = IsLone msgs h
Collected msgs h (x ∷ xs) =
    (front : List ℕ) × (last : ℕ) × (x ∷ xs ≡ front ++ last ∷ []) × IsRing msgs h front last

-- The entry that a response with this number belongs to has collected the message `h` and those behind it.
pub record Collects (ipsta seq : ℕ) (s : Commands) (h : ℕ) (ms : List ℕ) : Type 0 where
  pub cs : CmdResponse
  pub found : find_response ipsta seq s.resp_list ≡ some cs
  pub head : cs.response ≡ h
  pub head_there : h ≢ null
  pub collected : Collected s.msgs h ms

find-set :
    (ipsta seq : ℕ) (new cs : CmdResponse) (l : List CmdResponse)
    → find_response ipsta seq l ≡ some cs
    → new.seq_num ≡ cs.seq_num
    → new.ipsta ≡ cs.ipsta
    → find_response ipsta seq (set_response ipsta seq new l) ≡ some new
unfolding find_response set_response
find-set ipsta seq new cs [] h a b = absurd (cc h)
find-set ipsta seq new cs (c ∷ l) h a b = elim (Bool-cases (matches ipsta seq c)) [
  | inl hit ↦
      let same : c ≡ cs = ground (arith, hit, h) in
      ground (
        arith,
        hit,
        a,
        b,
        ap (λ (x : CmdResponse). x.seq_num) same,
        ap (λ (x : CmdResponse). x.ipsta) same,
      )
  | inr miss ↦ ground (arith, miss, h, find-set ipsta seq new cs l (ground (arith, miss, h)) a b)
]

snoc_front : (ms : List ℕ) (m : ℕ) → (x : ℕ) × (xs : List ℕ) × (ms ++ m ∷ [] ≡ x ∷ xs)
snoc_front [] m = (m, [], refl)
snoc_front (y ∷ ys) m = (y, ys ++ m ∷ [], refl)

Collected-append :
    (msgs : Store) (h m : ℕ) (ms : List ℕ)
    → Collected msgs h ms
    → IsLone msgs m
    → h ≢ m
    → Collected (multi_msg_append msgs h m).1 h (ms ++ m ∷ [])
Collected-append msgs h m [] c lone ne = ([], m, refl, (append-IsLone msgs h m c lone ne).1)
Collected-append msgs h m (x ∷ xs) c lone ne =
    (c.0 ++ c.1 ∷ [], m, ap (λ t. t ++ m ∷ []) c.2, (append-IsRing msgs h c.1 m c.0 c.3 lone).1)

module _ (ipsta seq more : ℕ) (s : Commands) (m : ℕ) where
  abbrev answered : Commands
  answered = (handle_response ipsta m msg_resp seq more s).1

  abbrev finished : CmdResponse → CmdResponse
  finished cs = if more == 0 then record cs { status = succeeded } else cs

  finished_same :
      (cs : CmdResponse)
      → ((finished cs).seq_num ≡ cs.seq_num)
        × ((finished cs).ipsta ≡ cs.ipsta)
        × ((finished cs).response ≡ cs.response)
  finished_same cs = (ground arith, ground arith, ground arith)

  -- For a command that has collected responses, a further one, a message in no ring and not the first,
  -- goes behind the others in the ring of the first; the command is done exactly with the response that
  -- says that no more follow, and then the caller is notified.
  pub handle_response-Collects :
      (h : ℕ) (ms : List ℕ)
      → (v : Collects ipsta seq s h ms) → IsLone s.msgs m
      → h ≢ m
      → (w : Collects ipsta seq answered h (ms ++ m ∷ [])) × (w.cs.status
          ≡ (if more == 0 then succeeded else v.cs.status))
        × ((handle_response ipsta m msg_resp seq more s).0 ≡ (more == 0))
        × (answered.put_msgs ≡ s.put_msgs)
  unfolding handle_response add_response
  handle_response-Collects h ms v lone ne =
      let t : Commands = record s {
        resp_list = set_response ipsta seq (finished v.cs) s.resp_list;
        msgs = (multi_msg_append s.msgs v.cs.response m).1;
      } in
      let there : v.cs.response ≢ null = λ k. v.head_there (sym v.head ∙ k) in
      let e : handle_response ipsta m msg_resp seq more s ≡ (more == 0, t) =
        ground (arith, v.found, there) in
      let same = finished_same v.cs in
      subst
        (λ (x : Bool × Commands).
          (w : Collects ipsta seq x.1 h (ms ++ m ∷ [])) × (w.cs.status
            ≡ (if more == 0 then succeeded else v.cs.status))
          × (x.0 ≡ (more == 0))
          × (x.1.put_msgs ≡ s.put_msgs))
        (sym e)
        (
          record {
            cs = finished v.cs;
            found = find-set ipsta seq (finished v.cs) v.cs s.resp_list v.found same.0 same.1;
            head = same.2 ∙ v.head;
            head_there = v.head_there;
            collected =
                subst (λ x. Collected (multi_msg_append s.msgs x m).1 h (ms ++ m ∷ [])) (sym v.head)
                  (Collected-append s.msgs h m ms v.collected lone ne);
          },
          ground arith,
          refl,
          refl,
        )

  -- The first response to a command that waits, a message in no ring, is kept as it is; the command is
  -- done, and the caller notified, if no more follow.
  pub handle_response-first :
      (cs : CmdResponse)
      → find_response ipsta seq s.resp_list ≡ some cs
      → cs.response ≡ null
      → IsLone s.msgs m
      → (w : Collects ipsta seq answered m []) × (w.cs.status
          ≡ (if more == 0 then succeeded else cs.status))
        × ((handle_response ipsta m msg_resp seq more s).0 ≡ (more == 0))
  unfolding handle_response add_response
  handle_response-first cs at empty lone =
      let new : CmdResponse = finished (record cs { response = m }) in
      let t : Commands = record s { resp_list = set_response ipsta seq new s.resp_list } in
      let e : handle_response ipsta m msg_resp seq more s ≡ (more == 0, t) =
        ground (arith, at, empty) in
      let same = finished_same (record cs { response = m }) in
      subst
        (λ (x : Bool × Commands).
          (w : Collects ipsta seq x.1 m []) × (w.cs.status
            ≡ (if more == 0 then succeeded else cs.status))
          × (x.0 ≡ (more == 0)))
        (sym e)
        (
          record {
            cs = new;
            found = find-set ipsta seq new cs s.resp_list at same.0 same.1;
            head = same.2;
            head_there = lone.there;
            collected = lone;
          },
          ground arith,
          refl,
        )
