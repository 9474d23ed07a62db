-- ===== src/Meeting/Schedules.antt =====
-- Every schedule of a dialogue: what holds of all networks that can be reached.
use dirty_net.Prelude.{
  zero, suc, ◌+◌, ℕ, ◌≤◌, ◌<◌, ◌≡◌, ◌⊎◌, inl, inr, refl, sym, ap, ◌∙◌, List, [], ◌∷◌, ◌++◌, arith,
  length, length-append, All,
}
use dirty_net.Packet.Shape.{Message}
use dirty_net.Stream.Chunks.{concat}
use dirty_net.Session.{Event}
use dirty_net.Session.Dialogue.{Side, Talk, hears, speaks, said, calls, written}
use dirty_net.Meeting.Network.{
  Network, nothing_read, Delivers, delivers, Step, server_reads_more, client_reads_more, Reaches,
  start, later, Finished, bytes_read, size, InOrder,
}
use dirty_net.Meeting.Turns.{IsTurn, Turn, Done, Talk-Turn}
use dirty_net.Meeting.Order.{Turn-TurnInOrder, all_of}
use dirty_net.Meeting.Reads.{
  can_read, cannot_read, reads_on, read_bound, nothing_more, concat-append,
}

module _ (server client : Side) (served played : List Event) (total : ℕ) where
  data Phase (s : Network) : Type 0 where
    server_listens : Turn server client served played total s.server_reads s.client_reads → Phase s
    client_listens : Turn client server played served total s.client_reads s.server_reads → Phase s
    both_done : Done server client served played total s.server_reads s.client_reads → Phase s

  turned :
      (xs ys : List (List ℕ))
      → Done client server played served total ys xs
      → Done server client served played total xs ys
  turned xs ys d = record {
    listener_over = d.speaker_over;
    speaker_over = d.listener_over;
    all_spoken = d.all_heard;
    all_heard = d.all_spoken;
    sizes = omega (arith, d.sizes);
  }

  said-Done :
      (xs ys : List (List ℕ))
      → Done server client served played total xs ys
      → (said client ys ≡ concat xs) × (said server xs ≡ concat ys)
  unfolding said calls
  said-Done xs ys d = (
    ap (λ x. written (calls x)) d.speaker_over ∙ d.all_spoken,
    ap (λ x. written (calls x)) d.listener_over ∙ d.all_heard,
  )

  Phase-Step : (s t : Network) → Phase s → Step server client s t → Phase t
  Phase-Step s t (server_listens u) (server_reads_more xs ys _ (delivers c rest k e)) =
      elim (reads_on server client served played total xs ys u c rest k e) [
        | inl v ↦ server_listens v
        | inr v ↦ elim v [ inl w ↦ client_listens w | inr w ↦ both_done w ]
      ]
  Phase-Step s t (server_listens u) (client_reads_more xs ys _ (delivers c rest k e)) =
      absurd (cannot_read server client served played total xs ys u c rest k e)
  Phase-Step s t (client_listens u) (server_reads_more xs ys _ (delivers c rest k e)) =
      absurd (cannot_read client server played served total ys xs u c rest k e)
  Phase-Step s t (client_listens u) (client_reads_more xs ys _ (delivers c rest k e)) =
      elim (reads_on client server played served total ys xs u c rest k e) [
        | inl v ↦ client_listens v
        | inr v ↦ elim v [ inl w ↦ server_listens w | inr w ↦ both_done (turned xs _ w) ]
      ]
  Phase-Step s t (both_done d) (server_reads_more xs ys _ (delivers c rest k e)) =
      absurd (k (nothing_more (concat xs) c rest (sym (said-Done xs ys d).0 ∙ e)))
  Phase-Step s t (both_done d) (client_reads_more xs ys _ (delivers c rest k e)) =
      absurd (k (nothing_more (concat ys) c rest (sym (said-Done xs ys d).1 ∙ e)))

  Phase-InOrder : (s : Network) → Phase s → InOrder server client served played s
  Phase-InOrder s (server_listens t) =
      let o = Turn-TurnInOrder server client served played total _ _ t in
      record {
        server_reads_client = o.listener_reads;
        client_reads_server = all_of _ _ o.speaker_has_read;
        server_says = o.listener_says;
        client_says = o.speaker_says;
        one_way = inl o.speaker_has_read;
      }
  Phase-InOrder s (client_listens t) =
      let o = Turn-TurnInOrder client server played served total _ _ t in
      record {
        server_reads_client = all_of _ _ o.speaker_has_read;
        client_reads_server = o.listener_reads;
        server_says = o.speaker_says;
        client_says = o.listener_says;
        one_way = inr o.speaker_has_read;
      }
  Phase-InOrder s (both_done d) =
      let (c, v) = said-Done s.server_reads s.client_reads d in
      record {
        server_reads_client = all_of _ _ c;
        client_reads_server = all_of _ _ v;
        server_says = all_of _ _ (d.all_heard ∙ sym v);
        client_says = all_of _ _ (d.all_spoken ∙ sym c);
        one_way = inl v;
      }

  -- No deadlock: the run is over, or a read can be made.
  Phase-next :
      (s : Network)
      → Phase s
      → Finished server client served played s ⊎ ((t : Network) × Step server client s t)
  Phase-next s (server_listens t) = inr (
    record { server_reads = s.server_reads ++ (t.rest ∷ []); client_reads = s.client_reads },
    server_reads_more _ _ _ (can_read server client served played total _ _ t),
  )
  Phase-next s (client_listens t) = inr (
    record { server_reads = s.server_reads; client_reads = s.client_reads ++ (t.rest ∷ []) },
    client_reads_more _ _ _ (can_read client server played served total _ _ t),
  )
  Phase-next s (both_done d) = inl (record {
    server_over = d.listener_over;
    client_over = d.speaker_over;
    all_of_client = d.all_spoken;
    all_of_server = d.all_heard;
  })

  Phase-size : (s : Network) → Phase s → bytes_read s ≤ total
  Phase-size s (server_listens t) = read_bound server client served played total _ _ t
  Phase-size s (client_listens t) =
      omega (arith, read_bound client server played served total _ _ t)
  Phase-size s (both_done d) = omega (arith, d.sizes)

  reached-Phase : (n : ℕ) (s : Network) → Phase nothing_read → Reaches server client n s → Phase s
  reached-Phase _ _ f start = f
  reached-Phase _ _ f (later n s t r step) = Phase-Step s t (reached-Phase n s f r) step

  -- A step reads a byte at least.
  delivered_bytes :
      (sent : List ℕ) (reads more : List (List ℕ))
      → Delivers sent reads more
      → length (concat reads) < length (concat more)
  delivered_bytes sent reads more (delivers [] rest k e) = absurd (k refl)
  delivered_bytes sent reads more (delivers (b ∷ bs) rest k e) = omega (
    arith,
    ap length (concat-append reads ((b ∷ bs) ∷ [])),
    length-append (concat reads) ((b ∷ bs) ++ []),
  )

  Step-bytes_read : (s t : Network) → Step server client s t → bytes_read s < bytes_read t
  Step-bytes_read s t (server_reads_more xs ys xs' d) = omega (arith, delivered_bytes _ xs xs' d)
  Step-bytes_read s t (client_reads_more xs ys ys' d) = omega (arith, delivered_bytes _ ys ys' d)

  steps_bound : (n : ℕ) (s : Network) → Reaches server client n s → n ≤ bytes_read s
  steps_bound _ _ start = omega arith
  steps_bound _ _ (later n s t r step) = omega (arith, steps_bound n s r, Step-bytes_read s t step)

-- What holds of every network that two sides with the same turns can reach.
pub record Meets (server client : Side) (served played : List Event) (total n : ℕ) (s : Network)
    : Type 0 where
  pub bound : n ≤ total
  pub goes_on : Finished server client served played s ⊎ ((t : Network) × Step server client s t)
  pub in_order : InOrder server client served played s

pub Talk-Meets :
    (server client : Side) (served played : List Event) (turns : List (List Message)) (n : ℕ)
    (s : Network)
    → All IsTurn turns
    → Talk hears server served [] turns
    → Talk speaks client played [] turns
    → Reaches server client n s
    → Meets server client served played (size turns) n s
Talk-Meets server client served played turns n s k f g r =
    let total : ℕ = size turns in
    let at_start : Phase server client served played total nothing_read =
      elim (Talk-Turn client server played served total [] [] turns g f k (omega arith)) [
        | inl t ↦ server_listens t
        | inr d ↦ both_done (turned server client served played total [] [] d)
      ] in
    let phase : Phase server client served played total s =
      reached-Phase server client served played total n s at_start r in
    record {
      bound = omega (
        arith,
        steps_bound server client served played total n s r,
        Phase-size server client served played total s phase,
      );
      goes_on = Phase-next server client served played total s phase;
      in_order = Phase-InOrder server client served played total s phase;
    }

-- From every network reached the run can be led to its end, within `k` steps more.
pub completes :
    (server client : Side) (served played : List Event) (total : ℕ)
    (meets : (n : ℕ) (s : Network)
      → Reaches server client n s
      → Meets server client served played total n s)
    (k n : ℕ) (s : Network)
    → total ≤ n + k
    → Reaches server client n s
    → (m : ℕ) × (t : Network) × Reaches server client m t × Finished server client served played t
completes server client served played total meets zero n s h r = elim ((meets n s r).goes_on) [
  | inl f ↦ (n, s, r, f)
  | inr (t, step) ↦ absurd (omega (arith, h, (meets (suc n) t (later n s t r step)).bound))
]
completes server client served played total meets (suc k) n s h r = elim ((meets n s r).goes_on) [
  | inl f ↦ (n, s, r, f)
  | inr (t, step) ↦
      completes server client served played total meets k (suc n) t (omega arith)
        (later n s t r step)
]
