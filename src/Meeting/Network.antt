-- ===== src/Meeting/Network.antt =====
-- Two sides and the connection between them: TCP delivers what one has written to the other in order, in
-- pieces of any size and at any time. A step is one read that gets bytes.
use dirty_net.Prelude.{ℕ, suc, ◌+◌, ◌≡◌, ◌⊎◌, List, [], ◌∷◌, ◌++◌, length}
use dirty_net.Packet.Shape.{Message}
use dirty_net.Stream.Split.{wires}
use dirty_net.Stream.Chunks.{concat, IsChunk}
use dirty_net.Session.{Event}
use dirty_net.Session.Dialogue.{Side, said, Over, written}

-- The reads that each side has made.
pub record Network : Type 0 where
  pub server_reads : List (List ℕ)
  pub client_reads : List (List ℕ)

abbrev pub nothing_read : Network
nothing_read = record { server_reads = []; client_reads = [] }

-- A read of some of the bytes that are sent and not yet read.
pub data Delivers (sent : List ℕ) (reads : List (List ℕ)) : List (List ℕ) → Type 0 where
  delivers :
      (c rest : List ℕ)
      → IsChunk c
      → sent ≡ concat reads ++ (c ++ rest)
      → Delivers sent reads (reads ++ (c ∷ []))

pub data Step (server client : Side) : Network → Network → Type 0 where
  server_reads_more :
      (xs ys xs' : List (List ℕ))
      → Delivers (said client ys) xs xs'
      → Step server client
          (record { server_reads = xs; client_reads = ys })
          (record { server_reads = xs'; client_reads = ys })
  client_reads_more :
      (xs ys ys' : List (List ℕ))
      → Delivers (said server xs) ys ys'
      → Step server client
          (record { server_reads = xs; client_reads = ys })
          (record { server_reads = xs; client_reads = ys' })

-- Runs of n steps from the start.
pub data Reaches (server client : Side) : ℕ → Network → Type 0 where
  start : Reaches server client 0 nothing_read
  later :
      (n : ℕ) (s t : Network)
      → Reaches server client n s
      → Step server client s t
      → Reaches server client (suc n) t

-- Both have returned 0 with these calls, and each has read all that the other has written.
pub record Finished (server client : Side) (served played : List Event) (s : Network) : Type 0 where
  pub server_over : Over server served s.server_reads
  pub client_over : Over client played s.client_reads
  pub all_of_client : written played ≡ concat s.server_reads
  pub all_of_server : written served ≡ concat s.client_reads

abbrev pub bytes_read : Network → ℕ
bytes_read s = length (concat s.server_reads) + length (concat s.client_reads)

-- The bytes of a dialogue.
abbrev pub size : List (List Message) → ℕ
size [] = 0
size (ms ∷ turns) = length (wires ms) + size turns

abbrev pub Prefix : List ℕ → List ℕ → Type 0
Prefix xs ys = (rest : List ℕ) × (ys ≡ xs ++ rest)

-- Each side has read a part of what the other has written, which is a part of what it writes in a run that
-- ends well; and in one direction nothing is under way.
pub record InOrder (server client : Side) (served played : List Event) (s : Network) : Type 0 where
  pub server_reads_client : Prefix (concat s.server_reads) (said client s.client_reads)
  pub client_reads_server : Prefix (concat s.client_reads) (said server s.server_reads)
  pub server_says : Prefix (said server s.server_reads) (written served)
  pub client_says : Prefix (said client s.client_reads) (written played)
  pub one_way :
      (said server s.server_reads ≡ concat s.client_reads)
      ⊎ (said client s.client_reads ≡ concat s.server_reads)
