-- ===== src/Simulation/Reading.antt =====
-- simulations/simulation_utils.go: how much of a response `manualReadResponse` reads.
use mmar.Prelude.Io.{eof}
use mmar.Prelude.{
  ◌<◌, ◌≤◌, ◌≡◌, refl, Bytes, List, [], ◌∷◌, ◌++◌, Option, some, arith, All, length, append_assoc,
  append-nil,
}
use mmar.Simulation.{
  Received, read_bytes, read_error, read_loop, buffer_size, manual_read_response, response,
}

abbrev pub reads_of : List Bytes → List Received → List Received
reads_of [] after = after
reads_of (s ∷ ss) after = read_bytes s ∷ reads_of ss after

abbrev pub concat : List Bytes → Bytes
concat [] = []
concat (s ∷ ss) = s ++ concat ss

-- Reads that fill the buffer go on.
pub read_loop-full :
    (done : Bytes) (full : List Bytes) (after : List Received)
    → All (λ s. buffer_size ≤ length s) full
    → read_loop done (reads_of full after) ≡ read_loop (done ++ concat full) after
unfolding read_loop
read_loop-full done [] after h = rw append-nil refl
read_loop-full done (s ∷ full) after h =
    ground
      (arith, h.0, read_loop-full (done ++ s) full after h.1, append_assoc done s (concat full))

module _ {Response : Type 0} (read_response : Bytes → Option Response) where
  -- A response that comes in any number of full reads and a shorter one, or the end of the connection, is
  -- read whole; whatever would come behind a shorter read is left out.
  pub manual_read_response-reads :
      (full : List Bytes) (s : Bytes) (after : List Received) (r : Response)
      → All (λ s. buffer_size ≤ length s) full
      → read_response (concat full ++ s) ≡ some r
      → (length s < buffer_size
          → manual_read_response read_response (reads_of full (read_bytes s ∷ after)) ≡ response r)
        × (manual_read_response read_response (reads_of full (read_error s eof ∷ after))
            ≡ response r)
  unfolding manual_read_response
  manual_read_response-reads full s after r h parses = (
    λ short. ground (arith, read_loop-full [] full (read_bytes s ∷ after) h, parses, short),
    ground (arith, read_loop-full [] full (read_error s eof ∷ after) h, parses),
  )
