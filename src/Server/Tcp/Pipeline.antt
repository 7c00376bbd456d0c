-- ===== src/Server/Tcp/Pipeline.antt =====
-- The messages of a connection, one after the other.
use hydra_dns.Base.{ℕ, suc, ◌≤◌, [], ◌∷◌, ◌++◌, List, length, Bytes}
use hydra_dns.Server.Handler.{Outcome, handle}
use hydra_dns.Server.Tcp.{written_then}
use hydra_dns.Server.Tcp.Framing.{frame}

-- Messages in their frames.
unfoldable pub frames : List Bytes → Bytes
frames [] = []
frames (m ∷ ms) = frame m ++ frames ms

abbrev pub IsMessage : Bytes → Type 0
IsMessage m = (1 ≤ length m) × (length m ≤ 65535)

-- The handler's answers to a list of messages, framed in order: nothing for an answer of no bytes,
-- and nothing more from one that is too long.
unfoldable pub answers : (ℕ → Outcome) → List Bytes → Bytes
answers outcomes [] = []
answers outcomes (m ∷ ms) =
    written_then (handle m (outcomes 0)).response_bytes (answers (λ i. outcomes (suc i)) ms)
