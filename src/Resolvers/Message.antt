-- ===== src/Resolvers/Message.antt =====
-- internal/resolvers/types.go: questions as keys, and transaction ids.
use hydra_dns.Base.{
  ℕ, ◌/◌, ◌%◌, ◌≤◌, ◌<◌, ◌≡◌, arith, [], ◌∷◌, ◌&&◌, ◌==◌, if◌then◌else◌, length, drop, ok, Bytes,
  IsU16, uint16_at, uint16_at_lem, Bool-cases,
}

-- `txid >> 8` and `byte(txid)`.
abbrev high_byte : ℕ → ℕ
high_byte txid = txid / 256

abbrev low_byte : ℕ → ℕ
low_byte txid = txid % 256

unfoldable pub patch_transaction_id : Bytes → ℕ → Bytes
patch_transaction_id (b0 ∷ b1 ∷ rest) txid =
    if b0 == high_byte txid && b1 == low_byte txid
    then b0 ∷ b1 ∷ rest
    else high_byte txid ∷ low_byte txid ∷ rest
patch_transaction_id msg txid = msg

pub record QuestionKey : Type 0 where
  pub qname : Bytes
  pub qtype : ℕ
  pub qclass : ℕ

-- A message of two bytes and more gets the 16-bit transaction id, whichever it had, and keeps its
-- length and everything behind the id; a shorter one is not touched.
pub patch_transaction_id_lem :
    (msg : Bytes) (txid : ℕ)
    → IsU16 txid
    → (length (patch_transaction_id msg txid) ≡ length msg)
      × (drop 2 (patch_transaction_id msg txid) ≡ drop 2 msg)
      × (2 ≤ length msg → uint16_at (patch_transaction_id msg txid) 0 ≡ ok txid)
      × (length msg < 2 → patch_transaction_id msg txid ≡ msg)
unfolding patch_transaction_id
patch_transaction_id_lem [] txid h = ground arith
patch_transaction_id_lem (b0 ∷ []) txid h = ground arith
patch_transaction_id_lem (b0 ∷ b1 ∷ rest) txid h =
    let out = patch_transaction_id (b0 ∷ b1 ∷ rest) txid in
    ground (
      arith,
      uint16_at_lem out 0,
      Bool-cases (b0 == high_byte txid),
      Bool-cases (b1 == low_byte txid),
    )
