-- ===== src/Server/Tcp/Framing.antt =====
-- What was written is read back.
use hydra_dns.Base.{
  ◌+◌, ◌≤◌, ◌≡◌, arith, ◌++◌, length, length-append, take, drop, take-append, drop-append, some, ok,
  Bytes, uint16_at, uint16_at_lem, put_uint16,
}
use hydra_dns.Server.Tcp.{message, read_message, write_message}

-- The length and the message.
unfoldable pub frame : Bytes → Bytes
frame msg = put_uint16 (length msg) ++ msg

pub read_message-frame :
    (msg rest : Bytes)
    → 1 ≤ length msg
    → length msg ≤ 65535
    → read_message (frame msg ++ rest) ≡ message msg rest
unfolding read_message frame put_uint16
read_message-frame msg rest some' fits =
    let n = length msg in
    let out = put_uint16 n ++ msg in
    let long : length (msg ++ rest) ≡ n + length rest = length-append msg rest in
    let word : uint16_at (out ++ rest) 0 ≡ ok n =
      ground (arith, uint16_at_lem (out ++ rest) 0, long) in
    let front : take n (msg ++ rest) ≡ msg = take-append msg rest in
    let back : drop n (msg ++ rest) ≡ rest = drop-append msg rest in
    ground (arith, word, long, front, back)

-- A message of 1 to 65535 bytes is written, and whatever follows it on the connection, the reader
-- gets back that message and leaves what follows.
pub read_message-write_message :
    (msg rest : Bytes)
    → 1 ≤ length msg
    → length msg ≤ 65535
    → (out : Bytes) × (write_message msg ≡ some out)
      × (read_message (out ++ rest) ≡ message msg rest)
unfolding write_message frame
read_message-write_message msg rest some' fits =
    (frame msg, ground arith, read_message-frame msg rest some' fits)
