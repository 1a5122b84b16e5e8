-- ===== src/Broker/Parse.antt =====
-- `processUdpPacket` of Teme/Tema2/server.cpp, and the message that is made of a datagram.
use pcom.Prelude.{ℕ, ◌+◌, ◌*◌, ◌^◌, List, [], ◌∷◌, ◌++◌, ◌==◌, if◌then◌else◌, pos, take, drop}
use pcom.Bytes.{load8}
use pcom.Text.{bytes_of}
use pcom.Scan.{c_text}
use pcom.Client.Messages.{decimal}

-- The members of `udp_packet` that the loop reads.
pub record UdpPacket : Type 0 where
  pub topic : List ℕ
  pub type : List ℕ
  pub payload : List ℕ

-- `dropped` is `valid = false`; `undefined` is `string topic = NULL`, as `strtok` finds no token in
-- an empty topic.
pub data Parsed : Type 0 where
  parsed : UdpPacket → Parsed
  dropped undefined : Parsed

-- `ntohl` and `ntohs` of what `memcpy` has read.
unfoldable pub be32 : List ℕ → ℕ → ℕ
be32 buf at =
    load8 buf at * 2 ^ 24
    + load8 buf (at + 1) * 2 ^ 16
    + load8 buf (at + 2) * 2 ^ 8
    + load8 buf (at + 3)

unfoldable pub be16 : List ℕ → ℕ → ℕ
be16 buf at = load8 buf at * 2 ^ 8 + load8 buf (at + 1)

unfoldable pub with_sign : ℕ → List ℕ → List ℕ
with_sign sign text = if sign == 1 then bytes_of "-" ++ text else text

-- The topic is the first 50 bytes up to a NUL.
unfoldable pub with_topic : (name type payload : List ℕ) → Parsed
with_topic [] type payload = undefined
with_topic (c ∷ name) type payload =
    parsed (record { topic = c ∷ name; type = type; payload = payload })

-- `processUdpPacket`. `fixed digits number power` is what a stream in fixed notation with that many
-- digits writes for `number / 10 ^ power`.
unfoldable pub process_udp_packet : (fixed : ℕ → ℕ → ℕ → List ℕ) → (buf : List ℕ) → Parsed
process_udp_packet fixed buf =
    let name = c_text (take 50 buf) in
    let type = load8 buf 50 in
    let power = load8 buf 56 in
    if type == 0
    then with_topic name (bytes_of "INT") (with_sign (load8 buf 51) (decimal (pos (be32 buf 52))))
    else if type == 1
    then with_topic name (bytes_of "SHORT_REAL") (fixed 2 (be16 buf 51) 2)
    else if type == 2
    then with_topic name (bytes_of "FLOAT")
        (with_sign (load8 buf 51) (fixed power (be32 buf 52) power))
    else if type == 3
    then with_topic name (bytes_of "STRING") (c_text (drop 51 buf))
    else dropped

-- `stream << udpIp << ":" << sin_port << " - " << topic << " - " << type << " - " << payload << "\n"`
unfoldable pub message : (ip : List ℕ) (port : ℕ) → UdpPacket → List ℕ
message ip port packet =
    ip
    ++ (bytes_of ":"
        ++ (decimal (pos port)
            ++ (bytes_of " - "
                ++ (packet.topic
                    ++ (bytes_of " - "
                        ++ (packet.type
                            ++ (bytes_of " - " ++ (packet.payload ++ bytes_of "\n"))))))))
