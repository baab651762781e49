-- ===== src/Runtime/Packet.antt =====
-- h1v3_runtime/packet.py: the binary header and the packet. Bytes are numbers below 256; an
-- operation that raises (ValueError, struct.error) is `none`. The random nonce of `create` is an
-- argument.
pub mod RoundTrip
mod Tests
use mathlib.Core.Option.{map as map_option}
use project_stark.Prelude.Bytes.{big_endian, int_of}
use project_stark.Prelude.{
  ℕ, ◌+◌, ◌*◌, ◌/◌, ◌%◌, ◌^◌, Bool, true, false, Option, none, some, List, [], ◌∷◌, ◌++◌, length,
  take, drop, replicate, ◌>>=◌, ltb, leb, ◌==◌, if◌then◌else◌,
}

abbrev pub magic : ℕ
magic = 1213607985

abbrev pub protocol_version : ℕ
protocol_version = 3

abbrev pub header_size : ℕ
header_size = 43

-- `flags` is the value of a `Flags`, a set of six bits.
pub record Header : Type 0 where
  pub node_id : ℕ
  pub seq_id : ℕ
  pub flags : ℕ
  pub nonce : List ℕ
  pub size : ℕ

-- `buffer[offset:offset + len(bytes)] = bytes` of `pack_into`, which needs the room
unfoldable pub write : ℕ → List ℕ → List ℕ → Option (List ℕ)
write offset bytes buffer =
    if leb (offset + length bytes) (length buffer)
    then some (take offset buffer ++ bytes ++ drop (offset + length bytes) buffer)
    else none

-- `pack_into('>I', …)`: four bytes, the highest first
unfoldable pub pack_int : ℕ → ℕ → List ℕ → Option (List ℕ)
pack_int offset n buffer = if ltb n 4294967296 then write offset (big_endian n) buffer else none

-- `pack_into('B', …)`
unfoldable pub pack_byte : ℕ → ℕ → List ℕ → Option (List ℕ)
pack_byte offset n buffer = if ltb n 256 then write offset (n ∷ []) buffer else none

-- `buffer[14:38] = nonce`, which makes the buffer longer or shorter when the nonce is
unfoldable pub put_nonce : List ℕ → List ℕ → List ℕ
put_nonce nonce buffer = take 14 buffer ++ nonce ++ drop 38 buffer

unfoldable pub pack : Header → Option (List ℕ)
pack h = do
  b0 ← pack_int 0 magic (replicate header_size 0)
  b1 ← pack_byte 4 protocol_version b0
  b2 ← pack_int 5 h.node_id b1
  b3 ← pack_int 9 h.seq_id b2
  b4 ← pack_byte 13 h.flags b3
  pack_int 38 h.size (put_nonce h.nonce b4)

-- `unpack_from('>I', data, offset)` and `unpack_from('B', data, offset)`, where the data reach far
-- enough
unfoldable pub unpack_int : ℕ → List ℕ → ℕ
unpack_int offset bytes = int_of (take 4 (drop offset bytes))

unfoldable pub unpack_byte : ℕ → List ℕ → ℕ
unpack_byte offset bytes = int_of (take 1 (drop offset bytes))

-- `Flags(value)`: a value with other bits is refused.
unfoldable pub flags_of : ℕ → Option ℕ
flags_of value = if ltb value 64 then some value else none

unfoldable pub header_with : List ℕ → ℕ → Header
header_with bytes flags = record {
  node_id = unpack_int 5 bytes;
  seq_id = unpack_int 9 bytes;
  flags = flags;
  nonce = take 24 (drop 14 bytes);
  size = unpack_int 38 bytes;
}

unfoldable pub unpack : List ℕ → Option Header
unpack bytes =
    if ltb (length bytes) header_size
    then none
    else if unpack_int 0 bytes == magic
    then if unpack_byte 4 bytes == protocol_version
      then map_option (header_with bytes) (flags_of (unpack_byte 13 bytes))
      else none
    else none

pub record Packet : Type 0 where
  pub header : Header
  pub payload : List ℕ

-- `create`, with the nonce that `secrets` drew
unfoldable pub create : List ℕ → ℕ → ℕ → List ℕ → ℕ → Packet
create nonce node_id seq_id payload flags = record {
  header = record {
    node_id = node_id;
    seq_id = seq_id;
    flags = flags;
    nonce = nonce;
    size = length payload;
  };
  payload = payload;
}

unfoldable pub pack_packet : Packet → Option (List ℕ)
pack_packet p = map_option (λ bytes. bytes ++ p.payload) (pack p.header)

unfoldable pub packet_with : List ℕ → Header → Packet
packet_with bytes h = record { header = h; payload = take h.size (drop header_size bytes) }

unfoldable pub unpack_packet : List ℕ → Option Packet
unpack_packet bytes = map_option (packet_with bytes) (unpack bytes)
