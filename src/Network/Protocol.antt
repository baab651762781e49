-- ===== src/Network/Protocol.antt =====
-- network/protocol.py: packing a hypervector into a packet and back. Bytes are numbers below 256.
-- The cipher that a caller may pass is a parameter, a pair of functions; `decrypt` that raises is
-- `none`. `unpack_vector` returns None for what it rejects, and raises where `struct.unpack` finds
-- too few bytes.
pub mod RoundTrip
mod Tests
use project_stark.Prelude.{
  ℕ, ◌+◌, ◌-◌, ◌%◌, Bool, true, false, ◌&&◌, Option, none, some, List, [], ◌∷◌, ◌++◌, map, length,
  take, drop, replicate, ◌>>=◌, ltb, ◌==◌, if◌then◌else◌,
}
use project_stark.Prelude.Int.{ℤ, pos, negsuc}
use project_stark.Prelude.Bytes.{big_endian, int_of}
use project_stark.Hdc.Vectors.{Vector}
use project_stark.Runtime.HyperVector.{read8, byte_of}

-- `b'HV01'`
abbrev pub magic : List ℕ
magic = 72 ∷ 86 ∷ 48 ∷ 49 ∷ []

abbrev pub header_size : ℕ
header_size = 42

pub record Crypto : Type 0 where
  pub encrypt : Vector → List ℕ
  pub decrypt : List ℕ → Option Vector

pub data Outcome (A : Type 0) : Type 0 where
  returned : A → Outcome A
  rejected raised : Outcome A

-- `struct.pack('!4sBII B 24s I', …)`: `24s` cuts a longer nonce and fills a shorter one with zeros.
unfoldable pub pack_header : ℕ → ℕ → ℕ → List ℕ → ℕ → Option (List ℕ)
pack_header node_id seq_id flags nonce size =
    if ltb node_id 4294967296 && ltb seq_id 4294967296 && ltb size 4294967296
    then some (
        magic
        ++ 3 ∷ big_endian node_id
        ++ big_endian seq_id
        ++ flags ∷ (take 24 (nonce ++ replicate 24 0) ++ (big_endian size)))
    else none

-- The payload, its flags and its nonce.
unfoldable pub sealed : Option Crypto → Vector → List ℕ × (ℕ × List ℕ)
sealed none vector = (map byte_of vector, (0, replicate 24 0))
sealed (some c) vector = (drop 24 (c.encrypt vector), (1, take 24 (c.encrypt vector)))

unfoldable pub pack_vector : Vector → ℕ → ℕ → Option Crypto → Option (List ℕ)
pack_vector vector node_id seq_id crypto =
    let (payload, (flags, nonce)) = sealed crypto vector in
    pack_header node_id seq_id flags nonce (length payload) >>= λ header. some (header ++ payload)

-- `flags & FLAG_ENCRYPTED`
abbrev pub is_encrypted : ℕ → Bool
is_encrypted flags = flags % 2 == 1

unfoldable pub decrypted : Option Vector → Outcome Vector
decrypted none = rejected
decrypted (some vector) = returned vector

-- What is done with the payload once the header is read. `data[13:37]` is taken for the nonce.
unfoldable pub open_payload : Option Crypto → ℕ → List ℕ → Outcome Vector
open_payload none flags bytes = returned (map read8 (drop header_size bytes))
open_payload (some c) flags bytes =
    if is_encrypted flags
    then decrypted (c.decrypt (take 24 (drop 13 bytes) ++ drop header_size bytes))
    else returned (map read8 (drop header_size bytes))

unfoldable pub same_bytes : List ℕ → List ℕ → Bool
same_bytes [] [] = true
same_bytes [] (y ∷ ys) = false
same_bytes (x ∷ xs) [] = false
same_bytes (x ∷ xs) (y ∷ ys) = let rest = same_bytes xs ys in if x == y then rest else false

-- `header[i]` of the fields of `struct.unpack('!4sBII B 24s I', …)`, as numbers
unfoldable pub int_at : ℕ → List ℕ → ℕ
int_at offset bytes = int_of (take 4 (drop offset bytes))

unfoldable pub byte_at : ℕ → List ℕ → ℕ
byte_at offset bytes = int_of (take 1 (drop offset bytes))

unfoldable pub unpack_vector : List ℕ → Option Crypto → Outcome Vector
unpack_vector bytes crypto =
    if ltb (length bytes) 4
    then rejected
    else if same_bytes (take 4 bytes) magic
    then if ltb (length bytes) 5
      then rejected
      else if byte_at 4 bytes == 3
      then if ltb (length bytes) header_size
        then raised
        else if ltb (length bytes) (header_size + int_at 38 bytes)
        then rejected
        else open_payload crypto (byte_at 13 bytes) bytes
      else rejected
    else rejected

unfoldable pub verify_packet : List ℕ → Bool
verify_packet bytes =
    if ltb (length bytes) header_size
    then false
    else same_bytes (take 4 bytes) magic && byte_at 4 bytes == 3
