-- ===== src/Network/Protocol/Tests.antt =====
-- A vector of two elements, and a cipher that puts a nonce before the bytes.
use project_stark.Prelude.{
  ℕ, ◌+◌, ◌≡◌, true, none, some, List, [], ◌∷◌, ◌++◌, map, take, drop, length, replicate, arith,
}
use project_stark.Prelude.Int.{pos, negsuc}
use project_stark.Hdc.Vectors.{Vector}
use project_stark.Runtime.HyperVector.{read8, byte_of}
use project_stark.Network.Protocol.{
  Crypto, returned, decrypted, pack_vector, unpack_vector, verify_packet,
}
use project_stark.Network.Protocol.RoundTrip.{unpack-pack_vector, unpack-pack_encrypted}

abbrev signal : Vector
signal = pos 1 ∷ negsuc 0 ∷ []

abbrev cipher : Crypto
cipher = record {
  encrypt = λ v. replicate 24 7 ++ map byte_of v;
  decrypt = λ bytes. some (map read8 (drop 24 bytes));
}

unpack-pack_vector_example :
    (bytes : List ℕ) × (pack_vector signal 1 2 none ≡ some bytes)
    × (length bytes ≡ 42 + 2)
    × (verify_packet bytes ≡ true)
    × (unpack_vector bytes none ≡ returned signal)
unpack-pack_vector_example =
    unpack-pack_vector signal 1 2 ((omega arith, omega arith), ((omega arith, omega arith), tt))
      (omega arith) (omega arith) (omega arith)

unpack-pack_encrypted_example :
    (bytes : List ℕ) × (pack_vector signal 1 2 (some cipher) ≡ some bytes)
    × (unpack_vector bytes (some cipher)
        ≡ decrypted (
            cipher.decrypt
              (1 ∷ take 23 (cipher.encrypt signal) ++ drop 24 (cipher.encrypt signal))))
unpack-pack_encrypted_example =
    unpack-pack_encrypted cipher signal 1 2 (omega arith) (omega arith) (omega arith) (omega arith)
