-- ===== src/Network/Protocol/RoundTrip.antt =====
-- What a packed vector is unpacked to, without and with a cipher.
use project_stark.Prelude.{
  ℕ, zero, suc, ◌+◌, ◌<◌, ◌≤◌, ◌≡◌, refl, sym, ap, ◌∙◌, true, false, Option, none, some, List, [],
  ◌∷◌, ◌++◌, map, arith, length, take, drop, replicate, ltb, length-append, length-take,
  length-drop, drop-drop,
}
use project_stark.Prelude.Bytes.{
  big_endian, int_of, int_of-big_endian, take_front, drop_front, append_assoc,
}
use project_stark.Hdc.Vectors.{Vector}
use project_stark.Hdc.Bind.{All, IsInt8}
use project_stark.Runtime.HyperVector.{byte_of}
use project_stark.Runtime.HyperVector.Laws.{bytes_back, length-map}
use project_stark.Network.Protocol.{
  magic, header_size, Crypto, returned, pack_header, sealed, pack_vector, decrypted, open_payload,
  same_bytes, int_at, byte_at, unpack_vector, verify_packet,
}

abbrev layout : ℕ → ℕ → ℕ → List ℕ → ℕ → List ℕ
layout node_id seq_id flags nonce size =
    magic ++ 3 ∷ big_endian node_id ++ big_endian seq_id ++ flags ∷ (nonce ++ big_endian size)

take-append_le : (n : ℕ) (xs ys : List ℕ) → n ≤ length xs → take n (xs ++ ys) ≡ take n xs
take-append_le zero xs ys h = refl
take-append_le (suc n) [] ys h = absurd (omega arith)
take-append_le (suc n) (x ∷ xs) ys h = ap (◌∷◌ x) (take-append_le n xs ys (omega arith))

take-take_le : (m n : ℕ) (xs : List ℕ) → m ≤ n → take m (take n xs) ≡ take m xs
take-take_le zero n xs h = refl
take-take_le (suc m) zero xs h = absurd (omega arith)
take-take_le (suc m) (suc n) [] h = refl
take-take_le (suc m) (suc n) (x ∷ xs) h = ap (◌∷◌ x) (take-take_le m n xs (omega arith))

pack_header_lem :
    (node_id seq_id flags : ℕ) (nonce : List ℕ) (size : ℕ)
    → node_id < 4294967296
    → seq_id < 4294967296
    → length nonce ≡ 24
    → size < 4294967296
    → pack_header node_id seq_id flags nonce size ≡ some (layout node_id seq_id flags nonce size)
unfolding pack_header
pack_header_lem node_id seq_id flags nonce size n s k z =
    let a : ltb node_id 4294967296 ≡ true = ground arith in
    let b : ltb seq_id 4294967296 ≡ true = ground arith in
    let c : ltb size 4294967296 ≡ true = ground arith in
    rw (a, b, c, take_front 24 nonce (replicate 24 0) k) refl

unpack_lem :
    (node_id seq_id flags : ℕ) (nonce payload : List ℕ) (crypto : Option Crypto)
    → length nonce ≡ 24
    → length payload < 4294967296
    → flags < 256
    → let bytes = layout node_id seq_id flags nonce (length payload) ++ payload in
      (unpack_vector bytes crypto ≡ open_payload crypto flags bytes)
      × (drop header_size bytes ≡ payload)
unfolding unpack_vector int_at byte_at same_bytes int_of
unpack_lem node_id seq_id flags nonce payload crypto k z f =
    let size : List ℕ = big_endian (length payload) in
    let tail : List ℕ = nonce ++ (size ++ payload) in
    let assoc : nonce ++ size ++ payload ≡ tail = append_assoc nonce size payload in
    let front : List ℕ = magic ++ 3 ∷ big_endian node_id ++ big_endian seq_id ++ flags ∷ [] in
    let n : length tail ≡ 28 + length payload =
      omega (arith, k, length-append nonce (size ++ payload)) in
    let t4 : ltb (length (front ++ tail)) 4 ≡ false = ground arith in
    let t5 : ltb (length (front ++ tail)) 5 ≡ false = ground arith in
    let t42 : ltb (length (front ++ tail)) 42 ≡ false = ground arith in
    let whole : ltb (length (front ++ tail)) (42 + length payload) ≡ false = ground arith in
    let at13 : int_of (flags ∷ []) ≡ flags = omega arith in
    let at38 : drop 24 tail ≡ size ++ payload = drop_front 24 nonce (size ++ payload) k in
    let body : drop 28 tail ≡ payload = let e = drop-drop 4 24 tail in sym e ∙ rw at38 refl in
    rw (assoc, t4, t5, t42, at38, int_of-big_endian (length payload) z, whole, at13) (refl, body)

verify_lem :
    (node_id seq_id flags : ℕ) (nonce payload : List ℕ)
    → length nonce ≡ 24
    → verify_packet (layout node_id seq_id flags nonce (length payload) ++ payload) ≡ true
unfolding verify_packet byte_at same_bytes int_of
verify_lem node_id seq_id flags nonce payload k =
    let size : List ℕ = big_endian (length payload) in
    let n : length (nonce ++ size ++ payload) ≡ 28 + length payload =
      omega (arith, k, length-append nonce size, length-append (nonce ++ size) payload) in
    let front : List ℕ = magic ++ 3 ∷ big_endian node_id ++ big_endian seq_id ++ flags ∷ [] in
    let t42 : ltb (length (front ++ (nonce ++ size ++ payload))) 42 ≡ false = ground arith in
    rw t42 refl

layout-length :
    (node_id seq_id flags : ℕ) (nonce payload : List ℕ)
    → length nonce ≡ 24
    → length (layout node_id seq_id flags nonce (length payload) ++ payload) ≡ 42 + length payload
layout-length node_id seq_id flags nonce payload k =
    let size : List ℕ = big_endian (length payload) in
    omega (arith, k, length-append nonce size, length-append (nonce ++ size) payload)

-- Without a cipher, an int8 vector of less than 2 ^ 32 elements, with ids that fit four bytes, is
-- packed into 42 bytes and one for each element; `verify_packet` accepts them, and they are unpacked
-- into the vector.
pub unpack-pack_vector :
    (v : Vector) (node_id seq_id : ℕ)
    → All IsInt8 v
    → length v < 4294967296
    → node_id < 4294967296
    → seq_id < 4294967296
    → (bytes : List ℕ) × (pack_vector v node_id seq_id none ≡ some bytes)
      × (length bytes ≡ 42 + length v)
      × (verify_packet bytes ≡ true)
      × (unpack_vector bytes none ≡ returned v)
unfolding pack_vector sealed open_payload
unpack-pack_vector v node_id seq_id h z n s =
    let payload : List ℕ = map byte_of v in
    let nonce : List ℕ = replicate 24 0 in
    let m : length payload ≡ length v = length-map byte_of v in
    let small : length payload < 4294967296 = omega arith in
    let bytes : List ℕ = layout node_id seq_id 0 nonce (length payload) ++ payload in
    let (opened, body) = unpack_lem node_id seq_id 0 nonce payload none refl small (omega arith) in
    (
      bytes,
      rw (pack_header_lem node_id seq_id 0 nonce (length payload) n s refl small) refl,
      layout-length node_id seq_id 0 nonce payload refl ∙ rw m refl,
      verify_lem node_id seq_id 0 nonce payload refl,
      opened ∙ rw body (ap returned (bytes_back v h)),
    )

-- With a cipher whose output has at least the 24 bytes of its nonce and less than 2 ^ 32, and ids
-- that fit four bytes, what is packed is unpacked by
-- deciphering another text: the byte of the flags stands before the nonce, whose last byte is lost.
pub unpack-pack_encrypted :
    (c : Crypto) (v : Vector) (node_id seq_id : ℕ)
    → 24 ≤ length (c.encrypt v)
    → length (c.encrypt v) < 4294967296
    → node_id < 4294967296
    → seq_id < 4294967296
    → (bytes : List ℕ) × (pack_vector v node_id seq_id (some c) ≡ some bytes)
      × (unpack_vector bytes (some c)
          ≡ decrypted (c.decrypt (1 ∷ take 23 (c.encrypt v) ++ drop 24 (c.encrypt v))))
unfolding pack_vector sealed open_payload
unpack-pack_encrypted c v node_id seq_id long z n s =
    let blob : List ℕ = c.encrypt v in
    let payload : List ℕ = drop 24 blob in
    let nonce : List ℕ = take 24 blob in
    let k : length nonce ≡ 24 = omega (arith, length-take 24 blob) in
    let small : length payload < 4294967296 = omega (arith, length-drop 24 blob) in
    let bytes : List ℕ = layout node_id seq_id 1 nonce (length payload) ++ payload in
    let (opened, body) = unpack_lem node_id seq_id 1 nonce payload (some c) k small (omega arith) in
    let found : take 23 (nonce ++ big_endian (length payload) ++ payload) ≡ take 23 blob =
      rw (append_assoc nonce (big_endian (length payload)) payload) (
        take-append_le 23 nonce (big_endian (length payload) ++ payload) (omega arith)
        ∙ take-take_le 23 24 blob (omega arith)) in
    (
      bytes,
      rw (pack_header_lem node_id seq_id 1 nonce (length payload) n s k small) refl,
      opened ∙ rw (body, found) refl,
    )
