-- ===== src/Runtime/Packet/RoundTrip.antt =====
-- What is packed is unpacked again.
use project_stark.Prelude.{
  ℕ, ◌+◌, ◌<◌, ◌≡◌, refl, sym, ◌∙◌, true, false, some, List, [], ◌∷◌, ◌++◌, arith, length, drop,
  ltb, leb, length-append, le→leb, drop-drop,
}
use project_stark.Prelude.Bytes.{
  big_endian, int_of, int_of-big_endian, take_all, drop_all, take_front, drop_front, append_assoc,
}
use project_stark.Runtime.Packet.{
  Header, magic, write, pack_int, pack_byte, put_nonce, pack, unpack_int, unpack_byte, flags_of,
  header_with, unpack, create, pack_packet, packet_with, unpack_packet,
}

-- The fields fit the widths of the header.
pub record IsHeader (h : Header) : Type 0 where
  pub node_fits : h.node_id < 4294967296
  pub seq_fits : h.seq_id < 4294967296
  pub flags_fit : h.flags < 64
  pub nonce_fits : length h.nonce ≡ 24
  pub size_fits : h.size < 4294967296

-- Writing over `zs`, as many bytes.
write-append :
    (n : ℕ) (xs ys zs ws : List ℕ)
    → length xs ≡ n
    → length zs ≡ length ys
    → write n ys (xs ++ (zs ++ ws)) ≡ some (xs ++ ys ++ ws)
unfolding write
write-append n xs ys zs ws h k =
    let room : leb (length xs + length ys) (length (xs ++ (zs ++ ws))) ≡ true =
      le→leb _ _ (omega (arith, length-append xs (zs ++ ws), length-append zs ws)) in
    let rest : drop (length xs + length ys) (xs ++ (zs ++ ws)) ≡ ws =
      sym (drop-drop (length ys) (length xs) (xs ++ (zs ++ ws)))
      ∙ rw (drop_all xs (zs ++ ws), ← k) (drop_all zs ws) in
    rw (← h, room, rest, take_all xs (zs ++ ws)) refl

-- The bytes of a header.
abbrev layout : Header → List ℕ
layout h =
    big_endian magic
    ++ 3 ∷ big_endian h.node_id
    ++ big_endian h.seq_id
    ++ h.flags ∷ h.nonce
    ++ big_endian h.size
    ++ 0 ∷ []

fits_int : (n : ℕ) → n < 4294967296 → ltb n 4294967296 ≡ true
fits_int n h = ground arith

pack_lem : (h : Header) → IsHeader h → pack h ≡ some (layout h)
unfolding pack pack_int pack_byte write put_nonce
pack_lem h v =
    let a = fits_int h.node_id v.node_fits in
    let b = fits_int h.seq_id v.seq_fits in
    let c : ltb h.flags 256 ≡ true = ground arith in
    let d = fits_int h.size v.size_fits in
    let front : List ℕ =
      big_endian magic ++ 3 ∷ big_endian h.node_id ++ big_endian h.seq_id ++ h.flags ∷ h.nonce in
    let size : length front ≡ 38 = omega (arith, v.nonce_fits) in
    rw (a, b, c, d)
      (write-append 38 front (big_endian h.size) (0 ∷ 0 ∷ 0 ∷ 0 ∷ []) (0 ∷ []) size refl)

unpack_lem : (h : Header) (payload : List ℕ) → IsHeader h → unpack (layout h ++ payload) ≡ some h
unfolding unpack unpack_int unpack_byte flags_of header_with int_of
unpack_lem h payload v =
    let rest : List ℕ = big_endian h.size ++ (0 ∷ payload) in
    let tail : h.nonce ++ big_endian h.size ++ 0 ∷ [] ++ payload ≡ h.nonce ++ rest =
      append_assoc (h.nonce ++ big_endian h.size) (0 ∷ []) payload
      ∙ append_assoc h.nonce (big_endian h.size) (0 ∷ payload) in
    let front : List ℕ =
      big_endian magic ++ 3 ∷ big_endian h.node_id ++ big_endian h.seq_id ++ h.flags ∷ [] in
    let enough : ltb (length (front ++ (h.nonce ++ rest))) 43 ≡ false =
      let n = length-append h.nonce rest in let f = v.nonce_fits in ground arith in
    let f : int_of (h.flags ∷ []) ≡ h.flags = omega arith in
    let known : ltb h.flags 64 ≡ true = let k = v.flags_fit in ground arith in
    rw
      (
        tail,
        enough,
        f,
        known,
        drop_front 24 h.nonce rest v.nonce_fits,
        take_front 24 h.nonce rest v.nonce_fits,
        int_of-big_endian h.node_id v.node_fits,
        int_of-big_endian h.seq_id v.seq_fits,
        int_of-big_endian h.size v.size_fits,
      )
      refl

-- A packet that was created with fields that fit its header, a nonce of 24 bytes and a payload of
-- less than 2 ^ 32 bytes is packed into 43 bytes and the payload, and those bytes, whatever follows
-- them, are unpacked into the packet.
pub unpack-pack_packet :
    (nonce : List ℕ) (node_id seq_id : ℕ) (payload : List ℕ) (flags : ℕ) (more : List ℕ)
    → IsHeader (create nonce node_id seq_id payload flags).header
    → let p = create nonce node_id seq_id payload flags in
      (bytes : List ℕ) × (pack_packet p ≡ some bytes)
      × (length bytes ≡ 43 + length payload)
      × (unpack_packet (bytes ++ more) ≡ some p)
unfolding pack_packet unpack_packet packet_with create
unpack-pack_packet nonce node_id seq_id payload flags more v =
    let h : Header = (create nonce node_id seq_id payload flags).header in
    let bytes : List ℕ = layout h ++ payload in
    let size : length (layout h) ≡ 43 =
      let n = length-append h.nonce (big_endian h.size) in
      let m = length-append (h.nonce ++ big_endian h.size) (0 ∷ []) in
      let k = v.nonce_fits in omega arith in
    let assoc : bytes ++ more ≡ layout h ++ (payload ++ more) =
      append_assoc (layout h) payload more in
    let body : drop 43 (layout h ++ (payload ++ more)) ≡ payload ++ more =
      drop_front 43 (layout h) (payload ++ more) size in
    (
      bytes,
      rw (pack_lem h v) refl,
      omega (arith, size, length-append (layout h) payload),
      rw (assoc, unpack_lem h (payload ++ more) v, body, take_all payload more) refl,
    )
