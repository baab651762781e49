-- ===== src/Runtime/Packet/Tests.antt =====
-- A packet of two bytes, with more bytes behind it.
use project_stark.Prelude.{ℕ, ◌+◌, ◌≡◌, refl, some, List, [], ◌∷◌, ◌++◌, length, replicate, arith}
use project_stark.Runtime.Packet.{create, pack_packet, unpack_packet}
use project_stark.Runtime.Packet.RoundTrip.{IsHeader, unpack-pack_packet}

abbrev nonce : List ℕ
nonce = replicate 24 9

fits-IsHeader : IsHeader (create nonce 70000 3 (1 ∷ 2 ∷ []) 5).header
unfolding create
fits-IsHeader = record {
  node_fits = omega arith;
  seq_fits = omega arith;
  flags_fit = omega arith;
  nonce_fits = refl;
  size_fits = omega arith;
}

unpack-pack_packet_example :
    let p = create nonce 70000 3 (1 ∷ 2 ∷ []) 5 in
    (bytes : List ℕ) × (pack_packet p ≡ some bytes)
    × (length bytes ≡ 43 + 2)
    × (unpack_packet (bytes ++ 7 ∷ []) ≡ some p)
unpack-pack_packet_example = unpack-pack_packet nonce 70000 3 (1 ∷ 2 ∷ []) 5 (7 ∷ []) fits-IsHeader
