-- ===== src/Dca/Protocol/Data.antt =====
-- The data datagram against its layout, and the FPGA's version word.
use mmwcli.Base.{
  ℕ, ◌+◌, ◌*◌, ◌^◌, ◌≤◌, ◌<◌, ◌≡◌, refl, ◌∙◌, List, [], ◌∷◌, ◌++◌, ok, length, slice, drop,
  le_bytes, le_value, le_value-le_bytes, le_bytes-le_value, All, IsByte, arith, if◌then◌else◌,
}
use mmwcli.Dca.Protocol.{
  DataPacket, parse_data_packet, offset_loop, maximum_data_payload_size, decode_fpga_version,
}

-- A four-byte sequence number, a six-byte offset, and the payload.
pub datagram_bytes : DataPacket → List ℕ
datagram_bytes packet =
    le_bytes 4 packet.sequence ++ (le_bytes 6 packet.byte_offset ++ packet.payload)

offset_loop-le_value :
    (b0 b1 b2 b3 b4 b5 b6 b7 b8 b9 : ℕ) (payload : List ℕ)
    → offset_loop 6 0 (b0 ∷ b1 ∷ b2 ∷ b3 ∷ b4 ∷ b5 ∷ b6 ∷ b7 ∷ b8 ∷ b9 ∷ payload) 0
      ≡ le_value (b4 ∷ b5 ∷ b6 ∷ b7 ∷ b8 ∷ b9 ∷ [])
unfolding offset_loop le_value
offset_loop-le_value b0 b1 b2 b3 b4 b5 b6 b7 b8 b9 payload = omega arith

-- A datagram of bytes that parses is exactly the bytes of the packet that it parses as, and its
-- payload holds 1 to 1456 bytes.
pub parse_data_packet_sound :
    (datagram : List ℕ) (packet : DataPacket)
    → All IsByte datagram
    → parse_data_packet datagram ≡ ok packet
    → (datagram ≡ datagram_bytes packet)
      × (1 ≤ length packet.payload)
      × (length packet.payload ≤ maximum_data_payload_size)
unfolding parse_data_packet datagram_bytes
parse_data_packet_sound (b0 ∷ b1 ∷ b2 ∷ b3 ∷ b4 ∷ b5 ∷ b6 ∷ b7 ∷ b8 ∷ b9 ∷ payload) packet bs h =
    let (h0, (h1, (h2, (h3, (h4, (h5, (h6, (h7, (h8, (h9, rest)))))))))) = bs in
    ground (
      arith,
      le_bytes-le_value (b0 ∷ b1 ∷ b2 ∷ b3 ∷ []) (h0, (h1, (h2, (h3, tt)))),
      le_bytes-le_value (b4 ∷ b5 ∷ b6 ∷ b7 ∷ b8 ∷ b9 ∷ []) (h4, (h5, (h6, (h7, (h8, (h9, tt)))))),
      offset_loop-le_value b0 b1 b2 b3 b4 b5 b6 b7 b8 b9 payload,
    )
parse_data_packet_sound _ packet bs h = ground arith

offset_of-bytes :
    (packet : DataPacket)
    → packet.byte_offset < 2 ^ 48
    → offset_loop 6 0 (datagram_bytes packet) 0 ≡ packet.byte_offset
unfolding datagram_bytes le_bytes
offset_of-bytes packet h =
    offset_loop-le_value _ _ _ _ _ _ _ _ _ _ packet.payload
    ∙ le_value-le_bytes 6 packet.byte_offset h

sequence_of-bytes :
    (packet : DataPacket)
    → packet.sequence < 2 ^ 32
    → le_value (slice 0 4 (datagram_bytes packet)) ≡ packet.sequence
unfolding datagram_bytes le_bytes
sequence_of-bytes packet h = le_value-le_bytes 4 packet.sequence h

length-datagram_bytes :
    (packet : DataPacket) → length (datagram_bytes packet) ≡ 10 + length packet.payload
unfolding datagram_bytes le_bytes
length-datagram_bytes packet = omega arith

payload_of-bytes : (packet : DataPacket) → drop 10 (datagram_bytes packet) ≡ packet.payload
unfolding datagram_bytes le_bytes
payload_of-bytes packet = refl

-- The bytes of a packet with a uint32 sequence number, a 48-bit offset and a payload of 1 to 1456
-- bytes parse as that packet.
pub parse_data_packet-bytes :
    (packet : DataPacket)
    → packet.sequence < 2 ^ 32
    → packet.byte_offset < 2 ^ 48
    → 1 ≤ length packet.payload
    → length packet.payload ≤ maximum_data_payload_size
    → parse_data_packet (datagram_bytes packet) ≡ ok packet
unfolding parse_data_packet
parse_data_packet-bytes packet hs ho h1 h2 = ground (
  arith,
  offset_of-bytes packet ho,
  sequence_of-bytes packet hs,
  length-datagram_bytes packet,
  payload_of-bytes packet,
)

-- The version word holds the two numbers of seven bits and the playback bit.
pub decode_fpga_version_word :
    (encoded : ℕ)
    → encoded < 32768
    → let v = decode_fpga_version encoded in
      (v.major < 128)
      × (v.minor < 128)
      × (encoded ≡ v.major + 128 * v.minor + (if v.playback then 16384 else 0))
unfolding decode_fpga_version
decode_fpga_version_word encoded h = ground arith
