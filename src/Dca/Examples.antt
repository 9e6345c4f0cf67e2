-- ===== src/Dca/Examples.antt =====
-- The protocols of the control and the data port, on concrete bytes.
use mmwcli.Base.{
  ℕ, ◌+◌, ◌*◌, ◌≤◌, ◌≡◌, ◌≢◌, ◌↔◌, refl, false, List, [], ◌∷◌, ok, pos, length, slice, drop,
  le_bytes, le_value, arith, All, IsByte, err, ltb_ℤ, ◌||◌, true, ◌⊎◌, ◌++◌,
}
use Prim.Native.Nat.{bit_and}
use mmwcli.Dca.Protocol.{
  build_request, Response, parse_response, default_fpga_config, validate_raw_capture_fpga_config,
  build_fpga_config, build_record_config, record_packet_size, packet_delay, DataPacket,
  parse_data_packet, offset_loop, is_fatal_system_status, control_header, control_footer,
  system_status_benign_mask, record_packet_size, maximum_payload_size, maximum_data_payload_size,
}
use mmwcli.Dca.Protocol.Control.{
  response_bytes, parse_response-bytes, parse_response_sound, build_request_layout,
  raw_capture_fpga_config, build_record_config_exact,
}
use mmwcli.Dca.Protocol.Data.{datagram_bytes, parse_data_packet_sound, parse_data_packet-bytes}
use mmwcli.Dca.Protocol.Status.{benign_status}

abbrev connected : Response
connected = record { command = 9; status = 0 }

response_bytes-connected : response_bytes connected ≡ 0x5A ∷ 0xA5 ∷ 9 ∷ 0 ∷ 0 ∷ 0 ∷ 0xAA ∷ 0xEE ∷ []
unfolding le_bytes
response_bytes-connected = refl

parse_response-bytes_example : parse_response (response_bytes connected) ≡ ok connected
parse_response-bytes_example = parse_response-bytes connected (omega arith) (omega arith)

abbrev connected_packet : List ℕ
connected_packet = 0x5A ∷ 0xA5 ∷ 9 ∷ 0 ∷ 0 ∷ 0 ∷ 0xAA ∷ 0xEE ∷ []

connected_packet-parsed : parse_response connected_packet ≡ ok connected
unfolding parse_response le_value
connected_packet-parsed = refl

connected_packet-IsByte : All IsByte connected_packet
connected_packet-IsByte = ground arith

parse_response_sound_example : connected_packet ≡ response_bytes connected
parse_response_sound_example =
    parse_response_sound connected_packet connected connected_packet-IsByte connected_packet-parsed

abbrev request : List ℕ
request = 0x5A ∷ 0xA5 ∷ 3 ∷ 0 ∷ 2 ∷ 0 ∷ 7 ∷ 8 ∷ 0xAA ∷ 0xEE ∷ []

request-built : build_request 3 (7 ∷ 8 ∷ []) ≡ ok request
unfolding build_request le_bytes
request-built = refl

build_request_layout_example :
    (length request ≡ 8 + 2)
    × (2 ≤ maximum_payload_size)
    × (le_value (slice 0 2 request) ≡ control_header)
    × (le_value (slice 2 4 request) ≡ 3)
    × (le_value (slice 4 6 request) ≡ 2)
    × (slice 6 (6 + 2) request ≡ 7 ∷ 8 ∷ [])
    × (le_value (drop (6 + 2) request) ≡ control_footer)
build_request_layout_example =
    build_request_layout 3 (7 ∷ 8 ∷ []) request (omega arith) request-built

default-valid : validate_raw_capture_fpga_config default_fpga_config ≡ ok tt
unfolding validate_raw_capture_fpga_config
default-valid = refl

raw_capture_fpga_config_example :
    (default_fpga_config ≡ default_fpga_config)
    × (build_fpga_config default_fpga_config ≡ ok (1 ∷ 2 ∷ 1 ∷ 2 ∷ 3 ∷ 30 ∷ []))
raw_capture_fpga_config_example = raw_capture_fpga_config default_fpga_config default-valid

build_record_config_exact_example :
    ((n : ℕ) × (pos 25 ≡ pos n)
      × (5 ≤ n)
      × (n ≤ 500)
      × (build_record_config (pos 25)
          ≡ ok (le_bytes 2 record_packet_size ++ (le_bytes 2 (125 * n) ++ (0 ∷ 0 ∷ []))))
      × (le_value (le_bytes 2 (125 * n)) ≡ 125 * n))
    ⊎ (((ltb_ℤ (pos 25) (pos 5) || ltb_ℤ (pos 500) (pos 25)) ≡ true)
        × (build_record_config (pos 25) ≡ err packet_delay))
build_record_config_exact_example = build_record_config_exact (pos 25)

abbrev first_packet : DataPacket
first_packet = record { sequence = 1; byte_offset = 0; payload = 5 ∷ 6 ∷ 7 ∷ 8 ∷ [] }

abbrev first_datagram : List ℕ
first_datagram = 1 ∷ 0 ∷ 0 ∷ 0 ∷ 0 ∷ 0 ∷ 0 ∷ 0 ∷ 0 ∷ 0 ∷ 5 ∷ 6 ∷ 7 ∷ 8 ∷ []

first_datagram-parsed : parse_data_packet first_datagram ≡ ok first_packet
unfolding parse_data_packet offset_loop le_value
first_datagram-parsed = refl

first_datagram-IsByte : All IsByte first_datagram
first_datagram-IsByte = ground arith

parse_data_packet_sound_example :
    (first_datagram ≡ datagram_bytes first_packet) × (1 ≤ 4) × (4 ≤ maximum_data_payload_size)
parse_data_packet_sound_example =
    parse_data_packet_sound first_datagram first_packet first_datagram-IsByte first_datagram-parsed

parse_data_packet-bytes_example : parse_data_packet (datagram_bytes first_packet) ≡ ok first_packet
parse_data_packet-bytes_example =
    parse_data_packet-bytes first_packet (omega arith) (omega arith) (omega arith) (omega arith)

-- The capture is done.
abbrev done_status : ℕ
done_status = 8

benign_status_example :
    (is_fatal_system_status done_status ≡ false)
    ↔ ((done_status ≢ 0) × (bit_and done_status system_status_benign_mask ≡ done_status))
benign_status_example = benign_status done_status (omega arith)
