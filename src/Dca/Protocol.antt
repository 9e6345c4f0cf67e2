-- ===== src/Dca/Protocol.antt =====
-- internal/dca/protocol.go: the frames of the control port and the header of a data datagram.
-- A byte slice is a list of numbers below 256.
pub mod Control
pub mod Data
pub mod Status
use mmwcli.Base.{
  ℕ, zero, suc, ◌+◌, ◌-◌, ◌*◌, ◌/◌, ◌%◌, ◌^◌, Bool, true, false, ◌||◌, ◌&&◌, not, List, [], ◌∷◌,
  ◌++◌, Option, none, some, ltb, ◌==◌, ◌!=◌, Result, ok, err, ◌>>=◌, ◌>>◌, reject_if, length, slice,
  drop, get_elem?, le_bytes, le_value, ℤ, pos, negsuc, ltb_ℤ, pos_part, if◌then◌else◌,
}
use Prim.Native.Nat.{bit_and}

abbrev pub control_header : ℕ
control_header = 0xA55A

abbrev pub control_footer : ℕ
control_footer = 0xEEAA

abbrev pub control_response_size : ℕ
control_response_size = 8

abbrev pub maximum_payload_size : ℕ
maximum_payload_size = 504

abbrev pub data_header_size : ℕ
data_header_size = 10

abbrev pub maximum_data_payload_size : ℕ
maximum_data_payload_size = 1456

pub data FpgaField : Type 0 where
  log_mode lvds_mode transfer_mode capture_mode data_format timer : FpgaField

pub data ProtocolError : Type 0 where
  payload_too_long response_size response_header response_footer : ProtocolError
  raw_capture_contract packet_delay datagram_empty datagram_too_long : ProtocolError
  out_of_range : FpgaField → ProtocolError

-- `PutUint16` writes the two bytes of a uint16; `uint16(len(payload))` is its low 16 bits.
unfoldable pub build_request : ℕ → List ℕ → Result ProtocolError (List ℕ)
build_request command payload = do
  reject_if (ltb maximum_payload_size (length payload)) payload_too_long
  ok (
      le_bytes 2 control_header
      ++ (le_bytes 2 command
          ++ (le_bytes 2 (length payload % 65536) ++ (payload ++ le_bytes 2 control_footer))))

-- The endpoint in the field `Source` is added by the client, not here.
pub record Response : Type 0 where
  pub command : ℕ
  pub status : ℕ

unfoldable pub parse_response : List ℕ → Result ProtocolError Response
parse_response packet = do
  reject_if (length packet != control_response_size) response_size
  reject_if (le_value (slice 0 2 packet) != control_header) response_header
  reject_if (le_value (slice 6 8 packet) != control_footer) response_footer
  ok (record { command = le_value (slice 2 4 packet); status = le_value (slice 4 6 packet) })

pub record FpgaConfig : Type 0 where
  pub log_mode : ℤ
  pub lvds_mode : ℤ
  pub transfer_mode : ℤ
  pub capture_mode : ℤ
  pub data_format : ℤ
  pub timer : ℤ

abbrev pub default_fpga_config : FpgaConfig
default_fpga_config = record {
  log_mode = pos 1;
  lvds_mode = pos 2;
  transfer_mode = pos 1;
  capture_mode = pos 2;
  data_format = pos 3;
  timer = pos 30;
}

-- `value == k` for an int and a constant that is not negative.
abbrev pub is : ℤ → ℕ → Bool
is (pos n) k = n == k
is (negsuc _) k = false

unfoldable pub validate_raw_capture_fpga_config : FpgaConfig → Result ProtocolError (Unit {0})
validate_raw_capture_fpga_config config =
    reject_if
      (not (is config.log_mode 1)
        || (not (is config.lvds_mode 2)
            || (not (is config.transfer_mode 1)
                || (not (is config.capture_mode 2)
                    || (not (is config.data_format 3) || not (is config.timer 30))))))
      raw_capture_contract

-- One row of the table `checks`; the byte is `byte(value)` of a value in the range.
abbrev pub check_field : FpgaField → ℤ → ℕ → ℕ → Result ProtocolError ℕ
check_field field (negsuc _) minimum maximum = err (out_of_range field)
check_field field (pos n) minimum maximum =
    if ltb n minimum || ltb maximum n then err (out_of_range field) else ok (n % 256)

unfoldable pub build_fpga_config : FpgaConfig → Result ProtocolError (List ℕ)
build_fpga_config config = do
  a ← check_field log_mode config.log_mode 1 2
  b ← check_field lvds_mode config.lvds_mode 1 2
  c ← check_field transfer_mode config.transfer_mode 1 2
  d ← check_field capture_mode config.capture_mode 1 2
  e ← check_field data_format config.data_format 1 3
  f ← check_field timer config.timer 0 255
  ok (a ∷ b ∷ c ∷ d ∷ e ∷ f ∷ [])

abbrev pub record_packet_size : ℕ
record_packet_size = 1470

-- `uint16(delayMicroseconds * 125)`; the last two bytes are reserved.
unfoldable pub build_record_config : ℤ → Result ProtocolError (List ℕ)
build_record_config (negsuc _) = err packet_delay
build_record_config (pos delay) =
    if ltb delay 5 || ltb 500 delay
    then err packet_delay
    else ok (le_bytes 2 record_packet_size ++ (le_bytes 2 (delay * 125 % 65536) ++ (0 ∷ 0 ∷ [])))

pub record DataPacket : Type 0 where
  pub sequence : ℕ
  pub byte_offset : ℕ
  pub payload : List ℕ

-- `datagram[i]`, which is there for each index that is read below.
abbrev pub byte_at : Option ℕ → ℕ
byte_at none = 0
byte_at (some b) = b

-- The loop over the six bytes from index 4 on. Each is shifted behind all bits that are set so far,
-- so `|=` is a sum.
unfoldable pub offset_loop : ℕ → ℕ → List ℕ → ℕ → ℕ
offset_loop zero index datagram offset = offset
offset_loop (suc rounds) index datagram offset =
    offset_loop rounds (index + 1) datagram
      (offset + byte_at (get_elem? datagram (4 + index)) * 2 ^ (8 * index))

unfoldable pub parse_data_packet : List ℕ → Result ProtocolError DataPacket
parse_data_packet datagram = do
  reject_if (not (ltb data_header_size (length datagram))) datagram_empty
  reject_if (ltb maximum_data_payload_size (length datagram - data_header_size)) datagram_too_long
  ok (record {
    sequence = le_value (slice 0 4 datagram);
    byte_offset = offset_loop 6 0 datagram 0;
    payload = drop data_header_size datagram;
  })

pub record FpgaVersion : Type 0 where
  pub major : ℕ
  pub minor : ℕ
  pub playback : Bool

-- `& 0x7F` is `% 128`, `>> 7` is `/ 128`, and the test of bit 14 reads it as a digit.
unfoldable pub decode_fpga_version : ℕ → FpgaVersion
decode_fpga_version encoded = record {
  major = encoded % 128;
  minor = encoded / 128 % 128;
  playback = (encoded / 16384 % 2) != 0;
}

-- The bits 0, 1, 2, 6, 7 and 9, and the others up to 11.
abbrev pub system_status_fatal_mask : ℕ
system_status_fatal_mask = 711

abbrev pub system_status_benign_mask : ℕ
system_status_benign_mask = 3384

abbrev pub system_status_known_mask : ℕ
system_status_known_mask = 4095

-- `status &^ mask` clears the bits of the mask, so it is the difference.
unfoldable pub is_fatal_system_status : ℕ → Bool
is_fatal_system_status status =
    (status == 0)
    || ((bit_and status system_status_fatal_mask != 0)
        || ((status - bit_and status system_status_known_mask) != 0))
