-- ===== src/Rprc.antt =====
-- internal/debugcapture/rprc.go: the firmware images that a debug capture downloads into the radar.
-- Here parseRPRC; Memory has planMemoryWrites and mapSectionAddress.
-- A byte slice is a list of numbers below 256. Its length is an int, so the uint64 sums of offsets and
-- 33-bit sizes do not wrap.
pub mod Memory
pub mod Printed
pub mod Accepted
pub mod Tiling
pub mod Planned
mod Examples
use mmwcli.Base.{
  ℕ, zero, suc, ◌+◌, ◌-◌, ◌/◌, ◌%◌, Bool, List, [], ◌∷◌, ltb, ◌!=◌, Result, ok, err, ◌>>=◌, ◌>>◌,
  reject_if, length, slice, le_value,
}

abbrev pub rprc_magic : ℕ
rprc_magic = 0x43525052

abbrev pub rprc_header_size : ℕ
rprc_header_size = 24

abbrev pub rprc_section_header_size : ℕ
rprc_section_header_size = 24

pub data RprcError : Type 0 where
  header_truncated bad_magic table_truncated section_header_truncated : RprcError
  address_unaligned size_unaligned payload_truncated trailing_data : RprcError
  unknown_target outside_address_space outside_memory mapped_outside_address_space : RprcError

pub record RprcSection : Type 0 where
  pub address : ℕ
  pub declared_size : ℕ
  pub payload : List ℕ  -- the field `data`

pub record RprcImage : Type 0 where
  pub first_entry : ℕ
  pub second_entry : ℕ
  pub version : ℕ
  pub sections : List RprcSection

-- The sections that a loop has read, and the cursor behind them.
pub record Scanned : Type 0 where
  pub found : List RprcSection
  pub cursor : ℕ

-- The loop over the sections, with the number that are left.
unfoldable pub scan_sections : ℕ → ℕ → List ℕ → Result RprcError Scanned
scan_sections zero cursor bytes = ok (record { found = []; cursor = cursor })
scan_sections (suc left) cursor bytes = do
  let header_end = cursor + rprc_section_header_size
  reject_if (ltb (length bytes) header_end) section_header_truncated
  let header = slice cursor header_end bytes
  let address = le_value (slice 0 8 header)
  let declared_size = le_value (slice 8 12 header)
  reject_if ((address % 4) != 0) address_unaligned
  reject_if ((declared_size % 4) != 0) size_unaligned
  let payload_end = header_end + (declared_size + declared_size % 8)
  reject_if (ltb (length bytes) payload_end) payload_truncated
  rest ← scan_sections left payload_end bytes
  ok (record {
    found =
        record {
          address = address;
          declared_size = declared_size;
          payload = slice header_end payload_end bytes;
        }
        ∷ rest.found;
    cursor = rest.cursor;
  })

-- parseRPRC.
unfoldable pub parse_rprc : List ℕ → Result RprcError RprcImage
parse_rprc bytes = do
  reject_if (ltb (length bytes) rprc_header_size) header_truncated
  reject_if (le_value (slice 0 4 bytes) != rprc_magic) bad_magic
  let section_count = le_value (slice 12 16 bytes)
  reject_if (ltb ((length bytes - rprc_header_size) / rprc_section_header_size) section_count)
      table_truncated
  scanned ← scan_sections section_count rprc_header_size bytes
  reject_if (scanned.cursor != length bytes) trailing_data
  ok (record {
    first_entry = le_value (slice 4 8 bytes);
    second_entry = le_value (slice 8 12 bytes);
    version = le_value (slice 16 20 bytes);
    sections = scanned.found;
  })
