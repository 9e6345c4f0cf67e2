-- ===== src/Rprc/Memory.antt =====
-- planMemoryWrites and mapSectionAddress of internal/debugcapture/rprc.go.
use mmwcli.Base.{
  ℕ, zero, suc, ◌+◌, ◌-◌, ◌%◌, min, Bool, true, false, ◌&&◌, ◌||◌, List, [], ◌∷◌, ◌++◌, ltb, leb,
  Result, ok, err, ◌>>=◌, ◌>>◌, reject_if, length, slice, if◌then◌else◌,
}
use mmwcli.Rprc.{
  RprcError, unknown_target, outside_address_space, outside_memory, mapped_outside_address_space,
  RprcSection,
}

abbrev pub max_memory_write_size : ℕ
max_memory_write_size = 4096

abbrev pub mss_low_address_end : ℕ
mss_low_address_end = 0x00180000

abbrev pub mss_high_address_base : ℕ
mss_high_address_base = 0x08030000

abbrev pub mss_high_address_end : ℕ
mss_high_address_end = 0x080B0000

abbrev pub bss_low_address_end : ℕ
bss_low_address_end = 0x00200000

abbrev pub bss_high_address_base : ℕ
bss_high_address_base = 0x08000000

abbrev pub bss_high_address_end : ℕ
bss_high_address_end = 0x08010000

abbrev pub bss_low_address_add : ℕ
bss_low_address_add = 0x40000000

abbrev pub bss_high_address_add : ℕ
bss_high_address_add = 0x39000000

-- math.MaxUint32.
abbrev pub max_uint32 : ℕ
max_uint32 = 4294967295

pub data RprcTarget : Type 0 where
  unknown mss bss : RprcTarget

pub record MemoryWrite : Type 0 where
  pub section : ℕ
  pub address : ℕ
  pub payload : List ℕ  -- the field `data`

-- The switch on the target, for the range [address, end).
unfoldable pub map_range : RprcTarget → ℕ → ℕ → Result RprcError ℕ
map_range unknown address end = err unknown_target
map_range mss address end =
    if (leb mss_high_address_base address && leb end mss_high_address_end)
      || (ltb address bss_high_address_base && leb end mss_low_address_end)
    then ok address
    else err outside_memory
map_range bss address end =
    if leb bss_high_address_base address && leb end bss_high_address_end
    then ok (address + bss_high_address_add)
    else if leb end bss_low_address_end
    then ok (address + bss_low_address_add)
    else err outside_memory

-- The test that [address, address + size) ends within 32 bits, with the difference written as it
-- stands behind the first test.
abbrev pub exceeds_32_bits : ℕ → ℕ → Bool
exceeds_32_bits address size = ltb max_uint32 address || ltb (max_uint32 + 1 - address) size

unfoldable pub map_section_address : ℕ → ℕ → RprcTarget → Result RprcError ℕ
unfolding map_range
map_section_address address size target = do
  reject_if (exceeds_32_bits address size) outside_address_space
  mapped ← map_range target address (address + size)
  reject_if (exceeds_32_bits mapped size) mapped_outside_address_space
  ok mapped

-- The loop over the offsets of one section. Each round goes on by 4096 bytes, so a round for each byte
-- is more than enough (see Tiling).
unfoldable pub section_writes : ℕ → ℕ → ℕ → ℕ → List ℕ → List MemoryWrite
section_writes zero section address offset bytes = []
section_writes (suc fuel) section address offset bytes =
    let rest = section_writes fuel section address (offset + max_memory_write_size) bytes in
    if ltb offset (length bytes)
    then record {
      section = section;
      address = (address + offset) % 4294967296;
      payload = slice offset (min (offset + max_memory_write_size) (length bytes)) bytes;
    }
      ∷ rest
    else []

-- The loop over the sections, from the section `index` on.
unfoldable pub plan_sections :
    ℕ → List RprcSection → RprcTarget → Result RprcError (List MemoryWrite)
unfolding map_section_address section_writes
plan_sections index [] target = ok []
plan_sections index (section ∷ sections) target = do
  address ← map_section_address section.address (length section.payload) target
  rest ← plan_sections (index + 1) sections target
  ok (section_writes (length section.payload) index address 0 section.payload ++ rest)

abbrev pub is_unknown : RprcTarget → Bool
is_unknown unknown = true
is_unknown _ = false

-- planMemoryWrites.
unfoldable pub plan_memory_writes :
    List RprcSection → RprcTarget → Result RprcError (List MemoryWrite)
unfolding plan_sections
plan_memory_writes sections target = do
  reject_if (is_unknown target) unknown_target
  plan_sections 0 sections target
