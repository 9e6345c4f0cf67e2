-- ===== src/Rprc/Examples.antt =====
-- An image of one section of eight bytes, for the main subsystem of the radar.
use mmwcli.Base.{
  le_value, slice, ◌+◌, ◌^◌, ◌≤◌, ◌≡◌, refl, true, List, [], ◌∷◌, ok, length, All, arith,
}
use mmwcli.Rprc.{RprcSection, RprcImage, parse_rprc}
use mmwcli.Rprc.Memory.{
  bss, mss, MemoryWrite, map_section_address, map_range, section_writes, plan_sections,
  plan_memory_writes,
}
use mmwcli.Rprc.Tiling.{joined, section_bytes, Tiles, section_writes_lem}
use mmwcli.Rprc.Planned.{
  in_memory, IsPlanned, map_section_address_window, plan_memory_writes-IsPlanned,
}
use mmwcli.Rprc.Accepted.{IsScanned, text_size, parse_rprc-IsScanned}
use mmwcli.Rprc.Printed.{print_rprc, IsSection, IsImage, parse_rprc-print_rprc}

abbrev one_section : RprcSection
one_section = record {
  address = 0x100;
  declared_size = 4;
  payload = 1 ∷ 2 ∷ 3 ∷ 4 ∷ 0 ∷ 0 ∷ 0 ∷ 0 ∷ [];
}

abbrev one_image : RprcImage
one_image = record {
  first_entry = 0x100;
  second_entry = 0;
  version = 1;
  sections = one_section ∷ [];
}

one_section-IsSection : IsSection one_section
one_section-IsSection = record {
  address_fits = omega arith;
  size_fits = omega arith;
  address_aligned = refl;
  size_aligned = refl;
  padded = refl;
}

one_image-IsImage : IsImage one_image
one_image-IsImage = record {
  first_fits = omega arith;
  second_fits = omega arith;
  version_fits = omega arith;
  count_fits = omega arith;
  sections_fit = (one_section-IsSection, tt);
}

parse_rprc-print_rprc_example : parse_rprc (print_rprc one_image) ≡ ok one_image
parse_rprc-print_rprc_example = parse_rprc-print_rprc one_image one_image-IsImage

mapped : map_section_address 0x100 8 bss ≡ ok 0x40000100
unfolding map_section_address map_range
mapped = refl

map_section_address_window_example :
    (0x100 + 8 ≤ 2 ^ 32)
    × (0x40000100 + 8 ≤ 2 ^ 32)
    × (in_memory bss 0x40000100 (0x40000100 + 8) ≡ true)
map_section_address_window_example = map_section_address_window 0x100 8 bss mapped

section_writes_lem_example :
    (joined (section_writes 8 0 0x100 0 one_section.payload) ≡ one_section.payload)
    × Tiles 0 0x100 (section_writes 8 0 0x100 0 one_section.payload)
section_writes_lem_example = section_writes_lem 0 0x100 one_section.payload (omega arith)

abbrev one_write : List MemoryWrite
one_write = record { section = 0; address = 0x100; payload = one_section.payload } ∷ []

planned : plan_memory_writes (one_section ∷ []) mss ≡ ok one_write
unfolding plan_memory_writes plan_sections map_section_address map_range section_writes
planned = refl

plan_memory_writes-IsPlanned_example :
    (joined one_write ≡ section_bytes (one_section ∷ [])) × All (IsPlanned mss) one_write
plan_memory_writes-IsPlanned_example =
    plan_memory_writes-IsPlanned (one_section ∷ []) mss one_write planned

one_image-parsed : parse_rprc (print_rprc one_image) ≡ ok one_image
one_image-parsed = parse_rprc-print_rprc one_image one_image-IsImage

parse_rprc-IsScanned_example :
    All IsScanned one_image.sections
    × (length one_image.sections ≡ le_value (slice 12 16 (print_rprc one_image)))
    × (24 + text_size one_image.sections ≡ length (print_rprc one_image))
parse_rprc-IsScanned_example =
    parse_rprc-IsScanned (print_rprc one_image) one_image one_image-parsed
