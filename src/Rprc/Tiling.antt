-- ===== src/Rprc/Tiling.antt =====
-- The writes of a firmware image tile its sections, inside the memory of the target.
use mmwcli.Base.{
  ℕ, zero, suc, ◌+◌, ◌-◌, ◌^◌, ◌%◌, ◌≤◌, ◌<◌, ◌≡◌, inl, inr, refl, sym, min, List, [], ◌∷◌, ◌++◌,
  ltb, length, slice, drop, take-append-drop, length-take, length-drop, drop_all, drop-add, arith,
  Bool-cases, sub_self_left,
}
use mmwcli.Rprc.{RprcSection}
use mmwcli.Rprc.Memory.{MemoryWrite, max_memory_write_size, section_writes}

-- The bytes of the writes, one behind the other.
unfoldable pub joined : List MemoryWrite → List ℕ
joined [] = []
joined (w ∷ writes) = w.payload ++ joined writes

-- The bytes of the sections, one behind the other.
unfoldable pub section_bytes : List RprcSection → List ℕ
section_bytes [] = []
section_bytes (section ∷ sections) = section.payload ++ section_bytes sections

-- The writes belong to the section and follow each other from the address `at` on; none is empty or
-- longer than 4096 bytes.
abbrev pub Tiles : ℕ → ℕ → List MemoryWrite → Type 0
Tiles section at [] = Unit {0}
Tiles section at (w ∷ writes) =
    (w.section ≡ section)
    × (w.address ≡ at)
    × (0 < length w.payload)
    × (length w.payload ≤ max_memory_write_size)
    × Tiles section (at + length w.payload) writes

length-slice :
    (lo hi : ℕ) (bytes : List ℕ) → hi ≤ length bytes → length (slice lo hi bytes) ≡ hi - lo
length-slice lo hi bytes h =
    omega (arith, length-take (hi - lo) (drop lo bytes), length-drop lo bytes)

slice-drop :
    (lo n : ℕ) (bytes : List ℕ) → slice lo (lo + n) bytes ++ drop (lo + n) bytes ≡ drop lo bytes
slice-drop lo n bytes =
    rw (sub_self_left lo n (drop lo bytes), drop-add lo n bytes)
      (take-append-drop n (drop lo bytes))

section_writes_go :
    (fuel section address offset : ℕ) (bytes : List ℕ)
    → offset < length bytes
    → section_writes (suc fuel) section address offset bytes
      ≡ record {
        section = section;
        address = (address + offset) % 4294967296;
        payload = slice offset (min (offset + max_memory_write_size) (length bytes)) bytes;
      }
        ∷ section_writes fuel section address (offset + max_memory_write_size) bytes
unfolding section_writes
section_writes_go fuel section address offset bytes h = ground arith

section_writes_stop :
    (fuel section address offset : ℕ) (bytes : List ℕ)
    → length bytes ≤ offset
    → section_writes fuel section address offset bytes ≡ []
unfolding section_writes
section_writes_stop zero section address offset bytes h = refl
section_writes_stop (suc fuel) section address offset bytes h = ground arith

-- One round, of which `stop` is the end of its piece.
slice-Tiles :
    (section address offset stop : ℕ) (bytes : List ℕ) (rest : List MemoryWrite)
    → offset < stop
    → stop ≤ length bytes
    → stop ≤ offset + max_memory_write_size
    → address + length bytes ≤ 2 ^ 32
    → joined rest ≡ drop stop bytes
    → Tiles section (address + stop) rest
    → let w : MemoryWrite = record {
      section = section;
      address = (address + offset) % 4294967296;
      payload = slice offset stop bytes;
    } in
      (joined (w ∷ rest) ≡ drop offset bytes) × Tiles section (address + offset) (w ∷ rest)
unfolding joined
slice-Tiles section address offset stop bytes rest some_bytes inside short fits bytes_left tiles =
    let size = length-slice offset stop bytes inside in
    let at : offset + (stop - offset) ≡ stop = omega arith in
    (
      rw bytes_left (rw at at (slice-drop offset (stop - offset) bytes)),
      (refl, omega arith, omega (arith, size), omega (arith, size), rw (next size) tiles),
    )
  where
    next :
        length (slice offset stop bytes) ≡ stop - offset
        → address + offset + length (slice offset stop bytes) ≡ address + stop
    next size = omega arith

section_writes_from :
    (fuel section address offset : ℕ) (bytes : List ℕ)
    → address + length bytes ≤ 2 ^ 32
    → length bytes ≤ fuel + offset
    → (joined (section_writes fuel section address offset bytes) ≡ drop offset bytes)
      × Tiles section (address + offset) (section_writes fuel section address offset bytes)
section_writes_from zero section address offset bytes fits enough =
    unfold section_writes joined in (sym (drop_all offset bytes (omega arith)), tt)
section_writes_from (suc fuel) section address offset bytes fits enough =
    elim (Bool-cases (ltb offset (length bytes))) [
      | inr past ↦
          rw (section_writes_stop (suc fuel) section address offset bytes (ground arith))
            (unfold joined in (sym (drop_all offset bytes (ground arith)), tt))
      | inl more ↦
          rw (section_writes_go fuel section address offset bytes (ground arith))
            (elim (Bool-cases (ltb (offset + max_memory_write_size) (length bytes))) [
              | inl full ↦
                  let e : min (offset + max_memory_write_size) (length bytes)
                      ≡ offset + max_memory_write_size =
                    ground arith in
                  let (bytes_left, tiles) =
                    section_writes_from fuel section address (offset + max_memory_write_size) bytes
                      fits (omega arith) in
                  rw e (
                    slice-Tiles section address offset (offset + max_memory_write_size) bytes _
                      (omega arith) (ground arith) (omega arith) fits bytes_left tiles)
              | inr last ↦
                  let e : min (offset + max_memory_write_size) (length bytes) ≡ length bytes =
                    ground arith in
                  rw
                    (
                      e,
                      section_writes_stop fuel section address (offset + max_memory_write_size)
                          bytes (ground arith),
                    )
                    (slice-Tiles section address offset (length bytes) bytes [] (ground arith)
                      (omega arith) (ground arith) fits
                      (unfold joined in sym (drop_all (length bytes) bytes (omega arith))) tt)
            ])
    ]

-- The writes of a section that ends within 32 bits are its bytes in order, in pieces of 1 to 4096
-- bytes, each at the address where the one before it ended.
pub section_writes_lem :
    (section address : ℕ) (bytes : List ℕ)
    → address + length bytes ≤ 2 ^ 32
    → (joined (section_writes (length bytes) section address 0 bytes) ≡ bytes)
      × Tiles section address (section_writes (length bytes) section address 0 bytes)
section_writes_lem section address bytes fits =
    let (all, tiles) =
      section_writes_from (length bytes) section address 0 bytes fits (omega arith) in
    let e : address + 0 ≡ address = omega arith in (all, rw e at tiles)
