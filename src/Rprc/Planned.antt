-- ===== src/Rprc/Planned.antt =====
-- What planMemoryWrites of internal/debugcapture/rprc.go writes, and where.
use mmwcli.Base.{
  ℕ, ◌+◌, ◌^◌, ◌≤◌, ◌<◌, ◌≡◌, refl, sym, ap, ◌∙◌, Bool, true, false, ◌&&◌, ◌||◌, List, [], ◌∷◌,
  ◌++◌, leb, Result, ok, err, ◌>>=◌, length, length-append, All, All-append, append_assoc, arith,
}
use mmwcli.Rprc.{RprcSection, RprcError}
use mmwcli.Rprc.Memory.{
  RprcTarget, unknown, mss, bss, MemoryWrite, max_memory_write_size, map_range, map_section_address,
  section_writes, plan_sections, plan_memory_writes,
}
use mmwcli.Rprc.Tiling.{joined, section_bytes, Tiles, section_writes_lem}

-- The memory of a target, as the addresses that its writes may have.
unfoldable pub in_memory : RprcTarget → ℕ → ℕ → Bool
in_memory unknown start end = false
in_memory mss start end = leb end 0x180000 || (leb 0x8030000 start && leb end 0x80B0000)
in_memory bss start end =
    (leb 0x40000000 start && leb end 0x40200000) || (leb 0x41000000 start && leb end 0x41010000)

-- A section whose address maps lies within 32 bits, and so does the range that it maps to, which lies in
-- one of the two memories of the target.
pub map_section_address_window :
    (address size : ℕ) (target : RprcTarget) {mapped : ℕ}
    → map_section_address address size target ≡ ok mapped
    → (address + size ≤ 2 ^ 32)
      × (mapped + size ≤ 2 ^ 32)
      × (in_memory target mapped (mapped + size) ≡ true)
unfolding map_section_address map_range in_memory
map_section_address_window address size unknown h = ground arith
map_section_address_window address size mss h = ground arith
map_section_address_window address size bss h = ground arith

-- A write of 1 to 4096 bytes inside the memory of the target.
abbrev pub IsPlanned : RprcTarget → MemoryWrite → Type 0
IsPlanned target w =
    (0 < length w.payload)
    × (length w.payload ≤ max_memory_write_size)
    × (in_memory target w.address (w.address + length w.payload) ≡ true)

in_memory_part :
    (target : RprcTarget) (low high start end : ℕ)
    → in_memory target low high ≡ true
    → low ≤ start
    → start ≤ end
    → end ≤ high
    → in_memory target start end ≡ true
unfolding in_memory
in_memory_part unknown low high start end h a b c = cc
in_memory_part mss low high start end h a b c = ground arith
in_memory_part bss low high start end h a b c = ground arith

Tiles-IsPlanned :
    (target : RprcTarget) (section low high at : ℕ) (writes : List MemoryWrite)
    → in_memory target low high ≡ true
    → low ≤ at
    → at + length (joined writes) ≤ high
    → Tiles section at writes
    → All (IsPlanned target) writes
unfolding joined
Tiles-IsPlanned target section low high at [] h a b t = tt
Tiles-IsPlanned target section low high at (w ∷ writes) h a b (_, e, full, short, rest) =
    let size = length-append w.payload (joined writes) in
    (
      (
        full,
        short,
        in_memory_part target low high w.address (w.address + length w.payload) h (omega (arith, e))
            (omega arith) (omega (arith, e, size)),
      ),
      Tiles-IsPlanned target section low high (at + length w.payload) writes h (omega arith)
          (omega (arith, size)) rest,
    )

joined-append : (xs ys : List MemoryWrite) → joined (xs ++ ys) ≡ joined xs ++ joined ys
unfolding joined
joined-append [] ys = refl
joined-append (w ∷ xs) ys =
    ap (λ (r : List ℕ). w.payload ++ r) (joined-append xs ys)
    ∙ sym (append_assoc w.payload (joined xs) (joined ys))

planned_section :
    (mapping : Result RprcError ℕ) (more : Result RprcError (List MemoryWrite))
    (writes_at : ℕ → List MemoryWrite) {writes : List MemoryWrite}
    → (mapping >>= λ address. more >>= λ rest. ok (writes_at address ++ rest)) ≡ ok writes
    → (address : ℕ) × (rest : List MemoryWrite) × (mapping ≡ ok address)
      × (more ≡ ok rest)
      × (writes ≡ writes_at address ++ rest)
planned_section (ok address) (ok rest) writes_at h = (address, rest, refl, refl, ground arith)
planned_section (ok address) (err e) writes_at h = cc
planned_section (err e) more writes_at h = cc

plan_sections-IsPlanned :
    (index : ℕ) (sections : List RprcSection) (target : RprcTarget) {writes : List MemoryWrite}
    → plan_sections index sections target ≡ ok writes
    → (joined writes ≡ section_bytes sections) × All (IsPlanned target) writes
unfolding plan_sections joined section_bytes
plan_sections-IsPlanned index [] target {writes} h =
    let e : writes ≡ [] = ground arith in rw e (refl, tt)
plan_sections-IsPlanned index (section ∷ sections) target h =
    let (address, rest, mapped, more, made) =
      planned_section (map_section_address section.address (length section.payload) target)
        (plan_sections (index + 1) sections target)
        (λ address. section_writes (length section.payload) index address 0 section.payload) h in
    let (_, fits, inside) =
      map_section_address_window section.address (length section.payload) target mapped in
    let (bytes, tiles) = section_writes_lem index address section.payload fits in
    let (later_bytes, later) = plan_sections-IsPlanned (index + 1) sections target more in
    let mine = section_writes (length section.payload) index address 0 section.payload in
    rw made (
      joined-append mine rest ∙ (rw (bytes, later_bytes)),
      All-append (IsPlanned target) mine rest
          (Tiles-IsPlanned target index address (address + length section.payload) address mine
            inside (omega arith) (omega (arith, ap (λ (r : List ℕ). length r) bytes)) tiles)
          later,
    )

-- Where planMemoryWrites succeeds, its writes hold the bytes of all sections in order and no others,
-- and each is a write of 1 to 4096 bytes inside one of the memories of the target.
pub plan_memory_writes-IsPlanned :
    (sections : List RprcSection) (target : RprcTarget) (writes : List MemoryWrite)
    → plan_memory_writes sections target ≡ ok writes
    → (joined writes ≡ section_bytes sections) × All (IsPlanned target) writes
unfolding plan_memory_writes
plan_memory_writes-IsPlanned sections unknown writes h = cc
plan_memory_writes-IsPlanned sections mss writes h = plan_sections-IsPlanned 0 sections mss h
plan_memory_writes-IsPlanned sections bss writes h = plan_sections-IsPlanned 0 sections bss h
