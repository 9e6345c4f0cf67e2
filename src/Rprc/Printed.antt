-- ===== src/Rprc/Printed.antt =====
-- parseRPRC of internal/debugcapture/rprc.go reads back the image that its layout prints.
use mmwcli.Base.{
  slice-append, ℕ, suc, ◌+◌, ◌*◌, ◌^◌, ◌%◌, ◌≤◌, ◌<◌, ◌≡◌, refl, sym, List, [], ◌∷◌, ◌++◌, ok,
  length, slice, length-append, append_assoc, append-nil, le_bytes, le_value, le_value-le_bytes,
  arith, All,
}
use mmwcli.Rprc.{RprcSection, RprcImage, Scanned, scan_sections, parse_rprc, rprc_magic}

-- A section: eight bytes of address, four of size, twelve that are not read, and the payload.
unfoldable pub print_section : RprcSection → List ℕ
print_section section =
    (le_bytes 8 section.address ++ (le_bytes 4 section.declared_size ++ le_bytes 12 0))
    ++ section.payload

unfoldable pub print_sections : List RprcSection → List ℕ
print_sections [] = []
print_sections (section ∷ sections) = print_section section ++ print_sections sections

-- The header: the magic, the two entry points, the number of sections, the version, and four bytes
-- that are not read.
unfoldable pub print_header : RprcImage → List ℕ
print_header image =
    le_bytes 4 rprc_magic
    ++ (le_bytes 4 image.first_entry
        ++ (le_bytes 4 image.second_entry
            ++ (le_bytes 4 (length image.sections) ++ (le_bytes 4 image.version ++ le_bytes 4 0))))

unfoldable pub print_rprc : RprcImage → List ℕ
print_rprc image = print_header image ++ print_sections image.sections

-- The numbers fit their fields, address and size are multiples of four, and the payload has the size
-- rounded up to a multiple of eight.
pub record IsSection (section : RprcSection) : Type 0 where
  pub address_fits : section.address < 2 ^ 64
  pub size_fits : section.declared_size < 2 ^ 32
  pub address_aligned : section.address % 4 ≡ 0
  pub size_aligned : section.declared_size % 4 ≡ 0
  pub padded : length section.payload ≡ section.declared_size + section.declared_size % 8

pub record IsImage (image : RprcImage) : Type 0 where
  pub first_fits : image.first_entry < 2 ^ 32
  pub second_fits : image.second_entry < 2 ^ 32
  pub version_fits : image.version < 2 ^ 32
  pub count_fits : length image.sections < 2 ^ 32
  pub sections_fit : All IsSection image.sections

section_head : RprcSection → List ℕ
section_head section =
    le_bytes 8 section.address ++ (le_bytes 4 section.declared_size ++ le_bytes 12 0)

length-section_head : (section : RprcSection) → length (section_head section) ≡ 24
unfolding section_head le_bytes
length-section_head section = refl

section_head-address :
    (section : RprcSection)
    → section.address < 2 ^ 64
    → le_value (slice 0 8 (section_head section)) ≡ section.address
unfolding section_head le_bytes
section_head-address section h = le_value-le_bytes 8 section.address h

section_head-size :
    (section : RprcSection)
    → section.declared_size < 2 ^ 32
    → le_value (slice 8 12 (section_head section)) ≡ section.declared_size
unfolding section_head le_bytes
section_head-size section h = le_value-le_bytes 4 section.declared_size h

stored_size : RprcSection → ℕ
stored_size section = section.declared_size + section.declared_size % 8

-- One round of the loop, at a section that stands in the text.
scan_step :
    (left cursor : ℕ) (bytes : List ℕ) (section : RprcSection) {rest : Scanned}
    → IsSection section
    → slice cursor (cursor + 24) bytes ≡ section_head section
    → slice (cursor + 24) (cursor + 24 + stored_size section) bytes ≡ section.payload
    → cursor + 24 + stored_size section ≤ length bytes
    → scan_sections left (cursor + 24 + stored_size section) bytes ≡ ok rest
    → scan_sections (suc left) cursor bytes
      ≡ ok (record { found = section ∷ rest.found; cursor = rest.cursor })
unfolding scan_sections stored_size
scan_step left cursor bytes section {rest} fits head payload inside more =
    rw
      (
        scan_sections,
        head,
        section_head-address section fits.address_fits,
        section_head-size section fits.size_fits,
        payload,
        more,
      )
      (ground (arith, fits.address_aligned, fits.size_aligned, inside))

-- The text of a section behind `front`, with what stands around it.
section_placed :
    (front : List ℕ) (section : RprcSection) (back : List ℕ)
    → length section.payload ≡ stored_size section
    → let bytes = front ++ (print_section section ++ back) in
      (slice (length front) (length front + 24) bytes ≡ section_head section)
      × (slice (length front + 24) (length front + 24 + stored_size section) bytes
          ≡ section.payload)
      × (length front + 24 + stored_size section ≤ length bytes)
unfolding print_section section_head
section_placed front section back size =
    let head = section_head section in
    let n = length-section_head section in
    let outer = append_assoc head section.payload back in
    let inner = append_assoc front head (section.payload ++ back) in
    let long = length-append front head in
    (
      rw outer (slice-append front head (section.payload ++ back) refl (omega (arith, n))),
      rw (outer, ← inner)
          (slice-append (front ++ head) section.payload back (omega (arith, n, long))
            (omega (arith, n, long, size))),
      rw outer (
          omega (
            arith,
            n,
            size,
            length-append front (head ++ (section.payload ++ back)),
            length-append head (section.payload ++ back),
            length-append section.payload back,
          )),
    )

length-print_section :
    (section : RprcSection)
    → length section.payload ≡ stored_size section
    → length (print_section section) ≡ 24 + stored_size section
unfolding print_section section_head
length-print_section section size =
    omega (
      arith,
      size,
      length-section_head section,
      length-append (section_head section) section.payload,
    )

scan_sections-print_sections :
    (front : List ℕ) (sections : List RprcSection) (cursor : ℕ)
    → cursor ≡ length front
    → All IsSection sections
    → scan_sections (length sections) cursor (front ++ print_sections sections)
      ≡ ok (record { found = sections; cursor = length (front ++ print_sections sections) })
unfolding print_sections
scan_sections-print_sections front [] cursor at h =
    unfold scan_sections in rw (append-nil front, at) refl
scan_sections-print_sections front (section ∷ sections) cursor at (fits, h) =
    let back = print_sections sections in
    let size : length section.payload ≡ stored_size section = unfold stored_size in fits.padded in
    let (head, payload, inside) = section_placed front section back size in
    let behind = length-append front (print_section section) in
    let printed = length-print_section section size in
    let more =
      scan_sections-print_sections (front ++ print_section section) sections
        (length front + 24 + stored_size section) (omega (arith, behind, printed)) h in
    rw at (
      scan_step (length sections) (length front) (front ++ (print_section section ++ back)) section
        fits head payload inside (rw (append_assoc front (print_section section) back) at more))

length-print_sections :
    (sections : List RprcSection)
    → All IsSection sections
    → 24 * length sections ≤ length (print_sections sections)
unfolding print_sections stored_size
length-print_sections [] h = omega arith
length-print_sections (section ∷ sections) (fits, h) = omega (
  arith,
  length-print_sections sections h,
  length-print_section section fits.padded,
  length-append (print_section section) (print_sections sections),
)

-- The fields of the header, whatever stands behind it.
header_fields :
    (image : RprcImage) (back : List ℕ)
    → IsImage image
    → let bytes = print_header image ++ back in
      (le_value (slice 0 4 bytes) ≡ rprc_magic)
      × (le_value (slice 4 8 bytes) ≡ image.first_entry)
      × (le_value (slice 8 12 bytes) ≡ image.second_entry)
      × (le_value (slice 12 16 bytes) ≡ length image.sections)
      × (le_value (slice 16 20 bytes) ≡ image.version)
      × (length (print_header image) ≡ 24)
unfolding print_header le_bytes
header_fields image back h = (
  le_value-le_bytes 4 rprc_magic (omega arith),
  le_value-le_bytes 4 image.first_entry h.first_fits,
  le_value-le_bytes 4 image.second_entry h.second_fits,
  le_value-le_bytes 4 (length image.sections) h.count_fits,
  le_value-le_bytes 4 image.version h.version_fits,
  refl,
)

-- parseRPRC of the printed text of an image gives back the image, where its numbers fit their fields,
-- addresses and sizes are multiples of four and each payload has the size rounded up to a multiple of
-- eight.
pub parse_rprc-print_rprc :
    (image : RprcImage) → IsImage image → parse_rprc (print_rprc image) ≡ ok image
unfolding parse_rprc print_rprc
parse_rprc-print_rprc image h =
    let back = print_sections image.sections in
    let bytes = print_header image ++ back in
    let (magic, first, second, count, version, size) = header_fields image back h in
    let scanned =
      scan_sections-print_sections (print_header image) image.sections 24 (sym size)
        h.sections_fit in
    let long = length-append (print_header image) back in
    let many = length-print_sections image.sections h.sections_fit in
    rw (magic, first, second, count, version, scanned) (ground (arith, size, long, many))
