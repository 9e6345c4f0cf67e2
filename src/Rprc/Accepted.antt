-- ===== src/Rprc/Accepted.antt =====
-- What an image that parseRPRC of internal/debugcapture/rprc.go accepts accounts for.
use mmwcli.Base.{
  ℕ, zero, suc, ◌+◌, ◌-◌, ◌%◌, ◌≤◌, ◌≡◌, refl, sym, ◌∙◌, List, [], ◌∷◌, ok, length, slice, drop,
  length-take, length-drop, le_value, arith, All, Result-cases, inl, inr,
}
use mmwcli.Rprc.{RprcSection, RprcImage, Scanned, scan_sections, parse_rprc}

-- What the loop has tested of a section.
abbrev pub IsScanned : RprcSection → Type 0
IsScanned section =
    (section.address % 4 ≡ 0)
    × (section.declared_size % 4 ≡ 0)
    × (length section.payload ≡ section.declared_size + section.declared_size % 8)

-- The bytes that sections take with their headers.
unfoldable pub text_size : List RprcSection → ℕ
text_size [] = 0
text_size (section ∷ sections) = 24 + length section.payload + text_size sections

scan_go :
    (left cursor : ℕ) (bytes : List ℕ) (scanned : Scanned)
    → scan_sections (suc left) cursor bytes ≡ ok scanned
    → (section : RprcSection) × (rest : Scanned) × IsScanned section
      × (scan_sections left (cursor + 24 + length section.payload) bytes ≡ ok rest)
      × (cursor + 24 + length section.payload ≤ length bytes)
      × (scanned.found ≡ section ∷ rest.found)
      × (scanned.cursor ≡ rest.cursor)
unfolding scan_sections
scan_go left cursor bytes scanned h =
    let header = slice cursor (cursor + 24) bytes in
    let declared_size : ℕ = le_value (slice 8 12 header) in
    let stop : ℕ = cursor + 24 + (declared_size + declared_size % 8) in
    let payload = slice (cursor + 24) stop bytes in
    let size = length-take (stop - (cursor + 24)) (drop (cursor + 24) bytes) in
    let behind = length-drop (cursor + 24) bytes in
    elim (Result-cases (scan_sections left stop bytes)) [
      | inr (e, more) ↦ absurd (ground arith)
      | inl (rest, more) ↦
          let inside : stop ≤ length bytes = ground arith in
          let exact : length payload ≡ declared_size + declared_size % 8 =
            omega (arith, size, behind) in
          (
            record {
              address = le_value (slice 0 8 header);
              declared_size = declared_size;
              payload = payload;
            },
            rest,
            (ground arith, ground arith, exact),
            rw exact more,
            omega (arith, exact),
            ground arith,
            ground arith,
          )
    ]

scan_sections-IsScanned :
    (left cursor : ℕ) (bytes : List ℕ) (scanned : Scanned)
    → cursor ≤ length bytes
    → scan_sections left cursor bytes ≡ ok scanned
    → All IsScanned scanned.found
      × (length scanned.found ≡ left)
      × (scanned.cursor ≡ cursor + text_size scanned.found)
unfolding text_size
scan_sections-IsScanned zero cursor bytes scanned inside h =
    let e : scanned ≡ record { found = []; cursor = cursor } =
      unfold scan_sections in ground arith in
    rw e (tt, refl, omega arith)
scan_sections-IsScanned (suc left) cursor bytes scanned inside h =
    let (section, rest, fits, more, within, found, at) = scan_go left cursor bytes scanned h in
    let (all, count, reached) =
      scan_sections-IsScanned left (cursor + 24 + length section.payload) bytes rest within more in
    rw (found, at) ((fits, all), omega (arith, count), omega (arith, reached))

parse_rprc_go :
    (bytes : List ℕ) (image : RprcImage)
    → parse_rprc bytes ≡ ok image
    → (scanned : Scanned) × (scan_sections (le_value (slice 12 16 bytes)) 24 bytes ≡ ok scanned)
      × (scanned.cursor ≡ length bytes)
      × (24 ≤ length bytes)
      × (image.sections ≡ scanned.found)
unfolding parse_rprc
parse_rprc_go bytes image h =
    elim (Result-cases (scan_sections (le_value (slice 12 16 bytes)) 24 bytes)) [
      | inr (e, s) ↦ absurd (ground arith)
      | inl (scanned, s) ↦ (scanned, s, ground arith, ground arith, ground arith)
    ]

-- Where parseRPRC accepts a text, the image has as many sections as the header says, the address and
-- the size of each are multiples of four, each payload has the size rounded up to a multiple of eight,
-- and the header, the sections' headers and the payloads make up the whole length of the text.
pub parse_rprc-IsScanned :
    (bytes : List ℕ) (image : RprcImage)
    → parse_rprc bytes ≡ ok image
    → All IsScanned image.sections
      × (length image.sections ≡ le_value (slice 12 16 bytes))
      × (24 + text_size image.sections ≡ length bytes)
parse_rprc-IsScanned bytes image h =
    let (scanned, s, whole, enough, found) = parse_rprc_go bytes image h in
    let (all, count, reached) =
      scan_sections-IsScanned (le_value (slice 12 16 bytes)) 24 bytes scanned enough s in
    rw found (all, count, sym reached ∙ whole)
