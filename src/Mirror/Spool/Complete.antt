-- ===== src/Mirror/Spool/Complete.antt =====
-- When a frame under assembly counts as complete.
use mmwcli.Base.{
  ℕ, suc, ◌+◌, ◌≤◌, ◌<◌, ◌≡◌, ◌↔◌, refl, true, false, ◌&&◌, ◌||◌, List, [], ◌∷◌, ◌++◌, leb, ◌==◌,
  length, take, drop, arith, ok, pos, length-append, length-take, length-drop, max,
}
use mmwcli.Coverage.{
  ByteRange, IsSeparated, SeparatedFrom, covers, covered_bytes, add_range, extent, meets_any,
}
use mmwcli.Coverage.Bytes.{covered_bytes-add_range}
use mmwcli.Coverage.Separated.{add_range-IsSeparated}
use mmwcli.Coverage.Extent.{extent-add_range, extent_floor}
use mmwcli.Coverage.Admission.{preflight_range_addition_exact}
use mmwcli.Mirror.Spool.{
  FrameSpool, new_frame_spool, copy_at, preflight, apply, is_whole, complete,
  max_mirror_ranges_per_frame,
}

-- What holds of a spool between two writes.
pub record IsSpool (frame : FrameSpool) : Type 0 where
  pub separated : IsSeparated frame.ranges
  pub counted : frame.covered ≡ covered_bytes frame.ranges
  pub inside : extent 0 frame.ranges ≤ length frame.payload
  pub bounded : length frame.ranges ≤ max_mirror_ranges_per_frame

pub new_frame_spool-IsSpool : (index frame_bytes : ℕ) → IsSpool (new_frame_spool index frame_bytes)
unfolding new_frame_spool covered_bytes extent
new_frame_spool-IsSpool index frame_bytes = record {
  separated = tt;
  counted = refl;
  inside = omega arith;
  bounded = omega arith;
}

-- What a range that `preflight` passes satisfies.
pub preflight-admits :
    (frame : FrameSpool) (start end : ℕ)
    → IsSpool frame
    → preflight frame (pos start) (pos end) ≡ ok tt
    → let addition : ByteRange = record { start = start; end = end } in
      (start < end)
      × (end ≤ length frame.payload)
      × (meets_any frame.ranges addition ≡ false)
      × (length (add_range frame.ranges addition) ≤ max_mirror_ranges_per_frame)
unfolding preflight
preflight-admits frame start end h p = ground (
  arith,
  preflight_range_addition_exact max_mirror_ranges_per_frame frame.ranges
      (record { start = start; end = end }),
)

length-copy_at :
    (start : ℕ) (bytes xs : List ℕ)
    → start + length bytes ≤ length xs
    → length (copy_at start bytes xs) ≡ length xs
unfolding copy_at
length-copy_at start bytes xs h = omega (
  arith,
  length-append (take start xs) (bytes ++ drop (start + length bytes) xs),
  length-append bytes (drop (start + length bytes) xs),
  length-take start xs,
  length-drop (start + length bytes) xs,
)

-- A write that `preflight` passed keeps a spool well formed (ranges apart, inside the frame and few
-- enough, the covered bytes counted) and keeps its size.
pub apply-IsSpool :
    (frame : FrameSpool) (start : ℕ) (bytes : List ℕ)
    → IsSpool frame
    → preflight frame (pos start) (pos (start + length bytes)) ≡ ok tt
    → IsSpool (apply frame start bytes)
      × (length (apply frame start bytes).payload ≡ length frame.payload)
unfolding apply
apply-IsSpool frame start bytes h p =
    let addition : ByteRange = record { start = start; end = start + length bytes } in
    let (full, within, apart, few) = preflight-admits frame start (start + length bytes) h p in
    let size = length-copy_at start bytes frame.payload within in
    (
      record {
        separated = add_range-IsSeparated frame.ranges addition full h.separated;
        counted = omega (
          arith,
          h.counted,
          covered_bytes-add_range frame.ranges addition full h.separated apart,
        );
        inside = omega (arith, size, h.inside, extent-add_range 0 frame.ranges addition);
        bounded = few;
      },
      size,
    )

covered_tail :
    (f : ℕ) (ranges : List ByteRange) (x : ℕ)
    → x < f
    → SeparatedFrom f ranges
    → covers ranges x ≡ false
unfolding covers
covered_tail f [] x l s = refl
covered_tail f (current ∷ ranges) x l (a, b, c) =
    ground (arith, covered_tail (suc current.end) ranges x)

-- Separated ranges that cover every byte below `size` and reach no further are the one range
-- [0, size).
whole_of_covers :
    (ranges : List ByteRange) (size : ℕ)
    → 0 < size
    → IsSeparated ranges
    → extent 0 ranges ≤ size
    → ((x : ℕ) → x < size → covers ranges x ≡ true)
    → is_whole ranges size ≡ true
unfolding is_whole extent covers
whole_of_covers [] size q s e all = cc (all 0 q)
whole_of_covers (only ∷ []) size q (a, b, c) e all = ground (arith, all 0 q, all only.end)
whole_of_covers (first ∷ second ∷ ranges) size q (a, b, (a', b', c)) e all = ground (
  arith,
  all first.end (omega (arith, extent_floor (max (max 0 first.end) second.end) ranges)),
  covered_tail (suc second.end) ranges first.end (omega arith) c,
)

covers_whole :
    (ranges : List ByteRange) (size : ℕ)
    → is_whole ranges size ≡ true
    → (x : ℕ) → x < size
    → covers ranges x ≡ true
unfolding is_whole covers
covers_whole [] size h x l = cc
covers_whole (only ∷ []) size h x l = ground arith
covers_whole (first ∷ second ∷ ranges) size h x l = cc

covered_whole :
    (ranges : List ByteRange) (size : ℕ) → is_whole ranges size ≡ true → covered_bytes ranges ≡ size
unfolding is_whole covered_bytes
covered_whole [] size h = cc
covered_whole (only ∷ []) size h = ground arith
covered_whole (first ∷ second ∷ ranges) size h = cc

-- A well-formed spool of at least one byte is complete exactly where each of its bytes was written.
pub complete-iff-covered :
    (frame : FrameSpool)
    → IsSpool frame
    → 0 < length frame.payload
    → (complete frame ≡ true)
      ↔ ((x : ℕ) → (leb (length frame.payload) x || covers frame.ranges x) ≡ true)
unfolding complete
complete-iff-covered frame h q = (forth, back)
  where
    size : ℕ
    size = length frame.payload

    forth :
        (frame.covered == size && is_whole frame.ranges size) ≡ true
        → (x : ℕ) → (leb size x || covers frame.ranges x) ≡ true
    forth c x = ground (arith, covers_whole frame.ranges size (ground arith) x)

    back :
        ((x : ℕ) → (leb size x || covers frame.ranges x) ≡ true)
        → (frame.covered == size && is_whole frame.ranges size) ≡ true
    back all =
        let whole =
          whole_of_covers frame.ranges size q h.separated h.inside (λ x l. ground (arith, all x)) in
        ground (arith, whole, covered_whole frame.ranges size whole, h.counted)
