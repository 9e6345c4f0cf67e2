-- ===== src/Mirror/Spool.antt =====
-- frameSpool of internal/capturestream/coverage.go: one frame under assembly.
pub mod Complete
use mmwcli.Base.{
  ℕ, ◌+◌, ◌<◌, Bool, true, false, ◌&&◌, ◌||◌, List, [], ◌∷◌, ◌++◌, ltb, leb, ◌==◌, Result, ok, err,
  ◌>>=◌, ◌>>◌, reject_if, length, take, drop, replicate, ℤ, pos, negsuc,
}
use mmwcli.Coverage.{
  ByteRange, RangeError, overlap, sparse_limit, add_range, resulting_count,
  preflight_range_addition,
}
use mmwcli.Mirror.Errors.{MirrorError, invalid_range, range_overlap, range_limit}

abbrev pub max_mirror_ranges_per_frame : ℕ
max_mirror_ranges_per_frame = 256

pub record FrameSpool : Type 0 where
  pub index : ℕ
  pub payload : List ℕ  -- the field `data`
  pub ranges : List ByteRange
  pub covered : ℕ

unfoldable pub new_frame_spool : ℕ → ℕ → FrameSpool
new_frame_spool index frame_bytes = record {
  index = index;
  payload = replicate frame_bytes 0;
  ranges = [];
  covered = 0;
}

-- Go's `copy(xs[start:start+len(ys)], ys)`, for a range inside `xs`.
unfoldable pub copy_at : ℕ → List ℕ → List ℕ → List ℕ
copy_at start ys xs = take start xs ++ (ys ++ drop (start + length ys) xs)

abbrev pub range_error : Result RangeError (Unit {0}) → Result MirrorError (Unit {0})
range_error (ok u) = ok u
range_error (err overlap) = err range_overlap
range_error (err sparse_limit) = err range_limit

-- The loop of `preflight` is that of preflightRangeAddition at its own limit.
unfoldable pub preflight : FrameSpool → ℤ → ℤ → Result MirrorError (Unit {0})
unfolding preflight_range_addition
preflight frame (negsuc _) end = err invalid_range
preflight frame (pos start) (negsuc _) = err invalid_range
preflight frame (pos start) (pos end) = do
  reject_if (leb end start || ltb (length frame.payload) end) invalid_range
  range_error (
      preflight_range_addition max_mirror_ranges_per_frame frame.ranges
        (record { start = start; end = end }))

unfoldable pub apply : FrameSpool → ℕ → List ℕ → FrameSpool
unfolding copy_at
apply frame start bytes = record frame {
  payload = copy_at start bytes frame.payload;
  ranges = add_range frame.ranges (record { start = start; end = start + length bytes });
  covered = frame.covered + length bytes;
}

-- `len(ranges) == 1 && ranges[0].start == 0 && ranges[0].end == len(data)`.
unfoldable pub is_whole : List ByteRange → ℕ → Bool
is_whole [] size = false
is_whole (only ∷ []) size = only.start == 0 && only.end == size
is_whole (first ∷ second ∷ ranges) size = false

unfoldable pub complete : FrameSpool → Bool
unfolding is_whole
complete frame =
    frame.covered == length frame.payload && is_whole frame.ranges (length frame.payload)
