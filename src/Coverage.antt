-- ===== src/Coverage.antt =====
-- The sorted byte ranges that internal/dca/receiver.go (addRange, preflightRangeAddition,
-- finalizeStats) and internal/capturestream/coverage.go (addCoverageRange, preflight) keep of what
-- was written. The two files hold the same two loops over their own range types.
-- Offsets are int64 in the code and never negative where these functions run, so they are ℕ here.
pub mod Separated
pub mod Bytes
pub mod Admission
pub mod Extent
pub mod Missing
mod Examples
use mmwcli.Base.{
  ℕ, suc, ◌+◌, ◌-◌, ◌≤◌, ◌<◌, Bool, true, false, ◌&&◌, ◌||◌, List, [], ◌∷◌, ltb, leb, if◌then◌else◌,
  Result, ok, err, ◌>>=◌, ◌>>◌, reject_if, length, min, max,
}

-- The half-open range [start, end).
pub record ByteRange : Type 0 where
  pub start : ℕ
  pub end : ℕ

pub data RangeError : Type 0 where
  overlap : RangeError
  sparse_limit : RangeError

-- The body of the second loop of `addRange`: the addition grows over a range that it meets.
unfoldable pub extend : ByteRange → ByteRange → ByteRange
extend current addition = record {
  start = if ltb current.start addition.start then current.start else addition.start;
  end = if ltb addition.end current.end then current.end else addition.end;
}

-- The second loop, from the first range that ends at or behind the start of the addition on, and
-- the insertion.
unfoldable pub absorb : List ByteRange → ByteRange → List ByteRange
unfolding extend
absorb [] addition = addition ∷ []
absorb (current ∷ ranges) addition =
    let merged = absorb ranges (extend current addition) in
    if leb current.start addition.end then merged else addition ∷ current ∷ ranges

-- The first loop skips the ranges that end in front of the addition.
unfoldable pub add_range : List ByteRange → ByteRange → List ByteRange
unfolding absorb
add_range [] addition = addition ∷ []
add_range (current ∷ ranges) addition =
    let skipped = current ∷ add_range ranges addition in
    if ltb current.end addition.start then skipped else absorb (current ∷ ranges) addition

-- The loop of `preflightRangeAddition` over `resultingCount`. It is at most the number of ranges
-- plus one, less one for each range, so the truncated `-` is exact.
unfoldable pub resulting_count : List ByteRange → ByteRange → ℕ → Result RangeError ℕ
resulting_count [] addition count = ok count
resulting_count (current ∷ ranges) addition count =
    let skipped = resulting_count ranges addition count in
    let merged = resulting_count ranges addition (count - 1) in
    if ltb current.end addition.start
    then skipped
    else if ltb addition.end current.start
    then ok count
    else if ltb addition.start current.end && ltb current.start addition.end
    then err overlap
    else merged

unfoldable pub preflight_range_addition :
    ℕ → List ByteRange → ByteRange → Result RangeError (Unit {0})
unfolding resulting_count
preflight_range_addition limit ranges addition = do
  count ← resulting_count ranges addition (length ranges + 1)
  reject_if (ltb limit count) sparse_limit

-- The loop of `finalizeStats` and the test behind it, with `coveredUntil` and `missing`.
unfoldable pub missing_from : List ByteRange → ℕ → ℕ → ℕ → ℕ
missing_from [] highest covered_until missing =
    if ltb covered_until highest then missing + (highest - covered_until) else missing
missing_from (current ∷ ranges) highest covered_until missing =
    missing_from ranges highest
      (if ltb covered_until current.end then current.end else covered_until)
      (if ltb covered_until current.start
        then missing + (current.start - covered_until)
        else missing)

unfoldable pub missing_bytes : List ByteRange → ℕ → ℕ
unfolding missing_from
missing_bytes ranges highest = missing_from ranges highest 0 0

-- How the ranges are read.

-- The ranges lie at `floor` or behind it, none is empty, and a gap stands between any two.
abbrev pub SeparatedFrom : ℕ → List ByteRange → Type 0
SeparatedFrom floor [] = Unit {0}
SeparatedFrom floor (current ∷ ranges) =
    (floor ≤ current.start) × (current.start < current.end) × SeparatedFrom (suc current.end) ranges

abbrev pub IsSeparated : List ByteRange → Type 0
IsSeparated = SeparatedFrom 0

abbrev pub in_range : ByteRange → ℕ → Bool
in_range current x = leb current.start x && ltb x current.end

-- The byte at offset `x` lies in one of the ranges.
unfoldable pub covers : List ByteRange → ℕ → Bool
covers [] x = false
covers (current ∷ ranges) x = in_range current x || covers ranges x

unfoldable pub covered_bytes : List ByteRange → ℕ
covered_bytes [] = 0
covered_bytes (current ∷ ranges) = (current.end - current.start) + covered_bytes ranges

-- The two ranges share a byte, where neither is empty.
abbrev pub meets : ByteRange → ByteRange → Bool
meets current addition = ltb (max current.start addition.start) (min current.end addition.end)

unfoldable pub meets_any : List ByteRange → ByteRange → Bool
meets_any [] addition = false
meets_any (current ∷ ranges) addition = meets current addition || meets_any ranges addition

-- The end of the last range: the extent of what was written.
unfoldable pub extent : ℕ → List ByteRange → ℕ
extent floor [] = floor
extent floor (current ∷ ranges) = extent (max floor current.end) ranges
