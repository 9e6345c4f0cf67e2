-- ===== src/Coverage/Examples.antt =====
-- addRange, its preflight and finalizeStats on two ranges.
use mmwcli.Base.{◌+◌, ◌≡◌, refl, ◌||◌, List, [], ◌∷◌, ok, err, arith, if◌then◌else◌, length, ltb}
use mmwcli.Coverage.{
  ByteRange, overlap, sparse_limit, add_range, preflight_range_addition, missing_bytes, IsSeparated,
  covers, in_range, covered_bytes, extent, meets_any,
}
use mmwcli.Coverage.Separated.{add_range-IsSeparated, covers-add_range}
use mmwcli.Coverage.Admission.{preflight_range_addition_exact}
use mmwcli.Coverage.Missing.{missing_bytes-covered}

abbrev two_ranges : List ByteRange
two_ranges = record { start = 0; end = 4 } ∷ record { start = 8; end = 12 } ∷ []

abbrev bridge : ByteRange
bridge = record { start = 4; end = 8 }

two_ranges-IsSeparated : IsSeparated two_ranges
two_ranges-IsSeparated = (omega arith, omega arith, (omega arith, omega arith, tt))

bridged : add_range two_ranges bridge ≡ record { start = 0; end = 12 } ∷ []
unfolding add_range
bridged = refl

overlapping : preflight_range_addition 4096 two_ranges (record { start = 3; end = 5 }) ≡ err overlap
unfolding preflight_range_addition
overlapping = refl

too_many :
    preflight_range_addition 2 two_ranges (record { start = 20; end = 21 }) ≡ err sparse_limit
unfolding preflight_range_addition
too_many = refl

add_range-IsSeparated_example : IsSeparated (add_range two_ranges bridge)
add_range-IsSeparated_example =
    add_range-IsSeparated two_ranges bridge (omega arith) two_ranges-IsSeparated

covers-add_range_example :
    covers (add_range two_ranges bridge) 5 ≡ (in_range bridge 5 || covers two_ranges 5)
covers-add_range_example = covers-add_range two_ranges bridge 5 two_ranges-IsSeparated

preflight_range_addition_exact_example : preflight_range_addition 1 two_ranges bridge ≡ (
    if meets_any two_ranges bridge
    then err overlap
    else if ltb 1 (length (add_range two_ranges bridge))
    then err sparse_limit
    else ok tt)
preflight_range_addition_exact_example =
    preflight_range_addition_exact 1 two_ranges bridge (omega arith) two_ranges-IsSeparated

missing_bytes-covered_example : missing_bytes two_ranges 14 + covered_bytes two_ranges ≡ 14
missing_bytes-covered_example =
    missing_bytes-covered two_ranges 14 two_ranges-IsSeparated (unfold extent in omega arith)
