-- ===== src/Dca/Protocol/Status.antt =====
-- Which status words of the FPGA stop a capture.
use mmwcli.Base.{
  ℕ, ◌<◌, ◌≡◌, ◌≢◌, ◌↔◌, refl, Bool, true, false, ◌&&◌, ◌==◌, ◌!=◌, not, arith, passes_below,
  passes_below_each,
}
use mmwcli.Dca.Protocol.{is_fatal_system_status, system_status_benign_mask}
use Prim.Native.Nat.{bit_and}

abbrev same : Bool → Bool → Bool
same true b = b
same false b = not b

-- Some bit is set, and only bits of the benign mask are.
abbrev is_benign : ℕ → Bool
is_benign status = (status != 0) && (bit_and status system_status_benign_mask == status)

abbrev agrees : ℕ → Bool
agrees status = same (is_fatal_system_status status) (not (is_benign status))

status_table : passes_below agrees 65536 ≡ true
unfolding passes_below is_fatal_system_status
status_table = refl

-- A uint16 status is not fatal exactly where some bit is set and every bit that is set is one of the
-- benign ones: unknown bits and the empty status are fatal.
pub benign_status :
    (status : ℕ)
    → status < 65536
    → (is_fatal_system_status status ≡ false)
      ↔ ((status ≢ 0) × (bit_and status system_status_benign_mask ≡ status))
benign_status status h =
    let row : agrees status ≡ true = passes_below_each agrees 65536 h status_table in
    ground (arith, row)
