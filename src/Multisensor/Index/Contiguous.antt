-- ===== src/Multisensor/Index/Contiguous.antt =====
-- The entries of a valid index of internal/multisensor/index.go lie one behind the other.
use mmwcli.Base.{ℕ, ◌+◌, ◌≤◌, ◌<◌, ◌≡◌, List, [], ◌∷◌, ok, length, arith, Result-cases, inl, inr}
use mmwcli.Multisensor.Clock.{SourceLimits, checked_add}
use mmwcli.Multisensor.Index.{IndexEntry, SensorIndex, validate_entries, validate_index}

-- The entries from the item `item` and the payload offset `at` on are numbered one by one, none is empty
-- or above the limit, each begins where the one before it ended, and the last ends at `end`.
abbrev pub Contiguous : ℕ → ℕ → ℕ → ℕ → List IndexEntry → Type 0
Contiguous maximum item at end [] = at ≡ end
Contiguous maximum item at end (entry ∷ entries) =
    (entry.item_index ≡ item)
    × (entry.payload_offset ≡ at)
    × (0 < entry.payload_size)
    × (entry.payload_size ≤ maximum)
    × (entry.flags ≡ 0)
    × (entry.reserved ≡ 0)
    × Contiguous maximum (item + 1) (at + entry.payload_size) end entries

validate_entries_go :
    (limits : SourceLimits) (payload_bytes item at : ℕ) (entry : IndexEntry)
    (entries : List IndexEntry) {end : ℕ}
    → validate_entries limits payload_bytes item at (entry ∷ entries) ≡ ok end
    → (entry.item_index ≡ item)
      × (entry.payload_offset ≡ at)
      × (0 < entry.payload_size)
      × (entry.payload_size ≤ limits.max_item_bytes)
      × (entry.flags ≡ 0)
      × (entry.reserved ≡ 0)
      × (validate_entries limits payload_bytes (item + 1) (at + entry.payload_size) entries
          ≡ ok end)
unfolding validate_entries checked_add
validate_entries_go limits payload_bytes item at entry entries h = ground arith

validate_entries-Contiguous :
    (limits : SourceLimits) (payload_bytes item at : ℕ) (entries : List IndexEntry) {end : ℕ}
    → validate_entries limits payload_bytes item at entries ≡ ok end
    → Contiguous limits.max_item_bytes item at end entries
validate_entries-Contiguous limits payload_bytes item at [] h =
    unfold validate_entries in ground arith
validate_entries-Contiguous limits payload_bytes item at (entry ∷ entries) h =
    let (numbered, begins, full, small, no_flags, no_reserved, rest) =
      validate_entries_go limits payload_bytes item at entry entries h in
    (
      numbered,
      begins,
      full,
      small,
      no_flags,
      no_reserved,
      validate_entries-Contiguous limits payload_bytes (item + 1) (at + entry.payload_size) entries
          rest,
    )

-- Where Validate passes, the entries are numbered from 0 on and cover the payload from its first byte
-- to its last without a gap or an overlap, in items within the limit; and there are no more items and
-- no more payload bytes than the limits allow.
pub validate_index-Contiguous :
    (index : SensorIndex) (limits : SourceLimits)
    → validate_index index limits ≡ ok tt
    → Contiguous limits.max_item_bytes 0 0 index.payload_bytes index.entries
      × (length index.entries ≤ limits.max_items)
      × (index.payload_bytes ≤ limits.max_payload_bytes)
unfolding validate_index
validate_index-Contiguous index limits h =
    elim (Result-cases (validate_entries limits index.payload_bytes 0 0 index.entries)) [
      | inr (e, v) ↦ absurd (ground arith)
      | inl (covered, v) ↦
          let all = validate_entries-Contiguous limits index.payload_bytes 0 0 index.entries v in
          let e : covered ≡ index.payload_bytes = ground arith in
          (rw e at all, ground arith, ground arith)
    ]
