-- ===== src/SensorStream/Model.antt =====
-- The contract of a stream's session, of internal/multisensorstream/model.go. A string is the list of its
-- bytes; utf8.ValidString is a parameter.
pub mod Leaf
use mmwcli.Base.{
  ℕ, zero, suc, ◌+◌, ◌-◌, ◌*◌, Bool, true, false, ◌||◌, ◌&&◌, not, List, [], ◌∷◌, ◌++◌, Option,
  none, some, ltb, leb, ◌==◌, ◌!=◌, Result, ok, err, ◌>>=◌, ◌>>◌, reject_if, length, drop,
  same_bytes, if◌then◌else◌,
}
use mmwcli.Multisensor.Clock.{
  SourceLimits, validate_limits, Clock, TimestampSemantics, frame_start, exposure_midpoint,
  delivery_observed, host_monotonic, other_semantics, unwrap_ticks, max_uint64,
}

-- The named values of SourceKind and SourceOutcome, and any other text.
pub data SourceKind : Type 0 where
  radar camera other_kind : SourceKind

pub data SourceOutcome : Type 0 where
  complete failed omitted other_outcome : SourceOutcome

pub data AbortReason : Type 0 where
  cancelled backpressure source_failed integrity_failed cleanup_failed publish_failed other_reason :
      AbortReason

pub record PayloadContract : Type 0 where
  pub filename : List ℕ
  pub format : List ℕ

pub record Source : Type 0 where
  pub source_id : List ℕ
  pub kind : SourceKind
  pub required : Bool
  pub payload : PayloadContract
  pub clock : Clock
  pub limits : SourceLimits

-- SynchronizationGrade is the one value that the stream has, or another text.
pub record Session : Type 0 where
  pub session_id : List ℕ
  pub is_software_barrier : Bool
  pub sources : List Source

pub data ContractError : Type 0 where
  session_id_invalid grade_unsupported source_count duplicate_source duplicate_clock : ContractError
  source_id_invalid limits_invalid leaf_size leaf_invalid leaf_is_index format_invalid
        clock_id_invalid clock_rate :
      ContractError
  radar_semantics delivery_clock camera_semantics kind_unsupported : ContractError

abbrev pub max_sources : ℕ
max_sources = 32

abbrev pub max_artifact_path_bytes : ℕ
max_artifact_path_bytes = 128

abbrev pub max_session_json_bytes : ℕ
max_session_json_bytes = 1048576

abbrev pub is_lower : ℕ → Bool
is_lower c = leb 97 c && leb c 122

abbrev pub is_upper : ℕ → Bool
is_upper c = leb 65 c && leb c 90

abbrev pub is_digit : ℕ → Bool
is_digit c = leb 48 c && leb c 57

unfoldable pub all_bytes : (ℕ → Bool) → List ℕ → Bool
all_bytes test [] = true
all_bytes test (c ∷ rest) = test c && all_bytes test rest

-- A pattern of one class of bytes and then up to `most` of another.
unfoldable pub matches : (ℕ → Bool) → (ℕ → Bool) → ℕ → List ℕ → Bool
unfolding all_bytes
matches first others most [] = false
matches first others most (c ∷ rest) = first c && (all_bytes others rest && leb (length rest) most)

-- sourceIDPattern, opaqueIDPattern and formatPattern.
unfoldable pub is_source_id : List ℕ → Bool
unfolding matches
is_source_id text = matches is_lower (λ c. is_lower c || (is_digit c || (c == 45))) 63 text

unfoldable pub is_opaque_id : List ℕ → Bool
unfolding matches
is_opaque_id text =
    matches (λ c. is_upper c || (is_lower c || is_digit c))
      (λ c.
        is_upper c
        || (is_lower c || (is_digit c || ((c == 46) || ((c == 95) || ((c == 58) || (c == 45)))))))
      127 text

unfoldable pub is_format : List ℕ → Bool
unfolding matches
is_format text =
    matches (λ c. is_lower c || is_digit c)
      (λ c. is_lower c || (is_digit c || ((c == 46) || ((c == 95) || (c == 45))))) 127 text

abbrev pub is_hex_digit : ℕ → Bool
is_hex_digit c = is_digit c || (leb 97 c && leb c 102)

-- What sessionIDPattern wants at each place: a hexadecimal digit, a dash, a "4" or one of "89ab".
pub data IdPart : Type 0 where
  hex dash four variant : IdPart

abbrev pub fits : IdPart → ℕ → Bool
fits hex c = is_hex_digit c
fits dash c = c == 45
fits four c = c == 52
fits variant c = (c == 56) || ((c == 57) || ((c == 97) || (c == 98)))

unfoldable pub fits_all : List IdPart → List ℕ → Bool
fits_all [] [] = true
fits_all [] (c ∷ text) = false
fits_all (part ∷ parts) [] = false
fits_all (part ∷ parts) (c ∷ text) = fits part c && fits_all parts text

abbrev pub uuid_parts : List IdPart
uuid_parts =
    hex
    ∷ (hex
        ∷ (hex
            ∷ (hex
                ∷ (hex
                    ∷ (hex
                        ∷ (hex
                            ∷ (hex
                                ∷ (dash
                                    ∷ (hex
                                        ∷ (hex
                                            ∷ (hex
                                                ∷ (hex
                                                    ∷ (dash
                                                        ∷ (four
                                                            ∷ (hex
                                                            ∷ (hex
                                                            ∷ (hex
                                                            ∷ (dash
                                                            ∷ (variant
                                                            ∷ (hex
                                                            ∷ (hex
                                                            ∷ (hex
                                                            ∷ (dash
                                                            ∷ (hex
                                                            ∷ (hex
                                                            ∷ (hex
                                                            ∷ (hex
                                                            ∷ (hex
                                                            ∷ (hex
                                                            ∷ (hex
                                                            ∷ (hex
                                                            ∷ (hex
                                                            ∷ (hex
                                                            ∷ (hex
                                                            ∷ (hex
                                                            ∷ [])))))))))))))))))))))))))))))))))))

unfoldable pub is_session_id : List ℕ → Bool
unfolding fits_all
is_session_id text = fits_all uuid_parts text

-- strings.ContainsAny of a text of ASCII.
unfoldable pub contains_any : List ℕ → List ℕ → Bool
contains_any [] set = false
contains_any (c ∷ rest) set = not (all_bytes (λ d. c != d) set) || contains_any rest set

-- The raw literal `/\\\x00` of validateLeaf: a slash, three backslashes, "x", "0" and "0".
abbrev pub leaf_separators : List ℕ
leaf_separators = 47 ∷ (92 ∷ (92 ∷ (92 ∷ (120 ∷ (48 ∷ (48 ∷ []))))))

-- ".part" and "index.bin".
abbrev pub part_suffix : List ℕ
part_suffix = 46 ∷ (112 ∷ (97 ∷ (114 ∷ (116 ∷ []))))

abbrev pub index_name : List ℕ
index_name = 105 ∷ (110 ∷ (100 ∷ (101 ∷ (120 ∷ (46 ∷ (98 ∷ (105 ∷ (110 ∷ []))))))))

-- strings.HasSuffix.
abbrev pub has_suffix : List ℕ → List ℕ → Bool
has_suffix text suffix =
    leb (length suffix) (length text) && same_bytes (drop (length text - length suffix) text) suffix

-- DeliveryObservedClockID: "-delivery-observed" behind the identifier.
unfoldable pub delivery_observed_clock_id : List ℕ → List ℕ
delivery_observed_clock_id source_id =
    source_id
    ++ (45
        ∷ (100
            ∷ (101
                ∷ (108
                    ∷ (105
                        ∷ (118
                            ∷ (101
                                ∷ (114
                                    ∷ (121
                                        ∷ (45
                                            ∷ (111
                                                ∷ (98
                                                    ∷ (115
                                                        ∷ (101
                                                            ∷ (114
                                                            ∷ (118
                                                            ∷ (101 ∷ (100 ∷ []))))))))))))))))))

-- The switches of validateSource on the timestamps of a radar and of a camera.
unfoldable pub validate_radar_clock : TimestampSemantics → Result ContractError (Unit {0})
validate_radar_clock frame_start = ok tt
validate_radar_clock _ = err radar_semantics

unfoldable pub validate_camera_clock :
    List ℕ → Clock → TimestampSemantics → Result ContractError (Unit {0})
validate_camera_clock source_id clock exposure_midpoint = ok tt
validate_camera_clock source_id clock delivery_observed =
    reject_if
      (not (same_bytes clock.clock_id (delivery_observed_clock_id source_id))
        || ((clock.tick_hz != 1000000000) || (clock.wrap_ticks != 0)))
      delivery_clock
validate_camera_clock source_id clock _ = err camera_semantics

unfoldable pub validate_kind : SourceKind → List ℕ → Clock → Result ContractError (Unit {0})
unfolding validate_radar_clock validate_camera_clock
validate_kind radar source_id clock = validate_radar_clock clock.timestamp_semantics
validate_kind camera source_id clock =
    validate_camera_clock source_id clock clock.timestamp_semantics
validate_kind other_kind source_id clock = err kind_unsupported

abbrev pub or_limits_invalid {ℓ} :
    {E : Type ℓ} → Result E (Unit {0}) → Result ContractError (Unit {0})
or_limits_invalid (ok u) = ok u
or_limits_invalid (err e) = err limits_invalid

abbrev pub knows : List ℕ → List (List ℕ) → Bool
knows text [] = false
knows text (known ∷ rest) = same_bytes text known || knows text rest

module _ (valid_utf8 : List ℕ → Bool) where
  unfoldable pub validate_leaf : List ℕ → Result ContractError (Unit {0})
  unfolding contains_any
  validate_leaf value = do
    reject_if
        ((length value == 0)
          || (ltb max_artifact_path_bytes (length value) || not (valid_utf8 value)))
        leaf_size
    reject_if
        (same_bytes value (46 ∷ [])
          || (same_bytes value (46 ∷ (46 ∷ []))
              || (contains_any value leaf_separators || has_suffix value part_suffix)))
        leaf_invalid

  unfoldable pub validate_source : Source → Result ContractError (Unit {0})
  unfolding validate_leaf validate_kind
  validate_source source = do
    reject_if (not (is_source_id source.source_id)) source_id_invalid
    or_limits_invalid (validate_limits source.limits)
    validate_leaf source.payload.filename
    reject_if (same_bytes source.payload.filename index_name) leaf_is_index
    reject_if (not (is_format source.payload.format)) format_invalid
    reject_if (not (is_opaque_id source.clock.clock_id)) clock_id_invalid
    reject_if ((source.clock.tick_hz == 0) || (source.clock.wrap_ticks == 1)) clock_rate
    validate_kind source.kind source.source_id source.clock

  -- The loop of validateSession, with the identifiers and the clocks that it has seen.
  unfoldable pub validate_sources :
      List (List ℕ) → List (List ℕ) → List Source → Result ContractError (Unit {0})
  unfolding validate_source
  validate_sources identifiers clock_ids [] = ok tt
  validate_sources identifiers clock_ids (source ∷ sources) = do
    validate_source source
    reject_if (knows source.source_id identifiers) duplicate_source
    reject_if (knows source.clock.clock_id clock_ids) duplicate_clock
    validate_sources (source.source_id ∷ identifiers) (source.clock.clock_id ∷ clock_ids) sources

  unfoldable pub validate_session : Session → Result ContractError (Unit {0})
  unfolding validate_sources
  validate_session session = do
    reject_if (not (is_session_id session.session_id)) session_id_invalid
    reject_if (not session.is_software_barrier) grade_unsupported
    reject_if ((length session.sources == 0) || ltb max_sources (length session.sources))
        source_count
    validate_sources [] [] session.sources

unfoldable pub is_abort_reason : AbortReason → Bool
is_abort_reason other_reason = false
is_abort_reason _ = true

unfoldable pub is_outcome : SourceOutcome → Bool
is_outcome other_outcome = false
is_outcome _ = true

-- checkedItemTime, with the unwrapped tick.
abbrev pub fits_duration : ℕ → ℕ → Bool
fits_duration unwrapped duration = leb duration (max_uint64 - unwrapped)

unfoldable pub checked_item_time : Clock → ℕ → ℕ → ℕ → Bool
unfolding unwrap_ticks
checked_item_time clock tick wrap_count duration = elim (unwrap_ticks clock tick wrap_count) [
  | err e ↦ false
  | ok unwrapped ↦ fits_duration unwrapped duration
]
