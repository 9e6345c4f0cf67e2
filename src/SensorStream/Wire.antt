-- ===== src/SensorStream/Wire.antt =====
-- The records of internal/multisensorstream/model.go and protocol.go, and what both ends keep of a stream.
-- JSON and SHA-256 come from Go's library and are parameters; a running hash is the list of the chunks that
-- were written to it. The schema and the outcome of a terminal record are one of the stream's or another text.
use mmwcli.Base.{
  ℕ, ◌+◌, ◌-◌, ◌%◌, Bool, true, false, ◌||◌, ◌&&◌, not, List, [], ◌∷◌, ◌++◌, Option, none, some,
  ltb, ◌==◌, Result, ok, err, reject_if, length, same_bytes, if◌then◌else◌,
}
use mmwcli.SensorStream.Model.{
  Source, Session, SourceKind, radar, SourceOutcome, complete, other_outcome, AbortReason,
  ContractError, max_session_json_bytes,
}
use mmwcli.SensorStream.Digest.{digest_string}

abbrev pub record_session : ℕ
record_session = 1

abbrev pub record_radar_config : ℕ
record_radar_config = 2

abbrev pub record_radar_start : ℕ
record_radar_start = 3

abbrev pub record_item : ℕ
record_item = 4

abbrev pub record_end : ℕ
record_end = 5

abbrev pub record_commit : ℕ
record_commit = 6

abbrev pub record_abort : ℕ
record_abort = 7

abbrev pub record_eof : ℕ
record_eof = 8

abbrev pub max_record_metadata_bytes : ℕ
max_record_metadata_bytes = 1048576

abbrev pub max_radar_config_bytes : ℕ
max_radar_config_bytes = 4194304

pub record Record : Type 0 where
  pub kind : ℕ
  pub record_seq : ℕ
  pub metadata : List ℕ
  pub payload : List ℕ

-- The uint64 of a sum and of a difference.
abbrev pub u64 : ℕ → ℕ
u64 n = n % 18446744073709551616

abbrev pub sub_u64 : ℕ → ℕ → ℕ
sub_u64 a b = (a + 18446744073709551616 - b) % 18446744073709551616

pub data Schema : Type 0 where
  session_v1 radar_config_v1 radar_start_v1 item_v1 end_v1 terminal_v1 eof_v1 other_schema : Schema

abbrev pub schema_code : Schema → ℕ
schema_code session_v1 = 0
schema_code radar_config_v1 = 1
schema_code radar_start_v1 = 2
schema_code item_v1 = 3
schema_code end_v1 = 4
schema_code terminal_v1 = 5
schema_code eof_v1 = 6
schema_code other_schema = 7

abbrev pub is_schema : Schema → Schema → Bool
is_schema a b = schema_code a == schema_code b

pub data TerminalOutcome : Type 0 where
  committed aborted other_terminal : TerminalOutcome

abbrev pub is_committed : TerminalOutcome → Bool
is_committed committed = true
is_committed _ = false

abbrev pub is_aborted : TerminalOutcome → Bool
is_aborted aborted = true
is_aborted _ = false

pub record SessionRecord : Type 0 where
  pub schema : Schema
  pub session : Session

pub record RadarConfigRecord : Type 0 where
  pub schema : Schema
  pub source_id : List ℕ
  pub format : List ℕ
  pub size_bytes : ℕ
  pub sha256 : List ℕ

pub record RadarStart : Type 0 where
  pub source_id : List ℕ
  pub host_lower_ns : ℕ
  pub host_upper_ns : ℕ

pub record RadarStartRecord : Type 0 where
  pub schema : Schema
  pub start : RadarStart

pub record Item : Type 0 where
  pub source_id : List ℕ
  pub item_index : ℕ
  pub tick : ℕ
  pub wrap_count : ℕ
  pub duration_ticks : ℕ
  pub sync_event_id : ℕ

-- The payload stands behind the metadata.
pub record ItemRecord : Type 0 where
  pub schema : Schema
  pub provisional : Bool
  pub item : Item

pub record EndRecord : Type 0 where
  pub schema : Schema
  pub source_id : List ℕ
  pub outcome : SourceOutcome
  pub item_count : ℕ
  pub payload_bytes : ℕ
  pub payload_sha256 : List ℕ

pub record SessionArtifact : Type 0 where
  pub size_bytes : ℕ
  pub sha256 : List ℕ

pub record CommitRecord : Type 0 where
  pub schema : Schema
  pub session_id : List ℕ
  pub outcome : TerminalOutcome
  pub size_bytes : ℕ
  pub sha256 : List ℕ

pub record AbortRecord : Type 0 where
  pub schema : Schema
  pub session_id : List ℕ
  pub outcome : TerminalOutcome
  pub reason : AbortReason

pub record EofRecord : Type 0 where
  pub schema : Schema
  pub session_id : List ℕ

-- json.Marshal, and decodeExactMetadata at each type of record.
pub record Json : Type 0 where
  pub encode_session : SessionRecord → Option (List ℕ)
  pub decode_session : List ℕ → Option SessionRecord
  pub encode_radar_config : RadarConfigRecord → Option (List ℕ)
  pub decode_radar_config : List ℕ → Option RadarConfigRecord
  pub encode_radar_start : RadarStartRecord → Option (List ℕ)
  pub decode_radar_start : List ℕ → Option RadarStartRecord
  pub encode_item : ItemRecord → Option (List ℕ)
  pub decode_item : List ℕ → Option ItemRecord
  pub encode_end : EndRecord → Option (List ℕ)
  pub decode_end : List ℕ → Option EndRecord
  pub encode_commit : CommitRecord → Option (List ℕ)
  pub decode_commit : List ℕ → Option CommitRecord
  pub encode_abort : AbortRecord → Option (List ℕ)
  pub decode_abort : List ℕ → Option AbortRecord
  pub encode_eof : EofRecord → Option (List ℕ)
  pub decode_eof : List ℕ → Option EofRecord

pub data StreamFault : Type 0 where
  bad_contract : ContractError → StreamFault
  encoding metadata_limit seq_exhausted seq_order bad_type bad_metadata : StreamFault
  config_order config_source config_format config_size config_digest : StreamFault
  start_source start_twice start_order start_bounds : StreamFault
  item_source item_ended item_needs_start item_after_end item_order item_size item_count
        payload_limit item_time :
      StreamFault
  end_source end_twice end_outcome end_mismatch : StreamFault
  not_ended not_complete start_missing artifact_size reason_unknown terminal_contract : StreamFault
  session_order eof_order phase_order transport_eof : StreamFault
  write_failed read_failed is_poisoned is_terminal : StreamFault

pub record SourceProgress : Type 0 where
  pub contract : Source
  pub next_item : ℕ
  pub payload_bytes : ℕ
  pub payload_chunks : List (List ℕ)  -- payloadHash, the oldest chunk first
  pub radar_started : Bool
  pub ended : Bool
  pub outcome : SourceOutcome

-- The fields that Encoder and Decoder share. The map of the sources keeps the order of the session.
pub record Progress : Type 0 where
  pub session_id : List ℕ
  pub sources : List SourceProgress
  pub config_written : Bool
  pub records_started : Bool
  pub ending_started : Bool

unfoldable pub first_source : Source → SourceProgress
first_source source = record {
  contract = source;
  next_item = 0;
  payload_bytes = 0;
  payload_chunks = [];
  radar_started = false;
  ended = false;
  outcome = other_outcome;
}

unfoldable pub first_sources : List Source → List SourceProgress
unfolding first_source
first_sources [] = []
first_sources (source ∷ sources) = first_source source ∷ first_sources sources

unfoldable pub first_progress : Session → Progress
unfolding first_sources
first_progress session = record {
  session_id = session.session_id;
  sources = first_sources session.sources;
  config_written = false;
  records_started = false;
  ending_started = false;
}

unfoldable pub find_source : List ℕ → List SourceProgress → Option SourceProgress
find_source source_id [] = none
find_source source_id (source ∷ sources) =
    if same_bytes source.contract.source_id source_id
    then some source
    else find_source source_id sources

-- What a write through the pointer in the map does.
unfoldable pub set_source : List ℕ → SourceProgress → List SourceProgress → List SourceProgress
set_source source_id new [] = []
set_source source_id new (source ∷ sources) =
    let rest = set_source source_id new sources in
    if same_bytes source.contract.source_id source_id then new ∷ sources else source ∷ rest

abbrev pub with_source : Progress → List ℕ → SourceProgress → Progress
with_source progress source_id source = record progress {
  sources = set_source source_id source progress.sources;
}

abbrev pub is_radar : SourceKind → Bool
is_radar radar = true
is_radar _ = false

abbrev pub is_complete : SourceOutcome → Bool
is_complete complete = true
is_complete _ = false

abbrev pub joined : List (List ℕ) → List ℕ
joined [] = []
joined (chunk ∷ chunks) = chunk ++ joined chunks

-- currentDigestString.
abbrev pub current_digest : (List ℕ → List ℕ) → SourceProgress → List ℕ
current_digest sha256 source = digest_string (sha256 (joined source.payload_chunks))

-- The source behind an item.
abbrev pub add_item : SourceProgress → List ℕ → SourceProgress
add_item source payload = record source {
  payload_bytes = u64 (source.payload_bytes + length payload);
  next_item = u64 (source.next_item + 1);
  payload_chunks = source.payload_chunks ++ (payload ∷ []);
}

-- The tests of validateCommitOutcomes on one source, which both ends have.
unfoldable pub commit_fault : SourceProgress → Option StreamFault
commit_fault source =
    if not source.ended
    then some not_ended
    else if source.contract.required && not (is_complete source.outcome)
    then some not_complete
    else if is_radar source.contract.kind
        && (is_complete source.outcome && (not (source.next_item == 0) && not source.radar_started))
    then some start_missing
    else none

abbrev pub or_else :
    Option StreamFault → Result StreamFault (Unit {0}) → Result StreamFault (Unit {0})
or_else none rest = rest
or_else (some e) rest = err e

-- validateCommitOutcomes. Go's order of the sources only chooses which of several errors is given.
unfoldable pub validate_commit_outcomes : List SourceProgress → Result StreamFault (Unit {0})
unfolding commit_fault
validate_commit_outcomes [] = ok tt
validate_commit_outcomes (source ∷ sources) =
    or_else (commit_fault source) (validate_commit_outcomes sources)

-- validateArtifact.
abbrev pub validate_artifact : ℕ → Result StreamFault (Unit {0})
validate_artifact size_bytes =
    reject_if ((size_bytes == 0) || ltb max_session_json_bytes size_bytes) artifact_size

-- A missing value is an error.
abbrev pub or_fault {ℓ} : {A : Type ℓ} → Option A → StreamFault → Result StreamFault A
or_fault none e = err e
or_fault (some a) e = ok a
