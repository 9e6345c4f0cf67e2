-- ===== src/Producer/Protocol.antt =====
-- Commands, acknowledgements and the tests of a frame, of internal/sensorproducer/protocol.go. A string
-- is the list of its bytes. JSON, SHA-256 and bytes.TrimSpace come from Go's library.
use mmwcli.Base.{
  ℕ, Bool, true, false, ◌||◌, ◌&&◌, not, List, [], ◌∷◌, Option, none, some, ltb, leb, ◌==◌, ◌!=◌,
  Result, ok, err, ◌>>=◌, ◌>>◌, reject_if, length,
}

abbrev pub protocol_version : ℕ
protocol_version = 1

abbrev pub max_id_bytes : ℕ
max_id_bytes = 128

abbrev pub max_metadata_bytes : ℕ
max_metadata_bytes = 65536

abbrev pub max_payload_bytes : ℕ
max_payload_bytes = 67108864

abbrev pub max_error_bytes : ℕ
max_error_bytes = 4096

-- The five commands, and any other text.
pub data Command : Type 0 where
  ready arm start stop cancel other_command : Command

abbrev pub command_code : Command → ℕ
command_code ready = 0
command_code arm = 1
command_code start = 2
command_code stop = 3
command_code cancel = 4
command_code other_command = 5

abbrev pub is_command : Command → Bool
is_command command = command_code command != 5

abbrev pub same_command : Command → Command → Bool
same_command a b = command_code a == command_code b

pub record Control : Type 0 where
  pub version : ℕ
  pub command : Command
  pub session_id : List ℕ
  pub source_id : List ℕ
  pub seq : ℕ

pub record AckMetadata : Type 0 where
  pub command : Command
  pub accepted : Bool  -- OK
  pub error_text : List ℕ

abbrev pub ack_frame : ℕ
ack_frame = 1

abbrev pub session_frame : ℕ
session_frame = 2

abbrev pub item_frame : ℕ
item_frame = 3

abbrev pub end_frame : ℕ
end_frame = 4

abbrev pub error_frame : ℕ
error_frame = 5

abbrev pub eof_frame : ℕ
eof_frame = 6

abbrev pub is_frame : ℕ → Bool
is_frame kind = leb ack_frame kind && leb kind eof_frame

pub record Record : Type 0 where
  pub kind : ℕ
  pub session_id : List ℕ
  pub source_id : List ℕ
  pub seq : ℕ
  pub metadata : List ℕ
  pub payload : List ℕ

-- The last two groups stand for ErrLimit and for the errors of the library; all others wrap
-- ErrProtocol, but a ProducerError, which is what the producer itself reports.
pub data ProducerFault : Type 0 where
  bad_id bad_version bad_command bad_seq bad_frame bad_metadata bad_payload bad_ack bad_magic
        bad_flags :
      ProducerFault
  truncated digest_mismatch bad_identity bad_order frame_in_phase command_in_phase still_pending :
      ProducerFault
  ack_unsolicited ack_order ack_command bad_error no_transition eof_in_phase : ProducerFault
  rejected : Option Command → List ℕ → ProducerFault
  metadata_limit payload_limit ack_limit id_limit body_limit : ProducerFault
  encoding : ProducerFault

-- errors.Is(err, ErrProtocol).
unfoldable pub is_protocol_error : ProducerFault → Bool
is_protocol_error (rejected command text) = false
is_protocol_error metadata_limit = false
is_protocol_error payload_limit = false
is_protocol_error ack_limit = false
is_protocol_error id_limit = false
is_protocol_error body_limit = false
is_protocol_error encoding = false
is_protocol_error _ = true

-- What the source uses of Go's library. A text that does not decode gives none.
pub record GoLibrary : Type 0 where
  pub sha256 : List ℕ → List ℕ
  pub trim_space : List ℕ → List ℕ
  pub json_valid : List ℕ → Bool
  pub encode_ack : AckMetadata → Option (List ℕ)
  pub decode_ack_json : List ℕ → Option AckMetadata
  pub decode_error_json : List ℕ → Option (List ℕ)

-- A letter, a digit or one of "._:-".
unfoldable pub is_id_byte : ℕ → Bool
is_id_byte c =
    (leb 97 c && leb c 122)
    || ((leb 65 c && leb c 90)
        || ((leb 48 c && leb c 57) || ((c == 46) || ((c == 95) || ((c == 58) || (c == 45))))))

unfoldable pub are_id_bytes : List ℕ → Bool
unfolding is_id_byte
are_id_bytes [] = true
are_id_bytes (c ∷ rest) = is_id_byte c && are_id_bytes rest

-- validateID. A byte above 127 is refused by the test for UTF-8 or by the one for the characters, both
-- with ErrProtocol.
unfoldable pub validate_id : List ℕ → Result ProducerFault (Unit {0})
unfolding are_id_bytes
validate_id text = do
  reject_if ((length text == 0) || ltb max_id_bytes (length text)) bad_id
  reject_if (not (are_id_bytes text)) bad_id

-- Control.validate.
unfoldable pub validate_control : Control → Result ProducerFault (Unit {0})
unfolding validate_id
validate_control control = do
  reject_if (control.version != protocol_version) bad_version
  reject_if (not (is_command control.command)) bad_command
  validate_id control.session_id
  validate_id control.source_id
  reject_if (control.seq == 0) bad_seq

-- The first byte, and the last one.
abbrev pub starts_with : ℕ → List ℕ → Bool
starts_with c [] = false
starts_with c (d ∷ rest) = d == c

abbrev pub ends_with : ℕ → List ℕ → Bool
ends_with c [] = false
ends_with c (d ∷ []) = d == c
ends_with c (d ∷ (e ∷ rest)) = ends_with c (e ∷ rest)

-- The tests that NewACKRecord and DecodeACK share.
unfoldable pub validate_ack : AckMetadata → Result ProducerFault (Unit {0})
validate_ack ack = do
  reject_if (ack.accepted && (length ack.error_text != 0)) bad_ack
  reject_if (not ack.accepted && (length ack.error_text == 0)) bad_ack
  reject_if (ltb max_error_bytes (length ack.error_text)) ack_limit

abbrev pub or_fault {ℓ} : {A : Type ℓ} → Option A → ProducerFault → Result ProducerFault A
or_fault none e = err e
or_fault (some a) e = ok a

module _ (go : GoLibrary) where
  -- isJSONObject: braces around the trimmed text.
  unfoldable pub is_json_object : List ℕ → Bool
  is_json_object text =
      let trimmed = go.trim_space text in
      leb 2 (length trimmed)
      && (starts_with 123 trimmed && (ends_with 125 trimmed && go.json_valid trimmed))

  -- Record.validate.
  unfoldable pub validate_record : Record → Result ProducerFault (Unit {0})
  unfolding validate_id is_json_object
  validate_record frame = do
    reject_if (not (is_frame frame.kind)) bad_frame
    validate_id frame.session_id
    validate_id frame.source_id
    reject_if (frame.seq == 0) bad_seq
    reject_if (ltb max_metadata_bytes (length frame.metadata)) metadata_limit
    reject_if (not (is_json_object frame.metadata)) bad_metadata
    reject_if (ltb max_payload_bytes (length frame.payload)) payload_limit
    reject_if ((frame.kind != item_frame) && (length frame.payload != 0)) bad_payload

  -- NewACKRecord.
  unfoldable pub new_ack_record : Control → Bool → List ℕ → Result ProducerFault Record
  unfolding validate_control validate_ack
  new_ack_record control accepted error_text = do
    validate_control control
    let ack : AckMetadata = record {
      command = control.command;
      accepted = accepted;
      error_text = error_text;
    }
    validate_ack ack
    metadata ← or_fault (go.encode_ack ack) encoding
    ok (record {
      kind = ack_frame;
      session_id = control.session_id;
      source_id = control.source_id;
      seq = control.seq;
      metadata = metadata;
      payload = [];
    })

  -- DecodeACK.
  unfoldable pub decode_ack : Record → Result ProducerFault AckMetadata
  unfolding validate_ack
  decode_ack frame = do
    reject_if ((frame.kind != ack_frame) || (length frame.payload != 0)) bad_ack
    ack ← or_fault (go.decode_ack_json frame.metadata) bad_ack
    reject_if (not (is_command ack.command)) bad_ack
    validate_ack ack
    ok ack
