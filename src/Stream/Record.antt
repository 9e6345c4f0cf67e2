-- ===== src/Stream/Record.antt =====
-- writeRecord of internal/capturestream/protocol.go. SHA-256 is a parameter.
use mmwcli.Base.{
  ℕ, ◌≤◌, ◌≡◌, refl, ◌∙◌, Bool, true, not, ◌&&◌, List, [], ◌∷◌, ◌++◌, Option, none, some, ltb, leb,
  if◌then◌else◌, length, arith, le_bytes, append_assoc,
}
use mmwcli.Stream.Writer.{
  StreamError, record_kind, payload_limit, Writer, IsWriter, write_all, write_all-taken,
}

abbrev pub max_session_payload_bytes : ℕ
max_session_payload_bytes = 65536

abbrev pub max_radar_config_bytes : ℕ
max_radar_config_bytes = 4194304

abbrev pub max_frame_payload_bytes : ℕ
max_frame_payload_bytes = 67108864

abbrev pub max_terminal_payload_bytes : ℕ
max_terminal_payload_bytes = 4096

-- The values of `recordType`.
abbrev pub session_record : ℕ
session_record = 1

abbrev pub radar_config_record : ℕ
radar_config_record = 2

abbrev pub frame_record : ℕ
frame_record = 3

abbrev pub commit_record : ℕ
commit_record = 4

abbrev pub abort_record : ℕ
abort_record = 5

unfoldable pub is_kind : ℕ → Bool
is_kind kind = leb session_record kind && leb kind abort_record

-- "mmwcli.capture_stream.record.v1" and a zero byte.
abbrev pub record_digest_domain : List ℕ
record_digest_domain =
    109 ∷ 109 ∷ 119 ∷ 99 ∷ 108 ∷ 105 ∷ 46 ∷ 99 ∷ 97 ∷ 112 ∷ 116 ∷ 117 ∷ 114 ∷ 101 ∷ 95 ∷ 115 ∷ 116
    ∷ 114 ∷ 101 ∷ 97 ∷ 109 ∷ 46 ∷ 114 ∷ 101 ∷ 99 ∷ 111 ∷ 114 ∷ 100 ∷ 46 ∷ 118 ∷ 49 ∷ 0 ∷ []

-- "MMWSTRM1".
abbrev pub record_magic : List ℕ
record_magic = 77 ∷ 77 ∷ 87 ∷ 83 ∷ 84 ∷ 82 ∷ 77 ∷ 49 ∷ []

-- The first 48 bytes of the header: the magic, the major version, the header's size, the kind, the
-- flags, the sequence number, the item's index, the payload's length and the reserved bytes.
unfoldable pub header_prefix : ℕ → ℕ → ℕ → ℕ → List ℕ
header_prefix kind sequence item_index payload_length =
    record_magic
    ++ (le_bytes 2 1
        ++ (le_bytes 2 80
            ++ (le_bytes 2 kind
                ++ (le_bytes 2 0
                    ++ (le_bytes 8 sequence
                        ++ (le_bytes 8 item_index
                            ++ (le_bytes 8 payload_length ++ le_bytes 8 0)))))))

module _ (sha256 : List ℕ → List ℕ) where
  unfoldable pub record_digest : List ℕ → List ℕ → List ℕ
  record_digest prefix payload = sha256 (record_digest_domain ++ (prefix ++ payload))

  unfoldable pub record_header : ℕ → ℕ → ℕ → List ℕ → List ℕ
  record_header kind sequence item_index payload =
      let prefix = header_prefix kind sequence item_index (length payload) in
      prefix ++ record_digest prefix payload

module _ (writer : Writer) (sha256 : List ℕ → List ℕ) where
  -- The payload follows where the header was written.
  unfoldable pub write_payload :
      writer.World × Option StreamError → List ℕ → writer.World × Option StreamError
  write_payload (w, some e) payload = (w, some e)
  write_payload (w, none) payload = write_all writer w payload

  unfoldable pub write_record :
      writer.World → ℕ → ℕ → ℕ → List ℕ → ℕ → writer.World × Option StreamError
  write_record w kind sequence item_index payload maximum =
      if not (is_kind kind)
      then (w, some record_kind)
      else if ltb maximum (length payload)
      then (w, some payload_limit)
      else write_payload
          (write_all writer w (record_header sha256 kind sequence item_index payload)) payload

-- A record on the wire.
unfoldable pub record_bytes : (List ℕ → List ℕ) → ℕ → ℕ → ℕ → List ℕ → List ℕ
record_bytes sha256 kind sequence item_index payload =
    record_header sha256 kind sequence item_index payload ++ payload

-- With a digest of 32 bytes the header has its fixed size.
pub length-record_header :
    (sha256 : List ℕ → List ℕ) (kind sequence item_index : ℕ) (payload : List ℕ)
    → ((bytes : List ℕ) → length (sha256 bytes) ≡ 32)
    → length (record_header sha256 kind sequence item_index payload) ≡ 80
unfolding record_header record_digest header_prefix le_bytes
length-record_header sha256 kind sequence item_index payload h = omega (
  arith,
  h (record_digest_domain ++ (header_prefix kind sequence item_index (length payload) ++ payload)),
)

module _ (writer : Writer) (contract : IsWriter writer) (sha256 : List ℕ → List ℕ) where
  write_payload-taken :
      (header : writer.World × Option StreamError) (payload : List ℕ)
      → (write_payload writer sha256 header payload).1 ≡ none
      → (header.1 ≡ none)
        × (writer.taken (write_payload writer sha256 header payload).0
            ≡ writer.taken header.0 ++ payload)
  unfolding write_payload
  write_payload-taken (w, none) payload h = (refl, write_all-taken writer contract w payload h)
  write_payload-taken (w, some e) payload h = cc

  write_record_go :
      (w : writer.World) (kind sequence item_index : ℕ) (payload : List ℕ) (maximum : ℕ)
      → (write_record writer sha256 w kind sequence item_index payload maximum).1 ≡ none
      → (is_kind kind ≡ true)
        × (length payload ≤ maximum)
        × (write_record writer sha256 w kind sequence item_index payload maximum
            ≡ write_payload writer sha256
                (write_all writer w (record_header sha256 kind sequence item_index payload))
                payload)
  unfolding write_record
  write_record_go w kind sequence item_index payload maximum h = ground arith

  -- Where writeRecord ends with no error the kind is a known one, the payload is within the limit, and
  -- the writer took exactly the record's header and payload.
  pub write_record-taken :
      (w : writer.World) (kind sequence item_index : ℕ) (payload : List ℕ) (maximum : ℕ)
      → (write_record writer sha256 w kind sequence item_index payload maximum).1 ≡ none
      → (is_kind kind ≡ true)
        × (length payload ≤ maximum)
        × (writer.taken (write_record writer sha256 w kind sequence item_index payload maximum).0
            ≡ writer.taken w ++ record_bytes sha256 kind sequence item_index payload)
  unfolding record_bytes
  write_record-taken w kind sequence item_index payload maximum h =
      let (known, small, go) = write_record_go w kind sequence item_index payload maximum h in
      let header = record_header sha256 kind sequence item_index payload in
      let (first, second) = write_payload-taken (write_all writer w header) payload (rw go at h) in
      (
        known,
        small,
        rw go (
            second
            ∙ (rw (write_all-taken writer contract w header first)
                (append_assoc (writer.taken w) header payload))),
      )
