-- ===== src/SensorStream/SampleJson.antt =====
-- Texts for the records of one radar's session, where encoding/json stands in internal/multisensorstream.
use mmwcli.Base.{
  ℕ, ◌≡◌, sym, ap, arith, Bool, true, false, ◌&&◌, List, [], ◌∷◌, Option, none, some, same_bytes,
  same_bytes→eq, if◌then◌else◌,
}
use mmwcli.SensorStream.Model.{AbortReason, complete, cancelled}
use mmwcli.SensorStream.Wire.{
  Json, SessionRecord, session_v1, item_v1, terminal_v1, eof_v1, is_schema, is_complete,
  is_committed, committed, radar_config_v1, radar_start_v1, end_v1, RadarConfigRecord,
  RadarStartRecord, EndRecord, CommitRecord, ItemRecord, AbortRecord, EofRecord, aborted,
  is_aborted,
}
use mmwcli.SensorStream.Decoder.Contracts.{IsJson}
use mmwcli.SensorStream.Sample.{some_session_id, some_session, is_some_source, is_one, is_one→eq}

-- Texts of one session, of the items of one source, of one abort and of one EOF.
unfoldable pub session_text : SessionRecord → Option (List ℕ)
unfolding is_some_source
session_text wire =
    if is_schema wire.schema session_v1
      && (same_bytes wire.session.session_id some_session_id
          && (wire.session.is_software_barrier && is_one wire.session.sources))
    then some (123 ∷ (125 ∷ []))
    else none

abbrev the_session : SessionRecord
the_session = record { schema = session_v1; session = some_session }

session_read :
    (wire : SessionRecord) (text : List ℕ) → session_text wire ≡ some text → wire ≡ the_session
unfolding session_text
session_read wire text h =
    ground
      (arith, same_bytes→eq wire.session.session_id some_session_id, is_one→eq wire.session.sources)

unfoldable pub item_text : ItemRecord → Option (List ℕ)
item_text wire =
    if is_schema wire.schema item_v1
      && (wire.provisional && same_bytes wire.item.source_id (99 ∷ []))
    then some (
        wire.item.item_index
        ∷ (wire.item.tick
            ∷ (wire.item.wrap_count ∷ (wire.item.duration_ticks ∷ (wire.item.sync_event_id ∷ [])))))
    else none

abbrev text_item : List ℕ → Option ItemRecord
text_item (item_index ∷ (tick ∷ (wrap_count ∷ (duration_ticks ∷ (sync_event_id ∷ []))))) =
    some (record {
      schema = item_v1;
      provisional = true;
      item = record {
        source_id = 99 ∷ [];
        item_index = item_index;
        tick = tick;
        wrap_count = wrap_count;
        duration_ticks = duration_ticks;
        sync_event_id = sync_event_id;
      };
    })
text_item _ = none

item_read :
    (wire : ItemRecord) (text : List ℕ) → item_text wire ≡ some text → text_item text ≡ some wire
unfolding item_text
item_read wire text h = ground (arith, same_bytes→eq wire.item.source_id (99 ∷ []))

unfoldable pub config_text : RadarConfigRecord → Option (List ℕ)
config_text wire =
    if is_schema wire.schema radar_config_v1
      && (same_bytes wire.source_id (99 ∷ []) && same_bytes wire.format (114 ∷ []))
    then some (wire.size_bytes ∷ wire.sha256)
    else none

abbrev text_config : List ℕ → Option RadarConfigRecord
text_config [] = none
text_config (size_bytes ∷ sha256) = some (record {
  schema = radar_config_v1;
  source_id = 99 ∷ [];
  format = 114 ∷ [];
  size_bytes = size_bytes;
  sha256 = sha256;
})

config_read :
    (wire : RadarConfigRecord) (text : List ℕ)
    → config_text wire ≡ some text
    → text_config text ≡ some wire
unfolding config_text
config_read wire text h =
    ground (arith, same_bytes→eq wire.source_id (99 ∷ []), same_bytes→eq wire.format (114 ∷ []))

unfoldable pub start_text : RadarStartRecord → Option (List ℕ)
start_text wire =
    if is_schema wire.schema radar_start_v1 && same_bytes wire.start.source_id (99 ∷ [])
    then some (wire.start.host_lower_ns ∷ (wire.start.host_upper_ns ∷ []))
    else none

abbrev text_start : List ℕ → Option RadarStartRecord
text_start (lower ∷ (upper ∷ [])) = some (record {
  schema = radar_start_v1;
  start = record { source_id = 99 ∷ []; host_lower_ns = lower; host_upper_ns = upper };
})
text_start _ = none

start_read :
    (wire : RadarStartRecord) (text : List ℕ)
    → start_text wire ≡ some text
    → text_start text ≡ some wire
unfolding start_text
start_read wire text h = ground (arith, same_bytes→eq wire.start.source_id (99 ∷ []))

unfoldable pub end_text : EndRecord → Option (List ℕ)
end_text wire =
    if is_schema wire.schema end_v1
      && (same_bytes wire.source_id (99 ∷ []) && is_complete wire.outcome)
    then some (wire.item_count ∷ (wire.payload_bytes ∷ wire.payload_sha256))
    else none

abbrev text_end : List ℕ → Option EndRecord
text_end (item_count ∷ (payload_bytes ∷ payload_sha256)) = some (record {
  schema = end_v1;
  source_id = 99 ∷ [];
  outcome = complete;
  item_count = item_count;
  payload_bytes = payload_bytes;
  payload_sha256 = payload_sha256;
})
text_end _ = none

end_read :
    (wire : EndRecord) (text : List ℕ) → end_text wire ≡ some text → text_end text ≡ some wire
unfolding end_text
end_read wire text h = ground (arith, same_bytes→eq wire.source_id (99 ∷ []))

unfoldable pub commit_text : CommitRecord → Option (List ℕ)
commit_text wire =
    if is_schema wire.schema terminal_v1
      && (same_bytes wire.session_id some_session_id && is_committed wire.outcome)
    then some (wire.size_bytes ∷ wire.sha256)
    else none

abbrev text_commit : List ℕ → Option CommitRecord
text_commit [] = none
text_commit (size_bytes ∷ sha256) = some (record {
  schema = terminal_v1;
  session_id = some_session_id;
  outcome = committed;
  size_bytes = size_bytes;
  sha256 = sha256;
})

commit_read :
    (wire : CommitRecord) (text : List ℕ)
    → commit_text wire ≡ some text
    → text_commit text ≡ some wire
unfolding commit_text
commit_read wire text h = ground (arith, same_bytes→eq wire.session_id some_session_id)

abbrev is_cancelled : AbortReason → Bool
is_cancelled cancelled = true
is_cancelled _ = false

unfoldable pub abort_text : AbortRecord → Option (List ℕ)
abort_text wire =
    if is_schema wire.schema terminal_v1
      && (same_bytes wire.session_id some_session_id
          && (is_aborted wire.outcome && is_cancelled wire.reason))
    then some (123 ∷ (125 ∷ []))
    else none

abbrev the_abort : AbortRecord
the_abort = record {
  schema = terminal_v1;
  session_id = some_session_id;
  outcome = aborted;
  reason = cancelled;
}

abort_read : (wire : AbortRecord) (text : List ℕ) → abort_text wire ≡ some text → wire ≡ the_abort
unfolding abort_text
abort_read wire text h = ground (arith, same_bytes→eq wire.session_id some_session_id)

unfoldable pub eof_text : EofRecord → Option (List ℕ)
eof_text wire =
    if is_schema wire.schema eof_v1 && same_bytes wire.session_id some_session_id
    then some (123 ∷ (125 ∷ []))
    else none

abbrev the_eof : EofRecord
the_eof = record { schema = eof_v1; session_id = some_session_id }

eof_read : (wire : EofRecord) (text : List ℕ) → eof_text wire ≡ some text → wire ≡ the_eof
unfolding eof_text
eof_read wire text h = ground (arith, same_bytes→eq wire.session_id some_session_id)

abbrev pub any_text : List ℕ → Bool
any_text text = true

abbrev pub some_json : Json
some_json = record {
  encode_session = session_text;
  decode_session = λ text. some the_session;
  encode_radar_config = config_text;
  decode_radar_config = text_config;
  encode_radar_start = start_text;
  decode_radar_start = text_start;
  encode_item = item_text;
  decode_item = text_item;
  encode_end = end_text;
  decode_end = text_end;
  encode_commit = commit_text;
  decode_commit = text_commit;
  encode_abort = abort_text;
  decode_abort = λ text. some the_abort;
  encode_eof = eof_text;
  decode_eof = λ text. some the_eof;
}

pub some_json-IsJson : IsJson some_json any_text
some_json-IsJson = record {
  reads_session =
      λ wire text valid h. ap (λ (w : SessionRecord). some w) (sym (session_read wire text h));
  reads_radar_config = λ wire text id format digest h. config_read wire text h;
  reads_radar_start = λ wire text id h. start_read wire text h;
  reads_item = λ wire text id h. item_read wire text h;
  reads_end = λ wire text id outcome digest h. end_read wire text h;
  reads_commit = λ wire text id digest h. commit_read wire text h;
  reads_abort =
      λ wire text id reason h. ap (λ (w : AbortRecord). some w) (sym (abort_read wire text h));
  reads_eof = λ wire text id h. ap (λ (w : EofRecord). some w) (sym (eof_read wire text h));
}
