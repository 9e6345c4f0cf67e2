-- ===== src/SensorStream/Decoder/InStep.antt =====
-- What the Encoder of internal/multisensorstream/encoder.go writes, the Decoder of decoder.go reads.
use mmwcli.Base.{
  ℕ, ◌+◌, ◌≡◌, refl, Bool, true, false, ◌&&◌, not, List, [], ◌∷◌, ◌++◌, Option, none, some, ◌==◌,
  ok, arith, Option-cases, inl, inr,
}
use mmwcli.SensorStream.Wire.{Record, Json, StreamFault}
use mmwcli.SensorStream.Encoder.{Emission, Encoder, emit, record_of, poison}
use mmwcli.SensorStream.Decoder.{
  Decoder, is_phase, accept, read, new_decoder, a_record, gave, ReadResult, after_accept,
  take_answer, poisoned_phase, complete_phase, DecoderPhase,
}
use mmwcli.SensorStream.Decoder.Planned.{taken_of, behind}

-- The decoder behind a call of Read that gave a record.
abbrev pub kept : Decoder × ReadResult → Option Decoder
kept (decoder, gave taken) = some decoder
kept (decoder, _) = none

abbrev pub then_read : (Decoder → Option Decoder) → Option Decoder → Option Decoder
then_read rest none = none
then_read rest (some decoder) = rest decoder

module _ (json : Json) (sha256 : List ℕ → List ℕ) (valid_utf8 : List ℕ → Bool) where
  -- One call of Read for each record; none where a call does not give its record.
  unfoldable pub read_records : Decoder → List Record → Option Decoder
  unfolding read
  read_records decoder [] = some decoder
  read_records decoder (taken ∷ rest) =
      then_read (λ (d : Decoder). read_records d rest)
        (kept (read json sha256 valid_utf8 decoder (a_record taken)))

  pub read_records-append :
      (decoder : Decoder) (records : List Record) (last : Record) {middle : Decoder}
      → read_records decoder records ≡ some middle
      → read_records decoder (records ++ (last ∷ []))
        ≡ kept (read json sha256 valid_utf8 middle (a_record last))
  unfolding read_records
  read_records-append decoder [] last h =
      ground (arith, last_read (kept (read json sha256 valid_utf8 decoder (a_record last))))
    where
      last_read : (o : Option Decoder) → then_read (λ (d : Decoder). some d) o ≡ o
      last_read none = refl
      last_read (some d) = refl
  read_records-append decoder (taken ∷ rest) last {middle} h =
      elim (Option-cases (kept (read json sha256 valid_utf8 decoder (a_record taken)))) [
        | inl n ↦ absurd (ground arith)
        | inr (d, n) ↦ rw n (read_records-append d rest last {middle = middle} (rw n at h))
      ]

  pub read_accepted :
      (decoder : Decoder) (taken : Record) {next : Decoder}
      → is_phase decoder.phase poisoned_phase ≡ false
      → is_phase decoder.phase complete_phase ≡ false
      → taken.record_seq ≡ decoder.next_record
      → (taken.record_seq == 18446744073709551615) ≡ false
      → accept json sha256 valid_utf8 decoder taken ≡ ok next
      → kept (read json sha256 valid_utf8 decoder (a_record taken))
        ≡ some (record next { next_record = next.next_record + 1 })
  unfolding read take_answer after_accept
  read_accepted decoder taken p c s m a = ground arith

-- The decoder that has read what an encoder sent.
abbrev pub decoder_at : {World : Type 0} → DecoderPhase → Encoder World → Decoder
decoder_at phase encoder = record {
  next_record = encoder.next_record;
  phase = phase;
  progress = encoder.progress;
  failure = none;
}

abbrev pub is_reading : DecoderPhase → Bool
is_reading phase = not (is_phase phase poisoned_phase) && not (is_phase phase complete_phase)

module _ (json : Json) (sha256 : List ℕ → List ℕ) (valid_utf8 : List ℕ → Bool) {World : Type 0}
    (write : World → Record → World × Option StreamFault) where
  abbrev pub IsFollowed : DecoderPhase → Encoder World → Type 0
  IsFollowed phase encoder =
      read_records json sha256 valid_utf8 new_decoder encoder.sent ≡ some (decoder_at phase encoder)

  emit_go :
      (encoder : Encoder World) (emission : Emission) {next : Encoder World}
      → emit json sha256 write encoder emission ≡ (next, none)
      → ((encoder.next_record == 18446744073709551615) ≡ false)
        × (next.sent ≡ encoder.sent ++ (record_of json sha256 write encoder emission ∷ []))
        × (next.next_record ≡ encoder.next_record + 1)
        × (next.progress ≡ emission.after)
        × (next.state ≡ encoder.state)
  unfolding emit poison
  emit_go encoder emission done =
      elim (Option-cases (write encoder.world (record_of json sha256 write encoder emission)).1) [
        | inr (e, w) ↦ absurd (ground arith)
        | inl w ↦ (ground arith, ground arith, ground arith, ground arith, ground arith)
      ]

  pub emit-IsFollowed :
      (encoder : Encoder World) (emission : Emission) (phase behind : DecoderPhase)
      {next : Encoder World}
      → is_reading phase ≡ true
      → IsFollowed phase encoder
      → accept json sha256 valid_utf8
          (decoder_at phase encoder)
          (taken_of emission encoder.next_record)
        ≡ ok (record (decoder_at phase encoder) { phase = behind; progress = emission.after })
      → emit json sha256 write encoder emission ≡ (next, none)
      → IsFollowed behind next × (next.state ≡ encoder.state) × (next.progress ≡ emission.after)
  emit-IsFollowed encoder emission phase behind {next} reading followed accepted done =
      let (room, sent, counted, after, same) = emit_go encoder emission done in
      let taken = taken_of emission encoder.next_record in
      let step =
        read_accepted json sha256 valid_utf8 (decoder_at phase encoder) taken (ground arith)
          (ground arith) refl room accepted in
      let appended =
        read_records-append json sha256 valid_utf8 new_decoder encoder.sent taken
          {middle = decoder_at phase encoder} followed in
      (rw (sent, appended, step, counted, after) refl, same, after)
