-- ===== src/SensorStream/Decoder/Operated.antt =====
-- Operations of the Encoder of internal/multisensorstream/encoder.go, and the Decoder behind them.
use mmwcli.Base.{
  ℕ, ◌≡◌, refl, sym, subst, ◌∙◌, ap, Bool, true, List, Option, none, some, Result, ok, err,
  if◌then◌else◌, arith, Bool-cases, inl, inr,
}
use mmwcli.SensorStream.Wire.{Record, Json, StreamFault, Progress}
use mmwcli.SensorStream.Encoder.{
  Emission, plan_eof, Operation, is_final, plan, Encoder, active, terminal, emit, emit_planned,
  emit_eof, close, require_active, poison, operate,
}
use mmwcli.SensorStream.Decoder.{Decoder, active_phase, terminal_phase, eof_phase}
use mmwcli.SensorStream.Decoder.Contracts.{IsJson, IsDigest}
use mmwcli.SensorStream.Decoder.Known.{IsKnown}
use mmwcli.SensorStream.Decoder.Planned.{
  IsOperation, behind, planned_accept, planned_eof, final_after, eof_kind, plan-IsKnown,
}
use mmwcli.SensorStream.Decoder.InStep.{decoder_at, IsFollowed, emit-IsFollowed}

abbrev okay : Decoder → Result StreamFault Decoder
okay d = ok d

behind_form :
    (decoder : Decoder) (operation : Operation) (emission : Emission)
    → decoder.phase ≡ active_phase
    → ((is_final operation ≡ true) → (emission.after ≡ decoder.progress))
    → behind decoder operation emission ≡ record decoder {
      phase = if is_final operation then terminal_phase else active_phase;
      progress = emission.after;
    }
behind_form decoder operation emission ready same = elim (Bool-cases (is_final operation)) [
  | inl b ↦ rw (b, same b) refl
  | inr b ↦ rw (b, ready) refl
]

module _ (json : Json) (sha256 : List ℕ → List ℕ) (valid_utf8 : List ℕ → Bool)
    (reads : IsJson json valid_utf8) (digests : IsDigest sha256) {World : Type 0}
    (write : World → Record → World × Option StreamFault) where
  close_go :
      (written : Encoder World × Option StreamFault) {next : Encoder World}
      → close json sha256 write written ≡ (next, none)
      → (last : Encoder World) × (written ≡ (last, none))
        × (next ≡ record last { state = terminal })
  close_go (last, none) done = (last, refl, ground arith)
  close_go (last, some e) done = absurd (ground arith)

  emit_eof_go :
      (written : Encoder World × Option StreamFault) {next : Encoder World}
      → emit_eof json sha256 write written ≡ (next, none)
      → (middle : Encoder World) × (written ≡ (middle, none))
        × (close json sha256 write
              (emit_planned json sha256 write middle (plan_eof json sha256 middle.progress))
            ≡ (next, none))
  emit_eof_go (middle, none) done = (middle, refl, done)
  emit_eof_go (middle, some e) done = absurd (ground arith)

  planned_go :
      (encoder : Encoder World) (planned : Result StreamFault Emission) {next : Encoder World}
      → emit_planned json sha256 write encoder planned ≡ (next, none)
      → (emission : Emission) × (planned ≡ ok emission)
        × (emit json sha256 write encoder emission ≡ (next, none))
  unfolding poison
  planned_go encoder (err e) done = absurd (ground arith)
  planned_go encoder (ok emission) done = (emission, refl, done)

  operate_active :
      (encoder : Encoder World) (operation : Operation)
      → encoder.state ≡ active
      → operate json sha256 write encoder operation ≡ (
          let emitted =
            emit_planned json sha256 write encoder (plan json sha256 encoder.progress operation) in
          if is_final operation then emit_eof json sha256 write emitted else emitted)
  unfolding operate
  operate_active encoder operation state =
      let ready : require_active encoder.state ≡ none = unfold require_active in rw state refl in
      rw (ready, operate) refl

  -- A record that a planned operation writes takes the decoder along.
  written-IsFollowed :
      (encoder : Encoder World) (operation : Operation) {next : Encoder World}
      → encoder.state ≡ active
      → IsOperation operation
      → IsKnown encoder.progress
      → IsFollowed json sha256 valid_utf8 write active_phase encoder
      → emit_planned json sha256 write encoder (plan json sha256 encoder.progress operation)
        ≡ (next, none)
      → IsFollowed json sha256 valid_utf8 write
          (if is_final operation then terminal_phase else active_phase)
          next
        × (next.state ≡ active)
        × IsKnown next.progress
  written-IsFollowed encoder operation {next} state fine known followed done =
      let (emission, planned, emitted) =
        planned_go encoder (plan json sha256 encoder.progress operation) done in
      let decoder = decoder_at active_phase encoder in
      let accepted =
        planned_accept json sha256 valid_utf8 reads digests decoder operation encoder.next_record
          refl known fine planned in
      let form = behind_form decoder operation emission refl (λ (final : is_final operation ≡ true).
        final_after json sha256 encoder.progress operation final planned) in
      let result =
        emit-IsFollowed json sha256 valid_utf8 write encoder emission active_phase
          (if is_final operation then terminal_phase else active_phase) refl followed
          (accepted ∙ ap (λ (d : Decoder). okay d) form) emitted in
      let still = plan-IsKnown json sha256 encoder.progress operation known planned in
      (result.0, result.1 ∙ state, subst (λ (p : Progress). IsKnown p) (sym result.2) still)

  -- One operation of an encoder that has not ended.
  pub operate-IsFollowed :
      (encoder : Encoder World) (operation : Operation) {next : Encoder World}
      → encoder.state ≡ active
      → IsOperation operation
      → IsKnown encoder.progress
      → IsFollowed json sha256 valid_utf8 write active_phase encoder
      → operate json sha256 write encoder operation ≡ (next, none)
      → IsFollowed json sha256 valid_utf8 write
          (if is_final operation then eof_phase else active_phase)
          next
        × (next.state ≡ (if is_final operation then terminal else active))
        × IsKnown next.progress
  operate-IsFollowed encoder operation {next} state fine known followed done =
      let planned =
        emit_planned json sha256 write encoder (plan json sha256 encoder.progress operation) in
      let step = rw (operate_active encoder operation state) at done in
      elim (Bool-cases (is_final operation)) [
        | inr b ↦
            let result =
              written-IsFollowed encoder operation {next = next} state fine known followed
                (rw b at step) in
            rw b (rw b at result)
        | inl b ↦
            let (middle, written, closed) = emit_eof_go planned (rw b at step) in
            let result = rw b at (
              written-IsFollowed encoder operation {next = middle} state fine known followed
                written) in
            let (last, emitted, ended) =
              close_go
                (emit_planned json sha256 write middle (plan_eof json sha256 middle.progress))
                closed in
            let (emission, eof_planned, sent) =
              planned_go middle (plan_eof json sha256 middle.progress) emitted in
            let decoder = decoder_at terminal_phase middle in
            let accepted =
              planned_eof json sha256 valid_utf8 reads digests decoder middle.next_record refl
                result.2 eof_planned in
            let same : emission.after ≡ middle.progress =
              (eof_kind json sha256 middle.progress eof_planned).1 in
            let (read_on, kept_state, progress) =
              emit-IsFollowed json sha256 valid_utf8 write middle emission terminal_phase eof_phase
                refl result.0 (rw same accepted) sent in
            let known_last = subst (λ (p : Progress). IsKnown p) (sym (progress ∙ same)) result.2 in
            let known_next =
              subst (λ (p : Progress). IsKnown p)
                (sym (ap (λ (e : Encoder World). e.progress) ended)) known_last in
            rw b (rw ended read_on, rw ended refl, known_next)
      ]
