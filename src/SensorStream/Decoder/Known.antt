-- ===== src/SensorStream/Decoder/Known.antt =====
-- The identifiers that the Encoder and the Decoder of internal/multisensorstream keep: they passed the
-- patterns of model.go, and so does what is looked up by them.
use mmwcli.Base.{
  ℕ, ◌≡◌, Bool, true, List, [], ◌∷◌, some, ok, same_bytes, same_bytes→eq, All, arith, Bool-cases,
  Option-cases, inl, inr, subst,
}
use mmwcli.SensorStream.Model.{
  Source, Session, SourceOutcome, is_session_id, is_source_id, validate_source, validate_sources,
  validate_session,
}
use mmwcli.SensorStream.Wire.{
  SourceProgress, Progress, first_source, first_sources, first_progress, find_source, set_source,
  with_source, add_item, RadarStart, Item, Json,
}
use mmwcli.SensorStream.Encoder.{Emission, plan_radar_config, plan_radar_start, plan_item, plan_end}

abbrev pub HasId : SourceProgress → Type 0
HasId source = is_source_id source.contract.source_id ≡ true

abbrev pub IsKnown : Progress → Type 0
IsKnown progress = (is_session_id progress.session_id ≡ true) × All HasId progress.sources

-- A source that is found has the identifier that was looked for.
pub find_source-HasId :
    (source_id : List ℕ) (sources : List SourceProgress) {source : SourceProgress}
    → All HasId sources
    → find_source source_id sources ≡ some source
    → (is_source_id source_id ≡ true) × HasId source
unfolding find_source
find_source-HasId source_id [] known f = absurd (ground arith)
find_source-HasId source_id (first ∷ sources) {source} known f =
    elim (Bool-cases (same_bytes first.contract.source_id source_id)) [
      | inl same ↦
          let id = same_bytes→eq first.contract.source_id source_id same in
          let found : first ≡ source = ground arith in (rw id at known.0, rw found at known.0)
      | inr other ↦ find_source-HasId source_id sources known.1 (rw other at f)
    ]

set_source-HasId :
    (source_id : List ℕ) (new : SourceProgress) (sources : List SourceProgress)
    → All HasId sources
    → HasId new
    → All HasId (set_source source_id new sources)
unfolding set_source
set_source-HasId source_id new [] known h = tt
set_source-HasId source_id new (first ∷ sources) known h =
    elim (Bool-cases (same_bytes first.contract.source_id source_id)) [
      | inl same ↦ rw same (h, known.1)
      | inr other ↦ rw other (known.0, set_source-HasId source_id new sources known.1 h)
    ]

with_source-IsKnown :
    (progress : Progress) (source_id : List ℕ) (new : SourceProgress)
    → IsKnown progress
    → HasId new
    → IsKnown (with_source progress source_id new)
with_source-IsKnown progress source_id new known h =
    (known.0, set_source-HasId source_id new progress.sources known.1 h)

first_sources-HasId :
    (valid_utf8 : List ℕ → Bool) (identifiers clock_ids : List (List ℕ)) (sources : List Source)
    → validate_sources valid_utf8 identifiers clock_ids sources ≡ ok tt
    → All HasId (first_sources sources)
unfolding validate_sources validate_source first_sources first_source
first_sources-HasId valid_utf8 identifiers clock_ids [] valid = tt
first_sources-HasId valid_utf8 identifiers clock_ids (source ∷ sources) valid = (
  ground arith,
  first_sources-HasId valid_utf8 (source.source_id ∷ identifiers)
      (source.clock.clock_id ∷ clock_ids) sources (ground arith),
)

pub first_progress-IsKnown :
    (valid_utf8 : List ℕ → Bool) (session : Session)
    → validate_session valid_utf8 session ≡ ok tt
    → IsKnown (first_progress session)
unfolding validate_session first_progress
first_progress-IsKnown valid_utf8 session valid =
    (ground arith, first_sources-HasId valid_utf8 [] [] session.sources (ground arith))

module _ (json : Json) (sha256 : List ℕ → List ℕ) where
  pub start-IsKnown :
      (progress : Progress) (start : RadarStart) {emission : Emission}
      → IsKnown progress
      → plan_radar_start json sha256 progress start ≡ ok emission
      → IsKnown emission.after
  unfolding plan_radar_start
  start-IsKnown progress start {emission} known planned =
      elim (Option-cases (find_source start.source_id progress.sources)) [
        | inl n ↦ absurd (ground arith)
        | inr (source, f) ↦
            let new = record source { radar_started = true } in
            let after : with_source progress start.source_id new ≡ emission.after = ground arith in
            subst (λ (p : Progress). IsKnown p) after
              (with_source-IsKnown progress start.source_id new known
                (find_source-HasId start.source_id progress.sources known.1 f).1)
      ]

  pub item-IsKnown :
      (progress : Progress) (item : Item) (payload : List ℕ) {emission : Emission}
      → IsKnown progress
      → plan_item json sha256 progress item payload ≡ ok emission
      → IsKnown emission.after
  unfolding plan_item
  item-IsKnown progress item payload {emission} known planned =
      elim (Option-cases (find_source item.source_id progress.sources)) [
        | inl n ↦ absurd (ground arith)
        | inr (source, f) ↦
            let new = add_item source payload in
            let after : record (with_source progress item.source_id new) { records_started = true }
                ≡ emission.after =
              ground arith in
            subst (λ (p : Progress). IsKnown p) after
              (with_source-IsKnown progress item.source_id new known
                (find_source-HasId item.source_id progress.sources known.1 f).1)
      ]

  pub end-IsKnown :
      (progress : Progress) (source_id : List ℕ) (outcome : SourceOutcome) {emission : Emission}
      → IsKnown progress
      → plan_end json sha256 progress source_id outcome ≡ ok emission
      → IsKnown emission.after
  unfolding plan_end
  end-IsKnown progress source_id outcome {emission} known planned =
      elim (Option-cases (find_source source_id progress.sources)) [
        | inl n ↦ absurd (ground arith)
        | inr (source, f) ↦
            let new = record source { ended = true; outcome = outcome } in
            let after : record (with_source progress source_id new) {
              records_started = true;
              ending_started = true;
            }
                ≡ emission.after =
              ground arith in
            subst (λ (p : Progress). IsKnown p) after
              (with_source-IsKnown progress source_id new known
                (find_source-HasId source_id progress.sources known.1 f).1)
      ]

  pub config-IsKnown :
      (progress : Progress) (source_id format payload : List ℕ) {emission : Emission}
      → IsKnown progress
      → plan_radar_config json sha256 progress source_id format payload ≡ ok emission
      → IsKnown emission.after
  unfolding plan_radar_config
  config-IsKnown progress source_id format payload {emission} known planned =
      elim (Option-cases (find_source source_id progress.sources)) [
        | inl n ↦ absurd (ground arith)
        | inr (source, f) ↦
            let after : record progress { config_written = true } ≡ emission.after = ground arith in
            subst (λ (p : Progress). IsKnown p) after known
      ]
