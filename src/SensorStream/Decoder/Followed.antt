-- ===== src/SensorStream/Decoder/Followed.antt =====
-- A stream of internal/multisensorstream, from its first record on.
use mmwcli.Base.{ℕ, ◌≡◌, ◌⊎◌, Bool, List, Option}
use mmwcli.SensorStream.Wire.{Record, Json, StreamFault}
use mmwcli.SensorStream.Encoder.{Encoder, active, terminal}
use mmwcli.SensorStream.Decoder.{active_phase, eof_phase, DecoderPhase}
use mmwcli.SensorStream.Decoder.Contracts.{IsJson, IsDigest}
use mmwcli.SensorStream.Decoder.Known.{IsKnown}
use mmwcli.SensorStream.Decoder.InStep.{IsFollowed}

module _ (json : Json) (sha256 : List ℕ → List ℕ) (valid_utf8 : List ℕ → Bool)
    (reads : IsJson json valid_utf8) (digests : IsDigest sha256) {World : Type 0}
    (write : World → Record → World × Option StreamFault) where
  abbrev Follows : DecoderPhase → Encoder World → Type 0
  Follows phase encoder = IsFollowed json sha256 valid_utf8 write phase encoder

  -- An encoder that has not failed, with the decoder behind it.
  abbrev IsUnfailed : Encoder World → Type 0
  IsUnfailed encoder =
      ((encoder.state ≡ active) × Follows active_phase encoder × IsKnown encoder.progress)
      ⊎ ((encoder.state ≡ terminal) × Follows eof_phase encoder)
