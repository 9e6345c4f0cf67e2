-- ===== src/SensorStream/Records/Written.antt =====
-- writeRecord of internal/multisensorstream/protocol.go, and what readRecord makes of its bytes.
use mmwcli.Base.{
  ℕ, ◌^◌, ◌<◌, ◌≡◌, refl, sym, ◌∙◌, ap, Bool, true, List, [], ◌∷◌, ◌++◌, Option, none, some, ok,
  length, take, append_assoc, append-nil, arith, ℤ, pos, negsuc, Bool-cases, Result-cases, inl, inr,
}
use mmwcli.Stream.Writer.{Writer, IsWriter, count}
use mmwcli.SensorStream.Wire.{Record}
use mmwcli.SensorStream.Records.{
  RecordError, RecordLibrary, record_header, check_record, read_record, is_whole, write_exact,
  then_write, write_record,
}
use mmwcli.SensorStream.Records.Layout.{read_record-record_header}

take-length : (bytes : List ℕ) → take (length bytes) bytes ≡ bytes
take-length [] = refl
take-length (b ∷ bytes) = ap (λ (r : List ℕ). b ∷ r) (take-length bytes)

take_whole :
    (written : ℤ) (bytes : List ℕ)
    → is_whole written (length bytes) ≡ true
    → take (count written) bytes ≡ bytes
take_whole (pos n) bytes h =
    let same : n ≡ length bytes = ground arith in rw same (take-length bytes)
take_whole (negsuc n) bytes h = absurd (ground arith)

module _ (writer : Writer) (go : RecordLibrary) (contract : IsWriter writer) where
  write_exact-taken :
      (w : writer.World) (bytes : List ℕ)
      → (write_exact writer go w bytes).1 ≡ none
      → writer.taken (write_exact writer go w bytes).0 ≡ writer.taken w ++ bytes
  unfolding write_exact
  write_exact-taken w bytes h =
      let answer = writer.write w bytes in
      elim (Bool-cases answer.failed) [
        | inl bad ↦ absurd (ground arith)
        | inr good ↦ elim (Bool-cases (is_whole answer.written (length bytes))) [
          | inr part ↦ absurd (ground arith)
          | inl whole ↦
              rw (good, whole)
                (contract.takes w bytes
                  ∙ ap (λ (r : List ℕ). writer.taken w ++ r)
                      (take_whole answer.written bytes whole))
        ]
      ]

  then_write-taken :
      (sent : writer.World × Option RecordError) (part : List ℕ)
      → (then_write writer go sent part).1 ≡ none
      → (sent.1 ≡ none)
        × (writer.taken (then_write writer go sent part).0 ≡ writer.taken sent.0 ++ part)
  then_write-taken (w, some e) part h = absurd (ground arith)
  then_write-taken (w, none) [] h = (refl, sym (append-nil (writer.taken w)))
  then_write-taken (w, none) (b ∷ part) h = (refl, write_exact-taken w (b ∷ part) h)

  -- The record passed its tests, and its header, metadata and payload were handed over.
  write_record-taken :
      (w : writer.World) (taken : Record)
      → (write_record writer go w taken).1 ≡ none
      → (check_record go taken ≡ ok tt)
        × (writer.taken (write_record writer go w taken).0
            ≡ writer.taken w ++ (record_header go taken ++ (taken.metadata ++ taken.payload)))
  write_record-taken w taken h = elim (Result-cases (check_record go taken)) [
    | inr (e, v) ↦ unfold write_record in absurd (ground arith)
    | inl (u, v) ↦
        let header = then_write writer go (w, none) (record_header go taken) in
        let middle = then_write writer go header taken.metadata in
        let result : write_record writer go w taken ≡ then_write writer go middle taken.payload =
          unfold write_record in rw (v, write_record) refl in
        let (two, third) = then_write-taken middle taken.payload (rw result at h) in
        let (one, second) = then_write-taken header taken.metadata two in
        let (start, first) = then_write-taken (w, none) (record_header go taken) one in
        (
          v,
          ap (λ (r : writer.World × Option RecordError). writer.taken r.0) result
              ∙ (rw (third, second, first)
                  (append_assoc (writer.taken w ++ record_header go taken) taken.metadata
                      taken.payload
                    ∙ append_assoc (writer.taken w) (record_header go taken)
                        (taken.metadata ++ taken.payload))),
        )
  ]

  -- Where writeRecord returns no error, over a writer that keeps the contract of io.Writer, what it handed
  -- over behind what was before is a text that readRecord gives the same record for, leaving what stands
  -- behind the text, however the reader ends; for a digest of 32 bytes and a sequence number of 64 bits.
  pub read_record-write_record :
      (broken : Bool) (w : writer.World) (taken : Record) (rest : List ℕ)
      → ((bytes : List ℕ) → length (go.sha256 bytes) ≡ 32)
      → taken.record_seq < 2 ^ 64
      → (write_record writer go w taken).1 ≡ none
      → (text : List ℕ) × (writer.taken (write_record writer go w taken).0 ≡ writer.taken w ++ text)
        × (read_record go broken (text ++ rest) ≡ ok (taken, rest))
  read_record-write_record broken w taken rest digest_size small h =
      let (valid, sent) = write_record-taken w taken h in
      let body = taken.metadata ++ taken.payload in
      (
        record_header go taken ++ body,
        sent,
        rw (append_assoc (record_header go taken) body rest)
            (read_record-record_header go broken taken rest digest_size small valid),
      )
