-- ===== src/Producer/Frames/Sent.antt =====
-- What Encoder.Write of internal/sensorproducer/protocol.go has handed over.
use mmwcli.Base.{
  ℕ, zero, suc, ◌≤◌, ◌≡◌, ◌≢◌, refl, sym, ◌∙◌, ap, List, [], ◌∷◌, ◌++◌, Option, none, some, length,
  length-drop, take, drop, take-append-drop, append_assoc, append-nil, arith, ok, Result-cases, inl,
  inr,
}
use mmwcli.Stream.Writer.{Writer, IsWriter, count}
use mmwcli.Producer.Protocol.{Record, GoLibrary, validate_record}
use mmwcli.Producer.Frames.{
  frame_body, frame_header, SendError, FrameError, send_stuck, send_rounds, send_all, send_parts,
  or_unsent, write_frame,
}

abbrev flatten : List (List ℕ) → List ℕ
flatten [] = []
flatten (part ∷ parts) = part ++ flatten parts

module _ (writer : Writer) where
  send_rounds-ne-stuck :
      (fuel : ℕ) (w : writer.World) (bytes : List ℕ)
      → length bytes ≤ fuel
      → (send_rounds writer fuel w bytes).1 ≢ some send_stuck
  unfolding send_rounds
  send_rounds-ne-stuck fuel w [] h = λ e. cc
  send_rounds-ne-stuck zero w (b ∷ bytes) h = absurd (omega arith)
  send_rounds-ne-stuck (suc fuel) w (b ∷ bytes) h =
      let answer = writer.write w (b ∷ bytes) in
      ground (
        arith,
        length-drop (count answer.written) (b ∷ bytes),
        send_rounds-ne-stuck fuel answer.world (drop (count answer.written) (b ∷ bytes)),
      )

module _ (writer : Writer) (contract : IsWriter writer) where
  send_rounds_go :
      (fuel : ℕ) (w : writer.World) (b : ℕ) (bytes : List ℕ)
      → (send_rounds writer (suc fuel) w (b ∷ bytes)).1 ≡ none
      → send_rounds writer (suc fuel) w (b ∷ bytes)
        ≡ send_rounds writer fuel
            (writer.write w (b ∷ bytes)).world
            (drop (count (writer.write w (b ∷ bytes)).written) (b ∷ bytes))
  unfolding send_rounds
  send_rounds_go fuel w b bytes h = ground arith

  send_rounds-taken :
      (fuel : ℕ) (w : writer.World) (bytes : List ℕ)
      → (send_rounds writer fuel w bytes).1 ≡ none
      → writer.taken (send_rounds writer fuel w bytes).0 ≡ writer.taken w ++ bytes
  send_rounds-taken fuel w [] h = unfold send_rounds in sym (append-nil (writer.taken w))
  send_rounds-taken zero w (b ∷ bytes) h = unfold send_rounds in cc
  send_rounds-taken (suc fuel) w (b ∷ bytes) h =
      let answer = writer.write w (b ∷ bytes) in
      let k : ℕ = count answer.written in
      let step = send_rounds_go fuel w b bytes h in
      let rest = send_rounds-taken fuel answer.world (drop k (b ∷ bytes)) (rw step at h) in
      let took = contract.takes w (b ∷ bytes) in
      let joined = append_assoc (writer.taken w) (take k (b ∷ bytes)) (drop k (b ∷ bytes)) in
      rw (step, rest, took, joined, take-append-drop k (b ∷ bytes)) refl

  send_all-taken :
      (w : writer.World) (bytes : List ℕ)
      → (send_all writer w bytes).1 ≡ none
      → writer.taken (send_all writer w bytes).0 ≡ writer.taken w ++ bytes
  unfolding send_all
  send_all-taken w bytes h = send_rounds-taken (length bytes) w bytes h

  send_parts-taken :
      (sent : writer.World × Option SendError) (parts : List (List ℕ))
      → (send_parts writer sent parts).1 ≡ none
      → (sent.1 ≡ none)
        × (writer.taken (send_parts writer sent parts).0 ≡ writer.taken sent.0 ++ flatten parts)
  unfolding send_parts
  send_parts-taken sent [] h = (h, sym (append-nil (writer.taken sent.0)))
  send_parts-taken (w, some e) (part ∷ parts) h =
      let failed = (send_parts-taken (w, some e) parts h).0 in absurd (ground arith)
  send_parts-taken (w, none) (part ∷ parts) h =
      let (sent, taken) = send_parts-taken (send_all writer w part) parts h in
      (
        refl,
        rw (taken, send_all-taken w part sent) (append_assoc (writer.taken w) part (flatten parts)),
      )

or_unsent_lem :
    (writer : Writer) (sent : writer.World × Option SendError)
    → (or_unsent writer sent).1 ≡ none
    → (sent.1 ≡ none) × ((or_unsent writer sent).0 ≡ sent.0)
or_unsent_lem writer (w, none) h = (refl, refl)
or_unsent_lem writer (w, some e) h = absurd (ground arith)

module _ (go : GoLibrary) (frame : Record) where
  abbrev parts_of : List (List ℕ)
  parts_of =
      frame_header go frame
      ∷ (frame.session_id ∷ (frame.source_id ∷ (frame.metadata ∷ (frame.payload ∷ []))))

  flatten-parts_of : flatten parts_of ≡ frame_header go frame ++ frame_body frame
  unfolding frame_body
  flatten-parts_of = rw (append-nil frame.payload) refl

module _ (writer : Writer) (go : GoLibrary) (contract : IsWriter writer) where
  -- Where Encoder.Write returns no error, over a writer that keeps the contract of io.Writer, the frame
  -- passes its tests and exactly its header and its body were handed over, behind what was before.
  pub write_frame-taken :
      (w : writer.World) (frame : Record)
      → (write_frame writer go w frame).1 ≡ none
      → (validate_record go frame ≡ ok tt)
        × (writer.taken (write_frame writer go w frame).0
            ≡ writer.taken w ++ (frame_header go frame ++ frame_body frame))
  unfolding write_frame
  write_frame-taken w frame h = elim (Result-cases (validate_record go frame)) [
    | inr (e, v) ↦ absurd (ground arith)
    | inl (u, v) ↦
        let sent = send_parts writer (w, none) (parts_of go frame) in
        let result : write_frame writer go w frame ≡ or_unsent writer sent =
          rw (v, write_frame) refl in
        let (quiet, same) = or_unsent_lem writer sent (rw result at h) in
        let (start, taken) = send_parts-taken writer contract (w, none) (parts_of go frame) quiet in
        (
          v,
          ap (λ (r : writer.World × Option FrameError). writer.taken r.0) result
              ∙ (ap writer.taken same
                  ∙ (taken ∙ ap (λ (r : List ℕ). writer.taken w ++ r) (flatten-parts_of go frame))),
        )
  ]
