-- ===== src/Stream/Writer.antt =====
-- io.Writer as a parameter, and writeAll of internal/capturestream/protocol.go.
use mmwcli.Base.{
  ℕ, zero, suc, ◌≤◌, ◌≡◌, ◌≢◌, sym, ◌∙◌, ap, Bool, true, List, [], ◌∷◌, ◌++◌, Option, none, some,
  ltb, ◌==◌, if◌then◌else◌, length, length-drop, take, drop, take-append-drop, ℤ, pos, negsuc,
  arith, append_assoc, append-nil,
}

pub data StreamError : Type 0 where
  writer_failed short_write no_progress write_stuck : StreamError
  record_kind payload_limit : StreamError
  frame_order frame_excess frame_size frames_missing artifact_size artifact_digest : StreamError
  abort_reason terminal_outcome terminal_encoding terminal_size : StreamError
  is_poisoned is_terminal : StreamError

-- What `writer.Write` answers, with the writer's state behind the call.
pub record WriteAnswer (World : Type 0) : Type 0 where
  pub world : World
  pub written : ℤ
  pub failed : Bool

-- A writer, and the bytes that it took so far.
pub record Writer : Type 1 where
  pub World : Type 0
  pub write : World → List ℕ → WriteAnswer World
  pub taken : World → List ℕ

-- The number of bytes that a call claims, cut at 0.
abbrev pub count : ℤ → ℕ
count (pos n) = n
count (negsuc _) = 0

-- What the package io states of Write: the writer took as many of the first bytes as it says.
pub record IsWriter (writer : Writer) : Type 0 where
  pub takes :
      (w : writer.World) (bytes : List ℕ)
      → writer.taken (writer.write w bytes).world
        ≡ writer.taken w ++ take (count (writer.write w bytes).written) bytes

abbrev pub out_of_range : ℤ → ℕ → Bool
out_of_range (negsuc _) size = true
out_of_range (pos n) size = ltb size n

module _ (writer : Writer) where
  -- One round of writeAll takes a byte at least, so a round for each byte is enough.
  unfoldable pub write_rounds : ℕ → writer.World → List ℕ → writer.World × Option StreamError
  write_rounds fuel w [] = (w, none)
  write_rounds zero w (b ∷ bytes) = (w, some write_stuck)
  write_rounds (suc fuel) w (b ∷ bytes) =
      let answer = writer.write w (b ∷ bytes) in
      let rest = write_rounds fuel answer.world (drop (count answer.written) (b ∷ bytes)) in
      if out_of_range answer.written (length (b ∷ bytes))
      then (answer.world, some short_write)
      else if answer.failed
      then (answer.world, some writer_failed)
      else if count answer.written == 0
      then (answer.world, some no_progress)
      else rest

  unfoldable pub write_all : writer.World → List ℕ → writer.World × Option StreamError
  unfolding write_rounds
  write_all w bytes = write_rounds (length bytes) w bytes

module _ (writer : Writer) where
  write_rounds-ne-stuck :
      (fuel : ℕ) (w : writer.World) (bytes : List ℕ)
      → length bytes ≤ fuel
      → (write_rounds writer fuel w bytes).1 ≢ some write_stuck
  unfolding write_rounds
  write_rounds-ne-stuck fuel w [] h = λ e. cc
  write_rounds-ne-stuck zero w (b ∷ bytes) h = absurd (omega arith)
  write_rounds-ne-stuck (suc fuel) w (b ∷ bytes) h =
      let answer = writer.write w (b ∷ bytes) in
      ground (
        arith,
        length-drop (count answer.written) (b ∷ bytes),
        write_rounds-ne-stuck fuel answer.world (drop (count answer.written) (b ∷ bytes)),
      )

  -- writeAll ends for every writer: its rounds never run out.
  pub write_all-ne-stuck :
      (w : writer.World) (bytes : List ℕ) → (write_all writer w bytes).1 ≢ some write_stuck
  unfolding write_all
  write_all-ne-stuck w bytes = write_rounds-ne-stuck (length bytes) w bytes (omega arith)

module _ (writer : Writer) (contract : IsWriter writer) where
  write_rounds_go :
      (fuel : ℕ) (w : writer.World) (b : ℕ) (bytes : List ℕ)
      → (write_rounds writer (suc fuel) w (b ∷ bytes)).1 ≡ none
      → write_rounds writer (suc fuel) w (b ∷ bytes)
        ≡ write_rounds writer fuel
            (writer.write w (b ∷ bytes)).world
            (drop (count (writer.write w (b ∷ bytes)).written) (b ∷ bytes))
  unfolding write_rounds
  write_rounds_go fuel w b bytes h = ground arith

  write_rounds-taken :
      (fuel : ℕ) (w : writer.World) (bytes : List ℕ)
      → (write_rounds writer fuel w bytes).1 ≡ none
      → writer.taken (write_rounds writer fuel w bytes).0 ≡ writer.taken w ++ bytes
  write_rounds-taken fuel w [] h = unfold write_rounds in sym (append-nil (writer.taken w))
  write_rounds-taken zero w (b ∷ bytes) h = unfold write_rounds in cc
  write_rounds-taken (suc fuel) w (b ∷ bytes) h =
      let answer = writer.write w (b ∷ bytes) in
      let k : ℕ = count answer.written in
      let go = write_rounds_go fuel w b bytes h in
      rw go (
        write_rounds-taken fuel answer.world (drop k (b ∷ bytes)) (rw go at h)
        ∙ (rw (contract.takes w (b ∷ bytes)) (
            append_assoc (writer.taken w) (take k (b ∷ bytes)) (drop k (b ∷ bytes))
            ∙ ap (λ (r : List ℕ). writer.taken w ++ r) (take-append-drop k (b ∷ bytes)))))

  -- A writer that keeps the contract of io.Writer has taken exactly the bytes, behind what it had
  -- taken before, where writeAll ends with no error.
  pub write_all-taken :
      (w : writer.World) (bytes : List ℕ)
      → (write_all writer w bytes).1 ≡ none
      → writer.taken (write_all writer w bytes).0 ≡ writer.taken w ++ bytes
  unfolding write_all
  write_all-taken w bytes h = write_rounds-taken (length bytes) w bytes h
