-- ===== src/Mirror/Written.antt =====
-- WriteAt on each of its branches: it keeps the invariant, and a write that the output took succeeds.
use mmwcli.Base.{
  ℕ, zero, suc, ◌+◌, ◌-◌, ◌/◌, ◌≤◌, ◌≡◌, refl, false, List, [], ◌∷◌, ◌++◌, Option, none, some, map,
  length, length-map, length-append, Option-cases, Result-cases, inl, inr, arith, ◌>>=◌, ◌>>◌,
  Result, ok, err, ℤ, pos, negsuc, pos_part,
}
use mmwcli.Mirror.Errors.{MirrorError}
use mmwcli.Mirror.Spool.{FrameSpool}
use mmwcli.Mirror.State.{Mirror, opened, fail_and_cancel, writable_error}
use mmwcli.Mirror.Plan.{
  lookup_slot, MirrorFragment, WritePlan, missing_slots, made_slots, fragment_of, plan_frames,
  plan_write_at, plan_write,
}
use mmwcli.Mirror.Write.{
  OutputAnswer, apply_fragment, apply_fragments, enqueue_complete, admit, output_error,
  write_return, write_admitted, write_at,
}
use mmwcli.Mirror.Invariant.{Inv, is_sealed_state}
use mmwcli.Mirror.Preserve.{fail_and_cancel-Inv}
use mmwcli.Mirror.Enqueue.{enqueue_complete_total}

length-apply_fragments :
    (payload : List ℕ) (fragments : List MirrorFragment) (slots : List FrameSpool)
    → length (apply_fragments payload fragments slots) ≡ length slots
unfolding apply_fragments
length-apply_fragments payload [] slots = refl
length-apply_fragments payload (fragment ∷ fragments) slots = omega (
  arith,
  length-apply_fragments payload fragments (map (apply_fragment payload fragment) slots),
  length-map (apply_fragment payload fragment) slots,
)

length-made_slots :
    (frame_bytes index : ℕ) (slots : List FrameSpool)
    → length (made_slots frame_bytes index slots)
      ≡ (elim (lookup_slot index slots) [ none ↦ 1 | some _ ↦ 0 ])
unfolding made_slots
length-made_slots frame_bytes index slots = ground arith

planned_step :
    (checked : Result MirrorError (Unit {0})) (more : Result MirrorError WritePlan)
    (fragment : MirrorFragment) (made : List FrameSpool) {plan : WritePlan}
    → (checked
        >> (more >>= λ rest.
            ok (record {
              fragments = fragment ∷ rest.fragments;
              new_slots = made ++ rest.new_slots;
            })))
      ≡ ok plan
    → (rest : WritePlan) × (more ≡ ok rest) × (plan.new_slots ≡ made ++ rest.new_slots)
planned_step (ok u) (ok rest) fragment made h = (rest, refl, ground arith)
planned_step (ok u) (err e) fragment made h = cc
planned_step (err e) more fragment made h = cc

-- A plan makes as many slots as planWriteLocked counted missing.
plan_frames-new_slots :
    (frame_bytes : ℕ) (slots : List FrameSpool) (offset end count index : ℕ) {plan : WritePlan}
    → plan_frames frame_bytes slots offset end count index ≡ ok plan
    → length plan.new_slots ≡ missing_slots slots count index
unfolding plan_frames missing_slots
plan_frames-new_slots frame_bytes slots offset end zero index h = ground arith
plan_frames-new_slots frame_bytes slots offset end (suc count) index h =
    let (rest, planned, made) =
      planned_step _ (plan_frames frame_bytes slots offset end count (index + 1))
        (fragment_of frame_bytes offset end index) (made_slots frame_bytes index slots) h in
    ground (
      arith,
      length-append (made_slots frame_bytes index slots) rest.new_slots,
      length-made_slots frame_bytes index slots,
      plan_frames-new_slots frame_bytes slots offset end count (index + 1) planned,
    )

plan_write_at-fits :
    (m : Mirror) (payload : List ℕ) (offset : ℕ) {plan : WritePlan}
    → plan_write_at m payload offset ≡ ok plan
    → length plan.new_slots + m.allocated ≤ m.max_slots
unfolding plan_write_at
plan_write_at-fits m payload offset {plan} h =
    let first : ℕ = offset / m.frame_bytes in
    let count : ℕ = (offset + length payload - 1) / m.frame_bytes - first + 1 in
    ground (
      arith,
      plan_frames-new_slots m.frame_bytes m.slots offset (offset + length payload) count first
          {plan = plan},
    )

-- A plan that passed needs no more slots than are free.
plan_write-fits :
    (m : Mirror) (payload : List ℕ) (offset : ℤ) {plan : WritePlan}
    → plan_write m payload offset ≡ ok plan
    → length plan.new_slots + m.allocated ≤ m.max_slots
unfolding plan_write
plan_write-fits m [] offset h = cc
plan_write-fits m (b ∷ payload) (negsuc n) h = cc
plan_write-fits m (b ∷ payload) (pos n) h = plan_write_at-fits m (b ∷ payload) n h

admit-Inv :
    (m : Mirror) (payload : List ℕ) (offset : ℕ) (plan : WritePlan)
    → m.state ≡ opened
    → length plan.new_slots + m.allocated ≤ m.max_slots
    → Inv m
    → Inv (admit m payload offset plan)
unfolding admit
admit-Inv m payload offset plan s fits h = ground (
  arith,
  length-apply_fragments payload plan.fragments (m.slots ++ plan.new_slots),
  length-append m.slots plan.new_slots,
)

write_return_ok :
    (size : ℕ) (result : Mirror × Option MirrorError)
    → result.1 ≡ none
    → write_return size result ≡ (result.0, (pos size, none))
unfolding write_return
write_return_ok size (m, none) e = refl
write_return_ok size (m, some x) e = cc

-- A write that the output took ends with no error.
pub write_admitted_lem :
    (m : Mirror) (payload : List ℕ) (offset : ℕ) (plan : WritePlan)
    → m.state ≡ opened
    → length plan.new_slots + m.allocated ≤ m.max_slots
    → Inv m
    → Inv (write_admitted m payload offset plan).0
      × ((write_admitted m payload offset plan).1 ≡ (pos (length payload), none))
unfolding write_admitted
write_admitted_lem m payload offset plan s fits h =
    let (e, done, kept) =
      enqueue_complete_total (admit m payload offset plan) (unfold admit in s)
        (admit-Inv m payload offset plan s fits h) in
    rw (write_return_ok (length payload) (enqueue_complete (admit m payload offset plan)) e)
      (kept, refl)

writable-opened : (m : Mirror) → writable_error m ≡ none → m.state ≡ opened
unfolding writable_error
writable-opened m h = ground arith

-- WriteAt on its four branches.
module _ (m : Mirror) (payload : List ℕ) (offset : ℤ) (answer : OutputAnswer) where
  pub write_at_refused :
      (e : MirrorError)
      → writable_error m ≡ some e
      → write_at m payload offset answer ≡ (m, (pos 0, some e))
  unfolding write_at
  write_at_refused e h = rw (h, write_at)

  pub write_at_unplanned :
      (e : MirrorError)
      → writable_error m ≡ none
      → plan_write m payload offset ≡ err e
      → write_at m payload offset answer ≡ (fail_and_cancel m e, (pos 0, some e))
  unfolding write_at
  write_at_unplanned e h p = rw (h, write_at) (rw p)

  pub write_at_unwritten :
      (e : MirrorError) (plan : WritePlan)
      → writable_error m ≡ none
      → plan_write m payload offset ≡ ok plan
      → output_error payload answer ≡ some e
      → write_at m payload offset answer ≡ (fail_and_cancel m e, (answer.written, some e))
  unfolding write_at
  write_at_unwritten e plan h p o = rw (h, write_at) (rw p (rw o))

  pub write_at_written :
      (plan : WritePlan)
      → writable_error m ≡ none
      → plan_write m payload offset ≡ ok plan
      → output_error payload answer ≡ none
      → write_at m payload offset answer ≡ write_admitted m payload (pos_part offset) plan
  unfolding write_at
  write_at_written plan h p o = rw (h, write_at) (rw p (rw o))

opened-not_sealed : (m : Mirror) → m.state ≡ opened → is_sealed_state m.state ≡ false
opened-not_sealed m s = rw s

-- WriteAt keeps the invariant, on every branch.
pub write_at-Inv :
    (m : Mirror) (payload : List ℕ) (offset : ℤ) (answer : OutputAnswer)
    → Inv m
    → Inv (write_at m payload offset answer).0
write_at-Inv m payload offset answer h = elim (Option-cases (writable_error m)) [
  | inr (e, w) ↦ rw (write_at_refused m payload offset answer e w) h
  | inl w ↦
      let s = opened-not_sealed m (writable-opened m w) in
      elim (Result-cases (plan_write m payload offset)) [
        | inr (e, p) ↦
            rw (write_at_unplanned m payload offset answer e w p) (fail_and_cancel-Inv m e s h)
        | inl (plan, p) ↦ elim (Option-cases (output_error payload answer)) [
          | inr (e, o) ↦
              rw (write_at_unwritten m payload offset answer e plan w p o)
                (fail_and_cancel-Inv m e s h)
          | inl o ↦
              rw (write_at_written m payload offset answer plan w p o)
                (write_admitted_lem m payload (pos_part offset) plan (writable-opened m w)
                  (plan_write-fits m payload offset p) h).0
        ]
      ]
]

-- On a mirror that satisfies the invariant, a write that is allowed, planned and taken whole by the
-- output returns the payload's length and no error: the frames behind it are sent without meeting a
-- full channel.
pub write_at_succeeds :
    (m : Mirror) (payload : List ℕ) (offset : ℤ) (answer : OutputAnswer) (plan : WritePlan)
    → Inv m
    → writable_error m ≡ none
    → plan_write m payload offset ≡ ok plan
    → output_error payload answer ≡ none
    → (write_at m payload offset answer).1 ≡ (pos (length payload), none)
write_at_succeeds m payload offset answer plan h w p o =
    rw (write_at_written m payload offset answer plan w p o)
      (write_admitted_lem m payload (pos_part offset) plan (writable-opened m w)
        (plan_write-fits m payload offset p) h).1
