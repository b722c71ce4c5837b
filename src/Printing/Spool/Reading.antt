-- ===== src/Printing/Spool/Reading.antt =====
-- What is read from the spool of catlabel/printing/job_spool.py when its file and its table of
-- matchers have grown.
use catlabel.Prelude.{
  ℕ, zero, suc, ◌+◌, ◌-◌, ◌≡◌, refl, ap, sym, ◌∙◌, Bytes, List, [], ◌∷◌, ◌++◌, true, Option, none,
  some, ok, >>=-eq-ok, ok-injective, length, take, drop, slice, leb, concat, arith, Bool-cases,
  Option-cases, inl, inr, length-take, length-drop, drop-append_le, take-append_le,
  drop-append_length, take-append_length, append_assoc, append-nil,
}
use catlabel.Protocol.Steps.{ProtocolStep, ProtocolJob}
use catlabel.Printing.Spool.{
  Codec, Extent, StepMetadata, read_span, restore_matcher, restore_step, restore_steps, read_job,
  read_all, write_all, decoded,
}

-- A span that the file holds.
pub read_span-found :
    (front found back : Bytes) (offset count : ℕ)
    → offset ≡ length front
    → count ≡ length found
    → read_span (front ++ (found ++ back)) offset count ≡ ok found
unfolding read_span
read_span-found front found back offset count at size =
    rw
      (at, size, drop-append_length front (found ++ back), take-append_length found back, read_span)
      (ground arith)

read_span-within :
    (file : Bytes) (offset count : ℕ) (found : Bytes)
    → read_span file offset count ≡ ok found
    → (slice offset count file ≡ found) × (length (slice offset count file) ≡ count)
unfolding read_span
read_span-within file offset count found e = ground arith

slice-append :
    (file more : Bytes) (offset count : ℕ)
    → length (slice offset count file) ≡ count
    → slice offset count (file ++ more) ≡ slice offset count file
slice-append file more offset zero e = refl
slice-append file more offset (suc count) e =
    let sizes = length-take (suc count) (drop offset file) in
    let size = length-drop offset file in
    rw (drop-append_le offset file more (omega arith))
      (take-append_le (suc count) (drop offset file) more (omega arith))

pub read_span-append :
    (file more : Bytes) (offset count : ℕ) (found : Bytes)
    → read_span file offset count ≡ ok found
    → read_span (file ++ more) offset count ≡ ok found
unfolding read_span
read_span-append file more offset count found e =
    let (same, size) = read_span-within file offset count found e in
    rw (slice-append file more offset count size, read_span) e

-- A table that has kept its entries.
abbrev pub Extends : (ℕ → Option ℕ) → (ℕ → Option ℕ) → Type 0
Extends t u = (id matcher : ℕ) → t id ≡ some matcher → u id ≡ some matcher

module _ (file more : Bytes) (t u : ℕ → Option ℕ) (grows : Extends t u) where
  pub restore_matcher-grown :
      (id found : Option ℕ) → restore_matcher t id ≡ ok found → restore_matcher u id ≡ ok found
  restore_matcher-grown none found e = e
  restore_matcher-grown (some id) found e = elim (Option-cases (t id)) [
    | inl f ↦ cc (rw (f, restore_matcher) at e)
    | inr (matcher, f) ↦ rw (restore_matcher, grows id matcher f) (rw (f, restore_matcher) at e)
  ]

  restore_step-grown :
      (start : ℕ) (m : StepMetadata) (step : ProtocolStep)
      → restore_step file t start m ≡ ok step
      → restore_step (file ++ more) u start m ≡ ok step
  unfolding restore_step
  restore_step-grown start m step e =
      let (matcher, found, e') = >>=-eq-ok (restore_matcher t m.reply_matcher_id) _ e in
      let (bytes, span, made) =
        >>=-eq-ok (read_span file (start + m.data_offset) m.data_length) _ e' in
      rw
        (
          restore_step,
          restore_matcher-grown m.reply_matcher_id matcher found,
          read_span-append file more (start + m.data_offset) m.data_length bytes span,
        )
        made

  restore_steps-grown :
      (start : ℕ) (ms : List StepMetadata) (steps : List ProtocolStep)
      → restore_steps file t start ms ≡ ok steps
      → restore_steps (file ++ more) u start ms ≡ ok steps
  unfolding restore_steps
  restore_steps-grown start [] steps e = e
  restore_steps-grown start (m ∷ ms) steps e =
      let (step, first, e') = >>=-eq-ok (restore_step file t start m) _ e in
      let (rest, later, made) = >>=-eq-ok (restore_steps file t start ms) _ e' in
      rw
        (
          restore_steps,
          restore_step-grown start m step first,
          restore_steps-grown start ms rest later,
        )
        made

  module _ (codec : Codec) where
    read_job-grown :
        (extent : Extent) (job : ProtocolJob)
        → read_job codec file t extent ≡ ok job
        → read_job codec (file ++ more) u extent ≡ ok job
    unfolding read_job
    read_job-grown extent job e =
        let (text, found, e') =
          >>=-eq-ok (read_span file extent.metadata_offset extent.metadata_length) _ e in
        let (m, meant, e'') = >>=-eq-ok (decoded (codec.decode text)) _ e' in
        let (payload, span, e''') =
          >>=-eq-ok (read_span file (extent.start + m.payload_offset) m.payload_length) _ e'' in
        let (steps, restored, made) =
          >>=-eq-ok (restore_steps file t extent.start m.steps) _ e''' in
        rw
          (
            read_job,
            read_span-append file more extent.metadata_offset extent.metadata_length text found,
            meant,
            read_span-append file more (extent.start + m.payload_offset) m.payload_length payload
                span,
            restore_steps-grown extent.start m.steps steps restored,
          )
          made

    -- The jobs of a spool, read behind a further append, and the appended one.
    pub read_all-snoc :
        (extents : List Extent) (jobs : List ProtocolJob) (extent : Extent) (job : ProtocolJob)
        → read_all codec file t extents ≡ ok jobs
        → read_job codec (file ++ more) u extent ≡ ok job
        → read_all codec (file ++ more) u (extents ++ extent ∷ []) ≡ ok (jobs ++ job ∷ [])
    unfolding read_all
    read_all-snoc [] jobs extent job e new =
        let none_yet = ok-injective e in
        rw (read_all, new) (ap (λ js. ok (js ++ job ∷ [])) none_yet)
    read_all-snoc (x ∷ extents) jobs extent job e new =
        let (first, found, e') = >>=-eq-ok (read_job codec file t x) _ e in
        let (rest, later, made) = >>=-eq-ok (read_all codec file t extents) _ e' in
        rw (read_all, read_job-grown x first found, read_all-snoc extents rest extent job later new)
          (ap (λ js. ok (js ++ job ∷ [])) (ok-injective made))

-- Writes that were all whole put the chunks behind the file.
pub write_all-whole :
    (room : Option ℕ) (chunks : List Bytes) (file : Bytes)
    → (write_all room chunks file).1 ≡ true
    → (write_all room chunks file).0 ≡ file ++ concat chunks
unfolding write_all
write_all-whole none [] file e = sym (append-nil file)
write_all-whole (some room) [] file e = sym (append-nil file)
write_all-whole none (c ∷ chunks) file e =
    write_all-whole none chunks (file ++ c) e ∙ append_assoc file c (concat chunks)
write_all-whole (some room) (c ∷ chunks) file e = elim (Bool-cases (leb (length c) room)) [
  | inl fits ↦
      rw (fits, write_all)
        (write_all-whole (some (room - length c)) chunks (file ++ c) (rw (fits, write_all) at e)
          ∙ append_assoc file c (concat chunks))
  | inr full ↦ cc (rw (full, write_all) at e)
]

-- Whatever was written, the file begins as before.
pub take-write_all :
    (room : Option ℕ) (chunks : List Bytes) (file : Bytes)
    → (more : Bytes) × ((write_all room chunks file).0 ≡ file ++ more)
unfolding write_all
take-write_all none [] file = ([], sym (append-nil file))
take-write_all (some room) [] file = ([], sym (append-nil file))
take-write_all none (c ∷ chunks) file =
    let (more, e) = take-write_all none chunks (file ++ c) in
    (c ++ more, e ∙ append_assoc file c more)
take-write_all (some room) (c ∷ chunks) file = elim (Bool-cases (leb (length c) room)) [
  | inl fits ↦
      let (more, e) = take-write_all (some (room - length c)) chunks (file ++ c) in
      (c ++ more, rw (fits, write_all) (e ∙ append_assoc file c more))
  | inr full ↦ (take room c, rw (full, write_all) refl)
]
