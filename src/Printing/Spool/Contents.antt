-- ===== src/Printing/Spool/Contents.antt =====
-- The jobs that the spool of catlabel/printing/job_spool.py holds.
use catlabel.Prelude.{
  ℕ, ◌+◌, ◌≤◌, ◌≡◌, refl, ap, sym, ◌∙◌, Bytes, List, [], ◌∷◌, ◌++◌, Option, none, some, ok, length,
  concat, map, arith, All, subst, append_assoc, append-nil, length-append,
}
use catlabel.Protocol.Steps.{ProtocolStep, ProtocolJob, make_step, make_job}
use catlabel.Printing.Spool.{
  max_print_jobs, Codec, Spool, Pending, assign, describe, step_metadata, steps_bytes, job_metadata,
  job_pending, install, read_span, restore_matcher, restore_step, restore_steps, read_job, read_all,
}
use catlabel.Printing.Spool.Reading.{Extends, read_span-found, restore_matcher-grown}
use catlabel.Printing.Spool.Matchers.{Consistent, grown, assign-Assigned}

-- A job as its constructors make it.
pub record IsJob (job : ProtocolJob) : Type 0 where
  pub steps_valid : All (λ step. make_step step ≡ ok step) job.steps
  pub consistent : make_job (some job.payload) job.steps job.wait_for_completion ≡ ok job

module _ (s : Spool) where
  -- What `describe` has written down is read back, where the file holds the steps' bytes.
  pub record Described (steps : List ProtocolStep) (offset : ℕ) (p : Pending) : Type 0 where
    pub consistent : Consistent s (describe s steps offset p).1
    pub grows : Extends (grown s p) (grown s (describe s steps offset p).1)
    pub restored :
        (front back : Bytes) (start : ℕ)
        → start + offset ≡ length front
        → All (λ step. make_step step ≡ ok step) steps
        → restore_steps
            (front ++ (steps_bytes steps ++ back))
            (grown s (describe s steps offset p).1)
            start
            (describe s steps offset p).0
          ≡ ok steps

  restore_step-described :
      (file : Bytes) (table : ℕ → Option ℕ) (start offset : ℕ) (id : Option ℕ) (step : ProtocolStep)
      → restore_matcher table id ≡ ok step.reply_matcher
      → read_span file (start + offset) (length step.bytes) ≡ ok step.bytes
      → make_step step ≡ ok step
      → restore_step file table start (step_metadata step offset id) ≡ ok step
  unfolding restore_step
  restore_step-described file table start offset id step matcher span valid =
      rw (restore_step, matcher, span, valid) refl

  describe-Described :
      (steps : List ProtocolStep) (offset : ℕ) (p : Pending)
      → Consistent s p
      → Described steps offset p
  unfolding describe restore_steps
  describe-Described [] offset p c = record {
    consistent = c;
    grows = λ id m e. e;
    restored = λ front back start at valid. refl;
  }
  describe-Described (step ∷ steps) offset p c =
      let a = assign-Assigned s step.reply_matcher p c in
      let q = (assign s step.reply_matcher p).1 in
      let id = (assign s step.reply_matcher p).0 in
      let later = describe-Described steps (offset + length step.bytes) q a.consistent in
      let last = (describe s steps (offset + length step.bytes) q).1 in
      record {
        consistent = later.consistent;
        grows = λ i m e. later.grows i m (a.grows i m e);
        restored = λ front back start at (first_valid, valid).
            let table = grown s last in
            let rest = steps_bytes steps ++ back in
            let regroup : front ++ ((step.bytes ++ steps_bytes steps) ++ back)
                ≡ front ++ (step.bytes ++ rest) =
              ap (λ t. front ++ t) (append_assoc step.bytes (steps_bytes steps) back) in
            let split : (front ++ step.bytes) ++ rest ≡ front ++ (step.bytes ++ rest) =
              append_assoc front step.bytes rest in
            let first =
              restore_step-described (front ++ (step.bytes ++ rest)) table start offset id step
                (restore_matcher-grown [] [] (grown s q) table later.grows id step.reply_matcher
                  a.restored)
                (read_span-found front step.bytes rest (start + offset) (length step.bytes) at refl)
                first_valid in
            let others =
              later.restored (front ++ step.bytes) back start
                (omega (arith, at, length-append front step.bytes)) valid in
            let others' =
              subst
                (λ file.
                  restore_steps file table start (describe s steps (offset + length step.bytes) q).0
                  ≡ ok steps)
                split others in
            subst
              (λ file.
                restore_steps file table start (describe s (step ∷ steps) offset p).0
                ≡ ok (step ∷ steps))
              (sym regroup) (rw (restore_steps, first, others') refl);
      }

pub concat-chunks :
    (steps : List ProtocolStep) (metadata : Bytes)
    → concat (map (λ step. step.bytes) steps ++ metadata ∷ []) ≡ steps_bytes steps ++ metadata
concat-chunks [] metadata = append-nil metadata
concat-chunks (step ∷ steps) metadata =
    ap (λ t. step.bytes ++ t) (concat-chunks steps metadata)
    ∙ sym (append_assoc step.bytes (steps_bytes steps) metadata)

-- What the spool stands for: reading it gives the jobs, and its books are right.
pub record Represents (codec : Codec) (s : Spool) (jobs : List ProtocolJob) : Type 0 where
  pub reads : read_all codec s.file s.reply_matchers s.records ≡ ok jobs
  pub free : (id : ℕ) → s.next_matcher_id ≤ id → s.reply_matchers id ≡ none
  pub sized : s.total_bytes ≡ length s.file
  pub within : s.total_bytes ≤ s.max_bytes
  pub counted : length s.records ≤ max_print_jobs

module _ (codec : Codec) where
  -- The metadata of a job are read back as they are written, whatever the spool that it joins.
  abbrev pub ReadsBack : ProtocolJob → Type 0
  ReadsBack job =
      (s : Spool) → codec.decode (codec.encode (job_metadata s job)) ≡ some (job_metadata s job)

  -- The file behind the writes of an append.
  abbrev pub extended : Spool → ProtocolJob → Bytes
  extended s job =
      s.file ++ (job.payload ++ (steps_bytes job.steps ++ codec.encode (job_metadata s job)))

  pub job_steps-Described :
      (s : Spool) (job : ProtocolJob) (jobs : List ProtocolJob)
      → Represents codec s jobs
      → Described s job.steps
          (length job.payload)
          (record { matchers = []; next_id = s.next_matcher_id })
  unfolding install
  job_steps-Described s job jobs r =
      describe-Described s job.steps (length job.payload)
        (record { matchers = []; next_id = s.next_matcher_id })
        (record { found = λ m id e. cc; free = r.free; kept = λ id m e. e })

  pub read_job-extended :
      (s : Spool) (job : ProtocolJob) (jobs : List ProtocolJob)
      → Represents codec s jobs
      → IsJob job
      → ReadsBack job
      → read_job codec
          (extended s job)
          (install (job_pending s job).matchers s.reply_matchers)
          (record {
            start = length s.file;
            metadata_offset = length s.file + length job.payload + length (steps_bytes job.steps);
            metadata_length = length (codec.encode (job_metadata s job));
          })
        ≡ ok job
  unfolding read_job
  read_job-extended s job jobs r valid decodes =
      let metadata = codec.encode (job_metadata s job) in
      let bytes = steps_bytes job.steps in
      let front = (s.file ++ job.payload) ++ bytes in
      let whole : extended s job ≡ front ++ metadata =
        ap (λ t. s.file ++ t) (sym (append_assoc job.payload bytes metadata))
        ∙ sym (append_assoc s.file (job.payload ++ bytes) metadata)
        ∙ ap (λ t. t ++ metadata) (sym (append_assoc s.file job.payload bytes)) in
      let parts : (s.file ++ job.payload) ++ (bytes ++ metadata) ≡ extended s job =
        append_assoc s.file job.payload (bytes ++ metadata) in
      let text : read_span (extended s job) (length s.file + length job.payload + length bytes)
            (length metadata)
          ≡ ok metadata =
        rw whole (
          subst
            (λ t.
              read_span (front ++ t) (length s.file + length job.payload + length bytes)
                (length metadata)
              ≡ ok metadata)
            (append-nil metadata)
            (read_span-found front metadata [] (length s.file + length job.payload + length bytes)
              (length metadata)
              (omega (
                arith,
                length-append (s.file ++ job.payload) bytes,
                length-append s.file job.payload,
              ))
              refl)) in
      let payload =
        read_span-found s.file job.payload (bytes ++ metadata) (length s.file + 0)
          (length job.payload) (omega arith) refl in
      let steps =
        subst
          (λ file.
            restore_steps file (install (job_pending s job).matchers s.reply_matchers)
              (length s.file)
              (describe s job.steps (length job.payload)
                (record { matchers = []; next_id = s.next_matcher_id })).0
            ≡ ok job.steps)
          parts
          ((job_steps-Described s job jobs r).restored (s.file ++ job.payload) metadata
            (length s.file) (omega (arith, length-append s.file job.payload)) valid.steps_valid) in
      rw (read_job, text, decodes s, payload, steps, valid.consistent) refl
