-- ===== src/Printing/Spool/Refinement.antt =====
-- The spool of catlabel/printing/job_spool.py against a list of jobs.
use catlabel.Prelude.{
  ℕ, ◌+◌, ◌≤◌, ◌<◌, ◌≡◌, ◌≢◌, refl, ap, sym, ◌∙◌, Bytes, List, [], ◌∷◌, ◌++◌, Bool, true, false,
  Option, some, Result, ok, err, length, take, leb, ltb, arith, All, ◌⊎◌, if◌then◌else◌, inl, inr,
  subst, length-append, take-append_length,
}
use catlabel.Protocol.Steps.{ProtocolJob}
use catlabel.Printing.Spool.{
  Codec, Spool, SpoolError, too_many_jobs, too_many_bytes, write_failed, not_rolled_back,
  spool_invalid, spool_closed, job_metadata, job_pending, new_spool, max_print_jobs, steps_bytes,
  invalidate, chunks, appended, append, write_all, install, read_all, iterate, ensure_open,
}
use catlabel.Printing.Spool.Reading.{read_all-snoc, write_all-whole, take-write_all}
use catlabel.Printing.Spool.Contents.{
  IsJob, ReadsBack, Represents, job_steps-Described, read_job-extended, concat-chunks,
}

-- The list behind an append, by its answer: a job more, none left, or as it was.
abbrev pub after_append :
    Result SpoolError (Unit {0}) → ProtocolJob → List ProtocolJob → List ProtocolJob
after_append (ok u) job jobs = jobs ++ job ∷ []
after_append (err not_rolled_back) job jobs = []
after_append (err _) job jobs = jobs

-- An append in a history: the job, the room on the device and whether a rollback would succeed.
pub record Attempt : Type 0 where
  pub job : ProtocolJob
  pub room : Option ℕ
  pub rolled_back : Bool

-- A file that is cut off where it ended is as it was.
cut_off :
    (room : Option ℕ) (parts : List Bytes) (file : Bytes)
    → take (length file) (write_all room parts file).0 ≡ file
cut_off room parts file =
    let (more, e) = take-write_all room parts file in
    ap (λ t. take (length file) t) e ∙ take-append_length file more

module _ (codec : Codec) where
  abbrev pub metadata : Spool → ProtocolJob → Bytes
  metadata s job = codec.encode (job_metadata s job)

  abbrev pub append_size : Spool → ProtocolJob → ℕ
  append_size s job = length job.payload + length (steps_bytes job.steps) + length (metadata s job)

  -- The branches of an append, one after another.
  pub data Answer (job : ProtocolJob) (room : Option ℕ) (s : Spool)
      : Result SpoolError (Unit {0}) × Spool → Type 0 where
    refused : (e : SpoolError) → e ≢ not_rolled_back → Answer job room s (err e, s)
    lost : Answer job room s (
      err not_rolled_back,
      invalidate (record s { file = (write_all room (chunks job (metadata s job)) s.file).0 }),
    )
    done :
        length s.records < max_print_jobs
        → s.total_bytes + append_size s job ≤ s.max_bytes
        → (write_all room (chunks job (metadata s job)) s.file).1 ≡ true
        → Answer job room s (
          ok tt,
          appended s job
              (metadata s job)
              (write_all room (chunks job (metadata s job)) s.file).0
              (append_size s job),
        )

  by_tests :
      (job : ProtocolJob) (room : Option ℕ) (s : Spool)
      (invalid closed many big whole rolled_back : Bool)
      → (many ≡ false → length s.records < max_print_jobs)
      → (big ≡ false → s.total_bytes + append_size s job ≤ s.max_bytes)
      → (write_all room (chunks job (metadata s job)) s.file).1 ≡ whole
      → let file = (write_all room (chunks job (metadata s job)) s.file).0 in
        Answer job room s (
          if invalid
          then (err spool_invalid, s)
          else if closed
          then (err spool_closed, s)
          else if many
          then (err too_many_jobs, s)
          else if big
          then (err too_many_bytes, s)
          else if whole
          then (ok tt, appended s job (metadata s job) file (append_size s job))
          else if rolled_back
          then (err write_failed, record s { file = take (length s.file) file })
          else (err not_rolled_back, invalidate (record s { file = file })))
  by_tests job room s true closed many big whole rolled_back few small e =
      refused spool_invalid (cc)
  by_tests job room s false true many big whole rolled_back few small e = refused spool_closed (cc)
  by_tests job room s false false true big whole rolled_back few small e =
      refused too_many_jobs (cc)
  by_tests job room s false false false true whole rolled_back few small e =
      refused too_many_bytes (cc)
  by_tests job room s false false false false true rolled_back few small e =
      done (few refl) (small refl) e
  by_tests job room s false false false false false true few small e =
      subst (λ file. Answer job room s (err write_failed, record s { file = file }))
        (sym (cut_off room (chunks job (metadata s job)) s.file)) (refused write_failed (cc))
  by_tests job room s false false false false false false few small e = lost

  append-Answer :
      (job : ProtocolJob) (room : Option ℕ) (rolled_back : Bool) (s : Spool)
      → Answer job room s (append codec job room rolled_back s)
  unfolding append
  append-Answer job room rolled_back s =
      by_tests job room s s.invalid s.closed (leb max_print_jobs (length s.records))
        (ltb s.max_bytes (s.total_bytes + append_size s job))
        (write_all room (chunks job (metadata s job)) s.file).1 rolled_back (λ h. ground arith)
        (λ h. ground arith) refl

  -- An append that fails leaves the spool exactly as it was, whatever was written before the
  -- failure, unless the rollback failed too: then the spool is invalid.
  pub append_failed :
      (job : ProtocolJob) (room : Option ℕ) (rolled_back : Bool) (s : Spool) (e : SpoolError)
      → (append codec job room rolled_back s).0 ≡ err e
      → ((append codec job room rolled_back s).1 ≡ s)
        ⊎ ((e ≡ not_rolled_back) × ((append codec job room rolled_back s).1.invalid ≡ true))
  unfolding invalidate
  append_failed job room rolled_back s e h =
      of_answer (append codec job room rolled_back s) (append-Answer job room rolled_back s) h
    where
      of_answer :
          (r : Result SpoolError (Unit {0}) × Spool)
          → Answer job room s r
          → r.0 ≡ err e
          → (r.1 ≡ s) ⊎ ((e ≡ not_rolled_back) × (r.1.invalid ≡ true))
      of_answer r (refused x not_lost) h = inl refl
      of_answer r lost h = inr (cc, refl)
      of_answer r (done few small whole) h = cc

  Represents-appended :
      (job : ProtocolJob) (room : Option ℕ) (s : Spool) (jobs : List ProtocolJob)
      → Represents codec s jobs
      → IsJob job
      → ReadsBack codec job
      → length s.records < max_print_jobs
      → s.total_bytes + append_size s job ≤ s.max_bytes
      → (write_all room (chunks job (metadata s job)) s.file).1 ≡ true
      → Represents codec
          (appended s job
            (metadata s job)
            (write_all room (chunks job (metadata s job)) s.file).0
            (append_size s job))
          (jobs ++ job ∷ [])
  unfolding install
  Represents-appended job room s jobs r valid decodes few small whole =
      let more = job.payload ++ (steps_bytes job.steps ++ metadata s job) in
      let joined : (write_all room (chunks job (metadata s job)) s.file).0 ≡ s.file ++ more =
        write_all-whole room (chunks job (metadata s job)) s.file whole
        ∙ ap (λ t. s.file ++ (job.payload ++ t)) (concat-chunks job.steps (metadata s job)) in
      let d = job_steps-Described codec s job jobs r in
      record {
        reads = rw joined (
            read_all-snoc s.file more s.reply_matchers
              (install (job_pending s job).matchers s.reply_matchers) d.grows codec s.records jobs _
              job r.reads (read_job-extended codec s job jobs r valid decodes));
        free = d.consistent.free;
        sized = rw joined (
            omega (
              arith,
              r.sized,
              length-append s.file more,
              length-append job.payload (steps_bytes job.steps ++ metadata s job),
              length-append (steps_bytes job.steps) (metadata s job),
            ));
        within = small;
        counted = omega (arith, length-append s.records);
      }

  -- An append refines the list: with a job more, with the jobs as they were, or, once a rollback
  -- failed, with none.
  append-Represents :
      (job : ProtocolJob) (room : Option ℕ) (rolled_back : Bool) (s : Spool)
      (jobs : List ProtocolJob)
      → Represents codec s jobs
      → IsJob job
      → ReadsBack codec job
      → Represents codec
          (append codec job room rolled_back s).1
          (after_append (append codec job room rolled_back s).0 job jobs)
  unfolding invalidate read_all
  append-Represents job room rolled_back s jobs r valid decodes =
      of_answer (append codec job room rolled_back s) (append-Answer job room rolled_back s)
    where
      same : (e : SpoolError) → e ≢ not_rolled_back → after_append (err e) job jobs ≡ jobs
      same not_rolled_back h = absurd (h refl)
      same _ h = refl

      of_answer :
          (a : Result SpoolError (Unit {0}) × Spool)
          → Answer job room s a
          → Represents codec a.1 (after_append a.0 job jobs)
      of_answer a (refused x not_lost) = subst (Represents codec s) (sym (same x not_lost)) r
      of_answer a lost = record {
        reads = refl;
        free = λ id h. refl;
        sized = refl;
        within = omega arith;
        counted = omega arith;
      }
      of_answer a (done few small whole) =
          Represents-appended job room s jobs r valid decodes few small whole

  -- A history of appends, and the list that it makes.
  unfoldable pub run : List Attempt → Spool → Spool
  run [] s = s
  run (a ∷ attempts) s = run attempts (append codec a.job a.room a.rolled_back s).1

  unfoldable pub kept : List Attempt → Spool → List ProtocolJob → List ProtocolJob
  kept [] s jobs = jobs
  kept (a ∷ attempts) s jobs =
      let (answer, after) = append codec a.job a.room a.rolled_back s in
      kept attempts after (after_append answer a.job jobs)

  append-max_bytes :
      (job : ProtocolJob) (room : Option ℕ) (rolled_back : Bool) (s : Spool)
      → (append codec job room rolled_back s).1.max_bytes ≡ s.max_bytes
  unfolding invalidate
  append-max_bytes job room rolled_back s =
      of_answer (append codec job room rolled_back s) (append-Answer job room rolled_back s)
    where
      of_answer :
          (a : Result SpoolError (Unit {0}) × Spool)
          → Answer job room s a
          → a.1.max_bytes ≡ s.max_bytes
      of_answer a (refused x not_lost) = refl
      of_answer a lost = refl
      of_answer a (done few small whole) = refl

  run-max_bytes : (attempts : List Attempt) (s : Spool) → (run attempts s).max_bytes ≡ s.max_bytes
  unfolding run
  run-max_bytes [] s = refl
  run-max_bytes (a ∷ attempts) s =
      run-max_bytes attempts (append codec a.job a.room a.rolled_back s).1
      ∙ append-max_bytes a.job a.room a.rolled_back s

  run-Represents :
      (attempts : List Attempt) (s : Spool) (jobs : List ProtocolJob)
      → All (λ a. IsJob a.job) attempts
      → All (λ a. ReadsBack codec a.job) attempts
      → Represents codec s jobs
      → Represents codec (run attempts s) (kept attempts s jobs)
  unfolding run kept
  run-Represents [] s jobs valid decodes r = r
  run-Represents (a ∷ attempts) s jobs (v, valid) (d, decodes) r =
      run-Represents attempts (append codec a.job a.room a.rolled_back s).1
        (after_append (append codec a.job a.room a.rolled_back s).0 a.job jobs) valid decodes
        (append-Represents a.job a.room a.rolled_back s jobs r v d)

  -- After any history of appends to a new spool, whatever failed in it, an open spool iterates over
  -- exactly the jobs whose appends succeeded, in their order, byte for byte and with their own reply
  -- matchers; and the file never grows beyond the limit. Each job is one that its constructors
  -- accept, and the JSON decoder reads its metadata back as the encoder wrote them.
  pub iterate-run :
      (attempts : List Attempt) (max_bytes : ℕ)
      → All (λ a. IsJob a.job) attempts
      → All
          (λ a.
            (s : Spool)
            → codec.decode (codec.encode (job_metadata s a.job)) ≡ some (job_metadata s a.job))
          attempts
      → (ensure_open (run attempts (new_spool max_bytes)) ≡ ok tt
          → iterate codec (run attempts (new_spool max_bytes))
            ≡ ok (kept attempts (new_spool max_bytes) []))
        × (length (run attempts (new_spool max_bytes)).file ≤ max_bytes)
  unfolding iterate new_spool read_all
  iterate-run attempts max_bytes valid decodes =
      let start = new_spool max_bytes in
      let r = run-Represents attempts start [] valid decodes (record {
        reads = refl;
        free = λ id h. refl;
        sized = refl;
        within = omega arith;
        counted = omega arith;
      }) in
      (
        λ opened. rw (iterate, opened) r.reads,
        omega (arith, r.sized, r.within, run-max_bytes attempts start),
      )
