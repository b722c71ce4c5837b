-- ===== src/Tests/Listing.antt =====
-- Runs of `jobs_list` of catlabel/services/print_jobs.py at concrete inputs.
use Prim.Native.String.{String}
use catlabel.Prelude.{
  ℕ, ◌+◌, ◌≡◌, refl, Bool, false, none, some, List, [], ◌∷◌, ok, arith, inl, inr, ltb, length, map,
  filter,
}
use catlabel.Services.Json.{obj, end}
use catlabel.Services.Platform.{Platform}
use catlabel.Services.Text.{char_count}
use catlabel.Services.Jobs.{Database, PrintJobRecord, job_result, validate_uuid, validate_principal}
use catlabel.Services.Jobs.Start.{Request, new_job}
use catlabel.Services.Jobs.Listing.{is_listed}
use catlabel.Services.Jobs.Listing.Order.{IsAscending}
use catlabel.Services.Jobs.Listing.Paging.{walk, walk_lists}

abbrev toy : Platform
toy = record {
  sha256 = λ content. "";
  uuid_text = λ text. some text;
  dumps = λ value. some "{}";
  loads = λ text. some (obj end);
  utf8 = λ text. [];
}

-- Shorter texts come first; the identifiers have different lengths.
abbrev shorter : String → String → Bool
shorter a b = ltb (char_count a) (char_count b)

abbrev request_of : String → Request
request_of principal = record {
  plan_id = "plan";
  plan_hash = "";
  key = "key";
  principal = principal;
  request_hash = "";
  manifest_json = "{}";
  source_ids = [];
}

abbrev four_jobs : Database
four_jobs = record {
  store = record { records = []; pins = []; blobs = λ id. none; quota_bytes = 1; closed = false };
  plans = [];
  jobs =
      new_job (request_of "user") "ccc" 1
      ∷ new_job (request_of "user") "a" 2
      ∷ new_job (request_of "other") "dddd" 3
      ∷ new_job (request_of "user") "bb" 4
      ∷ [];
}

pages_of_two :
    walk shorter toy "user" 2 four_jobs 2 none
    ≡ some (
        ok (
          map
            (λ (id : String × ℕ). job_result toy (new_job (request_of "user") id.0 id.1))
            (("a", 2) ∷ ("bb", 4) ∷ ("ccc", 1) ∷ [])))
unfolding walk
pages_of_two = refl

walk_lists_example :
    (jobs : List PrintJobRecord) × (walk shorter toy "user" 2 four_jobs
        (length four_jobs.jobs + 1)
        none
      ≡ some (ok (map (job_result toy) jobs)))
    × IsAscending shorter jobs
    × ((test : PrintJobRecord → Bool)
        → length (filter test jobs)
          ≡ length (filter test (filter (is_listed "user") four_jobs.jobs)))
unfolding validate_principal validate_uuid
walk_lists_example =
    walk_lists shorter toy "user" 2 four_jobs (λ a b c h k. ground arith) (λ a. ground arith) refl
      (omega arith) (omega arith)
      (
        (inr refl, (inl refl, (inr refl, tt))),
        ((inl refl, (inl refl, tt)), ((inr refl, tt), (tt, tt))),
      )
      (refl, (refl, (refl, (refl, tt))))
