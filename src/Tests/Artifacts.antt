-- ===== src/Tests/Artifacts.antt =====
-- Runs of the artifact store of catlabel/services/artifacts.py at concrete inputs.
use catlabel.Prelude.{◌≡◌, ◌≤◌, refl, Bytes, [], ◌∷◌, true, false, none, some, ok, arith}
use catlabel.Services.Platform.{Platform}
use catlabel.Services.Json.{obj, end}
use catlabel.Services.Artifacts.{
  ArtifactStore, ArtifactRecord, find_record, used_bytes, put_bytes, read_bytes,
}
use catlabel.Services.Artifacts.Storage.{stored, read_bytes-put_bytes, put_bytes-quota}

abbrev plain : Platform
plain = record {
  sha256 = λ content. "digest";
  uuid_text = λ text. some text;
  dumps = λ value. some "{}";
  loads = λ text. some (obj end);
  utf8 = λ text. [];
}

abbrev image : Bytes
image = 1 ∷ 2 ∷ 3 ∷ []

abbrev older : ArtifactRecord
older = stored plain (9 ∷ []) "image/png" "source" 10 0 "first"

abbrev one_file : ArtifactStore
one_file = record {
  records = older ∷ [];
  pins = [];
  blobs = λ id. some (9 ∷ []);
  quota_bytes = 4;
  closed = false;
}

puts_image :
    (put_bytes plain image "image/png" "source" 60 5 "second" true true true false one_file).0
    ≡ ok (stored plain image "image/png" "source" 60 5 "second")
unfolding put_bytes
puts_image = refl

has_no_second : find_record "second" one_file.records ≡ none
unfolding find_record
has_no_second = refl

read_bytes-put_bytes_example :
    read_bytes plain
      (put_bytes plain image "image/png" "source" 60 5 "second" true true true false one_file).1
      "second"
    ≡ ok image
read_bytes-put_bytes_example =
    read_bytes-put_bytes plain image "image/png" "source" 60 5 "second" true true true false
      one_file (stored plain image "image/png" "source" 60 5 "second") puts_image refl has_no_second

put_bytes-quota_example :
    used_bytes plain
      (put_bytes plain image "image/png" "source" 60 5 "second" true true true false
        one_file).1.records
    ≤ (put_bytes plain image "image/png" "source" 60 5 "second" true true true false
        one_file).1.quota_bytes
put_bytes-quota_example =
    put_bytes-quota plain image "image/png" "source" 60 5 "second" true true true false one_file
      (omega arith)
