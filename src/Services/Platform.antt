-- ===== src/Services/Platform.antt =====
-- What catlabel/services calls and does not implement: `hashlib.sha256(...).hexdigest()`,
-- `str(uuid.UUID(text))` (`none` where it raises), the canonical `json.dumps` with sorted keys and
-- without NaN (`none` where it raises), `json.loads` (`none` where it raises) and UTF-8.
use Prim.Native.String.{String}
use catlabel.Prelude.{Bytes, Option}
use catlabel.Services.Json.{Json}

pub record Platform : Type 0 where
  pub sha256 : Bytes → String
  pub uuid_text : String → Option String
  pub dumps : Json → Option String
  pub loads : String → Option Json
  pub utf8 : String → Bytes
