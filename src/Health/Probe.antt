-- ===== src/Health/Probe.antt =====
-- `read_health_status` of service_health.py.
use sm_artmatch.Prelude.{
  ℕ, Bool, true, false, not, Option, none, some, String, ltb, if◌then◌else◌, Result, ok, err, ◌>>=◌,
  str_eq, ◌==◌,
}
use sm_artmatch.Prelude.Int.{ℤ, pos, negsuc, ◌-ℤ◌, ◌*ℤ◌, ltb_ℤ, leb_ℤ}
use sm_artmatch.Prelude.Dicts.{contains, Dict, lookup}
use sm_artmatch.Health.{
  Json, integer, float, text, Loaded, dict, no_dict, healthy_states, known_states, max_status_bytes,
}

pub data Diagnosis : Type 0 where
  bad_max_age unavailable too_large not_json unsupported_schema no_service no_detail : Diagnosis
  no_display_timestamp unknown_state no_timestamp in_future stale : Diagnosis
  service_state : String → Diagnosis

-- A diagnosis, and the document if it is returned.
abbrev pub Failure : Type 0
Failure = Diagnosis × Option (Dict Json)

-- The state of a healthy service, and the document.
abbrev pub Status : Type 0
Status = String × Dict Json

unfoldable pub require : Bool → Failure → Result Failure (Unit {0})
require true failure = ok tt
require false failure = err failure

abbrev pub text_of : Option Json → Option String
text_of (some (text s)) = some s
text_of _ = none

-- A JSON integer; the type of a Boolean is not int.
abbrev pub is_schema : Option Json → Bool
is_schema (some (integer (pos n))) = n == 1
is_schema _ = false

-- The milliseconds of a number that is finite and no Boolean.
abbrev pub time_of : Option Json → Option ℤ
time_of (some (integer n)) = some (n *ℤ pos 1000)
time_of (some (float t)) = some t
time_of _ = none

abbrev pub is_text : Option Json → Bool
is_text (some (text s)) = true
is_text _ = false

abbrev pub is_positive : Option ℤ → Bool
is_positive none = false
is_positive (some t) = ltb_ℤ (pos 0) t

module _ (strip : String → String) where
  abbrev pub not_blank : Option Json → Bool
  not_blank (some (text s)) = not (str_eq (strip s) "")
  not_blank _ = false

  -- The checks of the age and the state of a document whose other entries are valid.
  unfoldable pub check_age : ℤ → ℤ → Dict Json → String → Option ℤ → Result Failure Status
  unfolding require
  check_age max_age now doc state none = err (no_timestamp, some doc)
  check_age max_age now doc state (some updated_at) = do
    _ ← require (leb_ℤ (negsuc 59999) (now -ℤ updated_at)) (in_future, some doc)
    _ ← require (leb_ℤ (now -ℤ updated_at) max_age) (stale, some doc)
    _ ← require (contains state healthy_states) (service_state state, some doc)
    ok (state, doc)

  abbrev pub check_state : ℤ → ℤ → Dict Json → Option String → Result Failure Status
  check_state max_age now doc none = err (unknown_state, some doc)
  check_state max_age now doc (some state) = do
    _ ← require (contains state known_states) (unknown_state, some doc)
    check_age max_age now doc state (time_of (lookup "updated_at_epoch" doc))

  unfoldable pub check_document : ℤ → ℤ → Dict Json → Result Failure Status
  unfolding require check_age
  check_document max_age now doc = do
    _ ← require (is_schema (lookup "schema_version" doc)) (unsupported_schema, none)
    _ ← require (not_blank (lookup "service" doc)) (no_service, some doc)
    _ ← require (is_text (lookup "detail" doc)) (no_detail, some doc)
    _ ← require (not_blank (lookup "updated_at" doc)) (no_display_timestamp, some doc)
    check_state max_age now doc (text_of (lookup "state" doc))

  abbrev pub check_loaded : ℤ → ℤ → Option Loaded → Result Failure Status
  check_loaded max_age now none = err (not_json, none)
  check_loaded max_age now (some no_dict) = err (unsupported_schema, none)
  check_loaded max_age now (some (dict doc)) = check_document max_age now doc

module _ {B : Type 0} (strip : String → String) (size : B → ℕ) (decode : B → Option Loaded) where
  abbrev pub check_raw : ℤ → ℤ → Option B → Result Failure Status
  check_raw max_age now none = err (unavailable, none)
  check_raw max_age now (some raw) =
      if ltb max_status_bytes (size raw)
      then err (too_large, none)
      else check_loaded strip max_age now (decode raw)

  -- `max_age` is none if it is not finite; `raw` is none if the file cannot be read.
  unfoldable pub read_health_status : Option ℤ → ℤ → Option B → Result Failure Status
  unfolding check_document
  read_health_status none now raw = err (bad_max_age, none)
  read_health_status (some max_age) now raw =
      if ltb_ℤ (pos 0) max_age then check_raw max_age now raw else err (bad_max_age, none)
