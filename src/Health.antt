-- ===== src/Health.antt =====
-- shared/service_health.py: the status file by which a service reports its health (HealthReporter)
-- and the probe that reads it (read_health_status). `json.dumps` with UTF-8 encoding and `json.loads`
-- are arguments, over a type `B` of bytes with their number; `strip` is Python's str.strip. A time in
-- seconds is a whole number of milliseconds, and a float that is not finite is none of them.
pub mod Probe
pub mod Laws
pub mod Updates
mod Tests
use Prim.Native.String
use sm_artmatch.Prelude.{
  ℕ, zero, suc, ◌*◌, Bool, true, false, not, ◌&&◌, ◌||◌, Option, none, some, String, List, [], ◌∷◌,
  map, take, ltb, if◌then◌else◌, Result, ok, err, str_eq,
}
use sm_artmatch.Prelude.Int.{ℤ, pos, ltb_ℤ, ◌-ℤ◌}
use sm_artmatch.Prelude.Dicts.{contains, Dict, put, put_all}
use sm_artmatch.Matching.{take_text}

-- The values of a field, before they are bounded; the texts are those of `str`.
pub data Value : Type 0 where
  null_value : Value
  boolean_value : Bool → Value
  integer_value : ℤ → Value
  float_value : ℤ → Value
  non_finite_value : String → Value
  text_value : String → Value
  items_value : List String → Value
  other_value : String → Value

-- The values of a document.
pub data Json : Type 0 where
  null : Json
  boolean : Bool → Json
  integer : ℤ → Json
  float : ℤ → Json
  non_finite : Json
  text : String → Json
  items : List String → Json
  object : Json

-- What `json.loads` gives: a dict, or anything else.
pub data Loaded : Type 0 where
  dict : Dict Json → Loaded
  no_dict : Loaded

pub record Reporter : Type 0 where
  pub service : String
  pub state : String
  pub detail : String
  pub fields : Dict Json
  pub last_write : Option ℤ

-- The clocks, the text of the time, and whether the operations on the file raise no OSError.
pub record Readings : Type 0 where
  pub epoch : ℤ
  pub display : String
  pub monotonic : ℤ
  pub io_ok : Bool

pub data Error : Type 0 where
  unknown_state : Error

abbrev pub healthy_states : List String
healthy_states = "starting" ∷ "running" ∷ "healthy" ∷ "degraded" ∷ "disabled" ∷ []

abbrev pub known_states : List String
known_states =
    "starting" ∷ "running" ∷ "healthy" ∷ "degraded" ∷ "disabled" ∷ "unhealthy" ∷ "stopping" ∷ []

abbrev pub max_status_bytes : ℕ
max_status_bytes = 64 * 1024

unfoldable pub bounded_value : Value → Json
bounded_value null_value = null
bounded_value (boolean_value b) = boolean b
bounded_value (integer_value n) = integer n
bounded_value (float_value t) = float t
bounded_value (non_finite_value s) = text s
bounded_value (text_value s) = text (take_text 2000 s)
bounded_value (items_value xs) = items (map (take_text 200) (take 100 xs))
bounded_value (other_value s) = text (take_text 2000 s)

-- The loop of `_bounded_fields`, with its result.
unfoldable pub bounded_from : Dict Value → Dict Json → Dict Json
unfolding bounded_value
bounded_from [] result = result
bounded_from ((key, value) ∷ fields) result =
    bounded_from fields (put (take_text 100 key) (bounded_value value) result)

unfoldable pub bounded_fields : Dict Value → Dict Json
unfolding bounded_from
bounded_fields fields = bounded_from fields []

abbrev pub initial : String → Reporter
initial service = record {
  service = service;
  state = "starting";
  detail = "initializing";
  fields = [];
  last_write = none;
}

-- The document of `_write`: the fields come last, and replace what has the same key.
unfoldable pub document : Readings → Reporter → Dict Json
document r s = put_all s.fields (
    ("schema_version", integer (pos 1))
    ∷ ("service", text s.service)
    ∷ ("state", text s.state)
    ∷ ("detail", text s.detail)
    ∷ ("updated_at", text r.display)
    ∷ ("updated_at_epoch", float r.epoch)
    ∷ [])

module _ {B : Type 0} (size : B → ℕ) (encode : Dict Json → B) where
  -- The reporter, the content of the status file, and the result. A failure leaves the file.
  pub record Written : Type 0 where
    pub reporter : Reporter
    pub file : Option B
    pub success : Bool

  unfoldable pub write : Readings → Reporter → Option B → Written
  unfolding document
  write r s file =
      if ltb max_status_bytes (size (encode (document r s)))
      then (record { reporter = s; file = file; success = false })
      else if r.io_ok
      then (record {
        reporter = record s { last_write = some r.monotonic };
        file = some (encode (document r s));
        success = true;
      })
      else (record { reporter = s; file = file; success = false })

  unfoldable pub update :
      Readings → String → String → Dict Value → Reporter → Option B → Result Error Written
  unfolding write bounded_fields
  update r state detail fields s file =
      if contains state known_states
      then ok (
          write r
            (record s {
              state = state;
              detail = take_text 2000 detail;
              fields = bounded_fields fields;
            })
            file)
      else err unknown_state

  -- `time.monotonic() - last_write < interval`; the first write is never too early.
  abbrev pub too_early : ℤ → ℤ → Option ℤ → Bool
  too_early interval monotonic none = false
  too_early interval monotonic (some last) = ltb_ℤ (monotonic -ℤ last) interval

  unfoldable pub heartbeat : ℤ → Readings → Dict Value → Reporter → Option B → Written
  heartbeat interval r fields s file =
      if too_early interval r.monotonic s.last_write
      then (record { reporter = s; file = file; success = true })
      else write r (record s { fields = put_all (bounded_fields fields) s.fields }) file
