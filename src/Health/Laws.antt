-- ===== src/Health/Laws.antt =====
-- About the status file: what a healthy probe rests on, and what a probe makes of an update.
use sm_artmatch.Prelude.{
  ℕ, ◌≤◌, ◌≡◌, refl, sym, Bool, true, false, Bool-cases, inl, inr, Option, none, some, String,
  arith, ltb, Result, ok, ◌>>=◌, ok-injective,
}
use sm_artmatch.Prelude.Int.{ℤ, pos, negsuc, ◌≤ℤ◌, ◌-ℤ◌, ltb_ℤ, leb_ℤ}
use sm_artmatch.Prelude.Dicts.{contains, Dict, lookup}
use sm_artmatch.Health.{Json, Loaded, dict, healthy_states, known_states, max_status_bytes}
use sm_artmatch.Health.Probe.{
  Failure, Status, require, text_of, is_schema, is_text, time_of, not_blank, check_age, check_state,
  check_document, check_loaded, check_raw, read_health_status,
}

require-then :
    {A : Type 0} (b : Bool) (f : Failure) (next : Result Failure A) {x : A}
    → (require b f >>= λ _. next) ≡ ok x
    → (b ≡ true) × (next ≡ ok x)
unfolding require
require-then true f next h = (refl, h)
require-then false f next h = absurd (cc)

-- What a healthy probe has seen of the state and the age.
abbrev pub IsFresh : ℤ → ℤ → String → Dict Json → Type 0
IsFresh max_age now state doc =
    (contains state healthy_states ≡ true)
    × (text_of (lookup "state" doc) ≡ some state)
    × ((t : ℤ) × (time_of (lookup "updated_at_epoch" doc) ≡ some t)
        × (negsuc 59999 ≤ℤ now -ℤ t)
        × (now -ℤ t ≤ℤ max_age))

module _ (strip : String → String) (max_age now : ℤ) where
  check_age_sound :
      (doc : Dict Json) (state : String) (o : Option ℤ) {s : Status}
      → check_age strip max_age now doc state o ≡ ok s
      → (s ≡ (state, doc))
        × (contains state healthy_states ≡ true)
        × ((t : ℤ) × (o ≡ some t) × (negsuc 59999 ≤ℤ now -ℤ t) × (now -ℤ t ≤ℤ max_age))
  unfolding check_age
  check_age_sound doc state none h = absurd (cc)
  check_age_sound doc state (some t) h =
      let (past, h₁) = require-then (leb_ℤ (negsuc 59999) (now -ℤ t)) _ _ h in
      let (recent, h₂) = require-then (leb_ℤ (now -ℤ t) max_age) _ _ h₁ in
      let (healthy, h₃) = require-then (contains state healthy_states) _ _ h₂ in
      (sym (ok-injective h₃), healthy, (t, refl, ground arith, ground arith))

  check_state_sound :
      (doc : Dict Json) (o : Option String) {s : Status}
      → o ≡ text_of (lookup "state" doc)
      → check_state strip max_age now doc o ≡ ok s
      → (s.1 ≡ doc) × IsFresh max_age now s.0 doc
  check_state_sound doc none e h = absurd (cc)
  check_state_sound doc (some state) e h =
      let (known, h₁) = require-then (contains state known_states) _ _ h in
      let (same, healthy, timed) =
        check_age_sound doc state (time_of (lookup "updated_at_epoch" doc)) h₁ in
      rw same (refl, (healthy, sym e, timed))

  check_document_sound :
      (doc : Dict Json) {s : Status}
      → check_document strip max_age now doc ≡ ok s
      → (s.1 ≡ doc) × IsFresh max_age now s.0 doc
  unfolding check_document
  check_document_sound doc h =
      let (_, h₁) = require-then (is_schema (lookup "schema_version" doc)) _ _ h in
      let (_, h₂) = require-then (not_blank strip (lookup "service" doc)) _ _ h₁ in
      let (_, h₃) = require-then (is_text (lookup "detail" doc)) _ _ h₂ in
      let (_, h₄) = require-then (not_blank strip (lookup "updated_at" doc)) _ _ h₃ in
      check_state_sound doc (text_of (lookup "state" doc)) refl h₄

  check_loaded_sound :
      (o : Option Loaded) {s : Status}
      → check_loaded strip max_age now o ≡ ok s
      → (o ≡ some (dict s.1)) × IsFresh max_age now s.0 s.1
  check_loaded_sound none h = absurd (cc)
  check_loaded_sound (some Loaded.no_dict) h = absurd (cc)
  check_loaded_sound (some (dict doc)) h =
      let (same, fresh) = check_document_sound doc h in rw same (refl, fresh)

module _ {B : Type 0} (strip : String → String) (size : B → ℕ) (decode : B → Option Loaded) where
  check_raw_sound :
      (max_age now : ℤ) (raw : Option B) {s : Status}
      → check_raw strip size decode max_age now raw ≡ ok s
      → (b : B) × (raw ≡ some b)
        × (size b ≤ max_status_bytes)
        × (decode b ≡ some (dict s.1))
        × IsFresh max_age now s.0 s.1
  check_raw_sound max_age now none h = absurd (cc)
  check_raw_sound max_age now (some b) h = elim (Bool-cases (ltb max_status_bytes (size b))) [
    | inl large ↦ absurd (cc (rw large at h))
    | inr fits ↦
        let (decoded, fresh) = check_loaded_sound strip max_age now (decode b) (rw fits at h) in
        (b, refl, ground arith, decoded, fresh)
  ]

  -- A probe says that a service is healthy only if the file can be read and decoded within the size
  -- limit, names one of the healthy states, and is neither older than the maximal age nor more than
  -- a minute ahead of the clock.
  pub read_health_status-IsFresh :
      (max_age now : ℤ) (raw : Option B) (state : String) (doc : Dict Json)
      → read_health_status strip size decode (some max_age) now raw ≡ ok (state, doc)
      → (b : B) × (raw ≡ some b)
        × (size b ≤ max_status_bytes)
        × (decode b ≡ some (dict doc))
        × IsFresh max_age now state doc
  unfolding read_health_status
  read_health_status-IsFresh max_age now raw state doc h =
      elim (Bool-cases (ltb_ℤ (pos 0) max_age)) [
        | inl positive ↦ check_raw_sound max_age now raw (rw positive at h)
        | inr other ↦ absurd (cc (rw other at h))
      ]
