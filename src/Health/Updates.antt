-- ===== src/Health/Updates.antt =====
-- About what the probe makes of a status file that an update has written.
use sm_artmatch.Prelude.{
  ℕ, ◌≤◌, ◌≡◌, ◌≢◌, refl, sym, ap, ◌∙◌, Bool, true, false, Bool-cases, inl, inr, not, Option, none,
  some, String, List, [], ◌∷◌, arith, ltb, if◌then◌else◌, Result, ok, err, ◌>>=◌, ok-injective,
  str_eq, eq_iff,
}
use sm_artmatch.Prelude.Int.{ℤ, pos, negsuc, ◌≤ℤ◌, ◌-ℤ◌, ltb_ℤ, leb_ℤ}
use sm_artmatch.Prelude.Dicts.{contains, Dict, lookup, lookup-put_all_new}
use sm_artmatch.Health.{
  Json, integer, float, text, Loaded, dict, Reporter, Readings, Value, healthy_states, known_states,
  max_status_bytes, bounded_fields, document, Written, write, update, take_text,
}
use sm_artmatch.Health.Probe.{
  Failure, Status, service_state, require, text_of, is_schema, is_text, time_of, not_blank,
  check_age, check_state, check_document, read_health_status,
}

abbrev pub reserved : List String
reserved =
    "schema_version" ∷ "service" ∷ "state" ∷ "detail" ∷ "updated_at" ∷ "updated_at_epoch" ∷ []

-- The entries of a document whose fields have none of the reserved keys.
record Entries (r : Readings) (s : Reporter) (doc : Dict Json) : Type 0 where
  schema : lookup "schema_version" doc ≡ some (integer (pos 1))
  service : lookup "service" doc ≡ some (text s.service)
  state : lookup "state" doc ≡ some (text s.state)
  detail : lookup "detail" doc ≡ some (text s.detail)
  display : lookup "updated_at" doc ≡ some (text r.display)
  epoch : lookup "updated_at_epoch" doc ≡ some (float r.epoch)

document-Entries :
    (r : Readings) (s : Reporter)
    → ((key : String) → contains key reserved ≡ true → lookup key s.fields ≡ none)
    → Entries r s (document r s)
unfolding document
document-Entries r s free = record {
  schema =
      lookup-put_all_new "schema_version" s.fields _ (free "schema_version" refl)
      ∙ unfold lookup in refl;
  service = lookup-put_all_new "service" s.fields _ (free "service" refl) ∙ unfold lookup in refl;
  state = lookup-put_all_new "state" s.fields _ (free "state" refl) ∙ unfold lookup in refl;
  detail = lookup-put_all_new "detail" s.fields _ (free "detail" refl) ∙ unfold lookup in refl;
  display =
      lookup-put_all_new "updated_at" s.fields _ (free "updated_at" refl) ∙ unfold lookup in refl;
  epoch =
      lookup-put_all_new "updated_at_epoch" s.fields _ (free "updated_at_epoch" refl)
      ∙ unfold lookup in refl;
}

Entries-same :
    {r : Readings} {s : Reporter} {doc doc' : Dict Json}
    → Entries r s doc
    → ((key : String) → lookup key doc' ≡ lookup key doc)
    → Entries r s doc'
Entries-same e same = record {
  schema = same "schema_version" ∙ e.schema;
  service = same "service" ∙ e.service;
  state = same "state" ∙ e.state;
  detail = same "detail" ∙ e.detail;
  display = same "updated_at" ∙ e.display;
  epoch = same "updated_at_epoch" ∙ e.epoch;
}

-- What the probe says of a document that is neither too old nor ahead of the clock.
abbrev pub verdict : String → Dict Json → Result Failure Status
verdict state doc =
    if contains state healthy_states then ok (state, doc) else err (service_state state, some doc)

require-true :
    {A : Type 0} (b : Bool) (f : Failure) (next : Result Failure A)
    → b ≡ true
    → (require b f >>= λ _. next) ≡ next
unfolding require
require-true true f next h = refl
require-true false f next h = absurd (cc)

module _ (strip : String → String) (r : Readings) (s : Reporter) (max_age now : ℤ) where
  is_named : (name : String) → strip name ≢ "" → not (str_eq (strip name) "") ≡ true
  is_named name h = ground (arith, eq_iff (strip name) "")

  check_age-verdict :
      (doc : Dict Json)
      → negsuc 59999 ≤ℤ now -ℤ r.epoch
      → now -ℤ r.epoch ≤ℤ max_age
      → check_age strip max_age now doc s.state (some r.epoch) ≡ verdict s.state doc
  unfolding check_age
  check_age-verdict doc past recent =
      require-true (leb_ℤ (negsuc 59999) (now -ℤ r.epoch)) _ _ (ground arith)
      ∙ require-true (leb_ℤ (now -ℤ r.epoch) max_age) _ _ (ground arith)
      ∙ elim (Bool-cases (contains s.state healthy_states)) [
        | inl healthy ↦ rw healthy (unfold require in refl)
        | inr sick ↦ rw sick (unfold require in refl)
      ]

  check_document-verdict :
      (doc : Dict Json)
      → Entries r s doc
      → contains s.state known_states ≡ true
      → strip s.service ≢ ""
      → strip r.display ≢ ""
      → negsuc 59999 ≤ℤ now -ℤ r.epoch
      → now -ℤ r.epoch ≤ℤ max_age
      → check_document strip max_age now doc ≡ verdict s.state doc
  unfolding check_document
  check_document-verdict doc e known named shown past recent =
      require-true _ _ _ (ap is_schema e.schema)
      ∙ require-true _ _ _ (ap (not_blank strip) e.service ∙ is_named s.service named)
      ∙ require-true _ _ _ (ap is_text e.detail)
      ∙ require-true _ _ _ (ap (not_blank strip) e.display ∙ is_named r.display shown)
      ∙ ap (check_state strip max_age now doc) (ap text_of e.state)
      ∙ require-true _ _ _ known
      ∙ ap (check_age strip max_age now doc s.state) (ap time_of e.epoch)
      ∙ check_age-verdict doc past recent

module _ {B : Type 0} (strip : String → String) (size : B → ℕ) (encode : Dict Json → B)
    (decode : B → Option Loaded) where
  read-fits :
      (max_age now : ℤ) (b : B) {doc : Dict Json}
      → ltb_ℤ (pos 0) max_age ≡ true
      → size b ≤ max_status_bytes
      → decode b ≡ some (dict doc)
      → read_health_status strip size decode (some max_age) now (some b)
        ≡ check_document strip max_age now doc
  unfolding read_health_status
  read-fits max_age now b positive fits decoded =
      let small : ltb max_status_bytes (size b) ≡ false = ground arith in
      rw positive (rw small (rw decoded refl))

  write-Stored :
      (r : Readings) (s : Reporter) (file : Option B)
      → (write size encode r s file).success ≡ true
      → (size (encode (document r s)) ≤ max_status_bytes)
        × ((write size encode r s file).file ≡ some (encode (document r s)))
        × (document r (write size encode r s file).reporter ≡ document r s)
  unfolding write document
  write-Stored r s file h = ground arith

  -- What an update writes from.
  abbrev updated : String → String → Dict Value → Reporter → Reporter
  updated state detail fields s = record s {
    state = state;
    detail = take_text 2000 detail;
    fields = bounded_fields fields;
  }

  update-known :
      (r : Readings) (s : Reporter) (state detail : String) (fields : Dict Value) (file : Option B)
      → {w : Written size encode} → update size encode r state detail fields s file ≡ ok w
      → (contains state known_states ≡ true)
        × (write size encode r (updated state detail fields s) file ≡ w)
  unfolding update
  update-known r s state detail fields file h = elim (Bool-cases (contains state known_states)) [
    | inl known ↦ (known, ok-injective (rw known at h))
    | inr other ↦ absurd (cc (rw other at h))
  ]

  -- Given that `json.loads` undoes `json.dumps` up to the order of the entries: when an update of a
  -- reporter whose service has a name, with fields under no reserved key, is written, then a probe
  -- of the file within the maximal age, by a clock at most a minute behind, returns a document with
  -- the entries of the written one, and finds the service healthy exactly if the state of the update
  -- is a healthy one.
  pub read_health_status-update :
      ((d : Dict Json)
        → (d' : Dict Json) × (decode (encode d) ≡ some (dict d'))
          × ((key : String) → lookup key d' ≡ lookup key d))
      → (r : Readings) (s : Reporter) (state detail : String) (fields : Dict Value)
        (file : Option B)
      → (w : Written size encode) → update size encode r state detail fields s file ≡ ok w
      → w.success ≡ true
      → ((key : String) → contains key reserved ≡ true → lookup key (bounded_fields fields) ≡ none)
      → strip s.service ≢ ""
      → strip r.display ≢ ""
      → (max_age now : ℤ) → ltb_ℤ (pos 0) max_age ≡ true
      → negsuc 59999 ≤ℤ now -ℤ r.epoch
      → now -ℤ r.epoch ≤ℤ max_age
      → (doc : Dict Json) × ((key : String) → lookup key doc ≡ lookup key (document r w.reporter))
        × (read_health_status strip size decode (some max_age) now w.file ≡ verdict state doc)
  unfolding read_health_status
  read_health_status-update inverse r s state detail fields file w h success free named shown
        max_age now positive past recent =
      let (known, same) = update-known r s state detail fields file h in
      let s' = updated state detail fields s in
      let (fits, stored, unchanged) = write-Stored r s' file (ap (λ v. v.success) same ∙ success) in
      let (doc, decoded, entries) = inverse (document r s') in
      let e = document-Entries r s' free in
      (
        doc,
        λ key. entries key ∙ ap (lookup key) (sym unchanged ∙ ap (λ v. document r v.reporter) same),
        ap (read_health_status strip size decode (some max_age) now)
              (ap (λ v. v.file) (sym same) ∙ stored)
            ∙ read-fits max_age now (encode (document r s')) positive fits decoded
            ∙ check_document-verdict strip r s' max_age now doc (Entries-same e entries) known named
                shown past recent,
      )
