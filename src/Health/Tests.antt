-- ===== src/Health/Tests.antt =====
-- Runs of the status file and its probe.
use sm_artmatch.Prelude.{
  str_eq, Bool-cases, inl, inr, sym, ℕ, ◌≡◌, refl, true, Option, none, some, String, [], ◌∷◌, err,
  ◌≤◌, arith, eq_iff,
}
use sm_artmatch.Prelude.Int.{pos, ◌-ℤ◌}
use sm_artmatch.Prelude.Dicts.{contains, Dict, lookup, put, put_all}
use sm_artmatch.Health.{
  Json, integer, integer_value, Value, Written, max_status_bytes, Loaded, dict, Readings, initial,
  update, write, document, bounded_fields, bounded_from, bounded_value,
}
use sm_artmatch.Health.Laws.{IsFresh, read_health_status-IsFresh}
use sm_artmatch.Health.Probe.{Diagnosis, read_health_status, check_document, check_age, require}
use sm_artmatch.Health.Updates.{reserved, read_health_status-update}

abbrev strip_same : String → String
strip_same s = s

abbrev readings : Readings
readings = record {
  epoch = pos 100000;
  display = "1970-01-01T00:01:40Z";
  monotonic = pos 5;
  io_ok = true;
}

abbrev same_dict : Dict Json → Dict Json
same_dict d = d

abbrev loads : Dict Json → Option Loaded
loads d = some (dict d)

-- The number of bytes plays no part here.
abbrev no_size : Dict Json → ℕ
no_size d = 0

abbrev fresh_doc : Dict Json
fresh_doc = document readings (initial "scraper")

read_health_status-IsFresh_example :
    (b : Dict Json) × (some fresh_doc ≡ some b)
    × (no_size b ≤ max_status_bytes)
    × (loads b ≡ some (dict fresh_doc))
    × IsFresh (pos 1000) (pos 100500) "starting" fresh_doc
read_health_status-IsFresh_example =
    read_health_status-IsFresh strip_same no_size loads (pos 1000) (pos 100500) (some fresh_doc)
      "starting" fresh_doc
      (unfold read_health_status check_document check_age require document lookup put_all ◌-ℤ◌ in
        refl)

abbrev one_field : Dict Value
one_field = ("runs", integer_value (pos 3)) ∷ []

abbrev first_update : Written no_size same_dict
first_update = record {
  reporter = record {
    service = "scraper";
    state = "unhealthy";
    detail = "down";
    fields = ("runs", integer (pos 3)) ∷ [];
    last_write = some (pos 5);
  };
  file = some (
      document readings (record {
        service = "scraper";
        state = "unhealthy";
        detail = "down";
        fields = ("runs", integer (pos 3)) ∷ [];
        last_write = none;
      }));
  success = true;
}

no_reserved :
    (key : String) → contains key reserved ≡ true → lookup key (bounded_fields one_field) ≡ none
unfolding bounded_fields bounded_from bounded_value put lookup
no_reserved key h = elim (Bool-cases (str_eq "runs" key)) [
  | inl same ↦ let e : key ≡ "runs" = sym ((eq_iff "runs" key).0 same) in absurd (cc (rw e at h))
  | inr other ↦ rw other refl
]

read_health_status-update_example :
    (doc : Dict Json) × ((key : String)
      → lookup key doc ≡ lookup key (document readings first_update.reporter))
    × (read_health_status strip_same no_size loads (some (pos 1000)) (pos 100500) first_update.file
        ≡ err (Diagnosis.service_state "unhealthy", some doc))
read_health_status-update_example =
    read_health_status-update strip_same no_size same_dict loads (λ d. (d, refl, λ key. refl))
      readings (initial "scraper") "unhealthy" "down" one_field none first_update
      (unfold update write document bounded_fields bounded_from bounded_value put put_all in refl)
      refl no_reserved (λ e. cc) (λ e. cc) (pos 1000) (pos 100500) refl
      (unfold ◌-ℤ◌ in ground arith) (unfold ◌-ℤ◌ in ground arith)
