-- ===== src/Artists/Index/Frequency.antt =====
-- About the tally of the artists' names: what it counts while the rows are read.
use sm_artmatch.Prelude.{
  ℕ, ◌+◌, ◌≡◌, sym, ap, ◌∙◌, Bool, true, false, Bool-cases, Option-cases, inl, inr, none, some,
  String, ◌==◌, str_eq, eq_iff, if◌then◌else◌, arith,
}
use mathlib.Core.Path.{subst}
use sm_artmatch.Prelude.Dicts.{lookup, put, lookup-put, lookup-put_same, lookup-put_other}
use sm_artmatch.Artists.{Unicode, lookup_key, is_name}
use sm_artmatch.Artists.Index.{Tally, tally_name}

-- A tally counts by `f`: each name that is shown for a key has the key, is a name, and has the
-- key's number, which is positive; a key without one has the number zero; and each counted name is shown for its key.
pub record Counts (u : Unicode) (t : Tally) (f : String → ℕ) : Type 0 where
  pub shown :
      (key name : String)
      → lookup key t.display_name_by_key ≡ some name
      → (lookup name t.counts ≡ some (f key)) × (lookup_key u name ≡ key) × (is_name u name ≡ true)
  pub positive :
      (key name : String) → lookup key t.display_name_by_key ≡ some name → (f key == 0) ≡ false
  pub absent : (key : String) → lookup key t.display_name_by_key ≡ none → f key ≡ 0
  pub listed :
      (name : String) (n : ℕ)
      → lookup name t.counts ≡ some n
      → lookup (lookup_key u name) t.display_name_by_key ≡ some name

abbrev pub indicator : Bool → ℕ
indicator b = if b then 1 else 0

module _ (u : Unicode) where
  pub Counts-same :
      (t : Tally) (f g : String → ℕ)
      → ((key : String) → f key ≡ g key)
      → Counts u t f
      → Counts u t g
  Counts-same t f g same c = record {
    shown = λ key name h. let (n, k, v) = c.shown key name h in (n ∙ ap some (same key), k, v);
    positive = λ key name h. ap (λ n. n == 0) (sym (same key)) ∙ c.positive key name h;
    absent = λ key h. sym (same key) ∙ c.absent key h;
    listed = c.listed;
  }

  -- A key that has a name.
  again-Counts :
      (key old : String) (t : Tally) (f : String → ℕ)
      → lookup key t.display_name_by_key ≡ some old
      → Counts u t f
      → Counts u
          (record t { counts = put old (f key + 1) t.counts })
          (λ k. f k + indicator (str_eq k key))
  again-Counts key old t f e c =
      let (n, keyed, valid) = c.shown key old e in
      record {
        shown = λ k name h.
            let (n', keyed', valid') = c.shown k name h in
            (
              ground
                  (arith, lookup-put name old (f key + 1) t.counts, eq_iff k key, eq_iff old name),
              keyed',
              valid',
            );
        positive = λ k name h. let pos = c.positive k name h in ground arith;
        absent = λ k h. let zero = c.absent k h in ground (arith, eq_iff k key);
        listed = λ name m h. elim (Bool-cases (str_eq old name)) [
          | inl same ↦ ground (arith, eq_iff old name)
          | inr other ↦
              c.listed name m (sym (lookup-put_other name old (f key + 1) t.counts other) ∙ h)
        ];
      }

  -- A key that has no name yet.
  first-Counts :
      (name : String) (t : Tally) (f : String → ℕ)
      → lookup (lookup_key u name) t.display_name_by_key ≡ none
      → is_name u name ≡ true
      → Counts u t f
      → Counts u
          (record {
            counts = put name 1 t.counts;
            display_name_by_key = put (lookup_key u name) name t.display_name_by_key;
          })
          (λ k. f k + indicator (str_eq k (lookup_key u name)))
  first-Counts name t f e valid c = record {
    shown = λ k name' h. elim (Bool-cases (str_eq (lookup_key u name) k)) [
      | inl same ↦
          let k_key : lookup_key u name ≡ k = (eq_iff (lookup_key u name) k).0 same in
          let name_name : name ≡ name' =
            cc (lookup-put_same k (lookup_key u name) name t.display_name_by_key same, h) in
          let zero = c.absent (lookup_key u name) e in
          (
            ground (
              arith,
              lookup-put name' name 1 t.counts,
              eq_iff name name',
              eq_iff k (lookup_key u name),
            ),
            cc,
            cc,
          )
      | inr other ↦
          let (n, keyed, valid') =
            c.shown k name'
              (sym (lookup-put_other k (lookup_key u name) name t.display_name_by_key other) ∙ h) in
          (
            ground (
              arith,
              lookup-put name' name 1 t.counts,
              eq_iff name name',
              eq_iff k (lookup_key u name),
              eq_iff (lookup_key u name) k,
            ),
            keyed,
            valid',
          )
    ];
    positive = λ k name' h. elim (Bool-cases (str_eq (lookup_key u name) k)) [
      | inl same ↦
          let k_key : lookup_key u name ≡ k = (eq_iff (lookup_key u name) k).0 same in
          ground (arith, eq_iff k (lookup_key u name))
      | inr other ↦
          let pos =
            c.positive k name'
              (sym (lookup-put_other k (lookup_key u name) name t.display_name_by_key other) ∙ h) in
          ground arith
    ];
    absent = λ k h. elim (Bool-cases (str_eq (lookup_key u name) k)) [
      | inl same ↦
          absurd (cc (lookup-put_same k (lookup_key u name) name t.display_name_by_key same))
      | inr other ↦
          let zero =
            c.absent k
              (sym (lookup-put_other k (lookup_key u name) name t.display_name_by_key other) ∙ h) in
          ground (arith, eq_iff k (lookup_key u name), eq_iff (lookup_key u name) k)
    ];
    listed = λ name' m h. elim (Bool-cases (str_eq name name')) [
      | inl same ↦
          let name_name : name ≡ name' = (eq_iff name name').0 same in
          ground (
            arith,
            lookup-put (lookup_key u name') (lookup_key u name) name t.display_name_by_key,
            eq_iff (lookup_key u name) (lookup_key u name'),
          )
      | inr other ↦
          let old = c.listed name' m (sym (lookup-put_other name' name 1 t.counts other) ∙ h) in
          ground (
            arith,
            lookup-put (lookup_key u name') (lookup_key u name) name t.display_name_by_key,
            eq_iff (lookup_key u name) (lookup_key u name'),
          )
    ];
  }

  tally_name-again :
      (name old : String) (t : Tally) (n : ℕ)
      → lookup (lookup_key u name) t.display_name_by_key ≡ some old
      → lookup old t.counts ≡ some n
      → tally_name u name t ≡ record t { counts = put old (n + 1) t.counts }
  unfolding tally_name
  tally_name-again name old t n e c = simp (e, c)

  tally_name-first :
      (name : String) (t : Tally)
      → lookup (lookup_key u name) t.display_name_by_key ≡ none
      → lookup name t.counts ≡ none
      → tally_name u name t ≡ record {
        counts = put name 1 t.counts;
        display_name_by_key = put (lookup_key u name) name t.display_name_by_key;
      }
  unfolding tally_name
  tally_name-first name t e c = simp (e, c)

  pub tally_name-Counts :
      (name : String) (t : Tally) (f : String → ℕ)
      → is_name u name ≡ true
      → Counts u t f
      → Counts u (tally_name u name t) (λ key. f key + indicator (str_eq key (lookup_key u name)))
  tally_name-Counts name t f valid c =
      let g : String → ℕ = λ key. f key + indicator (str_eq key (lookup_key u name)) in
      elim (Option-cases (lookup (lookup_key u name) t.display_name_by_key)) [
        | inl e ↦ elim (Option-cases (lookup name t.counts)) [
          | inl n ↦
              subst (λ t'. Counts u t' g) (sym (tally_name-first name t e n))
                (first-Counts name t f e valid c)
          | inr (m, n) ↦ absurd (cc (c.listed name m n, e))
        ]
        | inr (old, e) ↦
            subst (λ t'. Counts u t' g)
              (sym (tally_name-again name old t (f (lookup_key u name)) e (c.shown _ old e).0))
              (again-Counts (lookup_key u name) old t f e c)
      ]
