-- ===== src/Cleanup/Plans.antt =====
-- About the plan of an inventory: which targets become operations, and with which rows.
use mathlib.Core.List.{Memᴰ}
use mathlib.Core.List.Memᴰ
use mathlib.Core.Path.{subst}
use sm_artmatch.Prelude.{
  ◌≡◌, refl, sym, ap, ◌∙◌, Bool, true, false, ◌||◌, Bool-cases, inl, inr, ◌↔◌, Option, none, some,
  String, List, [], ◌∷◌, map, arith, str_eq, eq_iff, if◌then◌else◌,
}
use sm_artmatch.Prelude.Dicts.{lookup}
use sm_artmatch.Cleanup.Inventory.{
  ImageUsage, ResolvedUsage, Paths, protects_file, resolve_usage, unresolved, resolve_selected,
  selected, db_path_candidates, TargetGroup, members, group_usages, any_candidate, any_protects,
  any_authorized, comes_first, insert_group, candidate_groups, plan_groups, plan_cleanup,
}
use sm_artmatch.Cleanup.Groups.{
  is_target, with_target, lookup-Memᴰ, Memᴰ-lookup, lookup-group_usages, group_usages-IsUnique,
}

insert_group-Memᴰ :
    (g h : TargetGroup) (gs : List TargetGroup) → Memᴰ g (insert_group h gs) ↔ Memᴰ g (h ∷ gs)
insert_group-Memᴰ g h [] = (λ m. m, λ m. m)
insert_group-Memᴰ g h (k ∷ gs) = elim (Bool-cases (comes_first h.0 k.0)) [
  | inl first ↦ (rw first (λ m. m, λ m. m))
  | inr later ↦
      (rw later (
        λ m. elim (Memᴰ.cases_cons m) [
          | inl e ↦ Memᴰ.tail (Memᴰ.head e)
          | inr n ↦ elim (Memᴰ.cases_cons ((insert_group-Memᴰ g h gs).0 n)) [
            | inl e ↦ Memᴰ.head e
            | inr n' ↦ Memᴰ.tail (Memᴰ.tail n')
          ]
        ],
        λ m. elim (Memᴰ.cases_cons m) [
          | inl e ↦ Memᴰ.tail ((insert_group-Memᴰ g h gs).1 (Memᴰ.head e))
          | inr n ↦ elim (Memᴰ.cases_cons n) [
            | inl e ↦ Memᴰ.head e
            | inr n' ↦ Memᴰ.tail ((insert_group-Memᴰ g h gs).1 (Memᴰ.tail n'))
          ]
        ],
      ))
]

candidate_groups-Memᴰ :
    (g : TargetGroup) (gs : List TargetGroup)
    → Memᴰ g (candidate_groups gs) ↔ (Memᴰ g gs × (any_candidate g.1 ≡ true))
unfolding candidate_groups
candidate_groups-Memᴰ g [] = (λ m. elim m [ ], λ (m, h). m)
candidate_groups-Memᴰ g (k ∷ gs) = elim (Bool-cases (any_candidate k.1)) [
  | inl candidate ↦
      (rw candidate (
        λ m. elim (Memᴰ.cases_cons ((insert_group-Memᴰ g k (candidate_groups gs)).0 m)) [
          | inl e ↦ (Memᴰ.head e, ap (λ (x : TargetGroup). any_candidate x.1) e ∙ candidate)
          | inr n ↦ let (n', h) = (candidate_groups-Memᴰ g gs).0 n in (Memᴰ.tail n', h)
        ],
        λ (m, h). (insert_group-Memᴰ g k (candidate_groups gs)).1 (elim (Memᴰ.cases_cons m) [
          | inl e ↦ Memᴰ.head e
          | inr n ↦ Memᴰ.tail ((candidate_groups-Memᴰ g gs).1 (n, h))
        ]),
      ))
  | inr other ↦
      (rw other (
        λ m. let (n, h) = (candidate_groups-Memᴰ g gs).0 m in (Memᴰ.tail n, h),
        λ (m, h). elim (Memᴰ.cases_cons m) [
          | inl e ↦
              let no_candidate : any_candidate g.1 ≡ false =
                ap (λ (x : TargetGroup). any_candidate x.1) e ∙ other in
              absurd cc
          | inr n ↦ (candidate_groups-Memᴰ g gs).1 (n, h)
        ],
      ))
]

-- What makes a group of rows an operation.
abbrev pub IsFree : List ResolvedUsage → Type 0
IsFree rows = (any_protects rows ≡ false) × (any_authorized rows ≡ true)

-- A group before others, which is left out or taken.
left_out :
    {X : Type 0} (g k : TargetGroup) (gs : List TargetGroup)
    → X ↔ (Memᴰ g gs × IsFree g.1)
    → (IsFree k.1 → X)
    → X ↔ (Memᴰ g (k ∷ gs) × IsFree g.1)
left_out g k gs ih never = (
  λ x. (Memᴰ.tail (ih.0 x).0, (ih.0 x).1),
  λ (m, free). elim (Memᴰ.cases_cons m) [
    | inl e ↦ never (subst (λ (x : TargetGroup). IsFree x.1) e free)
    | inr n ↦ ih.1 (n, free)
  ],
)

taken :
    (g k : TargetGroup) (gs operations : List TargetGroup)
    → Memᴰ g operations ↔ (Memᴰ g gs × IsFree g.1)
    → IsFree k.1
    → Memᴰ g (k ∷ operations) ↔ (Memᴰ g (k ∷ gs) × IsFree g.1)
taken g k gs operations ih free = (
  λ m. elim (Memᴰ.cases_cons m) [
    | inl e ↦ (Memᴰ.head e, subst (λ (x : TargetGroup). IsFree x.1) (sym e) free)
    | inr n ↦ (Memᴰ.tail (ih.0 n).0, (ih.0 n).1)
  ],
  λ (m, h). elim (Memᴰ.cases_cons m) [ inl e ↦ Memᴰ.head e | inr n ↦ Memᴰ.tail (ih.1 (n, h)) ],
)

plan_groups-Memᴰ :
    (g : TargetGroup) (gs : List TargetGroup)
    → Memᴰ g (plan_groups gs).operations ↔ (Memᴰ g gs × IsFree g.1)
unfolding plan_groups
plan_groups-Memᴰ g [] = (λ m. elim m [ ], λ (m, h). m)
plan_groups-Memᴰ g (k ∷ gs) =
    let ih = plan_groups-Memᴰ g gs in
    elim (Bool-cases (any_protects k.1)) [
      | inl protects ↦ (rw protects (left_out g k gs ih (λ free. absurd (cc (free.0, protects)))))
      | inr unprotected ↦ elim (Bool-cases (any_authorized k.1)) [
        | inl authorized ↦
            (rw (unprotected, authorized)
              (taken g k gs (plan_groups gs).operations ih (unprotected, authorized)))
        | inr other ↦
            (rw (unprotected, other) (left_out g k gs ih (λ free. absurd (cc (free.1, other)))))
      ]
    ]

authorized_candidate :
    (rows : List ResolvedUsage) → any_authorized rows ≡ true → any_candidate rows ≡ true
authorized_candidate [] h = absurd cc
authorized_candidate (row ∷ rows) h = ground (arith, authorized_candidate rows)

grouped :
    (target : String) (rows : List ResolvedUsage) (gs : List TargetGroup)
    (o : Option (List ResolvedUsage))
    → lookup target gs ≡ o
    → members o ≡ rows
    → any_authorized rows ≡ true
    → Memᴰ (target, rows) gs
grouped target rows gs none e same h =
    let no_rows : any_authorized [] ≡ true = ap any_authorized same ∙ h in absurd cc
grouped target rows gs (some found) e same h = Memᴰ-lookup target rows gs (e ∙ ap some same)

-- The operations of an inventory's plan are exactly these: a target with all usages that resolve to
-- it, in their order, where none of them protects the file, and one of them has a candidate auction
-- and allows the removal.
pub plan_cleanup-operations :
    (ps : Paths) (usages : List ImageUsage) (target : String) (rows : List ResolvedUsage)
    → Memᴰ (target, rows) (plan_cleanup ps usages).operations ↔ (
        (rows ≡ with_target target (map (resolve_usage ps) usages))
        × ((any_protects rows ≡ false) × (any_authorized rows ≡ true)))
unfolding plan_cleanup lookup
plan_cleanup-operations ps usages target rows =
    let resolved = map (resolve_usage ps) usages in
    let gs = group_usages resolved [] in
    let found : members (lookup target gs) ≡ with_target target resolved =
      lookup-group_usages target resolved [] in
    (
      λ m.
          let (candidate, free) = (plan_groups-Memᴰ (target, rows) (candidate_groups gs)).0 m in
          let (n, has) = (candidate_groups-Memᴰ (target, rows) gs).0 candidate in
          (
            sym (ap members (lookup-Memᴰ target rows gs (group_usages-IsUnique resolved [] tt) n))
                ∙ found,
            free,
          ),
      λ (e, free). (plan_groups-Memᴰ (target, rows) (candidate_groups gs)).1 (
        (candidate_groups-Memᴰ (target, rows) gs).1 (
          grouped target rows gs (lookup target gs) refl (found ∙ sym e) free.1,
          authorized_candidate rows free.1,
        ),
        free,
      ),
    )

any_protects-if :
    (b : Bool) (item : ResolvedUsage) (rows : List ResolvedUsage)
    → any_protects rows ≡ true
    → any_protects (if b then item ∷ rows else rows) ≡ true
any_protects-if true item rows h = ground arith
any_protects-if false item rows h = h

any_protects-with_target :
    (t : String) (items : List ResolvedUsage) (item : ResolvedUsage)
    → Memᴰ item items
    → item.target ≡ some t
    → protects_file item.usage ≡ true
    → any_protects (with_target t items) ≡ true
any_protects-with_target t [] item m e h = elim m [ ]
any_protects-with_target t (x ∷ items) item (Memᴰ.head same) e h =
    let here : is_target t x.target ≡ true =
      ap (λ (y : ResolvedUsage). is_target t y.target) (sym same)
      ∙ ap (is_target t) e
      ∙ (eq_iff t t).1 refl in
    let p : protects_file x.usage ≡ true =
      ap (λ (y : ResolvedUsage). protects_file y.usage) (sym same) ∙ h in
    ap (λ (b : Bool). any_protects (if b then x ∷ with_target t items else with_target t items))
      here
    ∙ ap (λ (b : Bool). b || any_protects (with_target t items)) p
any_protects-with_target t (x ∷ items) item (Memᴰ.tail m) e h =
    any_protects-if (is_target t x.target) x (with_target t items)
      (any_protects-with_target t items item m e h)

usage-if :
    (usage : ImageUsage) (b : Bool) (x y : ResolvedUsage)
    → x.usage ≡ usage
    → y.usage ≡ usage
    → (if b then x else y).usage ≡ usage
usage-if usage true x y h k = h
usage-if usage false x y h k = k

resolve_usage_usage : (ps : Paths) (usage : ImageUsage) → (resolve_usage ps usage).usage ≡ usage
unfolding resolve_usage
resolve_usage_usage ps usage =
    usage-if usage (str_eq usage.file_path "" || ps.has_nul usage.file_path) (unresolved usage)
      (resolve_selected ps usage (ps.abspath (selected ps (db_path_candidates ps usage.file_path))))
      refl refl

Memᴰ-map :
    (f : ImageUsage → ResolvedUsage) (usage : ImageUsage) (usages : List ImageUsage)
    → Memᴰ usage usages
    → Memᴰ (f usage) (map f usages)
Memᴰ-map f usage [] m = elim m [ ]
Memᴰ-map f usage (x ∷ usages) (Memᴰ.head e) = Memᴰ.head (ap f e)
Memᴰ-map f usage (x ∷ usages) (Memᴰ.tail m) = Memᴰ.tail (Memᴰ-map f usage usages m)

-- An image row that a lost artwork, a protected auction artwork or a match score refers to keeps its
-- file: no operation of the plan has the target that the row resolves to, however many other rows
-- there are with the same target.
pub plan_cleanup_protected :
    (ps : Paths) (usages : List ImageUsage) (usage : ImageUsage) (target : String)
    (rows : List ResolvedUsage)
    → Memᴰ usage usages
    → (resolve_usage ps usage).target ≡ some target
    → protects_file usage ≡ true
    → ¬ Memᴰ (target, rows) (plan_cleanup ps usages).operations
plan_cleanup_protected ps usages usage target rows m e protects operation =
    let (same, (unprotected, authorized)) =
      (plan_cleanup-operations ps usages target rows).0 operation in
    let p : protects_file (resolve_usage ps usage).usage ≡ true =
      ap protects_file (resolve_usage_usage ps usage) ∙ protects in
    let kept =
      any_protects-with_target target (map (resolve_usage ps) usages) (resolve_usage ps usage)
        (Memᴰ-map (resolve_usage ps) usage usages m) e p in
    let again : any_protects rows ≡ true = ap any_protects same ∙ kept in absurd cc
