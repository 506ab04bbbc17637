-- ===== src/Cleanup/Groups.antt =====
-- About the groups of an inventory: each target has one, with all usages that resolve to it.
use mathlib.Core.List.{Memᴰ, append-nil, append_assoc}
use mathlib.Core.Path.{subst}
use sm_artmatch.Prelude.{
  ◌≡◌, refl, sym, ap, ◌∙◌, Bool, true, false, Bool-cases, inl, inr, Option, none, some, String,
  List, [], ◌∷◌, ◌++◌, arith, str_eq, eq_iff, if◌then◌else◌,
}
use sm_artmatch.Prelude.Dicts.{contains, lookup, put, lookup-put}
use sm_artmatch.Cleanup.Inventory.{ResolvedUsage, TargetGroup, members, add_to, group_usages}

-- The keys of a dict, each once.
abbrev targets : List TargetGroup → List String
targets [] = []
targets (g ∷ gs) = g.0 ∷ targets gs

abbrev pub IsUnique : List TargetGroup → Type 0
IsUnique [] = Unit {0}
IsUnique (g ∷ gs) = (contains g.0 (targets gs) ≡ false) × IsUnique gs

contains-put :
    (t key : String) (rows : List ResolvedUsage) (gs : List TargetGroup)
    → contains t (targets gs) ≡ false
    → str_eq t key ≡ false
    → contains t (targets (put key rows gs)) ≡ false
unfolding put
contains-put t key rows [] h k = ground arith
contains-put t key rows (g ∷ gs) h k =
    ground (arith, eq_iff g.0 key, eq_iff t g.0, eq_iff t key, contains-put t key rows gs)

put-IsUnique :
    (key : String) (rows : List ResolvedUsage) (gs : List TargetGroup)
    → IsUnique gs
    → IsUnique (put key rows gs)
unfolding put
put-IsUnique key rows [] u = (refl, tt)
put-IsUnique key rows ((t, old) ∷ gs) (new, u) = elim (Bool-cases (str_eq t key)) [
  | inl same ↦
      let e : t ≡ key = (eq_iff t key).0 same in
      (rw same (subst (λ (x : String). contains x (targets gs) ≡ false) e new, u))
  | inr other ↦ (rw other (contains-put t key rows gs new other, put-IsUnique key rows gs u))
]

contains-Memᴰ :
    (t : String) (rows : List ResolvedUsage) (gs : List TargetGroup)
    → Memᴰ (t, rows) gs
    → contains t (targets gs) ≡ true
contains-Memᴰ t rows [] m = elim m [ ]
contains-Memᴰ t rows ((k, old) ∷ gs) (Memᴰ.head e) =
    let same : t ≡ k = ap (λ (g : TargetGroup). g.0) e in ground (arith, eq_iff t k)
contains-Memᴰ t rows ((k, old) ∷ gs) (Memᴰ.tail m) = ground (arith, contains-Memᴰ t rows gs m)

pub lookup-Memᴰ :
    (t : String) (rows : List ResolvedUsage) (gs : List TargetGroup)
    → IsUnique gs
    → Memᴰ (t, rows) gs
    → lookup t gs ≡ some rows
unfolding lookup
lookup-Memᴰ t rows [] u m = elim m [ ]
lookup-Memᴰ t rows ((k, old) ∷ gs) u (Memᴰ.head e) =
    let same : t ≡ k = ap (λ (g : TargetGroup). g.0) e in
    let equal : rows ≡ old = ap (λ (g : TargetGroup). g.1) e in ground (arith, eq_iff k t)
lookup-Memᴰ t rows ((k, old) ∷ gs) (new, u) (Memᴰ.tail m) =
    let there = contains-Memᴰ t rows gs m in
    elim (Bool-cases (str_eq k t)) [
      | inl same ↦
          let e : k ≡ t = (eq_iff k t).0 same in
          let again : contains k (targets gs) ≡ true =
            ap (λ (x : String). contains x (targets gs)) e ∙ there in
          absurd cc
      | inr other ↦ (rw other (lookup-Memᴰ t rows gs u m))
    ]

pub Memᴰ-lookup :
    (t : String) (rows : List ResolvedUsage) (gs : List TargetGroup)
    → lookup t gs ≡ some rows
    → Memᴰ (t, rows) gs
unfolding lookup
Memᴰ-lookup t rows [] h = absurd cc
Memᴰ-lookup t rows ((k, old) ∷ gs) h = elim (Bool-cases (str_eq k t)) [
  | inl same ↦
      let e : k ≡ t = (eq_iff k t).0 same in
      let equal : old ≡ rows = ground arith in Memᴰ.head (cc (e, equal))
  | inr other ↦ Memᴰ.tail (Memᴰ-lookup t rows gs (ground arith))
]

abbrev pub is_target : String → Option String → Bool
is_target t none = false
is_target t (some x) = str_eq x t

-- The usages with a target, in their order.
abbrev pub with_target : String → List ResolvedUsage → List ResolvedUsage
with_target t [] = []
with_target t (item ∷ items) =
    let rest = with_target t items in if is_target t item.target then item ∷ rest else rest

lookup-add_to :
    (t : String) (item : ResolvedUsage) (o : Option String) (gs : List TargetGroup)
    → members (lookup t (add_to item o gs))
      ≡ members (lookup t gs) ++ (if is_target t o then item ∷ [] else [])
lookup-add_to t item none gs = sym (append-nil (members (lookup t gs)))
lookup-add_to t item (some x) gs = elim (Bool-cases (str_eq x t)) [
  | inl same ↦
      let e : x ≡ t = (eq_iff x t).0 same in
      ap members (lookup-put t x (members (lookup x gs) ++ item ∷ []) gs)
      ∙ (rw same (ap (λ (y : String). members (lookup y gs) ++ item ∷ []) e))
  | inr other ↦
      ap members (lookup-put t x (members (lookup x gs) ++ item ∷ []) gs)
      ∙ (rw other (sym (append-nil (members (lookup t gs)))))
]

append-if :
    (b : Bool) (item : ResolvedUsage) (rest : List ResolvedUsage)
    → (if b then item ∷ [] else []) ++ rest ≡ (if b then item ∷ rest else rest)
append-if true item rest = refl
append-if false item rest = refl

pub lookup-group_usages :
    (t : String) (items : List ResolvedUsage) (gs : List TargetGroup)
    → members (lookup t (group_usages items gs)) ≡ members (lookup t gs) ++ with_target t items
unfolding group_usages
lookup-group_usages t [] gs = sym (append-nil (members (lookup t gs)))
lookup-group_usages t (item ∷ items) gs =
    lookup-group_usages t items (add_to item item.target gs)
    ∙ ap (λ (x : List ResolvedUsage). x ++ with_target t items)
        (lookup-add_to t item item.target gs)
    ∙ append_assoc (members (lookup t gs)) (if is_target t item.target then item ∷ [] else [])
        (with_target t items)
    ∙ ap (λ (x : List ResolvedUsage). members (lookup t gs) ++ x)
        (append-if (is_target t item.target) item (with_target t items))

pub group_usages-IsUnique :
    (items : List ResolvedUsage) (gs : List TargetGroup)
    → IsUnique gs
    → IsUnique (group_usages items gs)
unfolding group_usages
group_usages-IsUnique [] gs u = u
group_usages-IsUnique (item ∷ items) gs u = group_usages-IsUnique items _ (added item.target)
  where
    added : (o : Option String) → IsUnique (add_to item o gs)
    added none = u
    added (some t) = put-IsUnique t _ gs u
