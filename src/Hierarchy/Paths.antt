-- ===== src/Hierarchy/Paths.antt =====
-- About `compute_path` of load_hierarchy.py: the end of its loop, and the nodes of a path.
use mathlib.Core.Path.{subst}
use mathlib.Core.List.{append-nil, append_assoc}
use mathlib.Core.Option.{some-injective}
use sm_artmatch.Prelude.{
  ℕ, zero, suc, ◌+◌, ◌≤◌, ◌<◌, ◌≡◌, ◌∙◌, refl, sym, ap, true, false, Bool-cases, Option-cases, inl,
  inr, Option, none, some, String, List, [], ◌∷◌, ◌++◌, map, arith, length, if◌then◌else◌, str_eq,
  eq_iff,
}
use sm_artmatch.Prelude.Dicts.{contains, Dict, lookup}
use sm_artmatch.Hierarchy.{Turn, leave, leave_at, climb, turn, follow, walk, compute_path, keys}

-- The keys that have not been visited.
unvisited : List String → List String → ℕ
unvisited visited [] = 0
unvisited visited (k ∷ ks) = (if contains k visited then 0 else 1) + unvisited visited ks

unvisited-cons-le :
    (p : String) (visited ks : List String) → unvisited (p ∷ visited) ks ≤ unvisited visited ks
unfolding unvisited
unvisited-cons-le p visited [] = omega arith
unvisited-cons-le p visited (k ∷ ks) = ground (arith, unvisited-cons-le p visited ks)

unvisited-cons-lt :
    (p : String) (visited ks : List String)
    → contains p visited ≡ false
    → contains p ks ≡ true
    → unvisited (p ∷ visited) ks < unvisited visited ks
unfolding unvisited
unvisited-cons-lt p visited [] new listed = cc
unvisited-cons-lt p visited (k ∷ ks) new listed = elim (Bool-cases (str_eq p k)) [
  | inl same ↦
      let e = (eq_iff p k).0 same in
      rw ((eq_iff k p).1 (sym e), rw e at new) (omega (arith, unvisited-cons-le p visited ks))
  | inr other ↦ ground (
    arith,
    unvisited-cons-lt p visited ks new (rw other at listed),
    unvisited-cons-le p visited ks,
  )
]

unvisited-le-length : (visited ks : List String) → unvisited visited ks ≤ length ks
unfolding unvisited
unvisited-le-length visited [] = omega arith
unvisited-le-length visited (k ∷ ks) = ground (arith, unvisited-le-length visited ks)

contains-tail :
    (x y : String) (ys : List String) → contains x ys ≡ true → contains x (y ∷ ys) ≡ true
contains-tail x y ys h = ground arith

lookup→contains :
    (name : String) (h : Dict (Option String)) {v : Option String}
    → lookup name h ≡ some v
    → contains name (map (λ (entry : String × Option String). entry.0) h) ≡ true
unfolding lookup
lookup→contains name [] e = cc
lookup→contains name ((k, v) ∷ h) e = elim (Bool-cases (str_eq k name)) [
  | inl same ↦ rw ((eq_iff name k).1 (sym ((eq_iff k name).0 same)))
  | inr other ↦ contains-tail name k _ (lookup→contains name h (rw other at e))
]

length-keys : (h : Dict (Option String)) (root_name : String) → length (keys h root_name) ≡ length h
length-keys [] root_name = refl
length-keys (entry ∷ h) root_name = ap suc (length-keys h root_name)

module _ (h : Dict (Option String)) (root_name : String) where
  turn-climb :
      (current : String) (visited : List String) {parent : String}
      → turn h root_name current visited ≡ climb parent
      → (contains parent visited ≡ false) × (lookup current h ≡ some (some parent))
  unfolding turn
  turn-climb current visited e = ground arith

  turn-leave_at :
      (current : String) (visited : List String) {parent : String}
      → turn h root_name current visited ≡ leave_at parent
      → lookup current h ≡ some (some parent)
  unfolding turn
  turn-leave_at current visited e = ground arith

  turn_unknown :
      (current : String) (visited : List String)
      → lookup current h ≡ none
      → turn h root_name current visited ≡ leave
  unfolding turn
  turn_unknown current visited e = ground arith

  walk_unknown :
      (fuel : ℕ) (current : String) (visited path : List String)
      → 0 < fuel
      → lookup current h ≡ none
      → walk h root_name fuel current visited path ≡ some path
  unfolding walk
  walk_unknown zero current visited path pos e = absurd (omega arith)
  walk_unknown (suc fuel) current visited path pos e = rw (turn_unknown current visited e)

  follow_total :
      (path : List String) (t : Turn h root_name) (rest : String → Option (List String))
      → ((parent : String)
          → t ≡ climb parent
          → (result : List String) × (rest parent ≡ some result))
      → (result : List String) × (follow h root_name path t rest ≡ some result)
  follow_total path leave rest ih = (path, refl)
  follow_total path (leave_at parent) rest ih = (path ++ parent ∷ [], refl)
  follow_total path (climb parent) rest ih = ih parent refl

  -- Fuel for each key that is left to visit, and for the last node.
  walk_total :
      (fuel : ℕ) (current : String) (visited path : List String)
      → unvisited visited (keys h root_name) + 2 ≤ fuel
      → (result : List String) × (walk h root_name fuel current visited path ≡ some result)
  unfolding walk
  walk_total zero current visited path enough = absurd (omega arith)
  walk_total (suc fuel) current visited path enough =
      follow_total path (turn h root_name current visited) _ λ parent e.
        elim (Option-cases (lookup parent h)) [
          | inl unknown ↦ (_, walk_unknown fuel parent _ _ (omega arith) unknown)
          | inr (v, known) ↦
              let (new, _) = turn-climb current visited e in
              let less =
                unvisited-cons-lt parent visited (keys h root_name) new
                  (lookup→contains parent h known) in
              walk_total fuel parent (parent ∷ visited) (path ++ parent ∷ []) (omega (arith, less))
        ]

  -- Each node of a path is followed by its parent.
  abbrev pub IsChain : List String → Type 0
  IsChain [] = Unit
  IsChain (a ∷ []) = Unit
  IsChain (a ∷ b ∷ path) = (lookup a h ≡ some (some b)) × IsChain (b ∷ path)

  IsChain-snoc :
      (path : List String) (current parent : String)
      → IsChain (path ++ current ∷ [])
      → lookup current h ≡ some (some parent)
      → IsChain ((path ++ current ∷ []) ++ parent ∷ [])
  IsChain-snoc [] current parent c e = (e, tt)
  IsChain-snoc (a ∷ []) current parent c e = (c.0, (e, tt))
  IsChain-snoc (a ∷ b ∷ path) current parent c e =
      (c.0, IsChain-snoc (b ∷ path) current parent c.1 e)

  -- `result` continues `path` by nodes that are each the parent of the one before.
  record Climbs (path result : List String) : Type 0 where
    pub rest : List String
    pub continues : result ≡ path ++ rest
    pub chain : IsChain result

  Climbs-follow :
      (path : List String) (current : String) (visited : List String) (t : Turn h root_name)
      (rest : String → Option (List String)) {result : List String}
      → turn h root_name current visited ≡ t
      → IsChain (path ++ current ∷ [])
      → ((parent : String)
          → IsChain ((path ++ current ∷ []) ++ parent ∷ [])
          → rest parent ≡ some result
          → Climbs ((path ++ current ∷ []) ++ parent ∷ []) result)
      → follow h root_name (path ++ current ∷ []) t rest ≡ some result
      → Climbs (path ++ current ∷ []) result
  Climbs-follow path current visited leave rest {result} e c ih done =
      let same = some-injective _ result done in
      record { rest = []; continues = sym same ∙ sym (append-nil _); chain = subst IsChain same c }
  Climbs-follow path current visited (leave_at parent) rest {result} e c ih done =
      let same = some-injective _ result done in
      record {
        rest = parent ∷ [];
        continues = sym same;
        chain =
            subst IsChain same
              (IsChain-snoc path current parent c (turn-leave_at current visited e));
      }
  Climbs-follow path current visited (climb parent) rest e c ih done =
      let up =
        ih parent (IsChain-snoc path current parent c (turn-climb current visited e).1) done in
      record {
        rest = parent ∷ up.rest;
        continues = up.continues ∙ append_assoc (path ++ current ∷ []) (parent ∷ []) up.rest;
        chain = up.chain;
      }

  walk-Climbs :
      (fuel : ℕ) (path : List String) (current : String) (visited : List String)
      {result : List String}
      → IsChain (path ++ current ∷ [])
      → walk h root_name fuel current visited (path ++ current ∷ []) ≡ some result
      → Climbs (path ++ current ∷ []) result
  unfolding walk
  walk-Climbs zero path current visited c done = absurd (cc)
  walk-Climbs (suc fuel) path current visited c done =
      Climbs-follow path current visited (turn h root_name current visited) _ refl c
        (λ parent c' done'.
          walk-Climbs fuel (path ++ current ∷ []) parent (parent ∷ visited) c' done')
        done

  -- For any hierarchy, cycles included, the path of a name is found: it begins at the name, and each
  -- of its nodes is followed by that node's parent.
  pub compute_path-IsChain :
      (name : String)
      → (rest : List String) × (compute_path h root_name name ≡ some (name ∷ rest))
        × IsChain (name ∷ rest)
  unfolding compute_path
  compute_path-IsChain name =
      let bound = unvisited-le-length (name ∷ []) (keys h root_name) in
      let (result, e) =
        walk_total (length h + 2) name (name ∷ []) (name ∷ [])
          (omega (arith, bound, length-keys h root_name)) in
      let up = walk-Climbs (length h + 2) [] name (name ∷ []) tt e in
      (up.rest, e ∙ ap some up.continues, subst IsChain up.continues up.chain)
