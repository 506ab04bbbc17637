-- ===== src/Prelude/Dicts.antt =====
-- A Python dict with texts as keys, as an association list with one entry for a key.
use Prim.Native.String.{String}
use mathlib.Core.Path.{◌≡◌, refl}
use mathlib.Core.Bool.{Bool, true, false}
use mathlib.Core.Option.{Option, none, some}
use mathlib.Core.List.{List, [], ◌∷◌}
use native.Mathlib.Omega.{arith}
use text.Mathlib.Text.{◌==◌ as str_eq}
use text.Mathlib.TextEquality.{eq_iff}
use sm_artmatch.Prelude.Tests.{if◌then◌else◌}

-- `x in texts`, of a set or a list.
abbrev pub contains : String → List String → Bool
contains x [] = false
contains x (y ∷ ys) = let rest = contains x ys in if str_eq x y then true else rest

abbrev pub Dict : Type 0 → Type 0
Dict V = List (String × V)

module _ {V : Type 0} where
  unfoldable pub lookup : String → Dict V → Option V
  lookup name [] = none
  lookup name ((key, value) ∷ entries) =
      let rest = lookup name entries in if str_eq key name then some value else rest

  -- `d[name] = value`: a new name goes to the end.
  unfoldable pub put : String → V → Dict V → Dict V
  put name value [] = (name, value) ∷ []
  put name value ((key, old) ∷ entries) =
      let rest = put name value entries in
      if str_eq key name then (name, value) ∷ entries else (key, old) ∷ rest

  -- `d.update(entries)`
  unfoldable pub put_all : Dict V → Dict V → Dict V
  unfolding put
  put_all [] d = d
  put_all ((key, value) ∷ entries) d = put_all entries (put key value d)

  pub lookup-put :
      (name key : String) (value : V) (d : Dict V)
      → lookup name (put key value d) ≡ (if str_eq key name then some value else lookup name d)
  unfolding lookup put
  lookup-put name key value [] = refl
  lookup-put name key value ((k, old) ∷ d) =
      ground (arith, eq_iff k key, eq_iff k name, eq_iff key name, lookup-put name key value d)

  pub lookup-put_all_new :
      (name : String) (entries d : Dict V)
      → lookup name entries ≡ none
      → lookup name (put_all entries d) ≡ lookup name d
  unfolding lookup put_all
  lookup-put_all_new name [] d h = refl
  lookup-put_all_new name ((key, value) ∷ entries) d h =
      ground (arith, lookup-put_all_new name entries (put key value d), lookup-put name key value d)

  pub lookup-put_same :
      (name key : String) (value : V) (d : Dict V)
      → str_eq key name ≡ true
      → lookup name (put key value d) ≡ some value
  lookup-put_same name key value d same = ground (arith, lookup-put name key value d)

  pub lookup-put_other :
      (name key : String) (value : V) (d : Dict V)
      → str_eq key name ≡ false
      → lookup name (put key value d) ≡ lookup name d
  lookup-put_other name key value d other = ground (arith, lookup-put name key value d)

  -- `d.pop(name, None)`
  unfoldable pub remove : String → Dict V → Dict V
  remove name [] = []
  remove name ((key, value) ∷ entries) =
      let rest = remove name entries in if str_eq key name then rest else (key, value) ∷ rest

  pub lookup-remove :
      (name key : String) (d : Dict V)
      → lookup name (remove key d) ≡ (if str_eq key name then none else lookup name d)
  unfolding lookup remove
  lookup-remove name key [] = ground (arith, eq_iff key name)
  lookup-remove name key ((k, value) ∷ d) =
      ground (arith, eq_iff k key, eq_iff k name, eq_iff key name, lookup-remove name key d)

  pub lookup-remove_found :
      (name key : String) (value : V) (d : Dict V)
      → lookup name (remove key d) ≡ some value
      → lookup name d ≡ some value
  lookup-remove_found name key value d h = ground (arith, lookup-remove name key d)

  -- A name that is there and one that is not are different.
  pub lookup-differ :
      (absent present : String) (value : V) (d : Dict V)
      → lookup absent d ≡ none
      → lookup present d ≡ some value
      → str_eq absent present ≡ false
  lookup-differ absent present value d h k = ground (arith, eq_iff absent present)
