-- ===== src/Prelude/Lists.antt =====
-- Lists measured by native numbers, and lists of strings as Go's slices, sets and maps.
use Prim.Native.Nat.{ℕ, suc}
use Prim.Native.String.{String}
use mathlib.Core.Path.{◌≡◌, refl}
use mathlib.Core.Bool.{Bool, true, false, ◌&&◌, ◌||◌}
use mathlib.Core.Option.{Option, none, some}
use mathlib.Core.List.{List, [], ◌∷◌}
use native.Mathlib.Omega.{arith}
use text.Mathlib.TextEquality.{eq_iff}
use text.Mathlib.TextPositions.{eq_refl}
use upcloud_operator.Prelude.Tests.{◌==◌, if◌then◌else◌}

module _ {ℓ} {A : Type ℓ} where
  abbrev pub length : List A → ℕ
  length [] = 0
  length (x ∷ xs) = suc (length xs)

-- slices.Contains
unfoldable pub contains : List String → String → Bool
contains [] s = false
contains (x ∷ xs) s = x == s || contains xs s

-- slices.Equal
unfoldable pub slices_equal : List String → List String → Bool
slices_equal [] [] = true
slices_equal (x ∷ xs) (y ∷ ys) = x == y && slices_equal xs ys
slices_equal _ _ = false

pub slices_equal_refl : (xs : List String) → slices_equal xs xs ≡ true
unfolding slices_equal
slices_equal_refl [] = refl
slices_equal_refl (x ∷ xs) = rw (eq_refl x) (slices_equal_refl xs)

pub slices_equal_sound : (xs ys : List String) → slices_equal xs ys ≡ true → xs ≡ ys
unfolding slices_equal
slices_equal_sound [] [] h = refl
slices_equal_sound [] (y ∷ ys) h = ground arith
slices_equal_sound (x ∷ xs) [] h = ground arith
slices_equal_sound (x ∷ xs) (y ∷ ys) h = ground (arith, eq_iff x y, slices_equal_sound xs ys)

-- A Go map with string keys as an association list. A key stands in it at most once when it is
-- built by `insert`.
module _ {ℓ} {V : Type ℓ} where
  -- m[key], where it is there
  unfoldable pub lookup : (key : String) → List (String × V) → Option V
  lookup key [] = none
  lookup key ((here, value) ∷ rest) = if here == key then some value else lookup key rest

  -- m[key] = new
  unfoldable pub insert : (key : String) (new : V) → List (String × V) → List (String × V)
  insert key new [] = (key, new) ∷ []
  insert key new ((here, old) ∷ rest) =
      if here == key then (key, new) ∷ rest else (here, old) ∷ insert key new rest

  -- delete(m, key)
  unfoldable pub erase : (key : String) → List (String × V) → List (String × V)
  erase key [] = []
  erase key ((here, value) ∷ entries) =
      let rest = erase key entries in if here == key then rest else (here, value) ∷ rest

  pub lookup-insert :
      (key asked : String) (new : V) (entries : List (String × V))
      → lookup asked (insert key new entries)
        ≡ (if key == asked then some new else lookup asked entries)
  unfolding lookup insert
  lookup-insert key asked new [] = refl
  lookup-insert key asked new ((here, old) ∷ rest) = ground (
    lookup-insert key asked new rest,
    eq_iff here key,
    eq_iff here asked,
    eq_iff key asked,
    arith,
  )

  pub lookup-erase :
      (key asked : String) (entries : List (String × V))
      → lookup asked (erase key entries) ≡ (if key == asked then none else lookup asked entries)
  unfolding lookup erase
  lookup-erase key asked [] = ground arith
  lookup-erase key asked ((here, value) ∷ rest) =
      ground
        (lookup-erase key asked rest, eq_iff here key, eq_iff here asked, eq_iff key asked, arith)
