-- ===== src/Prelude/StringSets.antt =====
-- Lists of strings as sets: a list without repetitions, sorted, is determined by its elements.
use mathlib.Core.Path.{◌≡◌, refl, sym, ap, ◌∙◌}
use mathlib.Core.Logic.{inl, inr}
use mathlib.Core.Bool.{Bool, true, false, not, ◌&&◌, ◌||◌}
use mathlib.Core.List.{List, [], ◌∷◌}
use Prim.Native.String.{String}
use native.Mathlib.Omega.{arith}
use text.Mathlib.TextEquality.{eq_iff}
use text.Mathlib.TextPositions.{eq_refl}
use upcloud_operator.Prelude.Tests.{◌==◌, Bool-cases}
use upcloud_operator.Prelude.Lists.{contains}
use upcloud_operator.Prelude.Sorting.{insert_sorted, sort_func}
use upcloud_operator.Prelude.StringOrder.{str_lt, str_lt_asymm, str_le_trans, str_lt_total}

-- The string is less than every element.
unfoldable pub is_below : String → List String → Bool
is_below x [] = true
is_below x (y ∷ ys) = str_lt x y && is_below x ys

unfoldable pub is_ascending : List String → Bool
unfolding is_below
is_ascending [] = true
is_ascending (x ∷ xs) = is_below x xs && is_ascending xs

-- No element stands twice.
unfoldable pub is_distinct : List String → Bool
unfolding contains
is_distinct [] = true
is_distinct (x ∷ xs) = not (contains xs x) && is_distinct xs

str_lt_irrefl : (x : String) → str_lt x x ≡ false
str_lt_irrefl x = ground (arith, str_lt_asymm x x)

str_lt_trans : (x y z : String) → str_lt x y ≡ true → str_lt y z ≡ true → str_lt x z ≡ true
str_lt_trans x y z h k =
    let back = str_le_trans x y z (str_lt_asymm x y h) (str_lt_asymm y z k) in
    elim (Bool-cases (str_lt x z)) [
      | inl less ↦ less
      | inr not_less ↦
          let same = str_lt_total x z not_less back in let flipped = str_lt_asymm x y h in cc
    ]

is_below-contains :
    (x z : String) (ys : List String)
    → is_below x ys ≡ true
    → contains ys z ≡ true
    → str_lt x z ≡ true
unfolding is_below contains
is_below-contains x z [] below here = ground arith
is_below-contains x z (y ∷ ys) below here = ground (arith, eq_iff y z, is_below-contains x z ys)

is_below-absent : (x : String) (ys : List String) → is_below x ys ≡ true → contains ys x ≡ false
is_below-absent x ys below = ground (arith, is_below-contains x x ys below, str_lt_irrefl x)

is_below_trans :
    (w x : String) (ys : List String)
    → str_lt w x ≡ true
    → is_below x ys ≡ true
    → is_below w ys ≡ true
unfolding is_below
is_below_trans w x [] less below = refl
is_below_trans w x (y ∷ ys) less below =
    ground (arith, str_lt_trans w x y less, is_below_trans w x ys less)

is_below-insert_sorted :
    (w x : String) (ys : List String)
    → str_lt w x ≡ true
    → is_below w ys ≡ true
    → is_below w (insert_sorted str_lt x ys) ≡ true
unfolding is_below insert_sorted
is_below-insert_sorted w x [] less below = rw less refl
is_below-insert_sorted w x (y ∷ ys) less below = ground (arith, is_below-insert_sorted w x ys less)

contains-insert_sorted :
    (x z : String) (ys : List String)
    → contains (insert_sorted str_lt x ys) z ≡ (x == z || contains ys z)
unfolding contains insert_sorted
contains-insert_sorted x z [] = refl
contains-insert_sorted x z (y ∷ ys) = ground (arith, contains-insert_sorted x z ys)

pub contains-sort :
    (z : String) (xs : List String) → contains (sort_func str_lt xs) z ≡ contains xs z
unfolding contains sort_func
contains-sort z [] = refl
contains-sort z (x ∷ xs) =
    contains-insert_sorted x z (sort_func str_lt xs) ∙ ap (λ b. x == z || b) (contains-sort z xs)

insert_sorted-is_ascending :
    (x : String) (ys : List String)
    → contains ys x ≡ false
    → is_ascending ys ≡ true
    → is_ascending (insert_sorted str_lt x ys) ≡ true
unfolding contains is_ascending is_below insert_sorted
insert_sorted-is_ascending x [] absent up = refl
insert_sorted-is_ascending x (y ∷ ys) absent up = elim (Bool-cases (str_lt y x)) [
  | inl less ↦
      rw less (ground (arith, is_below-insert_sorted y x ys less, insert_sorted-is_ascending x ys))
  | inr not_less ↦ elim (Bool-cases (str_lt x y)) [
    | inl more ↦ rw (not_less, more) (ground (arith, is_below_trans x y ys more))
    | inr not_more ↦ let same = str_lt_total y x not_less not_more in ground (arith, eq_iff y x)
  ]
]

pub sort-is_ascending :
    (xs : List String) → is_distinct xs ≡ true → is_ascending (sort_func str_lt xs) ≡ true
unfolding is_distinct sort_func is_ascending
sort-is_ascending [] h = refl
sort-is_ascending (x ∷ xs) h =
    insert_sorted-is_ascending x (sort_func str_lt xs) (contains-sort x xs ∙ ground arith)
      (sort-is_ascending xs (ground arith))

-- The least elements of two ascending lists with the same elements.
least-same :
    (x y : String) (xs ys : List String)
    → is_below x xs ≡ true
    → is_below y ys ≡ true
    → contains (y ∷ ys) x ≡ true
    → contains (x ∷ xs) y ≡ true
    → x ≡ y
unfolding contains
least-same x y xs ys below_x below_y h k = ground (
  arith,
  eq_iff y x,
  eq_iff x y,
  is_below-contains x y xs below_x,
  is_below-contains y x ys below_y,
  str_lt_asymm x y,
)

tail-same :
    (x y z : String) (xs ys : List String)
    → x ≡ y
    → is_below x xs ≡ true
    → is_below y ys ≡ true
    → contains (x ∷ xs) z ≡ contains (y ∷ ys) z
    → contains xs z ≡ contains ys z
unfolding contains
tail-same x y z xs ys head below_x below_y same = ground (
  arith,
  head,
  eq_iff x z,
  eq_iff y z,
  is_below-absent x xs below_x,
  is_below-absent y ys below_y,
)

pub ascending_unique :
    (xs ys : List String)
    → is_ascending xs ≡ true
    → is_ascending ys ≡ true
    → ((z : String) → contains xs z ≡ contains ys z)
    → xs ≡ ys
unfolding is_ascending contains
ascending_unique [] [] up_x up_y same = refl
ascending_unique [] (y ∷ ys) up_x up_y same = ground (arith, same y, eq_refl y)
ascending_unique (x ∷ xs) [] up_x up_y same = ground (arith, same x, eq_refl x)
ascending_unique (x ∷ xs) (y ∷ ys) up_x up_y same =
    let below_x : is_below x xs ≡ true = ground arith in
    let below_y : is_below y ys ≡ true = ground arith in
    let head : x ≡ y =
      least-same x y xs ys below_x below_y (sym (same x) ∙ rw (eq_refl x) refl)
        (same y ∙ rw (eq_refl y) refl) in
    let rest : xs ≡ ys =
      ascending_unique xs ys (ground arith) (ground arith)
        (λ z. tail-same x y z xs ys head below_x below_y (same z)) in
    cc
