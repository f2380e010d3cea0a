-- ===== src/Prelude/StringOrder.antt =====
-- Go's order on strings: byte by byte, which for UTF-8 is the order of the code points.
use Prim.Native.Nat.{ℕ, Ordering, compare as compare_ℕ}
use Prim.Native.Char.{code}
use Prim.Native.String.{String, [], ◌∷◌, compare, then}
use Prim.Native.String.compare
use mathlib.Core.Path.{◌≡◌, refl}
use mathlib.Core.Bool.{Bool, true, false}
use text.Mathlib.Text.{is_lt}
use text.Mathlib.TextEquality.{path_by_compare, eq_iff}
use mathlib.Core.HLevel.{hedberg}
use upcloud_operator.Prelude.Sorting.Laws.{IsLess}
use mathlib.Core.Logic.{inl, inr}
use upcloud_operator.Prelude.Tests.{◌==◌, Bool-cases}
use native.Mathlib.Omega.{arith}

-- s < t
unfoldable pub str_lt : String → String → Bool
str_lt s t = is_lt (compare s t)

abbrev flip : Ordering → Ordering
flip Ordering.lt = Ordering.gt
flip Ordering.eq = Ordering.eq
flip Ordering.gt = Ordering.lt

compare_ℕ-flip : (m n : ℕ) → compare_ℕ n m ≡ flip (compare_ℕ m n)
compare_ℕ-flip m n = ground arith

then-flip : (o p : Ordering) → then (flip o) (flip p) ≡ flip (then o p)
then-flip Ordering.lt p = refl
then-flip Ordering.eq p = refl
then-flip Ordering.gt p = refl

compare-flip : (s t : String) → compare t s ≡ flip (compare s t)
compare-flip [] [] = refl
compare-flip [] (d ∷ t) = rw (compare.nil-cons d t, compare.cons-nil d t)
compare-flip (c ∷ s) [] = rw (compare.nil-cons c s, compare.cons-nil c s)
compare-flip (c ∷ s) (d ∷ t) =
    rw
      (
        compare.cons-cons d c t s,
        compare.cons-cons c d s t,
        compare-flip s t,
        compare_ℕ-flip (code c) (code d),
      )
      (then-flip (compare_ℕ (code c) (code d)) (compare s t))

-- The step of transitivity: the first characters, then the rests.
then_trans :
    (k m n : ℕ) (p q r : Ordering)
    → (is_lt p ≡ false → is_lt q ≡ false → is_lt r ≡ false)
    → is_lt (then (compare_ℕ m k) p) ≡ false
    → is_lt (then (compare_ℕ n m) q) ≡ false
    → is_lt (then (compare_ℕ n k) r) ≡ false
then_trans k m n p q r h a b = ground arith

-- Of two texts at most one is the smaller.
pub str_lt_asymm : (s t : String) → str_lt s t ≡ true → str_lt t s ≡ false
unfolding str_lt
str_lt_asymm s t h = ground (arith, compare-flip s t)

-- "Not above" is transitive.
pub str_le_trans : (a b c : String) → str_lt b a ≡ false → str_lt c b ≡ false → str_lt c a ≡ false
unfolding str_lt
str_le_trans [] [] c p q = q
str_le_trans [] (y ∷ b) [] p q = refl
str_le_trans [] (y ∷ b) (z ∷ c) p q = rw (compare.cons-nil z c)
str_le_trans (x ∷ a) [] c p q = ground (arith, compare.nil-cons x a)
str_le_trans (x ∷ a) (y ∷ b) [] p q = ground (arith, compare.nil-cons y b)
str_le_trans (x ∷ a) (y ∷ b) (z ∷ c) p q = rw (compare.cons-cons z x c a) (
    then_trans (code x) (code y) (code z) (compare b a) (compare c b) (compare c a)
      (str_le_trans a b c) (rw (compare.cons-cons y x b a) at p)
      (rw (compare.cons-cons z y c b) at q))

-- Texts of which neither is the smaller are equal.
pub str_lt_total : (s t : String) → str_lt s t ≡ false → str_lt t s ≡ false → s ≡ t
unfolding str_lt
str_lt_total s t p q = path_by_compare s t (ground (arith, compare-flip s t))

pub String-discrete : Discrete String
String-discrete s t = elim (Bool-cases (s == t)) [
  | inl h ↦ yes ((eq_iff s t).0 h)
  | inr h ↦ no (λ e. cc ((eq_iff s t).1 e))
]

pub String-set : IsSet String
String-set = hedberg String-discrete

pub str_lt-IsLess : IsLess str_lt
str_lt-IsLess = record { asymm = str_lt_asymm; trans = str_le_trans }
