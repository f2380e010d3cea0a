-- ===== src/Prelude/Sorting/Laws.antt =====
-- Sorting rearranges, and two rearrangements of one list are sorted alike, where elements that the
-- order does not tell apart are equal.
use mathlib.Core.Path.{◌≡◌, refl, ap, ap₂, ◌∙◌, sym}
use mathlib.Core.Bool.{Bool, true, false}
use mathlib.Core.Logic.{inl, inr, ∥∥₁_elim}
use mathlib.Core.HLevel.{Π_prop}
use mathlib.Core.List.{
  List, [], ◌∷◌, map, Perm, Permᴰ, Pairwise, mem-cons_self, rel_of_Pairwise-cons,
}
use mathlib.Core.List.Perm
use mathlib.Core.List.Permᴰ
use mathlib.Core.List.Pairwise
use native.Mathlib.Nat.{ℕ_set}
use Prim.Native.Nat.{suc}
use upcloud_operator.Prelude.Lists.{length}
use native.Mathlib.Omega.{arith}
use upcloud_operator.Prelude.Tests.{Bool-cases}
use upcloud_operator.Prelude.Sorting.{insert_sorted, sort_func}

module _ {ℓ} {A : Type ℓ} where
  length-eq_of_permᴰ : {l r : List A} → Permᴰ l r → length l ≡ length r
  length-eq_of_permᴰ Permᴰ.nil = refl
  length-eq_of_permᴰ (Permᴰ.cons e p) = ap suc (length-eq_of_permᴰ p)
  length-eq_of_permᴰ (Permᴰ.swap e f) = refl
  length-eq_of_permᴰ (Permᴰ.trans p q) = length-eq_of_permᴰ p ∙ length-eq_of_permᴰ q

  pub length-eq_of_perm : {l r : List A} → Perm l r → length l ≡ length r
  length-eq_of_perm p = ∥∥₁_elim p (ℕ_set _ _) length-eq_of_permᴰ

module _ {ℓ} {A : Type ℓ} (less : A → A → Bool) where
  insert_sorted-perm : (x : A) (l : List A) → Perm (insert_sorted less x l) (x ∷ l)
  unfolding insert_sorted
  insert_sorted-perm x [] = Perm.rfl
  insert_sorted-perm x (y ∷ ys) = elim (Bool-cases (less y x)) [
    | inl h ↦ rw h (Perm.trans (Perm.cons y (insert_sorted-perm x ys)) (Perm.swap x y ys))
    | inr h ↦ rw h Perm.rfl
  ]

  pub sort_func-perm : (l : List A) → Perm (sort_func less l) l
  unfolding sort_func
  sort_func-perm [] = Perm.rfl
  sort_func-perm (x ∷ xs) =
      Perm.trans (insert_sorted-perm x (sort_func less xs)) (Perm.cons x (sort_func-perm xs))

  -- What sorting needs of `less`.
  pub record IsLess : Type ℓ where
    pub asymm : (x y : A) → less x y ≡ true → less y x ≡ false
    pub trans : (x y z : A) → less y x ≡ false → less z y ≡ false → less z x ≡ false

  -- The order tells the two elements apart unless they are equal.
  abbrev pub Agree : A → A → Type ℓ
  Agree x y = less x y ≡ false → less y x ≡ false → x ≡ y

module _ {ℓ} {A : Type ℓ} (less : A → A → Bool) (o : IsLess less) where
  -- Two elements of which the first is the smaller.
  insert_sorted_swap :
      (x y : A) (l : List A)
      → less x y ≡ true
      → insert_sorted less x (insert_sorted less y l)
        ≡ insert_sorted less y (insert_sorted less x l)
  unfolding insert_sorted
  insert_sorted_swap x y [] h = ground (arith, o.asymm x y)
  insert_sorted_swap x y (z ∷ zs) h = ground (
    arith,
    o.asymm x y,
    o.asymm z x,
    o.asymm z y,
    o.asymm x z,
    o.asymm y z,
    o.trans x y z,
    o.trans y z x,
    o.trans z y x,
    o.trans x z y,
    o.trans z x y,
    insert_sorted_swap x y zs,
  )

  insert_sorted_comm :
      (x y : A) (l : List A)
      → Agree less x y
      → insert_sorted less x (insert_sorted less y l)
        ≡ insert_sorted less y (insert_sorted less x l)
  insert_sorted_comm x y l a = elim (Bool-cases (less x y)) [
    | inl h ↦ insert_sorted_swap x y l h
    | inr p ↦ elim (Bool-cases (less y x)) [
      | inl h ↦ sym (insert_sorted_swap y x l h)
      | inr q ↦ cc (a p q)
    ]
  ]

  module _ (s : IsSet A) where
    Agree-prop : (x y : A) → IsProp (Agree less x y)
    Agree-prop x y = Π_prop λ _. Π_prop λ _. s x y

    sort_func-eq :
        {l r : List A} → Permᴰ l r → Pairwise (Agree less) l → sort_func less l ≡ sort_func less r
    unfolding sort_func
    sort_func-eq Permᴰ.nil a = refl
    sort_func-eq (Permᴰ.cons e p) a =
        ap₂ (insert_sorted less) e (sort_func-eq p (Pairwise.of_cons a))
    sort_func-eq (Permᴰ.swap {a = x} {b = y} {l = l} e f) h =
        insert_sorted_comm x y (sort_func less l) (rel_of_Pairwise-cons h mem-cons_self) ∙ cc (e, f)
    sort_func-eq (Permᴰ.trans p q) a =
        sort_func-eq p a ∙ sort_func-eq q (Permᴰ.pairwise Agree-prop (λ x y h u v. sym (h v u)) p a)

    -- Rearrangements of one list are sorted alike.
    pub sort_func-eq_of_perm :
        {l r : List A} → Perm l r → Pairwise (Agree less) l → sort_func less l ≡ sort_func less r
    sort_func-eq_of_perm {l} {r} p a =
        let lists : IsSet (List A) = hlevel s in
        ∥∥₁_elim p (lists (sort_func less l) (sort_func less r)) λ d. sort_func-eq d a

-- Sorting by a key sorts the keys.
module _ {ℓ κ} {A : Type ℓ} {B : Type κ} (less : B → B → Bool) (key : A → B) where
  map-insert_sorted :
      (x : A) (l : List A)
      → map key (insert_sorted (λ a b. less (key a) (key b)) x l)
        ≡ insert_sorted less (key x) (map key l)
  unfolding insert_sorted
  map-insert_sorted x [] = refl
  map-insert_sorted x (y ∷ ys) = ground (arith, map-insert_sorted x ys)

  pub map-sort_func :
      (l : List A)
      → map key (sort_func (λ a b. less (key a) (key b)) l) ≡ sort_func less (map key l)
  unfolding sort_func
  map-sort_func [] = refl
  map-sort_func (x ∷ xs) =
      map-insert_sorted x (sort_func (λ a b. less (key a) (key b)) xs)
      ∙ ap (insert_sorted less (key x)) (map-sort_func xs)
