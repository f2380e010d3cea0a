-- ===== src/Labels/Laws.antt =====
-- Comparing label sets: LabelsEqual is equality up to order, where no key stands twice.
use mathlib.Core.List.{Perm, Pairwise}
use mathlib.Core.List.Perm
use mathlib.Core.List.Pairwise
use upcloud_operator.Prelude.{◌≡◌, refl, ◌≢◌, true, List, [], ◌∷◌, arith, eq_iff, eq_refl}
use upcloud_operator.Prelude.StringOrder.{
  str_lt_asymm, str_le_trans, str_lt_total, String-set, String-discrete,
}
use upcloud_operator.Prelude.Sorting.Laws.{
  IsLess, Agree, sort_func-perm, sort_func-eq_of_perm, length-eq_of_perm,
}
use upcloud_operator.Labels.{Label, key_less, sort_labels, same_labels, labels_equal}

Label-discrete : Discrete Label
Label-discrete = hlevel String-discrete

Label-set : IsSet Label
Label-set = hlevel String-set

key_less-IsLess : IsLess key_less
key_less-IsLess = record {
  asymm = λ x y. str_lt_asymm x.key y.key;
  trans = λ x y z. str_le_trans x.key y.key z.key;
}

-- The labels have different keys.
abbrev pub OtherKey : Label → Label → Type 0
OtherKey a b = a.key ≢ b.key

-- No key stands twice.
abbrev pub DistinctKeys : List Label → Type 0
DistinctKeys = Pairwise OtherKey

OtherKey-Agree : (a b : Label) → OtherKey a b → Agree key_less a b
OtherKey-Agree a b h p q = absurd (h (str_lt_total a.key b.key p q))

same_labels_refl : (l : List Label) → same_labels l l ≡ true
unfolding same_labels
same_labels_refl [] = refl
same_labels_refl (a ∷ l) = ground (arith, eq_refl a.key, eq_refl a.value, same_labels_refl l)

same_labels_sound : (a b : List Label) → same_labels a b ≡ true → a ≡ b
unfolding same_labels
same_labels_sound [] [] h = refl
same_labels_sound [] (y ∷ b) h = ground arith
same_labels_sound (x ∷ a) [] h = ground arith
same_labels_sound (x ∷ a) (y ∷ b) h =
    ground (arith, eq_iff x.key y.key, eq_iff x.value y.value, same_labels_sound a b)

pub sort_labels-eq_of_perm :
    {a b : List Label} → Perm a b → DistinctKeys a → sort_labels a ≡ sort_labels b
unfolding sort_labels
sort_labels-eq_of_perm p d =
    sort_func-eq_of_perm key_less key_less-IsLess Label-set p (Pairwise.imp OtherKey-Agree d)

pub sort_labels-perm : (a : List Label) → Perm (sort_labels a) a
unfolding sort_labels
sort_labels-perm = sort_func-perm key_less

-- Label sets that LabelsEqual accepts are rearrangements of one another, and where no key stands
-- twice in the first it accepts every rearrangement.
pub labels_equal_iff :
    (a b : List Label)
    → (labels_equal a b ≡ true → Perm a b) × (DistinctKeys a → Perm a b → labels_equal a b ≡ true)
unfolding labels_equal
labels_equal_iff a b = (
  λ h.
      let e : sort_labels a ≡ sort_labels b = same_labels_sound _ _ (ground arith) in
      Perm.trans (Perm.symm (sort_labels-perm a)) (rw e (sort_labels-perm b)),
  λ d p.
      rw (length-eq_of_perm p, sort_labels-eq_of_perm p d)
        (ground (arith, same_labels_refl (sort_labels b))),
)

pub labels_equal_refl : (a : List Label) → labels_equal a a ≡ true
unfolding labels_equal
labels_equal_refl a = ground (arith, same_labels_refl (sort_labels a))
