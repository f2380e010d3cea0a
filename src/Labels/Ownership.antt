-- ===== src/Labels/Ownership.antt =====
-- What DesiredLabels guarantees: the owner is marked exactly, and the order in which Go visits the
-- user's map has no effect.
use mathlib.Core.Logic.{∥∥₁_elim}
use mathlib.Core.Path.{subst, subst₂, subst⁻¹}
use mathlib.Core.HLevel.{¬_prop}
use mathlib.Core.Bool.{Bool-set}
use mathlib.Core.List.{Perm, Perm-prop, Permᴰ, Pairwise, Mem, not-mem-nil, mem-cons}
use mathlib.Core.List.Perm
use mathlib.Core.Logic.Or
use upcloud_operator.Prelude.{
  String, ◌≡◌, refl, sym, ap, ◌∙◌, ◌≢◌, ◌↔◌, Bool, true, false, ◌||◌, List, [], ◌∷◌, ◌++◌, arith,
  eq_iff, ◌==◌, inl, inr, Bool-cases,
}
use upcloud_operator.Kube.{ObjectMeta}
use upcloud_operator.Labels.{
  Label, label, label_uid, label_managed_by, managed_by_value, UserLabels, owner_labels,
  user_labels, desired_labels, labels_equal, has_uid,
}
use upcloud_operator.Labels.Laws.{
  OtherKey, DistinctKeys, sort_labels-perm, sort_labels-eq_of_perm, labels_equal_iff,
}

has_uid-permᴰ : {a b : List Label} (uid : String) → Permᴰ a b → has_uid a uid ≡ has_uid b uid
unfolding has_uid
has_uid-permᴰ uid Permᴰ.nil = refl
has_uid-permᴰ uid (Permᴰ.cons e p) =
    cc (ap (λ (l : Label). l.key) e, ap (λ (l : Label). l.value) e, has_uid-permᴰ uid p)
has_uid-permᴰ uid (Permᴰ.swap e f) = ground (
  arith,
  ap (λ (l : Label). l.key) e,
  ap (λ (l : Label). l.value) e,
  ap (λ (l : Label). l.key) f,
  ap (λ (l : Label). l.value) f,
)
has_uid-permᴰ uid (Permᴰ.trans p q) = has_uid-permᴰ uid p ∙ has_uid-permᴰ uid q

pub has_uid-perm : {a b : List Label} (uid : String) → Perm a b → has_uid a uid ≡ has_uid b uid
has_uid-perm uid p = ∥∥₁_elim p (Bool-set _ _) (has_uid-permᴰ uid)

-- No user label has the key of an owner label.
has_uid-user_labels : (user : UserLabels) (uid : String) → has_uid (user_labels user) uid ≡ false
unfolding has_uid user_labels
has_uid-user_labels [] uid = refl
has_uid-user_labels ((k, v) ∷ user) uid = ground (arith, has_uid-user_labels user uid)

-- The labels that the operator sets on a resource carry the uid of the owning object and no other,
-- whatever labels the user asks for.
pub has_uid-desired_labels :
    (m : ObjectMeta) (user : UserLabels) (uid : String)
    → has_uid (desired_labels m user) uid ≡ (m.uid == uid)
unfolding desired_labels has_uid
has_uid-desired_labels m user uid =
    has_uid-perm uid (sort_labels-perm (owner_labels m ++ user_labels user))
    ∙ ground (arith, has_uid-user_labels user uid)

-- Every element has the property.
abbrev pub All {ℓ} : {A : Type ℓ} → (A → Type 0) → List A → Type 0
All P [] = Unit
All P (x ∷ xs) = P x × All P xs

pub All-mem {ℓ} :
    {A : Type ℓ} (P : A → Type 0)
    → ((a : A) → IsProp (P a))
    → (l : List A) → All P l
    → (a : A) → Mem a l
    → P a
All-mem P prop [] h a m = absurd (not-mem-nil m)
All-mem P prop (x ∷ l) h a m =
    Or.elim (prop a) (mem-cons.0 m) (λ e. subst⁻¹ P e h.0) (All-mem P prop l h.1 a)

-- No key of the map stands twice, as in every Go map.
abbrev pub IsMap : UserLabels → Type 0
IsMap [] = Unit
IsMap ((k, v) ∷ user) = All (λ p. k ≢ p.0) user × IsMap user

user_labels-other :
    (l : Label) (user : UserLabels)
    → All (λ p. l.key ≢ p.0) user
    → All (OtherKey l) (user_labels user)
unfolding user_labels
user_labels-other l [] h = tt
user_labels-other l ((k, v) ∷ user) h =
    elim (Bool-cases (k == label_managed_by || k == label_uid)) [
      | inl q ↦ rw q (user_labels-other l user h.1)
      | inr q ↦ rw q (h.0, user_labels-other l user h.1)
    ]

-- A reserved key is the key of no user label.
user_labels-reserved :
    (l : Label) (user : UserLabels)
    → (l.key == label_managed_by || l.key == label_uid) ≡ true
    → All (OtherKey l) (user_labels user)
unfolding user_labels
user_labels-reserved l [] h = tt
user_labels-reserved l ((k, v) ∷ user) h =
    elim (Bool-cases (k == label_managed_by || k == label_uid)) [
      | inl q ↦ rw q (user_labels-reserved l user h)
      | inr q ↦ rw q (
        λ e. cc (ap (λ (x : String). x == label_managed_by || x == label_uid) e, h, q),
        user_labels-reserved l user h,
      )
    ]

Distinct-cons :
    {l : Label} {ls : List Label} → All (OtherKey l) ls → DistinctKeys ls → DistinctKeys (l ∷ ls)
Distinct-cons {l} {ls} h d = Pairwise.cons (All-mem (OtherKey l) (λ a. ¬_prop) ls h) d

user_labels-Distinct : (user : UserLabels) → IsMap user → DistinctKeys (user_labels user)
unfolding user_labels
user_labels-Distinct [] h = Pairwise.nil
user_labels-Distinct ((k, v) ∷ user) h =
    elim (Bool-cases (k == label_managed_by || k == label_uid)) [
      | inl q ↦ rw q (user_labels-Distinct user h.1)
      | inr q ↦
          rw q
            (Distinct-cons (user_labels-other (label k v) user h.0) (user_labels-Distinct user h.1))
    ]

-- The labels before sorting.
all_labels-Distinct :
    (m : ObjectMeta) (user : UserLabels)
    → IsMap user
    → DistinctKeys (owner_labels m ++ user_labels user)
unfolding owner_labels
all_labels-Distinct m user h =
    Distinct-cons
      (
        λ e. cc ((eq_iff label_uid label_managed_by).1 e),
        user_labels-reserved (label label_uid m.uid) user refl,
      )
      (Distinct-cons (user_labels-reserved (label label_managed_by managed_by_value) user refl)
        (user_labels-Distinct user h))

abbrev is_reserved : String → Bool
is_reserved k = k == label_managed_by || k == label_uid

user_labels-cons :
    (x : String × String) (a b : UserLabels)
    → Perm (user_labels a) (user_labels b)
    → Perm (user_labels (x ∷ a)) (user_labels (x ∷ b))
unfolding user_labels
user_labels-cons x a b p = elim (Bool-cases (is_reserved x.0)) [
  | inl q ↦ rw q p
  | inr q ↦ rw q (Perm.cons (label x.0 x.1) p)
]

user_labels-swap :
    (x y : String × String) (l : UserLabels)
    → Perm (user_labels (x ∷ y ∷ l)) (user_labels (y ∷ x ∷ l))
unfolding user_labels
user_labels-swap x y l = elim (Bool-cases (is_reserved x.0)) [
  | inl p ↦ rw p Perm.rfl
  | inr p ↦ elim (Bool-cases (is_reserved y.0)) [
    | inl q ↦ rw (p, q) Perm.rfl
    | inr q ↦ rw (p, q) (Perm.swap (label y.0 y.1) (label x.0 x.1) (user_labels l))
  ]
]

user_labels-permᴰ : {a b : UserLabels} → Permᴰ a b → Perm (user_labels a) (user_labels b)
user_labels-permᴰ Permᴰ.nil = Perm.rfl
user_labels-permᴰ (Permᴰ.cons {a = x} {l₁ = l} {l₂ = k} e p) =
    subst (λ y. Perm (user_labels (x ∷ l)) (user_labels (y ∷ k))) e
      (user_labels-cons x l k (user_labels-permᴰ p))
user_labels-permᴰ (Permᴰ.swap {a = x} {b = y} {l = l} e f) =
    subst₂ (λ u v. Perm (user_labels (x ∷ y ∷ l)) (user_labels (u ∷ v ∷ l))) f e
      (user_labels-swap x y l)
user_labels-permᴰ (Permᴰ.trans p q) = Perm.trans (user_labels-permᴰ p) (user_labels-permᴰ q)

-- The order in which Go visits the user's map has no effect on the labels: two listings of one map
-- give the same labels in the same order.
pub desired_labels-eq_of_perm :
    (m : ObjectMeta) (a b : UserLabels)
    → IsMap a
    → Perm a b
    → desired_labels m a ≡ desired_labels m b
unfolding desired_labels
desired_labels-eq_of_perm m a b h p =
    sort_labels-eq_of_perm
      (Perm.append_left (owner_labels m) (∥∥₁_elim p Perm-prop user_labels-permᴰ))
      (all_labels-Distinct m a h)

desired_labels-Distinct :
    (m : ObjectMeta) (user : UserLabels) → IsMap user → DistinctKeys (desired_labels m user)
unfolding desired_labels
desired_labels-Distinct m user h =
    Perm.pairwise (λ a b. ¬_prop) (λ a b n e. n (sym e))
      (Perm.symm (sort_labels-perm (owner_labels m ++ user_labels user)))
      (all_labels-Distinct m user h)

-- LabelsEqual accepts observed labels against those that DesiredLabels gives exactly if they are a
-- rearrangement of them.
pub labels_equal-desired_labels :
    (m : ObjectMeta) (user : UserLabels) (observed : List Label)
    → IsMap user
    → (labels_equal observed (desired_labels m user) ≡ true) ↔ Perm observed (desired_labels m user)
labels_equal-desired_labels m user observed h = (
  (labels_equal_iff observed (desired_labels m user)).0,
  λ p.
      (labels_equal_iff observed (desired_labels m user)).1
        (Perm.pairwise (λ a b. ¬_prop) (λ a b n e. n (sym e)) (Perm.symm p)
          (desired_labels-Distinct m user h))
        p,
)
