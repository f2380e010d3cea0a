-- ===== src/Storage/BucketAdapter/Pages.antt =====
-- The loop of findBucket over the pages of the bucket metrics ends, and what it finds.
use mathlib.Core.List.{append_assoc}
use upcloud_operator.Prelude.{
  ◌++◌, ◌==◌, ◌&&◌, not, false, Bool-cases, eq_iff, eq_refl, ℕ, zero, suc, String, ◌≡◌, refl, ◌∙◌,
  ap, subst, Option, none, some, List, [], ◌∷◌, ◌⊎◌, inl, inr, ◌≤◌, length, Option-cases,
  Result-cases, ok, err, arith,
}
use upcloud_operator.Errors.{Err, wrap}
use upcloud_operator.Storage.Upcloud.{BucketApi, BucketMetrics}
use upcloud_operator.Storage.BucketAdapter.{Found, find_named, find_from, bucket_page_size}

-- The page with this index, from 0; there is none beyond the last.
unfoldable pub page_at : ℕ → List (List BucketMetrics) → List BucketMetrics
page_at n [] = []
page_at zero (p ∷ ps) = p
page_at (suc n) (p ∷ ps) = page_at n ps

-- The pages after the first of them.
unfoldable pub drop : ℕ → List (List BucketMetrics) → List (List BucketMetrics)
drop zero ps = ps
drop (suc n) [] = []
drop (suc n) (p ∷ ps) = drop n ps

-- No page is empty.
unfoldable pub AreFull : List (List BucketMetrics) → Type 0
AreFull [] = Unit
AreFull (p ∷ ps) = (1 ≤ length p) × AreFull ps

-- What the loop relies on of the API: the buckets of a service come in pages, counted from 1, that
-- are not empty, and a page beyond the last is empty. Reading a page changes none. A call may fail
-- at any time.
pub record IsPaged {C : Type 0} (api : BucketApi C) : Type 1 where
  pub pages : C → String → List (List BucketMetrics)
  pub are_full : (c : C) (service : String) → AreFull (pages c service)
  pub get-page :
      (c : C) (service : String) (n : ℕ) (l : List BucketMetrics)
      → (api.get_bucket_metrics service (record { size = bucket_page_size; number = suc n }) c).0
        ≡ ok l
      → l ≡ page_at n (pages c service)
  pub get-keeps :
      (c : C) (service : String) (n : ℕ)
      → pages
          (api.get_bucket_metrics service (record { size = bucket_page_size; number = suc n }) c).1
          service
        ≡ pages c service

-- The buckets of all pages in one list.
unfoldable pub buckets : List (List BucketMetrics) → List BucketMetrics
buckets [] = []
buckets (p ∷ ps) = p ++ buckets ps

-- A bucket of that name that is not deleted.
pub record IsLive (name : String) (b : BucketMetrics) : Type 0 where
  pub named : b.name ≡ name
  pub kept : b.deleted ≡ false

-- No bucket of the list is a live one of that name.
unfoldable pub HasNone : String → List BucketMetrics → Type 0
HasNone name [] = Unit
HasNone name (b ∷ l) = ¬ (IsLive name b) × HasNone name l

-- The answer is the first live bucket of that name, or there is none.
unfoldable pub IsFirst : String → List BucketMetrics → Option BucketMetrics → Type 0
unfolding HasNone
IsFirst name l none = HasNone name l
IsFirst name l (some b) =
    (before after : List BucketMetrics) × (l ≡ before ++ (b ∷ after))
    × HasNone name before
    × IsLive name b

IsFirst-skip :
    (name : String) (b : BucketMetrics) (l : List BucketMetrics) (found : Option BucketMetrics)
    → ¬ (IsLive name b)
    → IsFirst name l found
    → IsFirst name (b ∷ l) found
unfolding IsFirst HasNone
IsFirst-skip name b l none other first = (other, first)
IsFirst-skip name b l (some f) other (before, after, here, ahead, live) =
    (b ∷ before, after, ap (λ t. b ∷ t) here, (other, ahead), live)

find_named-IsFirst : (name : String) (l : List BucketMetrics) → IsFirst name l (find_named name l)
unfolding find_named IsFirst HasNone
find_named-IsFirst name [] = tt
find_named-IsFirst name (b ∷ l) = elim (Bool-cases (b.name == name && not b.deleted)) [
  | inl here ↦
      rw here (
        [],
        l,
        refl,
        tt,
        record { named = ground (arith, eq_iff b.name name); kept = ground arith },
      )
  | inr other ↦ rw other (
      IsFirst-skip name b l (find_named name l)
        (λ live.
          cc (ap (λ n. n == name && not b.deleted) live.named, live.kept, eq_refl name, other))
        (find_named-IsFirst name l))
]

-- A page before the others: a bucket that is found on it is the first of all.
IsFirst-found :
    (name : String) (p rest : List BucketMetrics) (b : BucketMetrics)
    → IsFirst name p (some b)
    → IsFirst name (p ++ rest) (some b)
unfolding IsFirst
IsFirst-found name p rest b (before, after, here, ahead, live) = (
  before,
  after ++ rest,
  ap (λ t. t ++ rest) here ∙ append_assoc before (b ∷ after) rest,
  ahead,
  live,
)

-- A page without one leaves the answer to the rest.
IsFirst-rest :
    (name : String) (p rest : List BucketMetrics) (found : Option BucketMetrics)
    → HasNone name p
    → IsFirst name rest found
    → IsFirst name (p ++ rest) found
unfolding HasNone
IsFirst-rest name [] rest found gone first = first
IsFirst-rest name (b ∷ p) rest found (other, gone) first =
    IsFirst-skip name b (p ++ rest) found other (IsFirst-rest name p rest found gone first)

page_at-drop :
    (n : ℕ) (ps rest : List (List BucketMetrics))
    → drop n ps ≡ rest
    → page_at n ps ≡ page_at zero rest
unfolding page_at drop
page_at-drop zero ps rest at = ap (page_at zero) at
page_at-drop (suc n) [] rest at = ap (page_at zero) at
page_at-drop (suc n) (p ∷ ps) rest at = page_at-drop n ps rest at

drop-suc :
    (n : ℕ) (ps : List (List BucketMetrics)) (p : List BucketMetrics)
    (rest : List (List BucketMetrics))
    → drop n ps ≡ p ∷ rest
    → drop (suc n) ps ≡ rest
unfolding drop
drop-suc zero [] p rest at = cc
drop-suc zero (q ∷ qs) p rest at = cc
drop-suc (suc n) [] p rest at = cc
drop-suc (suc n) (q ∷ qs) p rest at = drop-suc n qs p rest at

drop-AreFull : (n : ℕ) (ps : List (List BucketMetrics)) → AreFull ps → AreFull (drop n ps)
unfolding AreFull drop
drop-AreFull zero ps full = full
drop-AreFull (suc n) [] full = tt
drop-AreFull (suc n) (p ∷ ps) (some_bucket, full) = drop-AreFull n ps full

-- How a run of the loop ends, where `rest` are the pages that were still to come: with the error of
-- a read, or the first live bucket of that name.
abbrev pub Ends : String → List (List BucketMetrics) → Found → Type 0
Ends name rest found =
    ((e : Err) × (found ≡ some (err (wrap "get bucket metrics" e))))
    ⊎ ((b : Option BucketMetrics) × (found ≡ some (ok b)) × IsFirst name (buckets rest) b)

Ends-rest :
    (name : String) (p : List BucketMetrics) (rest : List (List BucketMetrics)) (found : Found)
    → HasNone name p
    → Ends name rest found
    → Ends name (p ∷ rest) found
unfolding buckets
Ends-rest name p rest found gone (inl failed) = inl failed
Ends-rest name p rest found gone (inr (b, ended, first)) =
    inr (b, ended, IsFirst-rest name p (buckets rest) b gone first)

module _ {C : Type 0} {api : BucketApi C} (S : IsPaged api) (service name : String) where
  -- The loop from the page n + 1, where `rest` are the pages from there on.
  find_from-Ends :
      (fuel n : ℕ) (rest : List (List BucketMetrics)) (c : C)
      → drop n (S.pages c service) ≡ rest
      → suc (length rest) ≤ fuel
      → Ends name rest (find_from api fuel service name (suc n) c).0
  unfolding find_from page_at AreFull buckets IsFirst HasNone
  find_from-Ends zero n rest c at enough = ground arith
  find_from-Ends (suc fuel) n [] c at enough =
      Result-cases _
        (api.get_bucket_metrics service (record { size = bucket_page_size; number = suc n }) c).0
        (λ l answer. inr (
          none,
          rw (find_from, answer, S.get-page c service n l answer ∙ page_at-drop n _ [] at) refl,
          tt,
        ))
        (λ e answer. inl (e, rw (find_from, answer) refl))
  find_from-Ends (suc fuel) n ([] ∷ rest) c at enough =
      let full = subst AreFull at (drop-AreFull n _ (S.are_full c service)) in
      ground (arith, full.0)
  find_from-Ends (suc fuel) n ((b ∷ bs) ∷ rest) c at enough =
      Result-cases _
        (api.get_bucket_metrics service (record { size = bucket_page_size; number = suc n }) c).0
        (λ l answer.
          let read = S.get-page c service n l answer ∙ page_at-drop n _ ((b ∷ bs) ∷ rest) at in
          elim (Option-cases (find_named name (b ∷ bs))) [
            | inr (found, here) ↦ inr (
              some found,
              rw (find_from, answer, read, here) refl,
              IsFirst-found name (b ∷ bs) (buckets rest) found
                  (subst (IsFirst name (b ∷ bs)) here (find_named-IsFirst name (b ∷ bs))),
            )
            | inl missing ↦
                rw (find_from, answer, read, missing)
                  (Ends-rest name (b ∷ bs) rest _
                    (subst (IsFirst name (b ∷ bs)) missing (find_named-IsFirst name (b ∷ bs)))
                    (find_from-Ends fuel (suc n) rest _
                      (ap (drop (suc n)) (S.get-keeps c service n)
                        ∙ drop-suc n (S.pages c service) (b ∷ bs) rest at)
                      (ground arith)))
          ])
        (λ e answer. inl (e, rw (find_from, answer) refl))

  -- With fuel for one page more than the service has, the loop from the first page ends: it returns
  -- the error of a read, or the first bucket of that name, on all pages, that is not deleted.
  pub find_from-terminates :
      (fuel : ℕ) (c : C)
      → suc (length (S.pages c service)) ≤ fuel
      → Ends name (S.pages c service) (find_from api fuel service name 1 c).0
  unfolding drop
  find_from-terminates fuel c enough = find_from-Ends fuel 0 (S.pages c service) c refl enough
