-- ===== src/Kube/Model.antt =====
-- Functions with the documented behaviour of the Kubernetes ones, which show that the laws assumed
-- of them can hold.
use upcloud_operator.Prelude.{
  String, ◌≡◌, refl, Bool, false, not, ◌&&◌, ◌||◌, List, [], ◌∷◌, arith, ◌==◌, if◌then◌else◌,
  eq_iff,
}
use upcloud_operator.Kube.{Condition, condition_true, Library, IsLibrary}

-- The condition of the same type is replaced, or the new one is appended.
set_condition : List Condition → Condition → List Condition
set_condition [] c = c ∷ []
set_condition (d ∷ cs) c = if d.type == c.type then c ∷ cs else d ∷ set_condition cs c

-- The first condition of the type decides.
is_true : List Condition → String → Bool
is_true [] t = false
is_true (c ∷ cs) t = if c.type == t then c.status == condition_true else is_true cs t

has : List String → String → Bool
has [] f = false
has (g ∷ fs) f = g == f || has fs f

add : List String → String → List String
unfolding has
add [] f = f ∷ []
add (g ∷ fs) f = if g == f then g ∷ fs else g ∷ add fs f

remove : List String → String → List String
remove [] f = []
remove (g ∷ fs) f = let rest = remove fs f in if g == f then rest else g ∷ rest

unfoldable pub library : Library
unfolding set_condition is_true has add remove
library = record {
  set_status_condition = set_condition;
  is_status_condition_true = is_true;
  contains_finalizer = has;
  add_finalizer = add;
  remove_finalizer = remove;
}

is_true-set :
    (cs : List Condition) (c : Condition) (t : String)
    → is_true (set_condition cs c) t
      ≡ (if c.type == t then c.status == condition_true else is_true cs t)
unfolding is_true set_condition
is_true-set [] c t = refl
is_true-set (d ∷ cs) c t =
    ground (arith, eq_iff d.type c.type, eq_iff c.type t, eq_iff d.type t, is_true-set cs c t)

has-add : (fs : List String) (f g : String) → has (add fs f) g ≡ (f == g || has fs g)
unfolding has add
has-add [] f g = refl
has-add (h ∷ fs) f g = ground (arith, eq_iff h f, eq_iff f g, eq_iff h g, has-add fs f g)

has-remove : (fs : List String) (f g : String) → has (remove fs f) g ≡ (not (f == g) && has fs g)
unfolding has remove
has-remove [] f g = ground arith
has-remove (h ∷ fs) f g = ground (arith, eq_iff h f, eq_iff f g, eq_iff h g, has-remove fs f g)

pub library-IsLibrary : IsLibrary library
unfolding library
library-IsLibrary = record {
  is_true-set = is_true-set;
  contains-add = has-add;
  contains-remove = has-remove;
}
