-- ===== src/Databases/Access/Laws.antt =====
-- When the request for access control brings about what the comparison asks for.
use upcloud_operator.Prelude.{
  ◌≡◌, refl, Bool, true, false, ◌&&◌, Option, none, some, List, [], ◌∷◌, bool_eq, slices_equal_refl,
  arith, eq_refl, Option-cases, inl, inr, not,
}
use upcloud_operator.Databases.Types.{
  Strings, PgAccessControl, ValkeyAccessControl, OpenSearchAccessControl, User,
}
use upcloud_operator.Databases.Upcloud
use upcloud_operator.Databases.Upcloud.{
  PgAccess, ValkeyAccess, AccessRule, OpenSearchAccess, ModifyAccess,
}
use upcloud_operator.Databases.Access.{
  both, pg_matches, valkey_matches, opensearch_matches, to_rules, rules_equal,
  access_control_matches, pg_request, valkey_request, opensearch_request, if_any, nil_slice,
  strings_equal,
}

-- What is there after a request: the new value, if one is sent. Whether a value that is not sent
-- stays as it is, or goes, is up to the API.
abbrev pub sent_or_old : {A : Type 0} → Bool → Option A → Option A → Option A
sent_or_old true none old = old
sent_or_old false none old = none
sent_or_old keeps (some new) old = some new

-- An observed block after a request.
abbrev pub new_pg : Bool → Option PgAccess → Option PgAccess → Option PgAccess
new_pg keeps none old = sent_or_old keeps none old
new_pg keeps (some q) none = some q
new_pg keeps (some q) (some o) =
    some (record { allow_replication = sent_or_old keeps q.allow_replication o.allow_replication })

abbrev pub new_valkey : Bool → Option ValkeyAccess → Option ValkeyAccess → Option ValkeyAccess
new_valkey keeps none old = sent_or_old keeps none old
new_valkey keeps (some q) none = some q
new_valkey keeps (some q) (some o) = some (record {
  categories = sent_or_old keeps q.categories o.categories;
  channels = sent_or_old keeps q.channels o.channels;
  commands = sent_or_old keeps q.commands o.commands;
  keys = sent_or_old keeps q.keys o.keys;
})

abbrev pub new_opensearch :
    Bool → Option OpenSearchAccess → Option OpenSearchAccess → Option OpenSearchAccess
new_opensearch keeps none old = sent_or_old keeps none old
new_opensearch keeps (some q) none = some q
new_opensearch keeps (some q) (some o) = some (record { rules = sent_or_old keeps q.rules o.rules })

-- A user after a request for access control: `keeps` says whether what is not sent stays.
abbrev pub with_access : Bool → ModifyAccess → Upcloud.User → Upcloud.User
with_access keeps q u = record u {
  pg_access_control = new_pg keeps q.pg_access_control u.pg_access_control;
  valkey_access_control = new_valkey keeps q.valkey_access_control u.valkey_access_control;
  opensearch_access_control =
      new_opensearch keeps q.opensearch_access_control u.opensearch_access_control;
}

abbrev is_nil : {A : Type 0} → Option A → Bool
is_nil none = true
is_nil (some a) = false

abbrev has_some : {A : Type 0} → Option (List A) → Bool
has_some (some (a ∷ as')) = true
has_some (some []) = false
has_some none = false

abbrev pub can_send_pg : Option PgAccessControl → Option PgAccess → Bool
can_send_pg none o = is_nil o
can_send_pg (some s) o = not (is_nil s.allow_replication)

abbrev pub can_send_valkey : Option ValkeyAccessControl → Option ValkeyAccess → Bool
can_send_valkey none o = is_nil o
can_send_valkey (some s) o =
    has_some s.categories && (has_some s.channels && (has_some s.commands && has_some s.keys))

abbrev pub can_send_opensearch : Option OpenSearchAccessControl → Option OpenSearchAccess → Bool
can_send_opensearch none o = is_nil o
can_send_opensearch (some s) o = true

-- A request can bring about what the spec asks for: a block that the spec leaves out is not there,
-- and the fields of the blocks that it has are not empty, except for the rules.
unfoldable pub can_send : User → Upcloud.User → Bool
can_send u user =
    can_send_pg u.spec.pg_access_control user.pg_access_control
    && (can_send_valkey u.spec.valkey_access_control user.valkey_access_control
        && can_send_opensearch u.spec.opensearch_access_control user.opensearch_access_control)

bool_eq_refl : (b : Bool) → bool_eq b b ≡ true
bool_eq_refl true = refl
bool_eq_refl false = refl

rules_equal_refl : (rs : List AccessRule) → rules_equal rs rs ≡ true
unfolding rules_equal
rules_equal_refl [] = refl
rules_equal_refl (r ∷ rs) = rw (eq_refl r.index, eq_refl r.permission) (rules_equal_refl rs)

pg_settled :
    (keeps : Bool) (s : Option PgAccessControl) (o : Option PgAccess)
    → can_send_pg s o ≡ true
    → pg_matches s (new_pg keeps (pg_request s) o) ≡ true
unfolding pg_matches both
pg_settled true none none can = refl
pg_settled false none none can = refl
pg_settled keeps none (some o) can = cc
pg_settled keeps (some s) none can = elim (Option-cases s.allow_replication) [
  | inl gone ↦ cc (rw gone at can)
  | inr (b, here) ↦ rw here (bool_eq_refl b)
]
pg_settled keeps (some s) (some o) can = elim (Option-cases s.allow_replication) [
  | inl gone ↦ cc (rw gone at can)
  | inr (b, here) ↦ rw here (bool_eq_refl b)
]

-- A field with elements is sent, and then found.
field_settled :
    (keeps : Bool) (s : Strings) (o : Option Strings)
    → has_some s ≡ true
    → strings_equal s (nil_slice (sent_or_old keeps (if_any s) o)) ≡ true
unfolding both if_any
field_settled keeps none o can = cc
field_settled keeps (some []) o can = cc
field_settled keeps (some (x ∷ xs)) o can = slices_equal_refl (x ∷ xs)

field_sent : (s : Strings) → has_some s ≡ true → strings_equal s (nil_slice (if_any s)) ≡ true
unfolding both if_any
field_sent none can = cc
field_sent (some []) can = cc
field_sent (some (x ∷ xs)) can = slices_equal_refl (x ∷ xs)

valkey_settled :
    (keeps : Bool) (s : Option ValkeyAccessControl) (o : Option ValkeyAccess)
    → can_send_valkey s o ≡ true
    → valkey_matches s (new_valkey keeps (valkey_request s) o) ≡ true
unfolding valkey_matches valkey_request both
valkey_settled true none none can = refl
valkey_settled false none none can = refl
valkey_settled keeps none (some o) can = cc
valkey_settled keeps (some s) none can = ground (
  arith,
  can,
  field_sent s.categories,
  field_sent s.channels,
  field_sent s.commands,
  field_sent s.keys,
)
valkey_settled keeps (some s) (some o) can = ground (
  arith,
  can,
  field_settled keeps s.categories o.categories,
  field_settled keeps s.channels o.channels,
  field_settled keeps s.commands o.commands,
  field_settled keeps s.keys o.keys,
)

opensearch_settled :
    (keeps : Bool) (s : Option OpenSearchAccessControl) (o : Option OpenSearchAccess)
    → can_send_opensearch s o ≡ true
    → opensearch_matches s (new_opensearch keeps (opensearch_request s) o) ≡ true
unfolding opensearch_matches opensearch_request both
opensearch_settled true none none can = refl
opensearch_settled false none none can = refl
opensearch_settled keeps none (some o) can = cc
opensearch_settled keeps (some s) none can = rules_equal_refl (to_rules s.rules)
opensearch_settled keeps (some s) (some o) can = rules_equal_refl (to_rules s.rules)

-- What the request for access control leaves is what the comparison asks for, if it can be sent.
pub with_access-matches :
    (keeps : Bool) (u : User) (user : Upcloud.User) (q : ModifyAccess)
    → q.pg_access_control ≡ pg_request u.spec.pg_access_control
    → q.valkey_access_control ≡ valkey_request u.spec.valkey_access_control
    → q.opensearch_access_control ≡ opensearch_request u.spec.opensearch_access_control
    → can_send u user ≡ true
    → access_control_matches u (with_access keeps q user) ≡ true
unfolding access_control_matches can_send
with_access-matches keeps u user q pg valkey opensearch can =
    rw (pg, valkey, opensearch)
      (ground (
        arith,
        can,
        pg_settled keeps u.spec.pg_access_control user.pg_access_control,
        valkey_settled keeps u.spec.valkey_access_control user.valkey_access_control,
        opensearch_settled keeps u.spec.opensearch_access_control user.opensearch_access_control,
      ))
