-- ===== src/Databases/Access.antt =====
-- The access control of a database user: what the spec asks for, as a request and as a comparison
-- with the observed user (internal/controller/database/manageddatabaseuser_adapter.go). Slices may
-- be nil, and reflect.DeepEqual tells a nil slice from an empty one.
pub mod Laws
use upcloud_operator.Prelude.{
  String, Bool, true, false, ◌&&◌, Option, none, some, List, [], ◌∷◌, ◌==◌, bool_eq, slices_equal,
}
use upcloud_operator.Databases.Types.{
  Strings, PgAccessControl, ValkeyAccessControl, OpenSearchRule, OpenSearchAccessControl, User,
}
use upcloud_operator.Databases.Upcloud
use upcloud_operator.Databases.Upcloud.{PgAccess, ValkeyAccess, AccessRule, OpenSearchAccess}

-- Two values that may be nil are both nil, or both not, and then agree.
unfoldable pub both : {A B : Type 0} → (A → B → Bool) → Option A → Option B → Bool
both same none none = true
both same (some a) (some b) = same a b
both same _ _ = false

-- slicesEqual
abbrev pub strings_equal : Strings → Strings → Bool
strings_equal = both slices_equal

-- nilSlice
abbrev pub nil_slice : Option Strings → Strings
nil_slice none = none
nil_slice (some p) = p

unfoldable pub pg_matches : Option PgAccessControl → Option PgAccess → Bool
unfolding both
pg_matches = both (λ s o. both bool_eq s.allow_replication o.allow_replication)

unfoldable pub valkey_matches : Option ValkeyAccessControl → Option ValkeyAccess → Bool
unfolding both slices_equal
valkey_matches = both (λ s o.
    strings_equal s.categories (nil_slice o.categories)
    && (strings_equal s.channels (nil_slice o.channels)
        && (strings_equal s.commands (nil_slice o.commands)
            && strings_equal s.keys (nil_slice o.keys))))

-- The rules of the spec as rules of the SDK; the slice is never nil.
unfoldable pub to_rules : List OpenSearchRule → List AccessRule
to_rules [] = []
to_rules (r ∷ rs) = record { index = r.index; permission = r.permission } ∷ to_rules rs

-- reflect.DeepEqual on slices of rules that are not nil.
unfoldable pub rules_equal : List AccessRule → List AccessRule → Bool
rules_equal [] [] = true
rules_equal (r ∷ rs) (s ∷ ss) =
    r.index == s.index && (r.permission == s.permission && rules_equal rs ss)
rules_equal _ _ = false

-- `got` of openSearchMatches.
abbrev pub observed_rules : Option (Option (List AccessRule)) → Option (List AccessRule)
observed_rules none = none
observed_rules (some rules) = rules

unfoldable pub opensearch_matches : Option OpenSearchAccessControl → Option OpenSearchAccess → Bool
unfolding both to_rules rules_equal
opensearch_matches =
    both (λ s o. both rules_equal (some (to_rules s.rules)) (observed_rules o.rules))

-- accessControlMatches
unfoldable pub access_control_matches : User → Upcloud.User → Bool
unfolding pg_matches valkey_matches opensearch_matches
access_control_matches u user =
    pg_matches u.spec.pg_access_control user.pg_access_control
    && (valkey_matches u.spec.valkey_access_control user.valkey_access_control
        && opensearch_matches u.spec.opensearch_access_control user.opensearch_access_control)

abbrev pub pg_request : Option PgAccessControl → Option PgAccess
pg_request none = none
pg_request (some s) = some (record { allow_replication = s.allow_replication })

-- A slice is sent if it has an element.
unfoldable pub if_any : Strings → Option Strings
if_any none = none
if_any (some []) = none
if_any (some (s ∷ ss)) = some (some (s ∷ ss))

unfoldable pub valkey_request : Option ValkeyAccessControl → Option ValkeyAccess
unfolding if_any
valkey_request none = none
valkey_request (some s) = some (record {
  categories = if_any s.categories;
  channels = if_any s.channels;
  commands = if_any s.commands;
  keys = if_any s.keys;
})

unfoldable pub opensearch_request : Option OpenSearchAccessControl → Option OpenSearchAccess
unfolding to_rules
opensearch_request none = none
opensearch_request (some s) = some (record { rules = some (some (to_rules s.rules)) })
