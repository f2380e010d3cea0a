-- ===== src/Balancers/Upcloud.antt =====
-- The part of the UpCloud SDK and API that the rules of a frontend use
-- (internal/upcloudapi/loadbalancer.go). What the SDK does not bound is an integer; a list that may
-- be nil is an Option.
use upcloud_operator.Prelude.{ℕ, String, Bool, Option, List, ◌≡◌, true}
use upcloud_operator.Reconciler.Options.{ℤ}
use upcloud_operator.Networking.Upcloud.{ApiCall}

pub record MatcherValue : Type 0 where
  pub value : String

pub record MatcherInteger : Type 0 where
  pub method : String
  pub value : ℤ
  pub range_start : ℤ
  pub range_end : ℤ

pub record MatcherString : Type 0 where
  pub method : String
  pub value : String
  pub ignore_case : Option Bool

pub record MatcherStringWithArgument : Type 0 where
  pub method : String
  pub name : String
  pub value : String
  pub ignore_case : Option Bool

pub record MatcherNumMembersUp : Type 0 where
  pub method : String
  pub value : ℤ
  pub backend : String

pub record Matcher : Type 0 where
  pub type : String
  pub inverse : Option Bool
  pub src_ip : Option MatcherValue
  pub src_port : Option MatcherInteger
  pub body_size : Option MatcherInteger
  pub path : Option MatcherString
  pub url : Option MatcherString
  pub url_query : Option MatcherString
  pub host : Option MatcherValue
  pub http_method : Option MatcherValue
  pub http_status : Option MatcherInteger
  pub cookie : Option MatcherStringWithArgument
  pub header : Option MatcherStringWithArgument
  pub request_header : Option MatcherStringWithArgument
  pub response_header : Option MatcherStringWithArgument
  pub url_param : Option MatcherStringWithArgument
  pub num_members_up : Option MatcherNumMembersUp

pub record HttpReturn : Type 0 where
  pub status : ℤ
  pub content_type : String
  pub payload : String

pub record HttpRedirect : Type 0 where
  pub location : String
  pub scheme : String
  pub status : ℤ

pub record HttpRewrite : Type 0 where
  pub match_pattern : String
  pub rewrite_to : String

pub record SetHeader : Type 0 where
  pub header : String
  pub value : String

-- `use_backend` is the name of the backend.
pub record Action : Type 0 where
  pub type : String
  pub use_backend : Option String
  pub tcp_reject : Option (Unit {0})
  pub http_return : Option HttpReturn
  pub http_redirect : Option HttpRedirect
  pub http_rewrite_path : Option HttpRewrite
  pub http_rewrite_uri : Option HttpRewrite
  pub set_forwarded_headers : Option (Unit {0})
  pub set_request_header : Option SetHeader
  pub set_response_header : Option SetHeader

-- A rule as it is read.
pub record Rule : Type 0 where
  pub name : String
  pub priority : ℕ
  pub matching_condition : String
  pub matchers : Option (List Matcher)
  pub actions : Option (List Action)

-- A rule as it is sent; the lists are never nil.
pub record RuleRequest : Type 0 where
  pub name : String
  pub priority : ℕ
  pub matching_condition : String
  pub matchers : List Matcher
  pub actions : List Action

-- The service, the frontend and the name.
pub record RulePath : Type 0 where
  pub service_uuid : String
  pub frontend_name : String
  pub name : String

pub record CreateRule : Type 0 where
  pub service_uuid : String
  pub frontend_name : String
  pub rule : RuleRequest

pub record ReplaceRule : Type 0 where
  pub path : RulePath
  pub rule : RuleRequest

pub record RuleApi (C : Type 0) : Type 0 where
  pub create_rule : CreateRule → ApiCall C Rule
  pub get_rule : RulePath → ApiCall C Rule
  pub replace_rule : ReplaceRule → ApiCall C Rule
  pub delete_rule : RulePath → ApiCall C (Unit {0})

-- The SDK's names of the matching condition and of the redirect schemes that the code names.
pub record SdkNames : Type 0 where
  pub condition_and : String
  pub scheme_http : String
  pub scheme_https : String

-- reflect.DeepEqual on the two types at which it is called, where nil is not an empty list.
pub record DeepEqual : Type 0 where
  pub matchers_equal : Option (List Matcher) → Option (List Matcher) → Bool
  pub actions_equal : Option (List Action) → Option (List Action) → Bool

-- A value is equal to itself.
pub record IsDeepEqual (D : DeepEqual) : Type 0 where
  pub matchers_refl : (l : Option (List Matcher)) → D.matchers_equal l l ≡ true
  pub actions_refl : (l : Option (List Action)) → D.actions_equal l l ≡ true
