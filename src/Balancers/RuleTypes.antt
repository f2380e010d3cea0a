-- ===== src/Balancers/RuleTypes.antt =====
-- The custom resources LoadBalancerFrontendRule and LoadBalancerFrontend, called Rule and Frontend
-- here (api/loadbalancer/v1alpha1). What a matcher or an action asks for is `none` if the field is
-- not there.
use upcloud_operator.Prelude.{ℕ, String, Bool, not, Option, List, ◌==◌, if◌then◌else◌}
use upcloud_operator.Kube.{ObjectMeta, Condition, Object}
use upcloud_operator.Reconciler.Options.{ℤ}

pub record MatcherSrcIp : Type 0 where
  pub value : String

pub record MatcherInteger : Type 0 where
  pub method : String
  pub value : ℤ
  pub range_start : Option ℤ
  pub range_end : Option ℤ

pub record MatcherString : Type 0 where
  pub method : String
  pub value : String
  pub ignore_case : Option Bool

pub record MatcherStringWithArgument : Type 0 where
  pub method : String
  pub name : String
  pub value : String
  pub ignore_case : Option Bool

pub record MatcherHost : Type 0 where
  pub value : String

pub record MatcherHttpMethod : Type 0 where
  pub value : String

pub record MatcherNumMembersUp : Type 0 where
  pub method : String
  pub value : ℤ
  pub backend : String

pub record RuleMatcher : Type 0 where
  pub type : String
  pub inverse : Option Bool
  pub src_ip : Option MatcherSrcIp
  pub src_port : Option MatcherInteger
  pub body_size : Option MatcherInteger
  pub path : Option MatcherString
  pub url : Option MatcherString
  pub url_query : Option MatcherString
  pub host : Option MatcherHost
  pub http_method : Option MatcherHttpMethod
  pub http_status : Option MatcherInteger
  pub cookie : Option MatcherStringWithArgument
  pub header : Option MatcherStringWithArgument
  pub request_header : Option MatcherStringWithArgument
  pub response_header : Option MatcherStringWithArgument
  pub url_param : Option MatcherStringWithArgument
  pub num_members_up : Option MatcherNumMembersUp

pub record ActionUseBackend : Type 0 where
  pub backend : String

pub record ActionHttpReturn : Type 0 where
  pub status : ℤ
  pub content_type : String
  pub payload : String

pub record ActionHttpRedirect : Type 0 where
  pub location : String
  pub scheme : String
  pub status : ℤ

-- ActionHTTPRewritePath and ActionHTTPRewriteURI
pub record ActionHttpRewrite : Type 0 where
  pub match_pattern : String
  pub rewrite_to : String

pub record ActionSetHeader : Type 0 where
  pub header : String
  pub value : String

pub record RuleAction : Type 0 where
  pub type : String
  pub use_backend : Option ActionUseBackend
  pub http_return : Option ActionHttpReturn
  pub http_redirect : Option ActionHttpRedirect
  pub http_rewrite_path : Option ActionHttpRewrite
  pub http_rewrite_uri : Option ActionHttpRewrite
  pub set_request_header : Option ActionSetHeader
  pub set_response_header : Option ActionSetHeader

pub record RuleSpec : Type 0 where
  pub frontend_ref : String
  pub name : String
  pub priority : ℕ
  pub matching_condition : String
  pub matchers : List RuleMatcher
  pub actions : List RuleAction
  pub deletion_policy : String

pub record RuleStatus : Type 0 where
  pub conditions : List Condition
  pub service_uuid : String
  pub frontend_name : String
  pub name : String

pub record Rule : Type 0 where
  pub meta : ObjectMeta
  pub spec : RuleSpec
  pub status : RuleStatus

abbrev pub rule_object : Object Rule
rule_object = record {
  meta = λ r. r.meta;
  with_meta = λ r m. record r { meta = m };
  get_conditions = λ r. r.status.conditions;
  set_conditions = λ r cs. record r { status = record (r.status) { conditions = cs } };
  get_deletion_policy = λ r. r.spec.deletion_policy;
  get_external_id = λ r. r.status.name;
}

unfoldable pub external_name : Rule → String
external_name r = if not (r.spec.name == "") then r.spec.name else r.meta.name

pub record FrontendNetwork : Type 0 where
  pub name : String

pub record FrontendProperties : Type 0 where
  pub timeout_client : ℕ
  pub inbound_proxy_protocol : Option Bool
  pub http2_enabled : Option Bool

pub record FrontendSpec : Type 0 where
  pub load_balancer_ref : String
  pub name : String
  pub mode : String
  pub port : ℕ
  pub default_backend_ref : String
  pub networks : List FrontendNetwork
  pub properties : Option FrontendProperties
  pub deletion_policy : String

pub record FrontendStatus : Type 0 where
  pub conditions : List Condition
  pub service_uuid : String
  pub name : String

pub record Frontend : Type 0 where
  pub meta : ObjectMeta
  pub spec : FrontendSpec
  pub status : FrontendStatus

abbrev pub frontend_object : Object Frontend
frontend_object = record {
  meta = λ f. f.meta;
  with_meta = λ f m. record f { meta = m };
  get_conditions = λ f. f.status.conditions;
  set_conditions = λ f cs. record f { status = record (f.status) { conditions = cs } };
  get_deletion_policy = λ f. f.spec.deletion_policy;
  get_external_id = λ f. f.status.name;
}
