-- ===== src/Balancers/RuleConvert.antt =====
-- internal/controller/loadbalancer/convert_rules.go. The conversions between the named string types
-- of the SDK and string are the identity.
use upcloud_operator.Prelude.{String, not, Option, none, some, map, ◌==◌, if◌then◌else◌}
use upcloud_operator.Reconciler.Options.{ℤ, pos}
use upcloud_operator.Balancers.RuleTypes.{
  MatcherSrcIp, MatcherInteger, MatcherString, MatcherStringWithArgument, MatcherHost,
  MatcherHttpMethod, MatcherNumMembersUp, RuleMatcher, ActionUseBackend, ActionHttpReturn,
  ActionHttpRedirect, ActionHttpRewrite, ActionSetHeader, RuleAction, Rule, external_name,
}
use upcloud_operator.Balancers.Upcloud
use upcloud_operator.Balancers.Upcloud.{Matcher, Action, RuleRequest, SdkNames}

-- rangeStart and rangeEnd
abbrev pub range_bound : Option ℤ → ℤ
range_bound none = pos 0
range_bound (some v) = v

abbrev pub src_ip : Option MatcherSrcIp → Option Upcloud.MatcherValue
src_ip none = none
src_ip (some m) = some (record { value = m.value })

abbrev pub host : Option MatcherHost → Option Upcloud.MatcherValue
host none = none
host (some m) = some (record { value = m.value })

abbrev pub http_method_matcher : Option MatcherHttpMethod → Option Upcloud.MatcherValue
http_method_matcher none = none
http_method_matcher (some m) = some (record { value = m.value })

abbrev pub num_members_up : Option MatcherNumMembersUp → Option Upcloud.MatcherNumMembersUp
num_members_up none = none
num_members_up (some m) = some (record { method = m.method; value = m.value; backend = m.backend })

abbrev pub int_matcher : Option MatcherInteger → Option Upcloud.MatcherInteger
int_matcher none = none
int_matcher (some m) = some (record {
  method = m.method;
  value = m.value;
  range_start = range_bound m.range_start;
  range_end = range_bound m.range_end;
})

abbrev pub str_matcher : Option MatcherString → Option Upcloud.MatcherString
str_matcher none = none
str_matcher (some m) =
    some (record { method = m.method; value = m.value; ignore_case = m.ignore_case })

abbrev pub str_arg_matcher :
    Option MatcherStringWithArgument → Option Upcloud.MatcherStringWithArgument
str_arg_matcher none = none
str_arg_matcher (some m) =
    some (record { method = m.method; name = m.name; value = m.value; ignore_case = m.ignore_case })

-- The matcher before the switch over the type.
abbrev pub bare_matcher : RuleMatcher → Matcher
bare_matcher m = record {
  type = m.type;
  inverse = m.inverse;
  src_ip = none;
  src_port = none;
  body_size = none;
  path = none;
  url = none;
  url_query = none;
  host = none;
  http_method = none;
  http_status = none;
  cookie = none;
  header = none;
  request_header = none;
  response_header = none;
  url_param = none;
  num_members_up = none;
}

-- The switch: only the field that the type names is sent.
unfoldable pub to_matcher : RuleMatcher → Matcher
to_matcher m =
    let uc = bare_matcher m in
    if m.type == "src_ip"
    then record uc { src_ip = src_ip m.src_ip }
    else if m.type == "src_port"
    then record uc { src_port = int_matcher m.src_port }
    else if m.type == "body_size"
    then record uc { body_size = int_matcher m.body_size }
    else if m.type == "path"
    then record uc { path = str_matcher m.path }
    else if m.type == "url"
    then record uc { url = str_matcher m.url }
    else if m.type == "url_query"
    then record uc { url_query = str_matcher m.url_query }
    else if m.type == "host"
    then record uc { host = host m.host }
    else if m.type == "http_method"
    then record uc { http_method = http_method_matcher m.http_method }
    else if m.type == "http_status"
    then record uc { http_status = int_matcher m.http_status }
    else if m.type == "cookie"
    then record uc { cookie = str_arg_matcher m.cookie }
    else if m.type == "header"
    then record uc { header = str_arg_matcher m.header }
    else if m.type == "request_header"
    then record uc { request_header = str_arg_matcher m.request_header }
    else if m.type == "response_header"
    then record uc { response_header = str_arg_matcher m.response_header }
    else if m.type == "url_param"
    then record uc { url_param = str_arg_matcher m.url_param }
    else if m.type == "num_members_up"
    then record uc { num_members_up = num_members_up m.num_members_up }
    else uc

abbrev pub use_backend : Option ActionUseBackend → Option String
use_backend none = none
use_backend (some a) = some (a.backend)

abbrev pub http_return : Option ActionHttpReturn → Option Upcloud.HttpReturn
http_return none = none
http_return (some a) =
    some (record { status = a.status; content_type = a.content_type; payload = a.payload })

abbrev pub http_redirect : SdkNames → Option ActionHttpRedirect → Option Upcloud.HttpRedirect
http_redirect names none = none
http_redirect names (some a) = some (record {
  location = a.location;
  scheme = if a.scheme == "https" then names.scheme_https else names.scheme_http;
  status = a.status;
})

-- The rewrites of a path and of a URI.
abbrev pub http_rewrite : Option ActionHttpRewrite → Option Upcloud.HttpRewrite
http_rewrite none = none
http_rewrite (some a) = some (record { match_pattern = a.match_pattern; rewrite_to = a.rewrite_to })

abbrev pub set_header : Option ActionSetHeader → Option Upcloud.SetHeader
set_header none = none
set_header (some a) = some (record { header = a.header; value = a.value })

abbrev pub bare_action : RuleAction → Action
bare_action a = record {
  type = a.type;
  use_backend = none;
  tcp_reject = none;
  http_return = none;
  http_redirect = none;
  http_rewrite_path = none;
  http_rewrite_uri = none;
  set_forwarded_headers = none;
  set_request_header = none;
  set_response_header = none;
}

unfoldable pub to_action : SdkNames → RuleAction → Action
to_action names a =
    let uc = bare_action a in
    if a.type == "use_backend"
    then record uc { use_backend = use_backend a.use_backend }
    else if a.type == "tcp_reject"
    then record uc { tcp_reject = some tt }
    else if a.type == "http_return"
    then record uc { http_return = http_return a.http_return }
    else if a.type == "http_redirect"
    then record uc { http_redirect = http_redirect names a.http_redirect }
    else if a.type == "http_rewrite_path"
    then record uc { http_rewrite_path = http_rewrite a.http_rewrite_path }
    else if a.type == "http_rewrite_uri"
    then record uc { http_rewrite_uri = http_rewrite a.http_rewrite_uri }
    else if a.type == "set_forwarded_headers"
    then record uc { set_forwarded_headers = some tt }
    else if a.type == "set_request_header"
    then record uc { set_request_header = set_header a.set_request_header }
    else if a.type == "set_response_header"
    then record uc { set_response_header = set_header a.set_response_header }
    else uc

unfoldable pub to_rule : SdkNames → Rule → RuleRequest
unfolding to_matcher to_action
to_rule names r = record {
  name = external_name r;
  priority = r.spec.priority;
  matching_condition =
      if not (r.spec.matching_condition == "")
      then r.spec.matching_condition
      else names.condition_and;
  matchers = map to_matcher r.spec.matchers;
  actions = map (to_action names) r.spec.actions;
}
