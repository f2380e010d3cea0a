-- ===== src/Errors.antt =====
-- Go errors as the operator builds and reads them (internal/upcloudapi/errors.go, the sentinels of
-- internal/reconciler/reconciler.go). Foreign errors are given by what the code reads of them.
pub mod Laws
use upcloud_operator.Prelude.{
  ℕ, String, ◌<>◌, Bool, true, false, ◌||◌, Option, none, some, ◌==◌, nat_eq, if◌then◌else◌,
}

-- ErrDependencyNotReady and ErrPending.
pub data Sentinel : Type 0 where
  dependency_not_ready pending : Sentinel

-- `problem` is *upcloud.Problem with its status, its title and its text, `client_error` is
-- *client.Error with its code and its text, `api_error` is an error of the Kubernetes API that
-- apierrors.IsNotFound holds of or not, `wrapped` is fmt.Errorf with one %w between two texts.
pub data Err : Type 0 where
  sentinel : Sentinel → Err
  problem : ℕ → String → String → Err
  client_error : ℕ → String → Err
  api_error : Bool → String → Err
  plain : String → Err
  wrapped : String → Err → String → Err
  joined : Err → Err → Err

abbrev pub sentinel_eq : Sentinel → Sentinel → Bool
sentinel_eq dependency_not_ready dependency_not_ready = true
sentinel_eq pending pending = true
sentinel_eq _ _ = false

-- errors.Is with a sentinel as its target.
unfoldable pub errors_is : Sentinel → Err → Bool
errors_is t (sentinel s) = sentinel_eq s t
errors_is t (wrapped before e after) = errors_is t e
errors_is t (joined d e) = errors_is t d || errors_is t e
errors_is t _ = false

-- The first that there is.
abbrev pub or_else {ℓ} : {A : Type ℓ} → Option A → Option A → Option A
or_else (some a) o = some a
or_else none o = o

-- errors.As with a *upcloud.Problem as its target: the status and the title.
unfoldable pub as_problem : Err → Option (ℕ × String)
as_problem (problem status title text) = some (status, title)
as_problem (wrapped before e after) = as_problem e
as_problem (joined d e) = or_else (as_problem d) (as_problem e)
as_problem _ = none

-- errors.As with a *client.Error as its target: the code.
unfoldable pub as_client_error : Err → Option ℕ
as_client_error (client_error c text) = some c
as_client_error (wrapped before e after) = as_client_error e
as_client_error (joined d e) = or_else (as_client_error d) (as_client_error e)
as_client_error _ = none

-- errors.As with an API status as its target: whether its reason is NotFound.
as_api_error : Err → Option Bool
as_api_error (api_error missing text) = some missing
as_api_error (wrapped before e after) = as_api_error e
as_api_error (joined d e) = or_else (as_api_error d) (as_api_error e)
as_api_error _ = none

-- apierrors.IsNotFound
unfoldable pub api_not_found : Err → Bool
unfolding as_api_error
api_not_found err = elim (as_api_error err) [ some missing ↦ missing | none ↦ false ]

abbrev sentinel_text : Sentinel → String
sentinel_text dependency_not_ready = "dependency not ready"
sentinel_text pending = "external operation in progress"

-- err.Error()
unfoldable pub error_text : Err → String
error_text (sentinel s) = sentinel_text s
error_text (problem status title text) = text
error_text (client_error c text) = text
error_text (api_error missing text) = text
error_text (plain text) = text
error_text (wrapped before e after) = before <> (error_text e <> after)
error_text (joined d e) = error_text d <> ("\n" <> error_text e)

-- errors.Join of an error and of one that may be nil.
unfoldable pub errors_join : Err → Option Err → Err
errors_join e none = e
errors_join e (some d) = joined e d

unfoldable pub status_of : Err → ℕ
unfolding as_problem as_client_error
status_of err = elim (as_problem err) [
  | some (status, title) ↦ status
  | none ↦ elim (as_client_error err) [ some c ↦ c | none ↦ 0 ]
]

unfoldable pub is_not_found : Err → Bool
unfolding status_of
is_not_found err = nat_eq (status_of err) 404

unfoldable pub is_conflict : Err → Bool
unfolding status_of
is_conflict err = nat_eq (status_of err) 409

title_or : String → Option (ℕ × String) → String
title_or text none = text
title_or text (some (status, title)) = if title == "" then text else title

unfoldable pub title_of : Err → String
unfolding title_or as_problem error_text
title_of err = title_or (error_text err) (as_problem err)

-- fmt.Errorf("context: %w", err)
abbrev pub wrap : String → Err → Err
wrap context err = wrapped (context <> ": ") err ""

-- fmt.Errorf("%w: %v", ErrPending, err)
abbrev pub pending_because : Err → Err
pending_because err = wrapped "" (sentinel pending) (": " <> error_text err)
