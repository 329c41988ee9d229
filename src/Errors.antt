-- ===== src/Errors.antt =====
-- pkg/credenvelope/errors.go: the error codes, how an upstream attempt is classified, which codes
-- count against a minter, and the text of an error response.
pub mod Taxonomy
pub mod Examples
use openbao_cloud_creds.Base.{
  ℕ, ◌++◌, Text, text, text_eq, cut, List, [], ◌∷◌, Option, none, some, Bool, true, false, ◌==◌,
  leb, if◌then◌else◌,
}

-- `ErrorCode` is a string type in the source; `unset` is its zero value, "".
pub data ErrorCode : Type 0 where
  role_not_found role_disabled config_invalid unsupported : ErrorCode
  credential_kind_unsupported caller_unidentified caller_unparented : ErrorCode
  upstream_auth_failed upstream_quota_exceeded upstream_timeout upstream_unavailable : ErrorCode
  upstream_request_invalid entity_unavailable pool_exhausted : ErrorCode
  lease_revoke_failed internal unset : ErrorCode

abbrev pub code_text : ErrorCode → Text
code_text role_not_found = text "role_not_found"
code_text role_disabled = text "role_disabled"
code_text config_invalid = text "config_invalid"
code_text unsupported = text "unsupported"
code_text credential_kind_unsupported = text "credential_kind_unsupported"
code_text caller_unidentified = text "caller_unidentified"
code_text caller_unparented = text "caller_unparented"
code_text upstream_auth_failed = text "upstream_auth_failed"
code_text upstream_quota_exceeded = text "upstream_quota_exceeded"
code_text upstream_timeout = text "upstream_timeout"
code_text upstream_unavailable = text "upstream_unavailable"
code_text upstream_request_invalid = text "upstream_request_invalid"
code_text entity_unavailable = text "entity_unavailable"
code_text pool_exhausted = text "pool_exhausted"
code_text lease_revoke_failed = text "lease_revoke_failed"
code_text internal = text "internal"
code_text unset = []

abbrev pub all_codes : List ErrorCode
all_codes =
    role_not_found ∷ role_disabled ∷ config_invalid ∷ unsupported ∷ credential_kind_unsupported
    ∷ caller_unidentified ∷ caller_unparented ∷ upstream_auth_failed ∷ upstream_quota_exceeded
    ∷ upstream_timeout ∷ upstream_unavailable ∷ upstream_request_invalid ∷ entity_unavailable
    ∷ pool_exhausted ∷ lease_revoke_failed ∷ internal ∷ []

-- The loop of `CodeOf` over `AllCodes()`.
find_code : Text → List ErrorCode → ErrorCode × Bool
find_code s [] = (internal, false)
find_code s (c ∷ cs) = if text_eq s (code_text c) then (c, true) else find_code s cs

unfoldable pub code_of : Text → ErrorCode × Bool
unfolding find_code
code_of message = elim (cut (text ": ") message) [
  | none ↦ (internal, false)
  | some (before, _) ↦ find_code before all_codes
]

pub record PluginError : Type 0 where
  pub code : ErrorCode
  pub message : Text
  pub status_code : ℕ

-- What `errors.As` and `errors.Is` can find in an error: the errors that it wraps, outermost first.
-- `net_error` carries `Timeout()`. `other` is an error that the program never looks for.
pub data Link : Type 0 where
  plugin_error : PluginError → Link
  deadline_exceeded canceled : Link
  net_error : Bool → Link
  probe_unsupported : Link
  upstream_throttled : Link
  other : Text → Link

-- A Go `error`: `none` is nil.
abbrev pub GoError : Type 0
GoError = Option (List Link)

unfoldable pub as_plugin : List Link → Option PluginError
as_plugin [] = none
as_plugin (plugin_error e ∷ ls) = some e
as_plugin (l ∷ ls) = as_plugin ls

unfoldable pub is_deadline : List Link → Bool
is_deadline [] = false
is_deadline (deadline_exceeded ∷ ls) = true
is_deadline (l ∷ ls) = is_deadline ls

unfoldable pub is_canceled : List Link → Bool
is_canceled [] = false
is_canceled (canceled ∷ ls) = true
is_canceled (l ∷ ls) = is_canceled ls

-- `errors.AsType[net.Error]`: `context.DeadlineExceeded` is a `net.Error` that timed out.
unfoldable pub as_net : List Link → Option Bool
as_net [] = none
as_net (net_error t ∷ ls) = some t
as_net (deadline_exceeded ∷ ls) = some true
as_net (l ∷ ls) = as_net ls

-- The rest of `classifyTransport`, where no wrapped error states its own code.
classify_network : List Link → ErrorCode
unfolding is_deadline is_canceled as_net
classify_network ls = if is_deadline ls then upstream_timeout else elim (as_net ls) [
  | some timed_out ↦ if timed_out then upstream_timeout else upstream_unavailable
  | none ↦ if is_canceled ls then upstream_unavailable else internal
]

-- `plugin.Code != ""`.
stated_code : ErrorCode → List Link → ErrorCode
unfolding classify_network
stated_code unset ls = classify_network ls
stated_code c ls = c

unfoldable pub classify_transport : GoError → ErrorCode
unfolding as_plugin stated_code
classify_transport none = internal
classify_transport (some ls) = elim (as_plugin ls) [
  | some e ↦ stated_code e.code ls
  | none ↦ classify_network ls
]

unfoldable pub classify_upstream : ℕ → ErrorCode
classify_upstream status =
    if status == 429
    then upstream_quota_exceeded
    else if status == 408
    then upstream_timeout
    else if status == 504
    then upstream_timeout
    else if status == 401
    then upstream_auth_failed
    else if status == 403
    then upstream_auth_failed
    else if status == 404
    then entity_unavailable
    else if status == 400
    then upstream_request_invalid
    else if status == 422
    then upstream_request_invalid
    else if status == 409
    then upstream_request_invalid
    else if leb 500 status
    then upstream_unavailable
    else internal

-- A status that is not positive is `StatusNone`; 0 stands for all of those.
unfoldable pub classify : ℕ → GoError → ErrorCode
unfolding classify_transport classify_upstream
classify status err = if status == 0 then classify_transport err else classify_upstream status

unfoldable pub indicts_minter : ErrorCode → Bool
indicts_minter upstream_request_invalid = false
indicts_minter config_invalid = false
indicts_minter role_not_found = false
indicts_minter role_disabled = false
indicts_minter unsupported = false
indicts_minter internal = false
indicts_minter entity_unavailable = false
indicts_minter _ = true

unfoldable pub health_status : ErrorCode → ℕ
health_status upstream_auth_failed = 403
health_status upstream_quota_exceeded = 429
health_status upstream_timeout = 504
health_status _ = 503

-- The text of an error response, "<code>: <message>". `PluginError.Error` is the same text.
unfoldable pub error_response : ErrorCode → Text → Text
error_response c message = code_text c ++ (text ": " ++ message)

unfoldable pub plugin_error_text : PluginError → Text
plugin_error_text e = code_text e.code ++ (text ": " ++ e.message)

-- `render` is `err.Error()` of an error that carries no `PluginError`.
unfoldable pub response_for : (List Link → Text) → GoError → Text
unfolding as_plugin error_response
response_for render none = error_response internal (text "no error")
response_for render (some ls) = elim (as_plugin ls) [
  | some e ↦ error_response e.code e.message
  | none ↦ error_response internal (render ls)
]
