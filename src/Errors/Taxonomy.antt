-- ===== src/Errors/Taxonomy.antt =====
-- What the error codes of pkg/credenvelope/errors.go promise to a client and to the health tracking.
use openbao_cloud_creds.Base.{
  ℕ, ◌≤◌, ◌≡◌, refl, ap, ◌≢◌, ◌↔◌, ◌⊎◌, inl, inr, Text, text, text_eq, text_eq_iff, cut, cut-eq,
  List, [], ◌∷◌, none, some, Option-cases, true, false, arith,
}
use openbao_cloud_creds.Errors.{
  ErrorCode, upstream_auth_failed, upstream_quota_exceeded, upstream_timeout, upstream_unavailable,
  internal, unset, code_text, all_codes, find_code, code_of, Link, GoError, as_plugin,
  classify_upstream, health_status, error_response, response_for,
}

-- Every code except the empty one is read back from an error response, whatever the message is.
pub code_of-error_response :
    (c : ErrorCode) (message : Text) → c ≢ unset → code_of (error_response c message) ≡ (c, true)
unfolding code_of error_response cut text_eq
code_of-error_response unset m h = absurd (h refl)
code_of-error_response _ m h = refl

find_code-eq :
    (s : Text) (cs : List ErrorCode) {c : ErrorCode} → find_code s cs ≡ (c, true) → s ≡ code_text c
unfolding find_code
find_code-eq s [] h = cc
find_code-eq s (d ∷ cs) {c} h =
    ground (arith, text_eq_iff s (code_text d), find_code-eq s cs {c = c})

never : false ≡ true → ⊥
never h = cc

-- Conversely, a text from which a code is read is an error response with that code.
pub code_of_sound :
    (m : Text) (c : ErrorCode) → code_of m ≡ (c, true) → (rest : Text) × (m ≡ error_response c rest)
unfolding code_of error_response
code_of_sound m c h = elim (Option-cases (cut (text ": ") m)) [
  | inl e ↦ absurd (never (ap (λ r. r.1) (rw (e, code_of) at h)))
  | inr ((s, rest), e) ↦
      (rest, rw (← find_code-eq s all_codes (rw (e, code_of) at h)) (cut-eq (text ": ") m e))
]

-- The code that a client should read from the response for an error.
abbrev pub response_code : GoError → ErrorCode
unfolding as_plugin
response_code none = internal
response_code (some ls) = elim (as_plugin ls) [ some e ↦ e.code | none ↦ internal ]

-- The response for an error carries a known code, the one of the wrapped `PluginError` or `internal`
-- where there is none, provided that the wrapped `PluginError` has a code.
pub code_of-response_for :
    (render : List Link → Text) (err : GoError)
    → response_code err ≢ unset
    → code_of (response_for render err) ≡ (response_code err, true)
unfolding response_for
code_of-response_for render none h = code_of-error_response internal (text "no error") h
code_of-response_for render (some ls) h = elim (Option-cases (as_plugin ls)) [
  | inl e ↦
      rw (e, response_for, response_code) (code_of-error_response internal (render ls) (λ f. cc))
  | inr (p, e) ↦
      rw (e, response_for, response_code)
        (code_of-error_response p.code p.message (rw (e, response_code) at h))
]

-- A status of 500 or more is retryable for a client: it is classified as a timeout or as unavailable.
pub classify_upstream-server :
    (status : ℕ)
    → 500 ≤ status
    → (classify_upstream status ≡ upstream_timeout)
      ⊎ (classify_upstream status ≡ upstream_unavailable)
unfolding classify_upstream
classify_upstream-server status h = ground arith

-- The representative status of a code keeps the two distinctions that the health tracking makes:
-- it classifies as an authentication failure exactly if the code is one, and so for a rate limit.
pub classify-health_status :
    (c : ErrorCode)
    → ((classify_upstream (health_status c) ≡ upstream_auth_failed) ↔ (c ≡ upstream_auth_failed))
      × ((classify_upstream (health_status c) ≡ upstream_quota_exceeded)
          ↔ (c ≡ upstream_quota_exceeded))
unfolding classify_upstream health_status
classify-health_status c = ground arith
