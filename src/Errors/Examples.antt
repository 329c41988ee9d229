-- ===== src/Errors/Examples.antt =====
-- The error codes at concrete inputs.
use openbao_cloud_creds.Base.{◌≡◌, refl, ◌⊎◌, text, List, [], ◌∷◌, some, none, Bool, arith}
use openbao_cloud_creds.Errors.{
  upstream_timeout, upstream_unavailable, upstream_auth_failed, internal, Link, plugin_error,
  deadline_exceeded, net_error, other, classify, classify_upstream,
}
use openbao_cloud_creds.Errors.Taxonomy.{classify_upstream-server}

abbrev wrapped : List Link
wrapped =
    other (text "minting")
    ∷ plugin_error (record { code = upstream_auth_failed; message = text "no"; status_code = 403 })
    ∷ []

classify_upstream-server_example :
    (classify_upstream 504 ≡ upstream_timeout) ⊎ (classify_upstream 504 ≡ upstream_unavailable)
classify_upstream-server_example = classify_upstream-server 504 (omega arith)

timeouts :
    (classify 0 (some (other (text "x") ∷ deadline_exceeded ∷ [])) ≡ upstream_timeout)
    × (classify 0 (some (net_error Bool.false ∷ [])) ≡ upstream_unavailable)
    × (classify 0 (some wrapped) ≡ upstream_auth_failed)
    × (classify 0 none ≡ internal)
unfolding classify
timeouts = (refl, refl, refl, refl)
