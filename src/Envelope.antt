-- ===== src/Envelope.antt =====
-- pkg/credenvelope/kind.go and envelope.go: the shapes of credentials, and the answer that a caller reads.
use openbao_cloud_creds.Base.{
  ℕ, Text, text, text_eq, is_empty, any, map, List, [], ◌∷◌, Option, none, some, Bool, ◌||◌, not,
  if◌then◌else◌,
}
use openbao_cloud_creds.Errors.{ErrorCode, credential_kind_unsupported}
use openbao_cloud_creds.Storage.{Json, str, stamp, num, flag, Fields}

-- `CredentialKind`, a string type in the source.
pub data CredentialKind : Type 0 where
  sigv4_session oauth2_bearer basic_auth bearer_token scoped_token key_secret : CredentialKind
  azure_client_secret edgegrid oci_auth_token s3_credentials : CredentialKind

unfoldable pub kind_text : CredentialKind → Text
kind_text sigv4_session = text "sigv4_session"
kind_text oauth2_bearer = text "oauth2_bearer"
kind_text basic_auth = text "basic_auth"
kind_text bearer_token = text "bearer_token"
kind_text scoped_token = text "scoped_token"
kind_text key_secret = text "key_secret"
kind_text azure_client_secret = text "azure_client_secret"
kind_text edgegrid = text "edgegrid"
kind_text oci_auth_token = text "oci_auth_token"
kind_text s3_credentials = text "s3_credentials"

abbrev pub all_credential_kinds : List CredentialKind
all_credential_kinds =
    sigv4_session ∷ oauth2_bearer ∷ basic_auth ∷ bearer_token ∷ scoped_token ∷ key_secret
    ∷ azure_client_secret ∷ edgegrid ∷ oci_auth_token ∷ s3_credentials ∷ []

unfoldable pub valid_credential_kind : Text → Bool
valid_credential_kind kind = any (λ k. text_eq (kind_text k) kind) all_credential_kinds

-- `RequireCredentialKind`: the code of the refusal. Both refusals have the same one; only their message
-- tells an unknown kind from one that is not served.
unfoldable pub require_credential_kind : Text → CredentialKind → Option ErrorCode
require_credential_kind requested served =
    if is_empty requested || text_eq requested (kind_text served)
    then none
    else if not (valid_credential_kind requested)
    then some credential_kind_unsupported
    else some credential_kind_unsupported

pub data ScopeKind : Type 0 where
  scopes acl role identity account grants : ScopeKind

unfoldable pub scope_kind_text : ScopeKind → Text
scope_kind_text scopes = text "scopes"
scope_kind_text acl = text "acl"
scope_kind_text role = text "role"
scope_kind_text identity = text "identity"
scope_kind_text account = text "account"
scope_kind_text grants = text "grants"

abbrev pub all_scope_kinds : List ScopeKind
all_scope_kinds = scopes ∷ acl ∷ role ∷ identity ∷ account ∷ grants ∷ []

unfoldable pub valid_scope_kind : Text → Bool
valid_scope_kind kind = any (λ k. text_eq (scope_kind_text k) kind) all_scope_kinds

abbrev pub api_version : Text
api_version = text "4"

pub record Metadata : Type 0 where
  pub scope : Text
  pub scope_kind : ScopeKind
  pub credential_kind : CredentialKind
  pub issued_by : Text
  pub api_version : Text
  pub minter_set : Text
  pub minter_id : Text

-- The credential block is a map of strings.
pub record Envelope : Type 0 where
  pub cloud : Text
  pub role : Text
  pub credential : List (Text × Text)
  pub expires_at : ℕ
  pub ttl_seconds : ℕ
  pub renewable : Bool
  pub credential_id : Text
  pub metadata : Metadata

pub record EnvelopeParams : Type 0 where
  pub cloud : Text
  pub role : Text
  pub credential : List (Text × Text)
  pub expires_at : ℕ
  pub ttl_seconds : ℕ
  pub renewable : Bool
  pub credential_id : Text
  pub scope : Text
  pub scope_kind : ScopeKind
  pub credential_kind : CredentialKind
  pub issued_by : Text
  pub minter_set : Text
  pub minter_id : Text

unfoldable pub new_envelope : EnvelopeParams → Envelope
new_envelope p = record {
  cloud = p.cloud;
  role = p.role;
  credential = p.credential;
  expires_at = p.expires_at;
  ttl_seconds = p.ttl_seconds;
  renewable = p.renewable;
  credential_id = p.credential_id;
  metadata = record {
    scope = p.scope;
    scope_kind = p.scope_kind;
    credential_kind = p.credential_kind;
    issued_by = p.issued_by;
    api_version = api_version;
    minter_set = p.minter_set;
    minter_id = p.minter_id;
  };
}

-- `ToMap`, which nests the credential and the metadata.
pub data Data : Type 0 where
  value : Json → Data
  nested : Fields → Data

unfoldable pub to_map : Envelope → List (Text × Data)
to_map e =
    (text "cloud", value (str e.cloud))
    ∷ (text "role", value (str e.role))
    ∷ (text "credential", nested (map (λ f. (f.0, str f.1)) e.credential))
    ∷ (text "expires_at", value (stamp e.expires_at))
    ∷ (text "ttl_seconds", value (num e.ttl_seconds))
    ∷ (text "renewable", value (flag e.renewable))
    ∷ (text "credential_id", value (str e.credential_id))
    ∷ (
      text "metadata",
      nested (
          (text "scope", str e.metadata.scope)
          ∷ (text "scope_kind", str (scope_kind_text e.metadata.scope_kind))
          ∷ (text "credential_kind", str (kind_text e.metadata.credential_kind))
          ∷ (text "issued_by", str e.metadata.issued_by)
          ∷ (text "api_version", str e.metadata.api_version)
          ∷ (text "minter_set", str e.metadata.minter_set)
          ∷ (text "minter_id", str e.metadata.minter_id)
          ∷ []),
    )
    ∷ []
