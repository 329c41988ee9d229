-- ===== src/Caller.antt =====
-- pkg/lineage and pkg/requester: who asks for a credential, and whom a role will issue to.
--
-- `none` stands for a nil request, view, entity or alias.
pub mod Lineage
pub mod Requester
pub mod Parents
pub mod Attribution
pub mod Examples
use openbao_cloud_creds.Base.{Text, text_eq, List, [], ◌∷◌, Option, none, some, Bool, if◌then◌else◌}

-- A `map[string]string`; a key that is missing reads as the empty string.
abbrev pub Metadata : Type 0
Metadata = List (Text × Text)

unfoldable pub meta_of : Text → Metadata → Text
meta_of key [] = []
meta_of key ((k, v) ∷ ms) = if text_eq k key then v else meta_of key ms

-- What the SDK's request says of its caller.
pub record Request : Type 0 where
  pub entity_id : Text
  pub token_accessor : Text

pub record Alias : Type 0 where
  pub custom_metadata : Metadata
  pub metadata : Metadata

pub record Entity : Type 0 where
  pub aliases : List (Option Alias)
  pub metadata : Metadata
  pub disabled : Bool

-- The SDK's `SystemView.EntityInfo`: `none` is an error, `some none` an entity that does not exist.
abbrev pub View : Type 0
View = Text → Option (Option Entity)
