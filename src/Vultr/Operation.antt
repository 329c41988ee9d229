-- ===== src/Vultr/Operation.antt =====
-- What no sequence of requests breaks: the mount holds valid minter sets only.
use openbao_cloud_creds.Base.{ℕ, Text, List, Option}
use openbao_cloud_creds.Storage.{Fields}
use openbao_cloud_creds.Capability.Gate.{Gate}
use openbao_cloud_creds.Vultr.{World, Env}
use openbao_cloud_creds.Vultr.Creds.{CredsRequest, creds_read, creds_revoke}
use openbao_cloud_creds.Vultr.Sets.{minter_set_write, minter_set_delete, load_all_minter_sets}

module _ {S : Type 0} (env : Env S) where
  -- One request that the mount serves, or one reload.
  pub data Step (gate : Gate S) : World S → World S → Type 0 where
    reads : {w : World S} (req : CredsRequest) (now : ℕ) → Step gate w (creds_read env req now w).0
    revokes :
        {w : World S} (user set id : Text) (now : ℕ)
        → Step gate w (creds_revoke env user set id now w).0
    writes :
        {w : World S} (now : ℕ) (name : Text) (written : Option (List (Option Fields)))
        → Step gate w (minter_set_write env gate now name written w).0
    deletes : {w : World S} (name : Text) → Step gate w (minter_set_delete env name w).0
    reloads : {w : World S} → Step gate w (load_all_minter_sets env w).0

  pub data Run (gate : Gate S) : World S → World S → Type 0 where
    done : {w : World S} → Run gate w w
    next : {w w' w'' : World S} → Step gate w w' → Run gate w' w'' → Run gate w w''
