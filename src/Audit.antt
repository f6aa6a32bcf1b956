-- ===== src/Audit.antt =====
-- shared/audit.py: the rows of audit_logs.
use indu_sense.Base.{String, Option, List, [], ◌∷◌, ◌++◌}
use indu_sense.Base.Dict.{Dict}

-- a value of the `metadata` object
pub data Datum : Type 0 where
  text : String → Datum
  texts : List String → Datum

pub record Entry : Type 0 where
  pub action : String
  pub resource_type : String
  pub result : String
  pub organization_id : Option String
  pub user_id : Option String
  pub resource_id : Option String
  pub ip_address : Option String
  pub request_id : Option String
  pub metadata : Dict Datum

-- INSERT INTO audit_logs
unfoldable pub log : Entry → List Entry → List Entry
log e rows = rows ++ e ∷ []
