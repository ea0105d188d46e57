-- ===== src/Sentinel/Finding.antt =====
-- plugins/sentinel/cli/checks/types.go
use yby_cli.Prelude.{String, List}
use yby_cli.Prelude.Result.{Result}
use yby_cli.Sentinel.Kube.{Client}

pub record SecurityFinding : Type 0 where
  pub check_id : String
  pub severity : String
  pub category : String
  pub pod : String
  pub container : String
  pub namespace : String
  pub resource : String
  pub message : String
  pub recommendation : String
  pub type : String
  pub description : String

pub record SecurityCheck : Type 0 where
  pub id : String
  pub name : String
  pub category : String
  pub severity : String
  pub description : String
  pub run : Client → String → Result String (List SecurityFinding)
