-- ===== src/Sentinel/Cluster.antt =====
-- plugins/sentinel/cli/checks: the checks of the roles, the network policies and the images.
pub mod Allowlist
pub mod Rbac
pub mod Network
pub mod Images
pub mod Iffs
pub mod Tags
pub mod Uses
pub mod Signatures
pub mod RbacLaws
pub mod NetworkLaws
pub mod ImageLaws
pub mod Tests
use yby_cli.Prelude.{[], ◌∷◌, cat, String}
use yby_cli.Prelude.Result.{Result, ok, err}

-- `fmt.Errorf("falha ao listar …: %w", err)` on the error of a call that lists
abbrev pub listed : {A : Type 0} → String → Result String A → Result String A
listed what (ok a) = ok a
listed what (err e) = err (cat ("falha ao listar " ∷ what ∷ ": " ∷ e ∷ []))
