-- ===== src/Sentinel/Profiles.antt =====
-- plugins/sentinel/cli/profiles: the compliance profiles, each with the checks it asks for.
pub mod Laws
use yby_cli.Prelude.{lookup, map, eq_String, Option, List, [], insert, String, Dict, ◌∷◌}

pub record ComplianceProfile : Type 0 where
  pub name : String
  pub description : String
  pub check_ids : List String

-- register: registry[p.Name] = p
unfoldable pub register_profile :
    ComplianceProfile → Dict String ComplianceProfile → Dict String ComplianceProfile
register_profile p registry = insert p.name p registry

-- GetProfile
unfoldable pub get_profile : String → Dict String ComplianceProfile → Option ComplianceProfile
get_profile name registry = lookup name registry

-- ListProfiles, over the entries in the order of the loop
unfoldable pub list_profiles : Dict String ComplianceProfile → List ComplianceProfile
list_profiles registry = map (λ e. e.1) registry

abbrev pub cis_l1 : ComplianceProfile
cis_l1 = record {
  name = "cis-l1";
  description = "CIS Kubernetes Benchmark Level 1 — checks básicos de segurança de pods";
  check_ids =
      "POD_ROOT_CONTAINER" ∷ "POD_RESOURCE_LIMITS" ∷ "POD_IMAGE_PULL_POLICY" ∷ "POD_EXPOSED_SECRETS"
      ∷ "POD_PRIVILEGED" ∷ "POD_HOST_NAMESPACES" ∷ "POD_SERVICE_ACCOUNT_TOKEN" ∷ [];
}

abbrev pub cis_l2 : ComplianceProfile
cis_l2 = record {
  name = "cis-l2";
  description =
      "CIS Kubernetes Benchmark Level 2 — todos os checks de segurança incluindo RBAC e rede";
  check_ids =
      "POD_ROOT_CONTAINER" ∷ "POD_RESOURCE_LIMITS" ∷ "POD_IMAGE_PULL_POLICY" ∷ "POD_EXPOSED_SECRETS"
      ∷ "POD_PRIVILEGE_ESCALATION" ∷ "POD_CAPABILITIES" ∷ "POD_READONLY_ROOTFS"
      ∷ "POD_HOST_NAMESPACES" ∷ "POD_SERVICE_ACCOUNT_TOKEN" ∷ "POD_SECCOMP" ∷ "POD_PRIVILEGED"
      ∷ "POD_HOST_PORTS" ∷ "RBAC_CLUSTER_ADMIN" ∷ "RBAC_WILDCARD" ∷ "RBAC_SECRETS_ACCESS"
      ∷ "NETPOL_COVERAGE" ∷ "NETPOL_DEFAULT_DENY" ∷ [];
}

abbrev pub pci_dss : ComplianceProfile
pci_dss = record {
  name = "pci-dss";
  description = "PCI-DSS — foco em proteção de secrets, controle de acesso e segmentação de rede";
  check_ids =
      "POD_EXPOSED_SECRETS" ∷ "RBAC_CLUSTER_ADMIN" ∷ "RBAC_WILDCARD" ∷ "RBAC_SECRETS_ACCESS"
      ∷ "NETPOL_COVERAGE" ∷ "NETPOL_DEFAULT_DENY" ∷ "POD_PRIVILEGED" ∷ "POD_ROOT_CONTAINER"
      ∷ "POD_SERVICE_ACCOUNT_TOKEN" ∷ [];
}

abbrev pub soc2 : ComplianceProfile
soc2 = record {
  name = "soc2";
  description = "SOC2 — foco em controle de acesso, segurança de rede e hardening de pods";
  check_ids =
      "RBAC_CLUSTER_ADMIN" ∷ "RBAC_WILDCARD" ∷ "RBAC_SECRETS_ACCESS" ∷ "POD_SERVICE_ACCOUNT_TOKEN"
      ∷ "NETPOL_COVERAGE" ∷ "NETPOL_DEFAULT_DENY" ∷ "POD_ROOT_CONTAINER" ∷ "POD_PRIVILEGED"
      ∷ "POD_PRIVILEGE_ESCALATION" ∷ "POD_CAPABILITIES" ∷ "POD_EXPOSED_SECRETS" ∷ [];
}

-- the registry after the files of the package have run
unfoldable pub profiles : Dict String ComplianceProfile
unfolding register_profile
profiles =
    register_profile soc2
      (register_profile pci_dss (register_profile cis_l2 (register_profile cis_l1 ([]))))
