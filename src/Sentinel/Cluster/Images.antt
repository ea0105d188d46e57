-- ===== src/Sentinel/Cluster/Images.antt =====
-- plugins/sentinel/cli/checks/image_latest_tag.go and image_signature.go: the checks of the images.
-- What `cosign` answers and the order in which a map is visited are parameters.
use yby_cli.Prelude.{
  ◌++◌, insert, none, some, eq_String, ◌==◌, true, not, map, false, nat_eq, lookup, [], Bool, cat,
  ◌∷◌, flat_map, if◌then◌else◌, List, ℕ, Dict, String,
}
use yby_cli.Prelude.Result.{Result, ok, ◌>>=◌}
use yby_cli.Sentinel.Kube.{Container, Pod, Client}
use yby_cli.Sentinel.Finding.{SecurityFinding, SecurityCheck}
use yby_cli.Sentinel.Pods.{when, all_containers, run_pods}
use yby_cli.Sentinel.Pods.Resources.{text_contains}
use yby_cli.Sentinel.Cluster.{listed}
use Prim.Native.String as Str
use Prim.Native.Char.{Char, code}

-- The part that a character begins, with the parts after it.
unfoldable pub start_part : Char → List String → List String
start_part c [] = []
start_part c (part ∷ parts) = Str.◌∷◌ c part ∷ parts

-- strings.Split(s, sep), for a separator of one character
unfoldable pub split : ℕ → String → List String
unfolding start_part
split sep Str.[] = "" ∷ []
split sep (Str.◌∷◌ c s) =
    let rest = split sep s in if nat_eq (code c) sep then "" ∷ rest else start_part c rest

-- parts[len(parts)-1]
unfoldable pub last_part : String → List String → String
last_part part [] = part
last_part part (next ∷ parts) = last_part next parts

-- the test and the tag, on the parts
unfoldable pub no_fixed_tag : List String → Bool
unfolding last_part
no_fixed_tag [] = false
no_fixed_tag (part ∷ []) = true
no_fixed_tag (part ∷ next ∷ parts) = last_part next parts == "latest"

-- isLatestOrNoTag; 58 is ':'
unfoldable pub is_latest_or_no_tag : String → Bool
unfolding split no_fixed_tag text_contains
is_latest_or_no_tag image =
    if text_contains image "@sha256:" then false else no_fixed_tag (split 58 image)

-- image_latest_tag.go: images whose tag is `latest` or not there
unfoldable pub latest_tag_finding : String → Pod → Container → SecurityFinding
latest_tag_finding namespace pod container = record {
  check_id = "IMAGE_LATEST_TAG";
  severity = "medium";
  category = "supply-chain";
  pod = pod.name;
  container = container.name;
  namespace = namespace;
  resource = cat (pod.name ∷ "/" ∷ container.name ∷ []);
  message = cat (
      "Container '" ∷ container.name ∷ "' no pod '" ∷ pod.name ∷ "' usa imagem '" ∷ container.image
      ∷ "' sem tag fixa" ∷ []);
  recommendation = "Use tags de imagem imutáveis (ex: sha256 digest) em vez de :latest";
  type = "warning";
  description = cat (
      "Container '" ∷ container.name ∷ "' no pod '" ∷ pod.name ∷ "' usa imagem '" ∷ container.image
      ∷ "' sem tag fixa" ∷ []);
}

unfoldable pub latest_tag : String → Pod → List SecurityFinding
unfolding all_containers is_latest_or_no_tag
latest_tag namespace pod =
    flat_map
      (λ container.
        when (is_latest_or_no_tag container.image) (latest_tag_finding namespace pod container))
      (all_containers pod)

abbrev pub latest_tag_check : SecurityCheck
latest_tag_check = record {
  id = "IMAGE_LATEST_TAG";
  name = "Imagem com Tag Latest";
  category = "supply-chain";
  severity = "medium";
  description = "Detecta containers usando :latest ou sem tag definida";
  run = run_pods latest_tag;
}

-- image_signature.go: the finding where cosign is not there
unfoldable pub no_cosign_finding : String → SecurityFinding
no_cosign_finding namespace = record {
  check_id = "IMAGE_SIGNATURE";
  severity = "info";
  category = "supply-chain";
  pod = "";
  container = "";
  namespace = namespace;
  resource = "cosign";
  message = "cosign não encontrado — verificação de assinatura de imagens indisponível";
  recommendation = "Instale cosign: https://docs.sigstore.dev/cosign/system_config/installation/";
  type = "info";
  description = "cosign não encontrado — verificação de assinatura de imagens indisponível";
}

-- strings.SplitN(ref, "/", 2), where the separator has not been met yet; 47 is '/'
unfoldable pub split_ref : String → String × String
split_ref Str.[] = ("", "")
split_ref (Str.◌∷◌ c s) =
    let rest = split_ref s in if nat_eq (code c) 47 then ("", s) else (Str.◌∷◌ c rest.0, rest.1)

unfoldable pub unsigned_finding : String → String → String → SecurityFinding
unfolding split_ref
unsigned_finding namespace image ref = record {
  check_id = "IMAGE_SIGNATURE";
  severity = "high";
  category = "supply-chain";
  pod = (split_ref ref).0;
  container = (split_ref ref).1;
  namespace = namespace;
  resource = ref;
  message = cat ("Imagem '" ∷ image ∷ "' não possui assinatura cosign verificada" ∷ []);
  recommendation = "Assine imagens com cosign antes do deploy: cosign sign <imagem>";
  type = "critical";
  description = cat ("Imagem '" ∷ image ∷ "' não possui assinatura cosign verificada" ∷ []);
}

-- pod/container, with the image: the order in which the loops reach them
unfoldable pub image_uses : List Pod → List (String × String)
unfolding all_containers
image_uses pods =
    flat_map
      (λ (pod : Pod).
        map (λ (c : Container). (c.image, cat (pod.name ∷ "/" ∷ c.name ∷ []))) (all_containers pod))
      pods

-- imageSet[key], nil where there is none
unfoldable pub refs_of : String → Dict String (List String) → List String
refs_of image found = elim (lookup image found) [ none ↦ [] | some refs ↦ refs ]

-- imageSet[key] = append(imageSet[key], ref)
unfoldable pub image_set :
    Dict String (List String) → List (String × String) → Dict String (List String)
unfolding refs_of
image_set found [] = found
image_set found ((image, ref) ∷ uses) =
    image_set (insert image (refs_of image found ++ ref ∷ []) found) uses

-- `has_cosign`: whether `cosign version` succeeds; `verify`: whether `cosign verify` does, for an image
module _ (range : Dict String (List String) → Dict String (List String)) (has_cosign : Bool)
    (verify : String → Bool) where
  unfoldable pub unsigned_round : String → String × List String → List SecurityFinding
  unsigned_round namespace (image, refs) =
      if verify image then [] else map (unsigned_finding namespace image) refs

  unfoldable pub image_signature : Client → String → Result String (List SecurityFinding)
  unfolding unsigned_round image_set image_uses
  image_signature client namespace = listed "pods" (client.list_pods namespace) >>= λ pods. ok (
      if not has_cosign
      then no_cosign_finding namespace ∷ []
      else flat_map (unsigned_round namespace) (range (image_set [] (image_uses pods))))

  abbrev pub image_signature_check : SecurityCheck
  image_signature_check = record {
    id = "IMAGE_SIGNATURE";
    name = "Assinatura de Imagem";
    category = "supply-chain";
    severity = "high";
    description = "Verifica se imagens de containers possuem assinatura cosign";
    run = image_signature;
  }
