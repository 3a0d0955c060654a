-- ===== src/Cluster/Objects.antt =====
-- The Kubernetes objects that a team owns, with the fields that agentteam_controller.go sets or reads.
use kagents.Prelude.{ℕ, String, Bool, Option, List, Dict}
use kagents.Api.Spec.{ResourceRequirements}
use kagents.Api.Status.{Time}
use kagents.Api.Resources.{ObjectMeta}

pub data EnvSource : Type 0 where
  value : String → EnvSource
  -- the name of the secret, its key, and whether it may be missing
  secret_key : String → String → Bool → EnvSource

pub record EnvVar : Type 0 where
  pub name : String
  pub source : EnvSource

pub data VolumeSource : Type 0 where
  claim : String → Bool → VolumeSource  -- the claim, and whether it is read-only
  config_map : String → VolumeSource
  empty_dir : VolumeSource
  secret : String → List (String × String) → VolumeSource  -- the keys with their paths

pub record Volume : Type 0 where
  pub name : String
  pub source : VolumeSource

pub record VolumeMount : Type 0 where
  pub name : String
  pub mount_path : String
  pub read_only : Bool

pub record Container : Type 0 where
  pub name : String
  pub image : String
  pub command : List String
  pub env : List EnvVar
  pub volume_mounts : List VolumeMount
  pub resources : ResourceRequirements

pub record PodSpec : Type 0 where
  pub restart_policy : String
  pub service_account_name : String
  pub image_pull_secrets : List String
  pub init_containers : List Container
  pub containers : List Container
  pub volumes : List Volume

pub record Pod : Type 0 where
  pub meta : ObjectMeta
  pub spec : PodSpec
  pub phase : String
  pub reason : String
  pub message : String
  pub deletion_timestamp : Option Time

pub record Pvc : Type 0 where
  pub meta : ObjectMeta
  pub access_mode : String
  pub storage_class : String
  pub storage : String

pub record Job : Type 0 where
  pub meta : ObjectMeta
  pub backoff_limit : Option ℕ
  pub template : PodSpec
  pub succeeded : ℕ
  pub failed : ℕ

pub record ServiceAccount : Type 0 where
  pub meta : ObjectMeta

pub record PolicyRule : Type 0 where
  pub api_groups : List String
  pub resources : List String
  pub resource_names : List String
  pub verbs : List String

pub record Role : Type 0 where
  pub meta : ObjectMeta
  pub rules : List PolicyRule

-- The subjects are service accounts, by name and namespace.
pub record RoleBinding : Type 0 where
  pub meta : ObjectMeta
  pub subjects : List (String × String)
  pub role_ref : String

pub record ConfigMap : Type 0 where
  pub meta : ObjectMeta
  pub entries : Dict String

pub record Secret : Type 0 where
  pub meta : ObjectMeta
  pub entries : Dict String
