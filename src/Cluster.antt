-- ===== src/Cluster.antt =====
-- What the operator uses of Kubernetes: the objects that it creates (the fields that it sets or reads)
-- and the API client. The client, the scheme and the quantity parser are not code of this
-- repository: they are the parameters of the record `Client`.
pub mod Objects
use kagents.Prelude.{ℕ, String, Option, List, Dict}
use kagents.Result.{Result}
use kagents.Api.Resources.{ObjectMeta, AgentTeam}
use Objects.{Pod, Pvc, Job, ServiceAccount, Role, RoleBinding, ConfigMap, Secret}

-- The calls for one kind of object; `get` and `delete` take a namespace and a name. A read changes
-- nothing; a write returns the world after it, whether it succeeds or not.
pub record Collection (W A : Type 0) : Type 0 where
  pub get : W → String → String → Result A
  pub create : W → A → Result (Unit {0}) × W
  pub update : W → A → Result (Unit {0}) × W
  pub delete : W → String → String → Result (Unit {0}) × W

pub record Client : Type 1 where
  pub World : Type 0
  pub pods : Collection World Pod
  pub pvcs : Collection World Pvc
  pub jobs : Collection World Job
  pub service_accounts : Collection World ServiceAccount
  pub roles : Collection World Role
  pub role_bindings : Collection World RoleBinding
  pub config_maps : Collection World ConfigMap
  pub secrets : Collection World Secret
  -- r.Get of a team
  pub get_team : World → String → String → Result AgentTeam
  -- the pods of a namespace that have a label with a value
  pub list_pods : World → String → String → String → Result (List Pod)
  -- r.Status().Update
  pub update_status : World → AgentTeam → Result (Unit {0}) × World
  -- ctrl.SetControllerReference(team, object): the metadata of the object with its owner
  pub set_controller_reference : AgentTeam → ObjectMeta → Result ObjectMeta
  -- resource.ParseQuantity, the quantity as a text
  pub parse_quantity : String → Result String
  -- a POST of a JSON object; the status code of the answer
  pub http_post : World → String → Dict String → Result ℕ × World
