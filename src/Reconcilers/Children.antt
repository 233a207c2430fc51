-- ===== src/Reconcilers/Children.antt =====
-- pkg/kubernetes/reconcilers/redis.go: the functions that `createOrUpdateStatefulSet` and
-- `createOrUpdateService` give to `CreateOrPatch`. `dec` decides equality of strings as map keys, and
-- `own` is `SetControllerReference`: the owners with a reference to the source added, or `none` for
-- the error that another controller owns the object. Nil maps are empty maps.
pub mod Ports
use Prim.Native.String.{String}
use text.Mathlib.Text.{◌==◌ as str_eq}
use k8s_controller_the_hard.Prelude.{
  ℕ, Bool, true, false, Option, none, some, List, [], ◌∷◌, ◌++◌, if◌then◌else◌, ◌==◌,
}
use k8s_controller_the_hard.Prelude.GoMap
use k8s_controller_the_hard.Prelude.GoMap.{GoMap}

-- `demov1.LabelRedis`, `redisPortName` and `redisPort`.
abbrev pub label_redis : String
label_redis = "demo.lichuan.guru/redis"

abbrev pub redis_port_name : String
redis_port_name = "redis"

abbrev pub redis_port : ℕ
redis_port = 6379

-- `corev1.ServicePort`, with the target port by name or by number.
pub data TargetPort : Type 0 where
  by_name : String → TargetPort
  by_number : ℕ → TargetPort

pub record ServicePort : Type 0 where
  pub name : String
  pub protocol : String
  pub port : ℕ
  pub target_port : TargetPort

-- The name and the fields that the package sets, over the owners `Ow`.
pub record Service (Ow : Type 0) : Type 0 where
  pub namespace : String
  pub name : String
  pub labels : GoMap String String
  pub owners : Ow
  pub ports : List ServicePort
  pub selector : GoMap String String
  pub service_type : String

pub record ContainerPort : Type 0 where
  pub name : String
  pub container_port : ℕ
  pub protocol : String

pub record Container : Type 0 where
  pub name : String
  pub image : String
  pub image_pull_policy : String
  pub ports : List ContainerPort
  pub limits : GoMap String ℕ
  pub requests : GoMap String ℕ

pub record PodTemplate : Type 0 where
  pub labels : GoMap String String
  pub containers : List Container

pub record StatefulSet (Ow : Type 0) : Type 0 where
  pub namespace : String
  pub name : String
  pub labels : GoMap String String
  pub owners : Ow
  pub replicas : Option ℕ
  pub selector : Option (GoMap String String)
  pub template : PodTemplate
  pub service_name : String
  pub ready_replicas : ℕ
  pub status_replicas : ℕ

-- `desiredPort`
abbrev pub desired_port : ServicePort
desired_port = record {
  name = redis_port_name;
  protocol = "TCP";
  port = redis_port;
  target_port = by_name redis_port_name;
}

-- The loop over the ports, with the append where none was found.
unfoldable pub set_port : List ServicePort → List ServicePort
set_port [] = desired_port ∷ []
set_port (p ∷ ports) =
    if str_eq p.name redis_port_name then desired_port ∷ ports else p ∷ set_port ports

abbrev pub redis_container : String → Container
redis_container image = record {
  name = "redis";
  image = image;
  image_pull_policy = "IfNotPresent";
  ports = record { name = redis_port_name; container_port = redis_port; protocol = "TCP" } ∷ [];
  limits = ("cpu", 1) ∷ ("memory", 2147483648) ∷ [];
  requests = ("cpu", 1) ∷ ("memory", 1073741824) ∷ [];
}

module _ {Ow : Type 0} (dec : Discrete String) (own : Ow → Option Ow) where
  abbrev pub set_service : String → Service Ow → Ow → Service Ow
  set_service name svc owners = record svc {
    labels = GoMap.put dec svc.labels label_redis name;
    owners = owners;
    ports = set_port svc.ports;
    selector = (label_redis, name) ∷ [];
    service_type = if str_eq svc.service_type "" then "ClusterIP" else svc.service_type;
  }

  -- For the Redis object of this name, with `none` for the error.
  unfoldable pub mutate_service : String → Service Ow → Option (Service Ow)
  mutate_service name svc = elim (own svc.owners) [
    | none ↦ none
    | some owners ↦ some (set_service name svc owners)
  ]

  abbrev pub set_stateful_set : String → String → StatefulSet Ow → Ow → StatefulSet Ow
  set_stateful_set name image sts owners = record sts {
    labels = GoMap.put dec sts.labels label_redis name;
    owners = owners;
    replicas = some 1;
    selector = some ((label_redis, name) ∷ []);
    template = record {
      labels = (label_redis, name) ∷ [];
      containers = redis_container image ∷ [];
    };
    service_name = name;
  }

  -- The same, with the image.
  unfoldable pub mutate_stateful_set : String → String → StatefulSet Ow → Option (StatefulSet Ow)
  mutate_stateful_set name image sts = elim (own sts.owners) [
    | none ↦ none
    | some owners ↦ some (set_stateful_set name image sts owners)
  ]
