-- ===== src/Reconcilers/Children/Ports.antt =====
-- pkg/kubernetes/reconcilers/redis.go: the ports of the service, and that a second pass over a child
-- changes nothing.
use Prim.Native.String.{String}
use text.Mathlib.Text.{◌==◌ as str_eq}
use k8s_controller_the_hard.Prelude.{
  ◌≡◌, refl, ap, Bool, true, Option, none, some, List, [], ◌∷◌, if◌then◌else◌, arith, inl, inr,
  Bool-cases,
}
use k8s_controller_the_hard.Prelude.GoMap
use k8s_controller_the_hard.Prelude.GoMap.{GoMap}
use k8s_controller_the_hard.Reconcilers.Children.{
  label_redis, redis_port_name, ServicePort, Service, StatefulSet, desired_port, set_port,
  set_service, mutate_service, set_stateful_set, mutate_stateful_set,
}

is_redis_port : ServicePort → Bool
is_redis_port p = str_eq p.name redis_port_name

desired-is_redis_port : is_redis_port desired_port ≡ true
unfolding is_redis_port
desired-is_redis_port = refl

-- The ports of other names, in order, and the first port of the Redis name.
unfoldable pub other_ports : List ServicePort → List ServicePort
unfolding is_redis_port
other_ports [] = []
other_ports (p ∷ ports) = if is_redis_port p then other_ports ports else p ∷ other_ports ports

unfoldable pub first_redis_port : List ServicePort → Option ServicePort
unfolding is_redis_port
first_redis_port [] = none
first_redis_port (p ∷ ports) = if is_redis_port p then some p else first_redis_port ports

set_port-cons :
    (p : ServicePort) (ports : List ServicePort)
    → set_port (p ∷ ports) ≡ (if is_redis_port p then desired_port ∷ ports else p ∷ set_port ports)
unfolding set_port is_redis_port
set_port-cons p ports = refl

other_ports-set_port : (ports : List ServicePort) → other_ports (set_port ports) ≡ other_ports ports
unfolding other_ports set_port
other_ports-set_port [] = refl
other_ports-set_port (p ∷ ports) = ground (arith, other_ports-set_port ports, desired-is_redis_port)

first_redis_port-set_port :
    (ports : List ServicePort) → first_redis_port (set_port ports) ≡ some desired_port
unfolding first_redis_port set_port
first_redis_port-set_port [] = refl
first_redis_port-set_port (p ∷ ports) =
    ground (arith, first_redis_port-set_port ports, desired-is_redis_port)

set_port-set_port : (ports : List ServicePort) → set_port (set_port ports) ≡ set_port ports
unfolding set_port
set_port-set_port [] = refl
set_port-set_port (p ∷ ports) = ground (arith, set_port-set_port ports)

abbrev default_type : String → String
default_type t = if str_eq t "" then "ClusterIP" else t

default_type-default_type : (t : String) → default_type (default_type t) ≡ default_type t
default_type-default_type t = elim (Bool-cases (str_eq t "")) [
  | inl e ↦ rw e refl
  | inr n ↦ rw (n, n) refl
]

module _ {Ow : Type 0} (dec : Discrete String) (own : Ow → Option Ow) where
  -- What `createOrUpdateService` makes of a service that it may own: the ports of other names stay,
  -- in order, and the first port of the Redis name is the desired one.
  pub mutate_service-ports :
      (name : String) (svc : Service Ow) {owners : Ow}
      → own svc.owners ≡ some owners
      → (r : Service Ow) × (mutate_service dec own name svc ≡ some r)
        × (other_ports r.ports ≡ other_ports svc.ports)
        × (first_redis_port r.ports ≡ some desired_port)
  unfolding mutate_service
  mutate_service-ports name svc {owners} o = (
    set_service dec own name svc owners,
    rw (o, mutate_service) refl,
    other_ports-set_port svc.ports,
    first_redis_port-set_port svc.ports,
  )

  set_service-set_service :
      (name : String) (svc : Service Ow) (owners : Ow)
      → set_service dec own name (set_service dec own name svc owners) owners
        ≡ set_service dec own name svc owners
  set_service-set_service name svc owners = rw (
    GoMap.put-put dec svc.labels label_redis name name,
    set_port-set_port svc.ports,
    default_type-default_type svc.service_type,
  )

  set_stateful_set-set_stateful_set :
      (name image : String) (sts : StatefulSet Ow) (owners : Ow)
      → set_stateful_set dec own name image (set_stateful_set dec own name image sts owners) owners
        ≡ set_stateful_set dec own name image sts owners
  set_stateful_set-set_stateful_set name image sts owners =
      rw (GoMap.put-put dec sts.labels label_redis name name)

  -- A first pass over a service and a StatefulSet that the source may own, and a second pass over
  -- what it returned, return the same, if a reference to an owner that is there is not added again.
  pub mutate_settles :
      (name image : String) (svc : Service Ow) (sts : StatefulSet Ow) {p o : Ow}
      → own svc.owners ≡ some p
      → own p ≡ some p
      → own sts.owners ≡ some o
      → own o ≡ some o
      → ((r : Service Ow) × (mutate_service dec own name svc ≡ some r)
          × (mutate_service dec own name r ≡ some r))
        × ((r : StatefulSet Ow) × (mutate_stateful_set dec own name image sts ≡ some r)
            × (mutate_stateful_set dec own name image r ≡ some r))
  unfolding mutate_service mutate_stateful_set
  mutate_settles name image svc sts {p} {o} ep pp eo oo = (
    (
      set_service dec own name svc p,
      rw (ep, mutate_service) refl,
      rw (pp, mutate_service) (ap some (set_service-set_service name svc p)),
    ),
    (
      set_stateful_set dec own name image sts o,
      rw (eo, mutate_stateful_set) refl,
      rw (oo, mutate_stateful_set) (ap some (set_stateful_set-set_stateful_set name image sts o)),
    ),
  )
