-- ===== src/Reconcilers/Redis/Keys.antt =====
-- pkg/kubernetes/reconcilers/redis.go: from a child back to its Redis.
use Prim.Native.String.{String, ◌++◌ as ◌+++◌}
use text.Mathlib.Text.{◌==◌ as str_eq}
use k8s_controller_the_hard.Prelude.{◌≡◌, ◌≢◌, refl, false, Option, none, some, arith, ap, sym, ◌∙◌}
use k8s_controller_the_hard.Prelude.GoMap
use k8s_controller_the_hard.Prelude.GoMap.{GoMap}
use k8s_controller_the_hard.Controller.Predicate.{ObjectMeta}
use k8s_controller_the_hard.Reconcilers.Children.{
  label_redis, Service, StatefulSet, mutate_service, mutate_stateful_set, set_service,
  set_stateful_set,
}
use k8s_controller_the_hard.Reconcilers.Redis.Reports.{nonempty_str}
use k8s_controller_the_hard.Reconcilers.Tenant.{ObjectKey}
use k8s_controller_the_hard.Reconcilers.Redis.{
  Redis, RedisClient, Patched, patched, patch_error, wrap, error_of, create_or_update_service,
  create_or_update_stateful_set, parse_redis_key_from_obj,
}

module _ (dec : Discrete String) where
  parse-put :
      (o : ObjectMeta) (m : GoMap String String) (name : String)
      → o.labels ≡ GoMap.put dec m label_redis name
      → str_eq name "" ≡ false
      → parse_redis_key_from_obj dec false (some o) ≡ some (o.namespace +++ "/" +++ name)
  unfolding parse_redis_key_from_obj
  parse-put o m name e n = ground (arith, GoMap.get-put dec m label_redis label_redis name)

-- What controllerutil documents of `CreateOrPatch`, with the objects that the server holds: where it
-- returns no error it called the function on an object with the name and the namespace of the key, and
-- the server holds what came out, which has its labels and its namespace.
pub record IsPatcher {Ow W : Type 0} (client : RedisClient Ow W)
    (services : W → ObjectKey → Option (Service Ow))
    (stateful_sets : W → ObjectKey → Option (StatefulSet Ow)) : Type 0 where
  pub service :
      (k : ObjectKey) (f : Service Ow → Option (Service Ow)) (w : W) (r : Service Ow)
      → (client.patch_service k f w).1 ≡ patched r
      → (old new : Service Ow) × (old.namespace ≡ k.namespace)
        × (old.name ≡ k.name)
        × (f old ≡ some new)
        × (services (client.patch_service k f w).0 k ≡ some r)
        × (r.labels ≡ new.labels)
        × (r.namespace ≡ new.namespace)
  pub stateful_set :
      (k : ObjectKey) (f : StatefulSet Ow → Option (StatefulSet Ow)) (w : W) (r : StatefulSet Ow)
      → (client.patch_stateful_set k f w).1 ≡ patched r
      → (old new : StatefulSet Ow) × (old.namespace ≡ k.namespace)
        × (old.name ≡ k.name)
        × (f old ≡ some new)
        × (stateful_sets (client.patch_stateful_set k f w).0 k ≡ some r)
        × (r.labels ≡ new.labels)
        × (r.namespace ≡ new.namespace)

patched_of : {A : Type 0} (r : Patched A) → wrap (error_of r) ≡ none → (a : A) × (r ≡ patched a)
patched_of (patched a) e = (a, refl)
patched_of (patch_error x) e = cc

same : {A : Type 0} (a b : A) → some a ≡ some b → a ≡ b
same a b e = cc

nothing : {A : Type 0} (a : A) → none ≡ some a → ⊥
nothing a e = cc

module _ {Ow : Type 0} (dec : Discrete String) (own : Ow → Option Ow) (name : String) where
  mutate_service-kept :
      (old new : Service Ow) (o : Option Ow)
      → own old.owners ≡ o
      → mutate_service dec own name old ≡ some new
      → (new.labels ≡ GoMap.put dec old.labels label_redis name) × (new.namespace ≡ old.namespace)
  unfolding mutate_service
  mutate_service-kept old new none e m = absurd (nothing new (rw (e, mutate_service) at m))
  mutate_service-kept old new (some p) e m =
      let k : set_service dec own name old p ≡ new = same _ new (rw (e, mutate_service) at m) in
      (ap Service.labels (sym k), ap Service.namespace (sym k))

  mutate_stateful_set-kept :
      (image : String) (old new : StatefulSet Ow) (o : Option Ow)
      → own old.owners ≡ o
      → mutate_stateful_set dec own name image old ≡ some new
      → (new.labels ≡ GoMap.put dec old.labels label_redis name) × (new.namespace ≡ old.namespace)
  unfolding mutate_stateful_set
  mutate_stateful_set-kept image old new none e m =
      absurd (nothing new (rw (e, mutate_stateful_set) at m))
  mutate_stateful_set-kept image old new (some p) e m =
      let k : set_stateful_set dec own name image old p ≡ new =
        same _ new (rw (e, mutate_stateful_set) at m) in
      (ap StatefulSet.labels (sym k), ap StatefulSet.namespace (sym k))

abbrev pub key_of : Redis → ObjectKey
key_of redis = record { namespace = redis.namespace; name = redis.name }

-- The metadata of an object, as `meta.Accessor` finds it, of which the rest is in `meta`.
abbrev pub parsed : Discrete String → ObjectMeta → GoMap String String → String → Option String
parsed dec meta labels namespace =
    parse_redis_key_from_obj dec false
      (some (record meta { labels = labels; namespace = namespace }))

module _ {Ow W : Type 0} (dec : Discrete String) (client : RedisClient Ow W)
    (services : W → ObjectKey → Option (Service Ow))
    (stateful_sets : W → ObjectKey → Option (StatefulSet Ow)) (own : Redis → Ow → Option Ow) where
  -- Where the reconciler has patched the Service or the StatefulSet of a Redis without an error, the
  -- server holds one with the name and in the namespace of the Redis, and `ParseRedisKeyFromObj`
  -- takes it back to the key of the Redis, its namespace and its name, which is not empty. The client
  -- is as controllerutil documents.
  pub parse_key-children :
      (redis : Redis) (w v : W) (meta : ObjectMeta)
      → IsPatcher client services stateful_sets
      → redis.name ≢ ""
      → (create_or_update_service dec client own redis w).1 ≡ none
      → (create_or_update_stateful_set dec client own redis v).2 ≡ none
      → ((r : Service Ow) × (services
              (create_or_update_service dec client own redis w).0
              (key_of redis)
            ≡ some r)
          × (parsed dec meta r.labels r.namespace ≡ some (redis.namespace +++ "/" +++ redis.name)))
        × ((r : StatefulSet Ow) × (stateful_sets
                (create_or_update_stateful_set dec client own redis v).0
                (key_of redis)
              ≡ some r)
            × (parsed dec meta r.labels r.namespace
                ≡ some (redis.namespace +++ "/" +++ redis.name)))
  unfolding create_or_update_service create_or_update_stateful_set
  parse_key-children redis w v meta laws named es et =
      let (s, ps) =
        patched_of
          (client.patch_service (key_of redis) (mutate_service dec (own redis) redis.name) w).1
          es in
      let (t, pt) =
        patched_of
          (client.patch_stateful_set (key_of redis)
            (mutate_stateful_set dec (own redis) redis.name redis.image) v).1
          et in
      let (so, sn, sns, snm, sf, sh, sl, sp) =
        laws.service (key_of redis) (mutate_service dec (own redis) redis.name) w s ps in
      let (to, tn, tns, tnm, tf, th, tl, tp) =
        laws.stateful_set (key_of redis)
          (mutate_stateful_set dec (own redis) redis.name redis.image) v t pt in
      let sk = mutate_service-kept dec (own redis) redis.name so sn (own redis so.owners) refl sf in
      let tk =
        mutate_stateful_set-kept dec (own redis) redis.name redis.image to tn (own redis to.owners)
          refl tf in
      (
        (
          s,
          sh,
          child_key redis meta s.labels so.labels s.namespace named (sl ∙ sk.0) (sp ∙ sk.1 ∙ sns),
        ),
        (
          t,
          th,
          child_key redis meta t.labels to.labels t.namespace named (tl ∙ tk.0) (tp ∙ tk.1 ∙ tns),
        ),
      )
    where
      child_key :
          (redis : Redis) (meta : ObjectMeta) (labels old : GoMap String String)
          (namespace : String)
          → redis.name ≢ ""
          → labels ≡ GoMap.put dec old label_redis redis.name
          → namespace ≡ redis.namespace
          → parsed dec meta labels namespace ≡ some (redis.namespace +++ "/" +++ redis.name)
      child_key redis meta labels old namespace named l n =
          parse-put dec (record meta { labels = labels; namespace = namespace }) old redis.name l
            (nonempty_str redis.name named)
          ∙ ap (λ z. some (z +++ "/" +++ redis.name)) n
