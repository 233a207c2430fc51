-- ===== src/Exporters.antt =====
-- pkg/kubernetes/metrics: the instruments that the program exports. The vectors of Prometheus are data,
-- and a registerer is a parameter.
pub mod QueueProvider
pub mod ReflectorProvider
pub mod Install
pub mod Names
pub mod Registers
mod Tests
use Prim.Native.String.{String, ◌++◌ as ◌+++◌}
use text.Mathlib.Text.{◌==◌ as str_eq}
use k8s_controller_the_hard.Prelude.{
  ℕ, ◌≡◌, Bool, true, false, not, ◌&&◌, ◌||◌, Option, none, some, List, [], ◌∷◌, Run, ok, panic,
}

pub data Kind : Type 0 where
  gauge counter histogram summary : Kind

-- `GaugeOpts` and the like, with the kind of the vector. `buckets` is the call of
-- `ExponentialBuckets`: the start in nanoseconds, the factor and the count.
pub record Opts : Type 0 where
  pub kind : Kind
  pub subsystem : String
  pub name : String
  pub help : String
  pub buckets : Option (ℕ × ℕ × ℕ)
  pub const_labels : List (String × String)

-- `NewGaugeVec` and the like.
pub record Vector : Type 0 where
  pub opts : Opts
  pub label_names : List String

-- What `WithLabelValues` returns: the instrument of a vector for the values of its labels.
pub record Instrument : Type 0 where
  pub vector : Vector
  pub label_values : List String

unfoldable pub with_label_values : Vector → String → Instrument
with_label_values v name = record { vector = v; label_values = name ∷ [] }

-- The name under which Prometheus registers a vector: `BuildFQName` of its subsystem and name, which
-- joins them.
abbrev pub id_of : Vector → String
id_of v = Opts.subsystem v.opts +++ "_" +++ Opts.name v.opts

unfoldable pub contains : List Vector → String → Bool
contains [] id = false
contains (v ∷ vs) id = str_eq (id_of v) id || contains vs id

unfoldable pub distinct : List Vector → Bool
distinct [] = true
distinct (v ∷ vs) = not (contains vs (id_of v)) && distinct vs

-- A `prometheus.Registerer`, with what is registered.
pub record Registerer (R : Type 0) : Type 0 where
  pub must_register : R → List Vector → Run R
  pub registered : R → String → Bool

module _ {R : Type 0} (registerer : Registerer R) where
  unfoldable pub absent : R → List Vector → Bool
  absent r [] = true
  absent r (v ∷ vs) = not (registerer.registered r (id_of v)) && absent r vs

  -- What Prometheus documents of `MustRegister`: it registers collectors with new and different names,
  -- and panics if a name is registered.
  pub record IsRegisterer : Type 0 where
    pub registers :
        (r : R) (vs : List Vector)
        → absent r vs ≡ true
        → distinct vs ≡ true
        → (s : R) × (registerer.must_register r vs ≡ ok s)
          × ((id : String)
              → registerer.registered s id ≡ (registerer.registered r id || contains vs id))
    pub refuses :
        (r : R) (vs : List Vector) → absent r vs ≡ false → registerer.must_register r vs ≡ panic
