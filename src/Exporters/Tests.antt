-- ===== src/Exporters/Tests.antt =====
-- The exported instruments: the theorem at a concrete registerer, a list of vectors.
use Prim.Native.String.{String}
use k8s_controller_the_hard.Prelude.{
  ◌≡◌, refl, Bool, true, not, ◌&&◌, ◌||◌, none, List, [], ◌∷◌, ◌++◌, if◌then◌else◌, ok, panic,
  arith,
}
use k8s_controller_the_hard.Exporters.{
  Vector, id_of, contains, distinct, Registerer, absent, IsRegisterer,
}
use k8s_controller_the_hard.Exporters.Install.{Installed, install_default}
use k8s_controller_the_hard.Exporters.Registers.{Installs, install_default-Installs}
use k8s_controller_the_hard.Exporters.Names.{queue_vectors, reflector_vectors}

abbrev all_new : List Vector → List Vector → Bool
all_new r [] = true
all_new r (v ∷ vs) = not (contains r (id_of v)) && all_new r vs

abbrev list_registerer : Registerer (List Vector)
list_registerer = record {
  must_register = λ r vs. if all_new r vs && distinct vs then ok (vs ++ r) else panic;
  registered = contains;
}

absent-all_new : (r vs : List Vector) → absent list_registerer r vs ≡ all_new r vs
unfolding absent
absent-all_new r [] = refl
absent-all_new r (v ∷ vs) = rw (absent-all_new r vs) refl

contains-append :
    (vs r : List Vector) (id : String) → contains (vs ++ r) id ≡ (contains r id || contains vs id)
unfolding contains
contains-append [] r id = ground arith
contains-append (v ∷ vs) r id = ground (arith, contains-append vs r id)

list_registerer-IsRegisterer : IsRegisterer list_registerer
list_registerer-IsRegisterer = record {
  registers = λ r vs a d. (
    vs ++ r,
    (let n = absent-all_new r vs in ground (arith, n, a, d)),
    λ id. contains-append vs r id,
  );
  refuses = λ r vs a. let n = absent-all_new r vs in ground (arith, n, a);
}

abbrev blank : Installed (List Vector)
blank = record { default_registerer = []; workqueue_provider = none; reflector_provider = none }

none_registered : (vs : List Vector) → absent list_registerer [] vs ≡ true
unfolding absent contains
none_registered [] = refl
none_registered (v ∷ vs) = none_registered vs

install_default-Installs_example :
    Installs list_registerer blank (install_default list_registerer blank)
install_default-Installs_example =
    install_default-Installs list_registerer blank list_registerer-IsRegisterer
      (none_registered queue_vectors) (none_registered reflector_vectors) refl refl
