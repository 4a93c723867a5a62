-- ===== src/Kube/Meta.antt =====
-- metav1.ObjectMeta, types.NamespacedName and resource.Quantity, as far as the operator reads them.
use stroom_k8s_operator.Base.{zero, String, ◌<>◌, Bool, true, false, Option, none, some, List, []}
use stroom_k8s_operator.Base.Int.{ℤ, pos}
use stroom_k8s_operator.Base.Dict.{Dict}

-- time.Time, in nanoseconds since the zero time.
abbrev pub Time : Type 0
Time = ℤ

abbrev is_zero_time : Time → Bool
is_zero_time (pos zero) = true
is_zero_time _ = false

-- A value of a Kubernetes type that the operator passes on unread, as its JSON text.
abbrev pub Json : Type 0
Json = String

-- A resource.Quantity, as its text; "0" is the zero quantity.
abbrev pub Quantity : Type 0
Quantity = String

abbrev pub Labels : Type 0
Labels = Dict String String

pub record NamespacedName : Type 0 where
  pub namespace : String
  pub name : String

-- NamespacedName.String()
abbrev pub to_string : NamespacedName → String
to_string n = n.namespace <> "/" <> n.name

pub record OwnerReference : Type 0 where
  pub kind : String
  pub name : String

pub record ObjectMeta : Type 0 where
  pub name : String
  pub namespace : String
  pub labels : Labels
  pub annotations : Labels
  pub owner_references : List OwnerReference
  pub finalizers : List String
  pub deletion_timestamp : Option Time

abbrev pub empty_meta : ObjectMeta
empty_meta = record {
  name = "";
  namespace = "";
  labels = [];
  annotations = [];
  owner_references = [];
  finalizers = [];
  deletion_timestamp = none;
}

-- DeletionTimestamp.IsZero(), which is true of a nil pointer too.
abbrev pub is_zero : Option Time → Bool
is_zero none = true
is_zero (some t) = is_zero_time t
