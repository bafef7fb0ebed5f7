-- ===== src/Api.antt =====
-- controller/api/v1alpha1/trafficroute_types.go: the TrafficRoute resource.
-- An int32, an int64 and a duration (in nanoseconds) are integers, a pointer is an Option, and a
-- string is its bytes. The children hold the spec and the status.
mod Spec
mod Status
pub use Spec.*
pub use Status.*
use kubetraffic.Prelude.{Str, List, Bool}
use kubetraffic.Prelude.Int.{ℤ}

-- `TrafficRoute`, with the fields of `metav1.ObjectMeta` that the controller reads.
pub record TrafficRoute : Type 0 where
  pub name : Str
  pub namespace : Str
  pub generation : ℤ
  pub finalizers : List Str
  -- `!DeletionTimestamp.IsZero()`
  pub deleting : Bool
  pub spec : TrafficRouteSpec
  pub status : TrafficRouteStatus

-- `types.NamespacedName`
pub record NamespacedName : Type 0 where
  pub namespace : Str
  pub name : Str
