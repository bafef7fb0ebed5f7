-- ===== src/Discovery/Reads.antt =====
-- What resolver.go reads of the cluster, and the reads: controller-runtime's cache-backed client
-- is a parameter, a record of functions. The records hold the fields that the source names.
use kubetraffic.Prelude.{◌≡◌, refl, ◌⊎◌, inl, inr, Bool, Option, List, Str, Dict}
use kubetraffic.Prelude.Int.{ℤ}

-- The result of `client.Get`: the object, `IsNotFound`, or another error.
pub data Found (A : Type 0) : Type 0 where
  found : A → Found A
  not_found : Found A
  failed : Str → Found A

-- A value, or the text of an error.
pub data Fallible {ℓ} (A : Type ℓ) : Type ℓ where
  ok : A → Fallible A
  err : Str → Fallible A

pub Fallible-cases {ℓ} :
    {A : Type ℓ} (o : Fallible A) → ((a : A) × (o ≡ ok a)) ⊎ ((e : Str) × (o ≡ err e))
Fallible-cases (ok a) = inl (a, refl)
Fallible-cases (err e) = inr (e, refl)

-- `target_port` is the text of `TargetPort.String()`.
pub record ServicePort : Type 0 where
  pub name : Str
  pub port : ℤ
  pub target_port : Str

pub record Service : Type 0 where
  pub ports : List ServicePort

pub record TargetRef : Type 0 where
  pub kind : Str
  pub name : Str

pub record Endpoint : Type 0 where
  pub addresses : List Str
  pub ready : Option Bool
  pub target_ref : Option TargetRef

pub record EndpointPort : Type 0 where
  pub name : Option Str
  pub port : Option ℤ

pub record EndpointSlice : Type 0 where
  pub ports : List EndpointPort
  pub endpoints : List Endpoint

pub record PodCondition : Type 0 where
  pub kind : Str
  pub status : Str

pub record Pod : Type 0 where
  pub labels : Dict Str
  pub pod_ip : Str
  pub conditions : List PodCondition

pub record Cluster : Type 0 where
  pub get_service : Str → Str → Found Service
  -- The EndpointSlices of a namespace that are labelled with a service's name.
  pub list_endpoint_slices : Str → Str → Fallible (List EndpointSlice)
  pub get_pod : Str → Str → Found Pod
