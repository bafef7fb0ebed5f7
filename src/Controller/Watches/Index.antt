-- ===== src/Controller/Watches/Index.antt =====
-- The index values of a route are its backend services, each once.
use kubetraffic.Prelude.{
  Distinct, Differs, str_eq_refl, ◌≡◌, refl, ◌∙◌, inl, inr, Bool, false, not, ◌&&◌, ◌||◌, some,
  List, [], ◌∷◌, arith, Bool-cases, Str, str_eq, is_nil, contains, str_eq_iff,
}
use kubetraffic.Api.{RouteRule, TrafficRoute}
use kubetraffic.Controller.Watches.{services_from, index_by_backend_service}

-- A rule sends to the service.
abbrev pub uses_service : Str → List RouteRule → Bool
uses_service s [] = false
uses_service s (rule ∷ rest) = str_eq rule.backend.service s || uses_service s rest

contains-services_from :
    (s : Str) (seen : List Str) (rules : List RouteRule)
    → contains s (services_from seen rules)
      ≡ (not (is_nil s) && (not (contains s seen) && uses_service s rules))
unfolding services_from contains
contains-services_from s seen [] = ground arith
contains-services_from s seen (rule ∷ rest) = ground (
  arith,
  str_eq_iff rule.backend.service s,
  contains-services_from s seen rest,
  contains-services_from s (rule.backend.service ∷ seen) rest,
)

Differs-of_contains : (x : Str) (ys : List Str) → contains x ys ≡ false → Differs x ys
unfolding contains
Differs-of_contains x [] h = tt
Differs-of_contains x (y ∷ ys) h = elim (Bool-cases (str_eq y x)) [
  | inl e ↦ absurd (ground arith)
  | inr e ↦ (
    (λ same. let self = str_eq_refl x in let e' : str_eq x x ≡ false = rw (← same) at e in cc),
    Differs-of_contains x ys (rw e at h),
  )
]

seen_itself :
    (s : Str) (seen : List Str) (rules : List RouteRule)
    → (not (is_nil s) && (not (contains s (s ∷ seen)) && uses_service s rules)) ≡ false
unfolding contains
seen_itself s seen rules = ground (arith, str_eq_refl s)

Distinct-services_from :
    (seen : List Str) (rules : List RouteRule) → Distinct (services_from seen rules)
unfolding services_from
Distinct-services_from seen [] = tt
Distinct-services_from seen (rule ∷ rest) =
    let service = rule.backend.service in
    elim (Bool-cases (is_nil service || contains service seen)) [
      | inl skip ↦ rw skip (Distinct-services_from seen rest)
      | inr new ↦ rw new (
        Differs-of_contains service (services_from (service ∷ seen) rest)
            (contains-services_from service (service ∷ seen) rest ∙ seen_itself service seen rest),
        Distinct-services_from (service ∷ seen) rest,
      )
    ]

-- The values by which a route is indexed are the services, other than "", that its rules send to,
-- and none is there twice.
pub index_by_backend_service_lem :
    (tr : TrafficRoute)
    → let values = index_by_backend_service (some tr) in
      Distinct values
      × ((s : Str) → contains s values ≡ (not (is_nil s) && uses_service s tr.spec.routes))
unfolding index_by_backend_service
index_by_backend_service_lem tr = (
  Distinct-services_from [] tr.spec.routes,
  λ s. contains-services_from s [] tr.spec.routes ∙ unfold contains in refl,
)
