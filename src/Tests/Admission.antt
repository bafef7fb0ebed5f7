-- ===== src/Tests/Admission.antt =====
-- The checks of the webhook at a route.
use kubetraffic.Prelude.{[], ◌≡◌, ◌↔◌, arith, none, some}
use kubetraffic.Webhook.{validate_traffic_route, validate_update, validate_create}
use kubetraffic.Webhook.Routes.{
  IsWellFormed, validate_traffic_route_iff, validate_update-IsWellFormed,
}
use kubetraffic.Tests.Data.{payment}

validate_traffic_route_iff_example : (validate_traffic_route payment ≡ []) ↔ IsWellFormed payment
validate_traffic_route_iff_example = validate_traffic_route_iff payment (omega arith)

validate_update-IsWellFormed_example :
    (((validate_update none (some payment)).rejected ≡ none) ↔ IsWellFormed payment)
    × (((validate_create (some payment)).rejected ≡ none) ↔ IsWellFormed payment)
validate_update-IsWellFormed_example = validate_update-IsWellFormed none payment (omega arith)
