-- ===== src/Tests/Rendered.antt =====
-- The configuration that a pass applies, read.
use kubetraffic.Prelude.{bytes, ◌++◌, [], some, sort, none}
use kubetraffic.Model.{RoutingModel, build}
use kubetraffic.Proxy.{base_config, render, rule_before, Config, render_body}
use kubetraffic.Controller.{DataPlane, Env, apply_effective_weights, register_with_control_plane}
use kubetraffic.Tests.Data.{payment}
use kubetraffic.Tests.Served.{serving, served_survey}

-- The data plane of `Render`, for a route whose versions each have an endpoint.
abbrev rendering : DataPlane
rendering = record { generate_config = render (bytes "secret"); apply_config = λ c. none }

abbrev world_rendering : Env
world_rendering = record serving { proxy = some rendering }

abbrev served_model : RoutingModel
served_model =
    build payment.spec.host
      (apply_effective_weights payment.spec.routes
        (register_with_control_plane world_rendering payment []).config)
      served_survey.resolutions

abbrev served_config : Config
served_config = record {
  raw =
      base_config (bytes "secret")
      ++ render_body (record served_model { rules = sort rule_before served_model.rules });
}
