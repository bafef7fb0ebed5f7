-- ===== src/Controller/Issues.antt =====
-- Step 2 of `Reconcile`: every rule is resolved, with its status and the issues found.
pub mod Recorded
use kubetraffic.Prelude.{
  Str, bytes, format_int, Bool, not, ◌&&◌, Dict, insert, List, [], ◌∷◌, ◌++◌, map, if◌then◌else◌,
}
use kubetraffic.Prelude.Int.{pos, ◌+ℤ◌, wrap32, eqb_ℤ, ltb_ℤ}
use kubetraffic.Api.{TrafficRoute, RouteRule, RouteStatus, VersionEndpoints, VersionWeight}
use kubetraffic.Discovery.{EndpointSet, Resolution, resolve}
use kubetraffic.Discovery.Reads.{Fallible, ok, err}
use kubetraffic.Controller.World.{Env}
use kubetraffic.Controller.Helpers.{route_path, spec_weight, version_or_all, version_label_key}

pub record Survey : Type 0 where
  pub statuses : List RouteStatus
  pub resolutions : Dict Resolution
  pub issues : List Str

abbrev pub no_survey : Survey
no_survey = record { statuses = []; resolutions = []; issues = [] }

abbrev version_endpoints : EndpointSet → VersionEndpoints
version_endpoints es = record {
  version = es.version;
  ready = es.ready;
  total = wrap32 (es.ready +ℤ es.not_ready);
  addresses = es.addresses;
}

abbrev current_weight : RouteRule → EndpointSet → VersionWeight
current_weight rule es = record { version = es.version; weight = spec_weight rule es.version }

unfoldable pub route_status : RouteRule → Resolution → RouteStatus
route_status rule res = record {
  path = route_path rule;
  backend = rule.backend.service ++ (bytes ":" ++ format_int rule.backend.port);
  resolved_endpoints = map version_endpoints res.versions;
  current_weights = map (current_weight rule) res.versions;
  backend_health = [];
}

module _ (env : Env) where
  -- The switch on `ServiceFound` and `PortFound`.
  pub backend_issues : RouteRule → Resolution → List Str
  backend_issues rule res =
      if not res.service_found
      then (bytes "route "
          ++ (env.quote (route_path rule)
              ++ (bytes ": backend Service "
                  ++ (env.quote rule.backend.service ++ bytes " not found"))))
        ∷ []
      else if not res.port_found
      then (bytes "route "
          ++ (env.quote (route_path rule)
              ++ (bytes ": port "
                  ++ (format_int rule.backend.port
                      ++ (bytes " not found on Service " ++ env.quote rule.backend.service)))))
        ∷ []
      else []

  -- What the loop over `res.Versions` appends.
  pub version_issues : RouteRule → Bool → List EndpointSet → List Str
  version_issues rule reachable [] = []
  version_issues rule reachable (es ∷ rest) =
      (if reachable && eqb_ℤ es.ready (pos 0)
        then (bytes "route "
            ++ (env.quote (route_path rule)
                ++ (bytes ": version "
                    ++ (env.quote (version_or_all es.version) ++ bytes " has no ready endpoints"))))
          ∷ []
        else [])
      ++ version_issues rule reachable rest

  pub unmatched_issues : RouteRule → Resolution → List Str
  unmatched_issues rule res =
      if ltb_ℤ (pos 0) res.unmatched
      then (bytes "route "
          ++ (env.quote (route_path rule)
              ++ (bytes ": "
                  ++ (format_int res.unmatched
                      ++ bytes " ready endpoint(s) match no declared version"))))
        ∷ []
      else []

  unfoldable pub route_issues : RouteRule → Resolution → List Str
  unfolding backend_issues version_issues unmatched_issues
  route_issues rule res =
      backend_issues rule res
      ++ version_issues rule (res.service_found && res.port_found) res.versions
      ++ unmatched_issues rule res

  -- One round of the loop, after a successful `Resolve`.
  unfoldable pub record_rule : RouteRule → Resolution → Survey → Survey
  record_rule rule res s = record {
    statuses = s.statuses ++ route_status rule res ∷ [];
    resolutions = insert (route_path rule) res s.resolutions;
    issues = s.issues ++ route_issues rule res;
  }

  unfoldable pub survey_rules : TrafficRoute → List RouteRule → Survey → Fallible Survey
  survey_rules tr [] s = ok s
  survey_rules tr (rule ∷ rest) s =
      elim (resolve env.cluster tr.namespace rule (version_label_key tr)) [
        | err e ↦ err (bytes "resolve route " ++ (env.quote (route_path rule) ++ (bytes ": " ++ e)))
        | ok res ↦ survey_rules tr rest (record_rule rule res s)
      ]
