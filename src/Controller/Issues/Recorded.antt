-- ===== src/Controller/Issues/Recorded.antt =====
-- A survey without issues records the resolution of every rule, under its path.
use kubetraffic.Prelude.{
  Bool-cases, false, ◌≡◌, ◌≢◌, refl, sym, ap, ◌∙◌, Str, str_eq_iff, str_eq_refl, true, ◌&&◌, inl,
  inr, some, List, [], ◌∷◌, ◌++◌, All, Distinct, Differs, lookup, lookup-insert, arith,
}
use kubetraffic.Prelude.Int.{pos, ltb_ℤ}
use kubetraffic.Api.{TrafficRoute, RouteRule}
use kubetraffic.Webhook.Routes.{paths}
use kubetraffic.Discovery.{EndpointSet, Resolution, resolve}
use kubetraffic.Discovery.Reads.{ok, Fallible-cases}
use kubetraffic.Controller.World.{Env}
use kubetraffic.Controller.Helpers.{route_path, version_label_key}
use kubetraffic.Controller.Issues.{
  Survey, survey_rules, record_rule, route_issues, version_issues, backend_issues, unmatched_issues,
}
use mathlib.Core.List.{append_assoc, append-nil}

-- The rule was resolved without an issue, and its resolution is recorded.
pub record IsRecorded (env : Env) (tr : TrafficRoute) (s : Survey) (rule : RouteRule) : Type 0 where
  pub res : Resolution
  pub resolved : resolve env.cluster tr.namespace rule (version_label_key tr) ≡ ok res
  pub kept : lookup (route_path rule) s.resolutions ≡ some res
  pub quiet : route_issues env rule res ≡ []

append_quiet : (xs ys zs : List Str) → [] ≡ (xs ++ ys) ++ zs → ys ≡ []
append_quiet [] [] zs e = refl
append_quiet [] (y ∷ ys) zs e = cc e
append_quiet (x ∷ xs) ys zs e = cc e

module _ (env : Env) (tr : TrafficRoute) (s : Survey) where
  survey-step :
      (r : RouteRule) (rs : List RouteRule) (s0 : Survey)
      → survey_rules env tr (r ∷ rs) s0 ≡ ok s
      → (res : Resolution) × (resolve env.cluster tr.namespace r (version_label_key tr) ≡ ok res)
        × (survey_rules env tr rs (record_rule env r res s0) ≡ ok s)
  unfolding survey_rules
  survey-step r rs s0 h =
      elim (Fallible-cases (resolve env.cluster tr.namespace r (version_label_key tr))) [
        | inl (res, e) ↦ (res, e, rw (e, survey_rules) at h)
        | inr (msg, e) ↦ absurd (ground (arith, e, h))
      ]

  issues-record_rule :
      (r : RouteRule) (res : Resolution) (s0 : Survey) (t : List Str)
      → (record_rule env r res s0).issues ++ t ≡ s0.issues ++ (route_issues env r res ++ t)
  unfolding record_rule
  issues-record_rule r res s0 t = append_assoc s0.issues (route_issues env r res) t

  survey-nil : (s0 : Survey) → survey_rules env tr [] s0 ≡ ok s → s0 ≡ s
  unfolding survey_rules
  survey-nil s0 h = cc h

  survey-issues :
      (rules : List RouteRule) (s0 : Survey)
      → survey_rules env tr rules s0 ≡ ok s
      → (t : List Str) × (s.issues ≡ s0.issues ++ t)
  survey-issues [] s0 h = ([], rw (← (survey-nil s0 h)) (sym (append-nil s0.issues)))
  survey-issues (r ∷ rs) s0 h =
      let (res, e, rest) = survey-step r rs s0 h in
      let (t, more) = survey-issues rs (record_rule env r res s0) rest in
      (route_issues env r res ++ t, more ∙ issues-record_rule r res s0 t)

  survey-lookup :
      (rules : List RouteRule) (s0 : Survey) (p : Str)
      → survey_rules env tr rules s0 ≡ ok s
      → Differs p (paths rules)
      → lookup p s.resolutions ≡ lookup p s0.resolutions
  survey-lookup [] s0 p h d = ap (λ (x : Survey). lookup p x.resolutions) (sym (survey-nil s0 h))
  survey-lookup (r ∷ rs) s0 p h d =
      let (res, e, rest) = survey-step r rs s0 h in
      survey-lookup rs (record_rule env r res s0) p rest d.1
      ∙ unfold record_rule in
        ground (
          arith,
          lookup-insert (route_path r) p res s0.resolutions,
          str_eq_iff (route_path r) p,
          d.0,
        )

  pub survey-IsRecorded :
      (rules : List RouteRule) (s0 : Survey)
      → survey_rules env tr rules s0 ≡ ok s
      → Distinct (paths rules)
      → s.issues ≡ []
      → All (IsRecorded env tr s) rules
  survey-IsRecorded [] s0 h d none' = tt
  survey-IsRecorded (r ∷ rs) s0 h d none' =
      let (res, e, rest) = survey-step r rs s0 h in
      let (t, more) = survey-issues rs (record_rule env r res s0) rest in
      (
        record {
          res = res;
          resolved = e;
          kept =
              survey-lookup rs (record_rule env r res s0) (route_path r) rest d.0
              ∙ unfold record_rule in
                ground (
                  arith,
                  lookup-insert (route_path r) (route_path r) res s0.resolutions,
                  str_eq_refl (route_path r),
                );
          quiet =
              append_quiet s0.issues (route_issues env r res) t
                (sym none' ∙ unfold record_rule in more);
        },
        survey-IsRecorded rs (record_rule env r res s0) rest d.1 none',
      )

  -- Without an issue, every rule was resolved without one.
  pub survey-quiet :
      (rules : List RouteRule) (s0 : Survey)
      → survey_rules env tr rules s0 ≡ ok s
      → s.issues ≡ []
      → All
          (λ r.
            (res : Resolution) × (resolve env.cluster tr.namespace r (version_label_key tr)
              ≡ ok res)
            × (route_issues env r res ≡ []))
          rules
  survey-quiet [] s0 h none' = tt
  survey-quiet (r ∷ rs) s0 h none' =
      let (res, e, rest) = survey-step r rs s0 h in
      let (t, more) = survey-issues rs (record_rule env r res s0) rest in
      (
        (
          res,
          e,
          append_quiet s0.issues (route_issues env r res) t
              (sym none' ∙ unfold record_rule in more),
        ),
        survey-quiet rs (record_rule env r res s0) rest none',
      )

-- What it means that there is no issue.
module _ (env : Env) (rule : RouteRule) where
  pub quiet-found :
      (res : Resolution)
      → route_issues env rule res ≡ []
      → (res.service_found ≡ true) × (res.port_found ≡ true)
  unfolding route_issues
  quiet-found res q = ground arith

  version_quiet :
      (es : EndpointSet) (rest : List EndpointSet)
      → version_issues env rule true (es ∷ rest) ≡ []
      → (es.ready ≢ pos 0) × (version_issues env rule true rest ≡ [])
  unfolding version_issues
  version_quiet es rest q = ground arith

  versions_quiet :
      (sets : List EndpointSet)
      → version_issues env rule true sets ≡ []
      → All (λ (es : EndpointSet). es.ready ≢ pos 0) sets
  versions_quiet [] q = tt
  versions_quiet (es ∷ rest) q =
      let (r, more) = version_quiet es rest q in (r, versions_quiet rest more)

  pub quiet-ready :
      (res : Resolution)
      → route_issues env rule res ≡ []
      → All (λ (es : EndpointSet). es.ready ≢ pos 0) res.versions
  unfolding route_issues
  quiet-ready res q = versions_quiet res.versions (
      let (sf, pf) = quiet-found res q in
      let middle =
        append_quiet (backend_issues env rule res)
          (version_issues env rule (res.service_found && res.port_found) res.versions)
          (unmatched_issues env rule res) (sym q) in
      rw (sf, pf) at middle)

  unmatched-issue :
      (res : Resolution) → ltb_ℤ (pos 0) res.unmatched ≡ true → unmatched_issues env rule res ≢ []
  unfolding unmatched_issues
  unmatched-issue res e q = ground (arith, e, q)

  pub quiet-unmatched :
      (res : Resolution) → route_issues env rule res ≡ [] → ltb_ℤ (pos 0) res.unmatched ≡ false
  unfolding route_issues
  quiet-unmatched res q = elim (Bool-cases (ltb_ℤ (pos 0) res.unmatched)) [
    | inr e ↦ e
    | inl e ↦
        let none' : unmatched_issues env rule res ≡ [] =
          append_quiet
            (backend_issues env rule res
              ++ version_issues env rule (res.service_found && res.port_found) res.versions)
            (unmatched_issues env rule res) [] (sym (append-nil (route_issues env rule res) ∙ q)) in
        absurd (unmatched-issue res e none')
  ]
