-- ===== src/Controller/Reconcile/Unavailable.antt =====
-- A pass over a route with a backend that is not there, or not ready.
use kubetraffic.Prelude.{◌≡◌, sym, ◌∙◌, ◌⊎◌, inl, inr, true, false, refl, List, [], ◌∷◌, All}
use kubetraffic.Prelude.Int.{pos, ltb_ℤ}
use kubetraffic.Api.{TrafficRoute, RouteRule, NamespacedName}
use kubetraffic.Discovery.{Resolution, EndpointSet, resolve}
use kubetraffic.Discovery.Reads.{ok}
use kubetraffic.Controller.World.{Env, Cache}
use kubetraffic.Controller.Helpers.{version_label_key}
use kubetraffic.Controller.Issues.{no_survey, route_issues}
use kubetraffic.Controller.Issues.Recorded.{survey-quiet, quiet-found, quiet-ready, quiet-unmatched}
use kubetraffic.Controller.Reconcile.{reconcile}
use kubetraffic.Controller.Reconcile.Safety.{
  LeavesDataPlane, IsReconciled, reconcile-after, All-after, steps-LeavesDataPlane,
}

abbrev pub SomeOf : {A : Type 0} → (A → Type 0) → List A → Type 0
SomeOf P [] = ⊥
SomeOf P (x ∷ xs) = P x ⊎ SomeOf P xs

-- The Service or its port is not there, a version has no ready endpoint, or a ready endpoint
-- matches no version.
abbrev pub IsUnavailable : Resolution → Type 0
IsUnavailable res =
    (res.service_found ≡ false)
    ⊎ ((res.port_found ≡ false)
        ⊎ (SomeOf (λ (es : EndpointSet). es.ready ≡ pos 0) res.versions
            ⊎ (ltb_ℤ (pos 0) res.unmatched ≡ true)))

abbrev pub HasUnavailable : Env → TrafficRoute → RouteRule → Type 0
HasUnavailable env tr r =
    (res : Resolution) × (resolve env.cluster tr.namespace r (version_label_key tr) ≡ ok res)
    × IsUnavailable res

not_some : {A : Type 0} (P : A → Type 0) (xs : List A) → All (λ x. P x → ⊥) xs → SomeOf P xs → ⊥
not_some P [] h k = k
not_some P (x ∷ xs) h (inl p) = h.0 p
not_some P (x ∷ xs) h (inr k) = not_some P xs h.1 k

quiet-available :
    (env : Env) (r : RouteRule) (res : Resolution)
    → route_issues env r res ≡ []
    → IsUnavailable res
    → ⊥
quiet-available env r res q (inl e) = cc (sym e ∙ (quiet-found env r res q).0)
quiet-available env r res q (inr (inl e)) = cc (sym e ∙ (quiet-found env r res q).1)
quiet-available env r res q (inr (inr (inl h))) =
    not_some (λ (es : EndpointSet). es.ready ≡ pos 0) res.versions (quiet-ready env r res q) h
quiet-available env r res q (inr (inr (inr e))) = cc (sym e ∙ quiet-unmatched env r res q)

module _ (env : Env) (tr : TrafficRoute) where
  all_quiet :
      (rules : List RouteRule)
      → All
          (λ r.
            (res : Resolution) × (resolve env.cluster tr.namespace r (version_label_key tr)
              ≡ ok res)
            × (route_issues env r res ≡ []))
          rules
      → SomeOf (HasUnavailable env tr) rules
      → ⊥
  all_quiet [] h k = k
  all_quiet (r ∷ rs) ((res, e, q), h) (inl (res', e', gone)) =
      let ok-eq : ok res ≡ ok res' = sym e ∙ e' in
      let same : res ≡ res' = cc ok-eq in quiet-available env r res' (rw (← same) q) gone
  all_quiet (r ∷ rs) (q, h) (inr k) = all_quiet rs h k

  -- A pass over a route that stays and whose finalizer is there or can be added applies no
  -- configuration while a rule of its spec is unavailable: its Service or the port is not there, a
  -- version has no ready endpoint, or a ready endpoint matches no version.
  pub reconcile_unresolved :
      (req : NamespacedName) (cache : Cache)
      → IsReconciled env req tr
      → SomeOf (HasUnavailable env tr) tr.spec.routes
      → LeavesDataPlane (reconcile env req cache).calls
  reconcile_unresolved req cache a gone =
      let (kept, due, after) = reconcile-after env req cache tr a in
      All-after env req cache tr _ _ _ (λ t. refl) after
        (steps-LeavesDataPlane env req cache tr (λ s surveyed quiet.
          all_quiet tr.spec.routes (survey-quiet env tr s tr.spec.routes no_survey surveyed quiet)
            gone))
