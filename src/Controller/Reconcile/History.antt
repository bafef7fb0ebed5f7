-- ===== src/Controller/Reconcile/History.antt =====
-- Where the last-known-good configurations come from, over any sequence of passes.
use kubetraffic.Prelude.{
  ◌≡◌, refl, sym, ap, ◌∙◌, ◌⊎◌, inl, inr, some, List, [], ◌∷◌, arith, Bool-cases, Option-cases, Str,
  str_eq, is_empty, lookup, insert, erase, str_eq_sound, lookup-erase,
}
use kubetraffic.Api.{TrafficRoute, NamespacedName}
use kubetraffic.Webhook.{validate_traffic_route}
use mathlib.Core.Path.{subst}
use kubetraffic.Discovery.Reads.{Fallible-cases, Found, found, not_found, failed, ok}
use kubetraffic.ControlPlane.{build_route_spec}
use kubetraffic.ControlPlane.Wire.{RouteConfig, RouteRef}
use kubetraffic.Controller.World.{Env, Rpc, Cache}
use kubetraffic.Controller.Helpers.{named, traffic_route_finalizer}
use kubetraffic.Controller.Issues.{no_survey, survey_rules, Survey}
use kubetraffic.Controller.Steps.{register_with_control_plane}
use kubetraffic.Controller.Reconcile.{
  finalize, hold, settle, steps, with_finalizer, reconcile, Outcome, drop_finalizer,
  tell_control_plane, Call, deleted,
}

-- In this world the control plane answers the registration of a route with a configuration.
pub record Answered (env : Env) (tr : TrafficRoute) (k : Str) (cfg : RouteConfig) : Type 0 where
  pub rpc : Rpc
  pub on : env.control_plane ≡ some rpc
  pub reply : rpc.register_route (build_route_spec tr) ≡ ok cfg
  pub keyed : env.route_key (named tr) ≡ k

-- A pass keeps what was there, forgets it, or has it from the control plane.
abbrev Kept : Env → TrafficRoute → Cache → Cache → Type 0
Kept env tr before after =
    (k : Str) (cfg : RouteConfig)
    → lookup k after ≡ some cfg
    → (lookup k before ≡ some cfg) ⊎ Answered env tr k cfg

Kept-of_eq :
    (env : Env) (tr : TrafficRoute) (before after : Cache)
    → after ≡ before
    → Kept env tr before after
Kept-of_eq env tr before after e k cfg h = inl (rw e at h)

module _ (env : Env) (tr : TrafficRoute) (cache : Cache) where
  Kept-insert :
      (rpc : Rpc) (new : RouteConfig)
      → env.control_plane ≡ some rpc
      → rpc.register_route (build_route_spec tr) ≡ ok new
      → Kept env tr cache (insert (env.route_key (named tr)) new cache)
  unfolding lookup
  Kept-insert rpc new on good k cfg h = elim (Bool-cases (str_eq (env.route_key (named tr)) k)) [
    | inl e ↦
        let h' : some new ≡ some cfg = rw e at h in
        inr (record {
          rpc = rpc;
          on = on;
          reply = good ∙ ap (λ c. ok c) (cc);
          keyed = str_eq_sound (env.route_key (named tr)) k e;
        })
    | inr e ↦ inl (rw e at h)
  ]

  Kept-erase : (j : Str) → Kept env tr cache (erase j cache)
  Kept-erase j k cfg h = elim (Bool-cases (str_eq j k)) [
    | inl e ↦ let gone = lookup-erase j k cache in absurd (ground arith)
    | inr e ↦ let stays = lookup-erase j k cache in inl (ground arith)
  ]

  register-Kept : Kept env tr cache (register_with_control_plane env tr cache).cache
  unfolding register_with_control_plane
  register-Kept = elim (Option-cases env.control_plane) [
    | inl off ↦ Kept-of_eq env tr cache _ (ground arith)
    | inr (rpc, on) ↦ elim (Fallible-cases (rpc.register_route (build_route_spec tr))) [
      | inr (e, bad) ↦ Kept-of_eq env tr cache _ (ground arith)
      | inl (new, good) ↦
          let e : (register_with_control_plane env tr cache).cache
              ≡ insert (env.route_key (named tr)) new cache =
            ground arith in
          subst (Kept env tr cache) (sym e) (Kept-insert rpc new on good)
    ]
  ]

  pub settle-cache :
      (s : Survey)
      → (settle env tr cache s).cache ≡ (register_with_control_plane env tr cache).cache
  unfolding settle
  settle-cache s = refl

  steps-Kept : Kept env tr cache (steps env tr cache).cache
  unfolding steps
  steps-Kept = elim (Bool-cases (is_empty (validate_traffic_route tr))) [
    | inr bad ↦ Kept-of_eq env tr cache _ (unfold hold in ground arith)
    | inl valid ↦ elim (Fallible-cases (survey_rules env tr tr.spec.routes no_survey)) [
      | inr (e, failing) ↦ Kept-of_eq env tr cache _ (ground arith)
      | inl (s, surveyed) ↦
          let e : (steps env tr cache).cache ≡ (register_with_control_plane env tr cache).cache =
            ground (arith, settle-cache s) in
          subst (Kept env tr cache) (sym e) register-Kept
    ]
  ]

  drop_finalizer-cache :
      (calls : List Call)
      → (drop_finalizer env tr cache calls).cache ≡ erase (env.route_key (named tr)) cache
  unfolding drop_finalizer
  drop_finalizer-cache calls = ground arith

  erased-Kept :
      (o : Outcome) → o.cache ≡ erase (env.route_key (named tr)) cache → Kept env tr cache o.cache
  erased-Kept o e = subst (Kept env tr cache) (sym e) (Kept-erase (env.route_key (named tr)))

  tell-Kept : (rpc : Rpc) → Kept env tr cache (tell_control_plane env tr cache rpc).cache
  unfolding tell_control_plane
  tell-Kept rpc =
      let ref : RouteRef = record { namespace = tr.namespace; name = tr.name } in
      elim (Option-cases (rpc.delete_route ref)) [
        | inl e ↦
            erased-Kept (tell_control_plane env tr cache rpc)
              (rw (e, tell_control_plane) (drop_finalizer-cache (deleted ref ∷ [])))
        | inr (t, e) ↦ Kept-of_eq env tr cache _ (ground arith)
      ]

  finalize-Kept : Kept env tr cache (finalize env tr cache).cache
  unfolding finalize
  finalize-Kept = elim (Bool-cases (env.contains_finalizer tr.finalizers traffic_route_finalizer)) [
    | inr e ↦ Kept-of_eq env tr cache _ (ground arith)
    | inl e ↦ elim (Option-cases env.control_plane) [
      | inl off ↦
          erased-Kept (finalize env tr cache) (rw e (rw (off, finalize) (drop_finalizer-cache [])))
      | inr (rpc, on) ↦
          let same : (finalize env tr cache).cache ≡ (tell_control_plane env tr cache rpc).cache =
            rw e (rw (on, finalize) refl) in
          subst (Kept env tr cache) (sym same) (tell-Kept rpc)
    ]
  ]

-- What is registered does not depend on the finalizers.
Answered-finalizers :
    (env : Env) (tr : TrafficRoute) (fs : List Str) (k : Str) (cfg : RouteConfig)
    → Answered env (record tr { finalizers = fs }) k cfg
    → Answered env tr k cfg
unfolding build_route_spec
Answered-finalizers env tr fs k cfg a = record {
  rpc = a.rpc;
  on = a.on;
  reply = a.reply;
  keyed = a.keyed;
}

Kept-finalizers :
    (env : Env) (tr : TrafficRoute) (cache : Cache) (fs : List Str) (after : Cache)
    → Kept env (record tr { finalizers = fs }) cache after
    → Kept env tr cache after
Kept-finalizers env tr cache fs after h k cfg e = elim (h k cfg e) [
  | inl old ↦ inl old
  | inr new ↦ inr (Answered-finalizers env tr fs k cfg new)
]

with_finalizer-Kept :
    (env : Env) (tr : TrafficRoute) (cache : Cache)
    → Kept env tr cache (with_finalizer env tr cache).cache
unfolding with_finalizer
with_finalizer-Kept env tr cache =
    let tr' = record tr { finalizers = env.add_finalizer tr.finalizers traffic_route_finalizer } in
    elim (Bool-cases (env.contains_finalizer tr.finalizers traffic_route_finalizer)) [
      | inl e ↦ rw e (steps-Kept env tr cache)
      | inr e ↦ elim (Option-cases (env.update_route tr')) [
        | inr (t, bad) ↦ Kept-of_eq env tr cache _ (ground arith)
        | inl good ↦
            let same : (with_finalizer env tr cache).cache ≡ (steps env tr' cache).cache =
              ground arith in
            subst (Kept env tr cache) (sym same)
              (Kept-finalizers env tr cache tr'.finalizers _ (steps-Kept env tr' cache))
      ]
    ]

-- The caches that passes can lead to, each in a world of its own, from a new controller.
pub data Past : Cache → Type 0 where
  fresh : Past []
  pass :
      {cache : Cache} (env : Env) (req : NamespacedName)
      → Past cache
      → Past (reconcile env req cache).cache

-- Some pass read a route, and the control plane answered its registration with the configuration.
abbrev pub Issued : {cache : Cache} → Past cache → Str → RouteConfig → Type 0
Issued fresh k cfg = ⊥
Issued (pass env req past) k cfg =
    Issued past k cfg
    ⊎ ((tr : TrafficRoute) × (env.get_route req ≡ found tr) × Answered env tr k cfg)

reconcile-Issued :
    (env : Env) (req : NamespacedName) (cache : Cache) (k : Str) (cfg : RouteConfig)
    → lookup k (reconcile env req cache).cache ≡ some cfg
    → (lookup k cache ≡ some cfg)
      ⊎ ((tr : TrafficRoute) × (env.get_route req ≡ found tr) × Answered env tr k cfg)
unfolding reconcile
reconcile-Issued env req cache k cfg h = by_read (env.get_route req) refl
  where
    of_route :
        (tr : TrafficRoute)
        → env.get_route req ≡ found tr
        → (lookup k cache ≡ some cfg) ⊎ Answered env tr k cfg
        → (lookup k cache ≡ some cfg)
          ⊎ ((route : TrafficRoute) × (env.get_route req ≡ found route) × Answered env route k cfg)
    of_route tr e (inl old) = inl old
    of_route tr e (inr new) = inr (tr, e, new)

    by_read :
        (read : Found TrafficRoute)
        → env.get_route req ≡ read
        → (lookup k cache ≡ some cfg)
          ⊎ ((tr : TrafficRoute) × (env.get_route req ≡ found tr) × Answered env tr k cfg)
    by_read not_found e =
        let same : (reconcile env req cache).cache ≡ cache = ground arith in inl (rw same at h)
    by_read (failed t) e =
        let same : (reconcile env req cache).cache ≡ cache = ground arith in inl (rw same at h)
    by_read (found tr) e = elim (Bool-cases tr.deleting) [
      | inl d ↦
          let same : (reconcile env req cache).cache ≡ (finalize env tr cache).cache =
            ground arith in
          of_route tr e (finalize-Kept env tr cache k cfg (rw same at h))
      | inr d ↦
          let same : (reconcile env req cache).cache ≡ (with_finalizer env tr cache).cache =
            ground arith in
          of_route tr e (with_finalizer-Kept env tr cache k cfg (rw same at h))
    ]

-- Over any sequence of passes, each with its own request and its own world: a configuration that the
-- cache holds for a route's key was, in one of these passes, the control plane's answer to the
-- registration of a route with that key, which the pass had read.
pub cache_Issued :
    {cache : Cache} (past : Past cache) (k : Str) (cfg : RouteConfig)
    → lookup k cache ≡ some cfg
    → Issued past k cfg
unfolding lookup
cache_Issued fresh k cfg h = cc
cache_Issued (pass {cache} env req past) k cfg h = elim (reconcile-Issued env req cache k cfg h) [
  | inl old ↦ inl (cache_Issued past k cfg old)
  | inr new ↦ inr new
]
