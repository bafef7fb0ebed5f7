-- ===== src/Manager/Wiring.antt =====
-- Which parts main gives the reconciler, and when it runs.
use kubetraffic.Prelude.{
  bytes, ◌++◌, ◌≢◌, true, false, sym, ◌∙◌, ◌∷◌, Option-cases, ◌≡◌, refl, ◌⊎◌, inl, inr, Option,
  none, some, [], if◌then◌else◌, is_some, Str, is_nil, trim_space,
}
use kubetraffic.Prelude.Int.{pos, leb_ℤ}
use kubetraffic.Discovery.Reads.{ok, Fallible-cases}
use kubetraffic.Proxy.Options.{HaProxyClient, new_haproxy, trim_slashes}
use kubetraffic.ControlPlane.Client.{GrpcClient, dial}
use kubetraffic.Manager.{
  Flags, Host, ReconcilerOptions, Started, running, exited, data_plane, control_plane, main,
  manager_options, watch,
}

-- Every step of the start succeeds, for the flags.
pub record Succeeds (h : Host) (f : Flags) : Type 0 where
  pub reads : (f.dataplane_url ≡ []) ⊎ ((t : Str) × (h.read_file f.dataplane_password_file ≡ ok t))
  pub dials : (f.control_plane_url ≡ []) ⊎ (h.stubs.new_client f.control_plane_url ≡ none)
  pub manager : h.new_manager (manager_options f) ≡ none
  pub sets_up : (r : ReconcilerOptions) → h.set_up r ≡ none
  pub watches : (c : GrpcClient) → h.add_watcher c ≡ none
  pub healthz : h.add_healthz_check ≡ none
  pub readyz : h.add_readyz_check ≡ none
  pub ends : h.start ≡ none

-- The data plane that the flags ask for: none, or one with the password of the file.
abbrev pub IsPlane : Host → Flags → Option HaProxyClient → Type 0
IsPlane h f p =
    ((f.dataplane_url ≡ []) × (p ≡ none))
    ⊎ ((t : Str) × (c : HaProxyClient) × (p ≡ some c)
        × (h.read_file f.dataplane_password_file ≡ ok t)
        × (c.base_url ≡ trim_slashes f.dataplane_url)
        × (c.username ≡ f.dataplane_username)
        × (c.password ≡ trim_space t)
        × (c.dataplane_password ≡ trim_space t)
        × (c.timeout ≡ pos 15000000000))

-- The control plane that the flags ask for: none, or one that was dialled.
abbrev pub IsControl : Host → Flags → Option GrpcClient → Type 0
IsControl h f o =
    ((f.control_plane_url ≡ []) × (o ≡ none))
    ⊎ ((c : GrpcClient) × (o ≡ some c)
        × (h.stubs.new_client f.control_plane_url ≡ none)
        × (c.target ≡ f.control_plane_url))

-- The decision watcher was added, if there is a control plane.
abbrev pub IsWatched : Host → Option GrpcClient → Type 0
IsWatched h none = Unit
IsWatched h (some c) = h.add_watcher c ≡ none

-- What ran, and each step of the start succeeded.
pub record IsRun (h : Host) (f : Flags) (r : ReconcilerOptions) : Type 0 where
  pub interval : r.resync_interval ≡ f.resync_interval
  pub plane : IsPlane h f r.proxy
  pub control : IsControl h f r.control_plane
  pub events : r.decision_events ≡ is_some r.control_plane
  pub manager : h.new_manager (manager_options f) ≡ none
  pub set_up : h.set_up r ≡ none
  pub watched : IsWatched h r.control_plane
  pub healthz : h.add_healthz_check ≡ none
  pub readyz : h.add_readyz_check ≡ none
  pub ended : h.start ≡ none

is_nil-cases : (s : Str) → ((s ≡ []) × (is_nil s ≡ true)) ⊎ ((s ≢ []) × (is_nil s ≡ false))
is_nil-cases [] = inl (refl, refl)
is_nil-cases (c ∷ s) = inr ((λ e. cc e), refl)

abbrev pub Fails : {A : Type 0} → Started A → Type 0
Fails m = (msg : Str) × (e : Str) × (m ≡ exited msg e)

module _ (h : Host) (f : Flags) where
  data_plane-cases :
      ((p : Option HaProxyClient) × (data_plane h f ≡ running p) × IsPlane h f p)
      ⊎ (Fails (data_plane h f) × (Succeeds h f → ⊥))
  unfolding data_plane new_haproxy
  data_plane-cases = elim (is_nil-cases f.dataplane_url) [
    | inl (e, n) ↦ inl (none, rw n refl, inl (e, refl))
    | inr (e, n) ↦ elim (Fallible-cases (h.read_file f.dataplane_password_file)) [
      | inl (t, q) ↦
          let c = new_haproxy (record {
            base_url = f.dataplane_url;
            username = f.dataplane_username;
            password = trim_space t;
            timeout = pos 0;
          }) in
          inl (
            some c,
            rw n (rw (q, data_plane) refl),
            inr (t, c, refl, q, refl, refl, refl, refl, refl),
          )
      | inr (msg, q) ↦ inr (
        (
          bytes "unable to read --haproxy-dataplane-password-file",
          msg,
          rw n (rw (q, data_plane) refl),
        ),
        λ s. elim s.reads [ inl none' ↦ e none' | inr (t, good) ↦ cc (sym q ∙ good) ],
      )
    ]
  ]

  control_plane-cases :
      ((c : Option GrpcClient) × (control_plane h f ≡ running c) × IsControl h f c)
      ⊎ (Fails (control_plane h f) × (Succeeds h f → ⊥))
  unfolding control_plane dial
  control_plane-cases = elim (is_nil-cases f.control_plane_url) [
    | inl (e, n) ↦ inl (none, rw n refl, inl (e, refl))
    | inr (e, n) ↦ elim (Option-cases (h.stubs.new_client f.control_plane_url)) [
      | inl q ↦
          let c : GrpcClient = record {
            target = f.control_plane_url;
            timeout =
                if leb_ℤ f.control_plane_timeout (pos 0)
                then pos 5000000000
                else f.control_plane_timeout;
          } in
          inl (some c, rw n (rw (q, dial) refl), inr (c, refl, q, refl))
      | inr (msg, q) ↦ inr (
        (
          bytes "unable to dial control plane",
          bytes "dial control plane " ++ (h.stubs.quote f.control_plane_url ++ (bytes ": " ++ msg)),
          rw n (rw (q, dial) refl),
        ),
        λ s. elim s.dials [ inl none' ↦ e none' | inr good ↦ cc (sym q ∙ good) ],
      )
    ]
  ]

  abbrev wired : Option HaProxyClient → Option GrpcClient → ReconcilerOptions
  wired p c = record {
    resync_interval = f.resync_interval;
    proxy = p;
    control_plane = c;
    decision_events = is_some c;
  }

  watch-cases :
      (c : Option GrpcClient)
      → ((watch h c ≡ running tt) × IsWatched h c) ⊎ (Fails (watch h c) × (Succeeds h f → ⊥))
  unfolding watch
  watch-cases none = inl (refl, tt)
  watch-cases (some g) = elim (Option-cases (h.add_watcher g)) [
    | inl q ↦ inl (rw q refl, q)
    | inr (e, q) ↦
        inr ((bytes "unable to add decision watcher", e, rw q refl), λ s. cc (sym q ∙ s.watches g))
  ]

  -- The steps of main after the clients were made.
  rest-cases :
      (p : Option HaProxyClient) (c : Option GrpcClient)
      → data_plane h f ≡ running p
      → control_plane h f ≡ running c
      → IsPlane h f p
      → IsControl h f c
      → ((r : ReconcilerOptions) × (main h f ≡ running r) × IsRun h f r)
        ⊎ (Fails (main h f) × (Succeeds h f → ⊥))
  unfolding main
  rest-cases p c ep ec plane control = elim (Option-cases (h.new_manager (manager_options f))) [
    | inr (e, q) ↦
        inr ((bytes "unable to start manager", e, rw (ep, ec, q) refl), λ s. cc (sym q ∙ s.manager))
    | inl m ↦ elim (Option-cases (h.set_up (wired p c))) [
      | inr (e, q) ↦ inr (
        (bytes "unable to create controller", e, rw (ep, ec, m, q) refl),
        λ s. cc (sym q ∙ s.sets_up (wired p c)),
      )
      | inl u ↦ elim (watch-cases c) [
        | inr ((msg, e, q), bad) ↦ inr ((msg, e, rw (ep, ec, m, u, q) refl), bad)
        | inl (w, watched) ↦ elim (Option-cases h.add_healthz_check) [
          | inr (e, q) ↦ inr (
            (bytes "unable to set up health check", e, rw (ep, ec, m, u, w, q) refl),
            λ s. cc (sym q ∙ s.healthz),
          )
          | inl z ↦ elim (Option-cases h.add_readyz_check) [
            | inr (e, q) ↦ inr (
              (bytes "unable to set up ready check", e, rw (ep, ec, m, u, w, z, q) refl),
              λ s. cc (sym q ∙ s.readyz),
            )
            | inl y ↦ elim (Option-cases h.start) [
              | inr (e, q) ↦ inr (
                (bytes "problem running manager", e, rw (ep, ec, m, u, w, z, y, q) refl),
                λ s. cc (sym q ∙ s.ends),
              )
              | inl d ↦ inl (
                wired p c,
                rw (ep, ec, m, u, w, z, y, d) refl,
                record {
                  interval = refl;
                  plane = plane;
                  control = control;
                  events = refl;
                  manager = m;
                  set_up = u;
                  watched = watched;
                  healthz = z;
                  readyz = y;
                  ended = d;
                },
              )
            ]
          ]
        ]
      ]
    ]
  ]

  -- The manager either runs to its end or exits with an error, and the latter only where a step of
  -- the start does not succeed. Where it runs, every step of the start succeeded, the watcher of
  -- decisions included if there is a control plane; the reconciler has the resync interval of the
  -- flags, a data plane with the credentials of the flags and of the password file if its URL is
  -- given, a control plane at its address if that is given, and the channel of decisions exactly
  -- when it has a control plane.
  pub main_lem :
      ((r : ReconcilerOptions) × (main h f ≡ running r) × IsRun h f r)
      ⊎ (Fails (main h f) × (Succeeds h f → ⊥))
  unfolding main
  main_lem = elim data_plane-cases [
    | inr ((msg, e, q), bad) ↦ inr ((msg, e, rw q refl), bad)
    | inl (p, ep, plane) ↦ elim control_plane-cases [
      | inr ((msg, e, q), bad) ↦ inr ((msg, e, rw (ep, q) refl), bad)
      | inl (c, ec, control) ↦ rest-cases p c ep ec plane control
    ]
  ]
