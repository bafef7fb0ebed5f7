-- ===== src/Proxy/Delivery.antt =====
-- Comparing and applying configurations.
use mathlib.Core.Path.{subst}
use kubetraffic.Prelude.{
  Str, str_eq_iff, none, arith, ◌≡◌, ◌≢◌, [], ◌<◌, ◌≤◌, Option, str_eq_sound, ap, Bool-cases,
  str_eq, sym, ◌∙◌, ◌⊎◌, inl, inr, some, is_nil, false, refl,
}
use kubetraffic.Prelude.Int.{ℤ}
use kubetraffic.Discovery.Reads.{Fallible, ok, err, Fallible-cases}
use kubetraffic.Proxy.Contract.{Config}
use kubetraffic.Proxy.Normalize.{normalize}
use kubetraffic.Proxy.HaProxy.{
  Response, Wrapped, read_body, DataPlane, current_config, push_raw, reload_now, apply_config,
}

module _ {S : Type 0} (plane : DataPlane S) (c : Config) (s : S) where
  -- A live configuration that differs from the wanted one at most in trailing blanks and in empty
  -- lines is left alone: no error, and the server's state stays.
  pub apply_config_same :
      (current : Str) (version : ℤ)
      → current_config plane s ≡ ok (current, version)
      → normalize current ≡ normalize c.raw
      → apply_config plane c s ≡ (none, s)
  unfolding apply_config
  apply_config_same current version e same =
      ground (arith, str_eq_iff (normalize current) (normalize c.raw))

  -- Any other is replaced by one push of the wanted text, at the version that was read.
  pub apply_config_other :
      (current : Str) (version : ℤ)
      → current_config plane s ≡ ok (current, version)
      → normalize current ≢ normalize c.raw
      → apply_config plane c s ≡ push_raw plane c.raw version reload_now s
  unfolding apply_config
  apply_config_other current version e other =
      ground (arith, str_eq_iff (normalize current) (normalize c.raw))

-- The Data Plane API keeps what it is given. An accepted push of a text that is not empty leaves a
-- server that answers a read with that text, up to trailing blanks and empty lines: in JSON, or as
-- the body itself.
pub record Keeps {S : Type 0} (plane : DataPlane S) : Type 0 where
  pub reply : S → Response
  pub stored : S → Str
  pub answers :
      (text : Str) (version : ℤ) (s s' : S) (resp : Response)
      → plane.post_raw text version reload_now s ≡ (ok resp, s')
      → 200 ≤ resp.status_code
      → resp.status_code < 300
      → plane.get_raw s' ≡ ok (reply s')
  pub found : (s : S) → (reply s).status_code ≡ 200
  pub in_json :
      (s : S)
      → ((plane.unmarshal (reply s).body ≡ none) × ((reply s).body ≡ stored s))
        ⊎ ((w : Wrapped) × (plane.unmarshal (reply s).body ≡ some w) × (w.data_text ≡ stored s))
  pub same :
      (text : Str) (version : ℤ) (s s' : S) (resp : Response)
      → plane.post_raw text version reload_now s ≡ (ok resp, s')
      → 200 ≤ resp.status_code
      → resp.status_code < 300
      → text ≢ []
      → (normalize (stored s') ≡ normalize text) × (is_nil (stored s') ≡ false)

module _ {S : Type 0} (plane : DataPlane S) (keeps : Keeps plane) where
  read-stored :
      (s : S)
      → is_nil (keeps.stored s) ≡ false
      → (read_body plane (keeps.reply s)).0 ≡ keeps.stored s
  unfolding read_body
  read-stored s full = elim (keeps.in_json s) [
    | inl (plain, body) ↦ ground arith
    | inr (w, json, text) ↦ ground (arith, ap (λ t. is_nil t) text)
  ]

  current-stored :
      (s : S)
      → plane.get_raw s ≡ ok (keeps.reply s)
      → current_config plane s ≡ ok (read_body plane (keeps.reply s))
  unfolding current_config
  current-stored s e = ground (arith, keeps.found s)

  push-accepted :
      (text : Str) (version : ℤ) (s s' : S)
      → push_raw plane text version reload_now s ≡ (none, s')
      → (resp : Response) × (plane.post_raw text version reload_now s ≡ (ok resp, s'))
        × (200 ≤ resp.status_code)
        × (resp.status_code < 300)
  unfolding push_raw
  push-accepted text version s s' e = by_answer (plane.post_raw text version reload_now s) refl
    where
      by_answer :
          (a : Fallible Response × S)
          → plane.post_raw text version reload_now s ≡ a
          → (resp : Response) × (plane.post_raw text version reload_now s ≡ (ok resp, s'))
            × (200 ≤ resp.status_code)
            × (resp.status_code < 300)
      by_answer (err m, t) q = absurd (ground (arith, e, q))
      by_answer (ok resp, t) q =
          (resp, ground (arith, e, q), ground (arith, e, q), ground (arith, e, q))

  -- A data plane that keeps what it is given takes a configuration that is not empty once: after a
  -- call of `ApplyConfig` that succeeded, another with the same configuration succeeds and pushes
  -- nothing, so that the server's state stays.
  pub apply_config_idem :
      (c : Config) (s s' : S)
      → c.raw ≢ []
      → apply_config plane c s ≡ (none, s')
      → apply_config plane c s' ≡ (none, s')
  apply_config_idem c s s' full done = elim (Fallible-cases (current_config plane s)) [
    | inr (e, failing) ↦ absurd (unfold apply_config in ground (arith, failing, done))
    | inl ((current, version), e) ↦
        elim (Bool-cases (str_eq (normalize current) (normalize c.raw))) [
          | inl same ↦
              let kept = apply_config_same plane c s current version e (str_eq_sound _ _ same) in
              let stays : s ≡ s' = ap (λ (r : Option Str × S). r.1) (sym kept ∙ done) in
              subst (λ t. apply_config plane c t ≡ (none, t)) stays kept
          | inr other ↦
              let differs : normalize current ≢ normalize c.raw =
                λ q. cc (sym other ∙ (str_eq_iff (normalize current) (normalize c.raw)).1 q) in
              let pushed = sym (apply_config_other plane c s current version e differs) ∙ done in
              let (resp, post, lo, hi) = push-accepted c.raw version s s' pushed in
              let (norm, some_text) = keeps.same c.raw version s s' resp post lo hi full in
              let read = current-stored s' (keeps.answers c.raw version s s' resp post lo hi) in
              apply_config_same plane c s' _ _ read (ap normalize (read-stored s' some_text) ∙ norm)
        ]
  ]
