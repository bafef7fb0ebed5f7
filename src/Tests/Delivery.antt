-- ===== src/Tests/Delivery.antt =====
-- A data plane that holds one text, and configurations given to it.
use kubetraffic.Prelude.{
  Str, bytes, str_eq, none, [], ◌≡◌, ◌≢◌, refl, ap, inl, is_nil, false, if◌then◌else◌, ◌∷◌,
}
use kubetraffic.Prelude.Int.{pos}
use kubetraffic.Discovery.Reads.{ok}
use kubetraffic.Proxy.{Config, normalize}
use kubetraffic.Proxy.HaProxy.{
  DataPlane, PushMode, only_validate, reload_now, apply_config, current_config, push_raw, snippet,
}
use kubetraffic.Proxy.Delivery.{Keeps, apply_config_idem}

abbrev posted : Str → PushMode → Str → Str
posted text only_validate s = s
posted text reload_now s = if is_nil text then s else text

-- The body is the text itself.
abbrev holder : DataPlane Str
holder = record {
  get_raw = λ s. ok (record { status_code = 200; body = s; configuration_version = bytes "7" });
  post_raw = λ text version mode s. (
    ok (record { status_code = 202; body = []; configuration_version = [] }),
    posted text mode s,
  );
  unmarshal = λ body. none;
  atoi = λ s. pos 7;
}

held :
    (text s s' : Str)
    → text ≢ []
    → posted text reload_now s ≡ s'
    → (normalize s' ≡ normalize text) × (is_nil s' ≡ false)
held [] s s' full e = absurd (full refl)
held (x ∷ text) s s' full e = rw (← e) (refl, refl)

Keeps-holder : Keeps holder
Keeps-holder = record {
  reply = λ s. record { status_code = 200; body = s; configuration_version = bytes "7" };
  stored = λ s. s;
  answers = λ text version s s' resp e lo hi. refl;
  found = λ s. refl;
  in_json = λ s. inl (refl, refl);
  same = λ text version s s' resp e lo hi full. held text s s' full (ap (λ r. r.1) e);
}

abbrev wanted : Config
wanted = record { raw = bytes "backend a" }

taken : apply_config holder wanted (bytes "backend b  ") ≡ (none, bytes "backend a")
unfolding apply_config current_config push_raw snippet normalize str_eq
taken = refl

apply_config_idem_example :
    apply_config holder wanted (bytes "backend a") ≡ (none, bytes "backend a")
apply_config_idem_example =
    apply_config_idem holder Keeps-holder wanted (bytes "backend b  ") (bytes "backend a")
      (λ e. cc e) taken
