-- ===== src/Proxy/Fake.antt =====
-- controller/internal/proxy/fake.go: the in-memory proxy. Its state is what was applied and the
-- errors that it is primed with.
use kubetraffic.Prelude.{ℕ, Str, bytes, Option, none, some, List, [], ◌∷◌, ◌++◌, length}
use kubetraffic.Proxy.Contract.{Config, Proxy}
use kubetraffic.Proxy.Render.{render}

pub record Fake : Type 0 where
  pub applied : List Config
  pub apply_err : Option Str
  pub validate_err : Option Str

abbrev pub new_fake : Fake
new_fake = record { applied = []; apply_err = none; validate_err = none }

unfoldable pub apply_config : Config → Fake → Option Str × Fake
apply_config c f = elim f.apply_err [
  | some e ↦ (some e, f)
  | none ↦ (none, record f { applied = f.applied ++ c ∷ [] })
]

unfoldable pub last_config : List Config → Config
last_config [] = record { raw = [] }
last_config (c ∷ []) = c
last_config (c ∷ d ∷ rest) = last_config (d ∷ rest)

unfoldable pub last_applied : Fake → Config
unfolding last_config
last_applied f = last_config f.applied

unfoldable pub apply_count : Fake → ℕ
apply_count f = length f.applied

unfoldable pub fake_proxy : Proxy Fake
unfolding apply_config
fake_proxy = record {
  generate_config = render (bytes "test-password");
  validate_config = λ c f. (f.validate_err, f);
  apply_config = apply_config;
}
