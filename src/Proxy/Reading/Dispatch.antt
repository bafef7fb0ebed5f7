-- ===== src/Proxy/Reading/Dispatch.antt =====
-- Where a rendered configuration sends a request, as HAProxy's manual has it: the rules of the
-- frontend are tried in order, and the default backend takes what is left.
use mathlib.Core.List.{Mem}
use kubetraffic.Prelude.{
  not, ℕ, ◌≡◌, ◌≢◌, ◌⊎◌, true, false, Bool, ◌&&◌, ◌||◌, ◌+◌, ◌==◌, leb, if◌then◌else◌, Str, bytes,
  str_eq, has_prefix, List, [], ◌∷◌, ◌++◌, map, length, All,
}
use kubetraffic.Model.{Rule, RoutingModel}
use kubetraffic.Proxy.Order.{IsLongest}
use kubetraffic.Proxy.Reading.{RouteView, View}
use mathlib.Core.List.Perm

abbrev lower_byte : ℕ → ℕ
lower_byte c = if leb 65 c && leb c 90 then c + 32 else c

unfoldable pub before_colon : Str → Str
before_colon [] = []
before_colon (c ∷ h) = let rest = c ∷ before_colon h in if c == 58 then [] else rest

-- The host that a header names: in lower case, and without the port.
abbrev pub named_host : Str → Str
named_host header = before_colon (map lower_byte header)

-- The parts of an expression, between the commas outside of parentheses.
unfoldable pub parts_from : Bool → Str → Str → List Str
parts_from inside w [] = w ∷ []
parts_from inside w (c ∷ s) =
    let ended = w ∷ parts_from false [] s in
    let longer = parts_from ((inside || (c == 40)) && not (c == 41)) (w ++ c ∷ []) s in
    if not inside && (c == 44) then ended else longer

-- The converters that are known, and the sample that is.
abbrev converted : Str → List Str → Str
converted s [] = s
converted s (k ∷ rest) =
    let lowered = converted (map lower_byte s) rest in
    let cut = converted (before_colon s) rest in
    if str_eq k (bytes "lower") then lowered else if str_eq k (bytes "field(1,:)") then cut else []

abbrev sampled : Str → List Str → Str
sampled header [] = []
sampled header (x ∷ ks) = if str_eq x (bytes "req.hdr(host)") then converted header ks else []

-- What an expression makes of the header `Host`.
unfoldable pub host_of : Str → Str → Str
unfolding parts_from
host_of expression header = sampled header (parts_from false [] expression)

-- `-m METHOD`: equal texts, or a prefix; other methods match nothing.
abbrev matches : Str → Str → Str → Bool
matches method pattern value =
    if str_eq method (bytes "str")
    then str_eq pattern value
    else if str_eq method (bytes "beg")
    then has_prefix value pattern
    else false

abbrev first_route : Str → Str → Str → List RouteView → Str
first_route other host path [] = other
first_route other host path (v ∷ rest) =
    if matches v.host_method v.host host && matches v.path_method v.path path
    then v.backend
    else first_route other host path rest

-- The backend for a request's header `Host` and its path.
abbrev pub dispatch : View → Str → Str → Str
dispatch v header path = first_route v.default_backend (host_of v.host_value header) path v.routes

abbrev pub no_route : Str
no_route = bytes "kubetraffic_no_route"

-- A backend is that of a rule whose path is a longest prefix of the request's path; or no rule has
-- a prefix of it for its path, and the backend is the one that refuses.
abbrev pub IsBackend : Str → List Rule → Str → Type 0
IsBackend path rules b =
    ((r : Rule) × Mem r rules
      × (b ≡ r.backend_name)
      × (has_prefix path r.path ≡ true)
      × IsLongest path (length r.path) rules)
    ⊎ ((b ≡ no_route) × All (λ (r : Rule). has_prefix path r.path ≡ false) rules)

-- What the text of a model does with a request.
abbrev pub IsDispatched : RoutingModel → Str → Str → Str → Type 0
IsDispatched m host path b =
    ((host ≡ m.host) × IsBackend path m.rules b) ⊎ ((host ≢ m.host) × (b ≡ no_route))

-- A host that no request names, since the text compares it as it is written.
abbrev pub has_upper : Str → Bool
has_upper [] = false
has_upper (c ∷ h) = (leb 65 c && leb c 90) || has_upper h
