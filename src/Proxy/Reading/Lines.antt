-- ===== src/Proxy/Reading/Lines.antt =====
-- The rendered text, line by line.
use mathlib.Core.List.{append_assoc}
use kubetraffic.Prelude.{
  ◌≡◌, refl, sym, ap, ◌∙◌, Bool, true, false, not, Str, bytes, Option, none, some, List, [], ◌∷◌,
  ◌++◌, map, is_empty, decimal, format_int, if◌then◌else◌,
}
use kubetraffic.Prelude.Int.{pos, ltb_ℤ}
use kubetraffic.Model.{Resilience, Server, Rule, RoutingModel}
use kubetraffic.Proxy.Render.{
  join, join_all, when, use_backend_line, retry_lines, resilience_lines, server_line,
  backend_section, render_body,
}
use kubetraffic.Proxy.Reading.Words.{with_lines, with_lines-append}

abbrev pub route_text : Str → Rule → Str
route_text host r =
    bytes "    use_backend "
    ++ (r.backend_name
        ++ (bytes " if { var(txn.host) -m str "
            ++ (host ++ (bytes " } { path -m beg " ++ (r.path ++ bytes " }")))))

abbrev pub server_text : Server → Str
server_text s =
    bytes "    server "
    ++ (s.name
        ++ (bytes " "
            ++ (s.address
                ++ (bytes ":"
                    ++ (format_int s.port
                        ++ (bytes " weight "
                            ++ (decimal s.weight ++ bytes " check inter 5s fall 3 rise 2")))))))

abbrev pub shown : Bool → List Str → List Str
shown c ls = if c then ls else []

abbrev pub retry_text : Resilience → List Str
retry_text p =
    (bytes "    retries " ++ format_int p.retries)
    ∷ bytes "    option redispatch"
    ∷ shown (not (is_empty p.retry_on))
        ((bytes "    retry-on " ++ join (bytes " ") p.retry_on) ∷ [])

abbrev pub connect_text : Resilience → Str
connect_text p = bytes "    timeout connect " ++ (format_int p.connect_timeout_ms ++ bytes "ms")

abbrev pub timeout_text : Resilience → Str
timeout_text p = bytes "    timeout server " ++ (format_int p.timeout_ms ++ bytes "ms")

abbrev pub resilience_text : Option Resilience → List Str
resilience_text none = []
resilience_text (some p) =
    shown (ltb_ℤ (pos 0) p.connect_timeout_ms) (connect_text p ∷ [])
    ++ (shown (ltb_ℤ (pos 0) p.timeout_ms) (timeout_text p ∷ [])
        ++ shown (ltb_ℤ (pos 0) p.retries) (retry_text p))

abbrev pub section_text : Rule → List Str
section_text r =
    (bytes "backend " ++ r.backend_name)
    ∷ bytes "    balance roundrobin"
    ∷ bytes "    option httpchk GET /healthz"
    ∷ (resilience_text r.resilience ++ (map server_text r.servers ++ [] ∷ []))

abbrev pub sections_text : List Rule → List Str
sections_text [] = []
sections_text (r ∷ rs) = section_text r ++ sections_text rs

abbrev pub refusal_text : Str
refusal_text =
    bytes "    http-request return status 503 content-type \"text/plain\" "
    ++ bytes "string \"kubetraffic: no route configured\\n\""

abbrev pub body_text : RoutingModel → List Str
body_text m =
    bytes "    bind :8080"
    ∷ bytes "    http-request set-var(txn.host) req.hdr(host),lower,field(1,:)"
    ∷ (map (route_text m.host) m.rules
        ++ (bytes "    default_backend kubetraffic_no_route"
            ∷ []
            ∷ bytes "backend kubetraffic_no_route"
            ∷ refusal_text
            ∷ []
            ∷ sections_text m.rules))

-- A text that is these lines, with whatever comes after it.
abbrev Shows : Str → List Str → Type 0
Shows t ls = (rest : Str) → t ++ rest ≡ with_lines ls rest

Shows-append : (t u : Str) (ks ls : List Str) → Shows t ks → Shows u ls → Shows (t ++ u) (ks ++ ls)
Shows-append t u ks ls h k rest =
    append_assoc t u rest
    ∙ (ap (λ x. t ++ x) (k rest) ∙ (h (with_lines ls rest) ∙ sym (with_lines-append ks ls rest)))

Shows-routes :
    (host : Str) (rs : List Rule)
    → Shows (join_all (map (use_backend_line host) rs)) (map (route_text host) rs)
Shows-routes host [] rest = refl
Shows-routes host (r ∷ rs) rest =
    append_assoc (use_backend_line host r) (join_all (map (use_backend_line host) rs)) rest
    ∙ (assoc_route (join_all (map (use_backend_line host) rs) ++ rest)
        ∙ ap (λ t. 10 ∷ (route_text host r ++ t)) (Shows-routes host rs rest))
  where
    assoc_route : (t : Str) → use_backend_line host r ++ t ≡ 10 ∷ (route_text host r ++ t)
    assoc_route t = refl

Shows-servers : (ss : List Server) → Shows (join_all (map server_line ss)) (map server_text ss)
unfolding server_line
Shows-servers [] rest = refl
Shows-servers (s ∷ ss) rest =
    append_assoc (server_line s) (join_all (map server_line ss)) rest
    ∙ ap (λ t. 10 ∷ (server_text s ++ t)) (Shows-servers ss rest)

Shows-when : (c : Bool) (l : Str) → Shows (when c (10 ∷ l)) (shown c (l ∷ []))
Shows-when true l rest = refl
Shows-when false l rest = refl

Shows-retry : (p : Resilience) → Shows (retry_lines p) (retry_text p)
unfolding retry_lines
Shows-retry p rest =
    let c = not (is_empty p.retry_on) in
    let l = bytes "    retry-on " ++ join (bytes " ") p.retry_on in
    let n = format_int p.retries in
    ap (λ t. bytes "\n    retries " ++ t)
      (append_assoc n (bytes "\n    option redispatch" ++ when c (10 ∷ l)) rest
        ∙ ap (λ t. n ++ (bytes "\n    option redispatch" ++ t)) (Shows-when c l rest))

Shows-when_retry :
    (c : Bool) (p : Resilience) → Shows (when c (retry_lines p)) (shown c (retry_text p))
Shows-when_retry true p rest = Shows-retry p rest
Shows-when_retry false p rest = refl

Shows-resilience : (o : Option Resilience) → Shows (resilience_lines o) (resilience_text o)
unfolding resilience_lines
Shows-resilience none = λ rest. refl
Shows-resilience (some p) =
    Shows-append _ _ _ _ (Shows-when (ltb_ℤ (pos 0) p.connect_timeout_ms) _) (
      Shows-append _ _ _ _ (Shows-when (ltb_ℤ (pos 0) p.timeout_ms) _)
        (Shows-when_retry (ltb_ℤ (pos 0) p.retries) p))

Shows-section : (r : Rule) → Shows (backend_section r) (section_text r)
unfolding backend_section
Shows-section r rest =
    let tail =
      resilience_lines r.resilience ++ (join_all (map server_line r.servers) ++ bytes "\n") in
    let lines = resilience_text r.resilience ++ (map server_text r.servers ++ [] ∷ []) in
    let shows : Shows tail lines =
      Shows-append _ _ _ _ (Shows-resilience r.resilience)
        (Shows-append _ (bytes "\n") _ ([] ∷ []) (Shows-servers r.servers) (λ t. refl)) in
    ap (λ t. bytes "\nbackend " ++ t)
      (append_assoc r.backend_name
          (bytes "\n    balance roundrobin\n    option httpchk GET /healthz" ++ tail) rest
        ∙ ap
            (λ t.
              r.backend_name
              ++ (bytes "\n    balance roundrobin\n    option httpchk GET /healthz" ++ t))
            (shows rest))

sections-with_lines :
    (rs : List Rule) → join_all (map backend_section rs) ≡ with_lines (sections_text rs) []
sections-with_lines [] = refl
sections-with_lines (r ∷ rs) =
    Shows-section r (join_all (map backend_section rs))
    ∙ (ap (with_lines (section_text r)) (sections-with_lines rs)
        ∙ sym (with_lines-append (section_text r) (sections_text rs) []))

pub render_body-with_lines :
    (m : RoutingModel) → render_body m ≡ bytes "frontend kubetraffic" ++ with_lines (body_text m) []
unfolding render_body
render_body-with_lines m =
    ap
      (λ t.
        bytes "frontend kubetraffic\n    bind :8080\n"
        ++ (bytes "    http-request set-var(txn.host) req.hdr(host),lower,field(1,:)" ++ t))
      (ap
          (λ t.
            join_all (map (use_backend_line m.host) m.rules)
            ++ (bytes "\n    default_backend kubetraffic_no_route\n\nbackend kubetraffic_no_route\n"
                ++ (bytes "    http-request return status 503 content-type \"text/plain\" "
                    ++ (bytes "string \"kubetraffic: no route configured\\n\"\n" ++ t))))
          (sections-with_lines m.rules)
        ∙ (Shows-routes m.host m.rules _
            ∙ sym (with_lines-append (map (route_text m.host) m.rules) _ [])))
