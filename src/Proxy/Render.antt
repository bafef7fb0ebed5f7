-- ===== src/Proxy/Render.antt =====
-- `configTmpl` and `Render` of controller/internal/proxy/render.go.
use kubetraffic.Prelude.{
  Str, bytes, str_eq, str_ltb, is_nil, decimal, format_int, Bool, not, Option, none, some, List, [],
  ◌∷◌, ◌++◌, map, length, is_empty, sort, ltb, if◌then◌else◌,
}
use kubetraffic.Prelude.Int.{pos, ltb_ℤ}
use kubetraffic.Model.{Resilience, Server, Rule, RoutingModel}
use kubetraffic.Discovery.Reads.{Fallible, ok, err}
use kubetraffic.Proxy.Contract.{Config}
use kubetraffic.Proxy.Base.{base_config}

abbrev pub join_all : List Str → Str
join_all [] = []
join_all (s ∷ rest) = s ++ join_all rest

-- `strings.Join(list, sep)`
unfoldable pub join : Str → List Str → Str
join sep [] = []
join sep (s ∷ []) = s
join sep (s ∷ t ∷ rest) = s ++ (sep ++ join sep (t ∷ rest))

-- Longest path first; the name decides between equal paths.
unfoldable pub rule_before : Rule → Rule → Bool
rule_before a b =
    if not (str_eq a.path b.path)
    then ltb (length b.path) (length a.path)
    else str_ltb a.backend_name b.backend_name

abbrev pub use_backend_line : Str → Rule → Str
use_backend_line host r =
    bytes "\n    use_backend "
    ++ (r.backend_name
        ++ (bytes " if { var(txn.host) -m str "
            ++ (host ++ (bytes " } { path -m beg " ++ (r.path ++ bytes " }")))))

abbrev pub when : Bool → Str → Str
when c s = if c then s else []

unfoldable pub retry_lines : Resilience → Str
retry_lines p =
    bytes "\n    retries "
    ++ (format_int p.retries
        ++ (bytes "\n    option redispatch"
            ++ when (not (is_empty p.retry_on))
                (bytes "\n    retry-on " ++ join (bytes " ") p.retry_on)))

unfoldable pub resilience_lines : Option Resilience → Str
unfolding retry_lines
resilience_lines none = []
resilience_lines (some p) =
    when (ltb_ℤ (pos 0) p.connect_timeout_ms)
      (bytes "\n    timeout connect " ++ (format_int p.connect_timeout_ms ++ bytes "ms"))
    ++ (when (ltb_ℤ (pos 0) p.timeout_ms)
          (bytes "\n    timeout server " ++ (format_int p.timeout_ms ++ bytes "ms"))
        ++ when (ltb_ℤ (pos 0) p.retries) (retry_lines p))

unfoldable pub server_line : Server → Str
server_line s =
    bytes "\n    server "
    ++ (s.name
        ++ (bytes " "
            ++ (s.address
                ++ (bytes ":"
                    ++ (format_int s.port
                        ++ (bytes " weight "
                            ++ (decimal s.weight ++ bytes " check inter 5s fall 3 rise 2")))))))

unfoldable pub backend_section : Rule → Str
unfolding resilience_lines server_line
backend_section r =
    bytes "\nbackend "
    ++ (r.backend_name
        ++ (bytes "\n    balance roundrobin\n    option httpchk GET /healthz"
            ++ (resilience_lines r.resilience
                ++ (join_all (map server_line r.servers) ++ bytes "\n"))))

-- The template, on a model whose rules are in order.
unfoldable pub render_body : RoutingModel → Str
unfolding backend_section
render_body m =
    bytes "frontend kubetraffic\n    bind :8080\n"
    ++ (bytes "    http-request set-var(txn.host) req.hdr(host),lower,field(1,:)"
        ++ (join_all (map (use_backend_line m.host) m.rules)
            ++ (bytes "\n    default_backend kubetraffic_no_route\n\nbackend kubetraffic_no_route\n"
                ++ (bytes "    http-request return status 503 content-type \"text/plain\" "
                    ++ (bytes "string \"kubetraffic: no route configured\\n\"\n"
                        ++ join_all (map backend_section m.rules))))))

-- `Renderer.Render`, for the password of the renderer.
unfoldable pub render : Str → RoutingModel → Fallible Config
render dataplane_password m =
    if is_nil m.host
    then err (bytes "routing model has no host")
    else ok (record {
      raw =
          base_config dataplane_password
          ++ render_body (record { host = m.host; rules = sort rule_before m.rules });
    })
