-- ===== src/Proxy/Genconfig.antt =====
-- controller/hack/genconfig/main.go: the bootstrap configuration, with no route.
use kubetraffic.Prelude.{Str, bytes, []}
use kubetraffic.Discovery.Reads.{Fallible}
use kubetraffic.Proxy.Contract.{Config}
use kubetraffic.Proxy.Render.{render}

unfoldable pub bootstrap : Str → Fallible Config
bootstrap password = render password (record { host = bytes "bootstrap.local"; rules = [] })
