-- ===== src/Proxy/Reading/Plain.antt =====
-- Models whose names are single words: their texts hold no line break but those of the template.
use kubetraffic.Prelude.{
  refl, Str, bytes, Bool, true, false, not, Option, none, some, List, [], ◌∷◌, map, is_empty,
  decimal, format_int, All, All-append,
}
use kubetraffic.Prelude.Int.{pos, ltb_ℤ}
use kubetraffic.Model.{Resilience, Server, Rule, RoutingModel}
use kubetraffic.Proxy.Render.{join}
use kubetraffic.Proxy.Reading.Words.{
  IsLine, IsWord, IsLine-of_inner, IsLine-of_test, IsLine-append, IsLine-after, decimal-IsWord,
  format_int-IsWord,
}
use kubetraffic.Proxy.Reading.Lines.{
  route_text, server_text, shown, retry_text, resilience_text, section_text, sections_text,
  refusal_text, body_text,
}

pub record IsPlainServer (s : Server) : Type 0 where
  pub name : IsWord s.name
  pub address : IsWord s.address

-- The entries of `retry-on` may hold blanks.
abbrev pub HasPlainRetries : Option Resilience → Type 0
HasPlainRetries none = Unit
HasPlainRetries (some p) = All IsLine p.retry_on

pub record IsPlainRule (r : Rule) : Type 0 where
  pub path : IsWord r.path
  pub backend_name : IsWord r.backend_name
  pub servers : All IsPlainServer r.servers
  pub retries : HasPlainRetries r.resilience

pub record IsPlainModel (m : RoutingModel) : Type 0 where
  pub host : IsWord m.host
  pub rules : All IsPlainRule m.rules

word-IsLine : (s : Str) → IsWord s → IsLine s
word-IsLine s h = IsLine-of_inner s h.inner

route-IsLine : (host : Str) (r : Rule) → IsWord host → IsPlainRule r → IsLine (route_text host r)
route-IsLine host r h p = IsLine-after (bytes "    use_backend ") _ refl (
    IsLine-append r.backend_name _ (word-IsLine _ p.backend_name) (
      IsLine-after (bytes " if { var(txn.host) -m str ") _ refl (
        IsLine-append host _ (word-IsLine _ h) (
          IsLine-after (bytes " } { path -m beg ") _ refl
            (IsLine-append r.path _ (word-IsLine _ p.path) (IsLine-of_test (bytes " }") refl))))))

server-IsLine : (s : Server) → IsPlainServer s → IsLine (server_text s)
server-IsLine s p = IsLine-after (bytes "    server ") _ refl (
    IsLine-append s.name _ (word-IsLine _ p.name) (
      IsLine-after (bytes " ") _ refl (
        IsLine-append s.address _ (word-IsLine _ p.address) (
          IsLine-after (bytes ":") _ refl (
            IsLine-append (format_int s.port) _ (word-IsLine _ (format_int-IsWord s.port)) (
              IsLine-after (bytes " weight ") _ refl (
                IsLine-append (decimal s.weight) _ (word-IsLine _ (decimal-IsWord s.weight))
                  (IsLine-of_test (bytes " check inter 5s fall 3 rise 2") refl))))))))

routes-AllLine :
    (host : Str) (rs : List Rule)
    → IsWord host
    → All IsPlainRule rs
    → All IsLine (map (route_text host) rs)
routes-AllLine host [] h p = tt
routes-AllLine host (r ∷ rs) h p = (route-IsLine host r h p.0, routes-AllLine host rs h p.1)

servers-AllLine : (ss : List Server) → All IsPlainServer ss → All IsLine (map server_text ss)
servers-AllLine [] p = tt
servers-AllLine (s ∷ ss) p = (server-IsLine s p.0, servers-AllLine ss p.1)

join-IsLine : (ts : List Str) → All IsLine ts → IsLine (join (bytes " ") ts)
unfolding join
join-IsLine [] h = tt
join-IsLine (t ∷ []) h = h.0
join-IsLine (t ∷ u ∷ ts) h =
    IsLine-append t _ h.0 (IsLine-after (bytes " ") _ refl (join-IsLine (u ∷ ts) h.1))

shown-AllLine : (c : Bool) (ls : List Str) → All IsLine ls → All IsLine (shown c ls)
shown-AllLine true ls h = h
shown-AllLine false ls h = tt

resilience-AllLine : (o : Option Resilience) → HasPlainRetries o → All IsLine (resilience_text o)
resilience-AllLine none h = tt
resilience-AllLine (some p) h =
    All-append IsLine _ _
      (shown-AllLine (ltb_ℤ (pos 0) p.connect_timeout_ms) _ (
        IsLine-after (bytes "    timeout connect ") _ refl (
            IsLine-append (format_int p.connect_timeout_ms) _ (word-IsLine _ (format_int-IsWord _))
              (IsLine-of_test (bytes "ms") refl)),
        tt,
      ))
      (All-append IsLine _ _
        (shown-AllLine (ltb_ℤ (pos 0) p.timeout_ms) _ (
          IsLine-after (bytes "    timeout server ") _ refl (
              IsLine-append (format_int p.timeout_ms) _ (word-IsLine _ (format_int-IsWord _))
                (IsLine-of_test (bytes "ms") refl)),
          tt,
        ))
        (shown-AllLine (ltb_ℤ (pos 0) p.retries) (retry_text p) (
          IsLine-after (bytes "    retries ") _ refl (word-IsLine _ (format_int-IsWord p.retries)),
          (
            IsLine-of_test (bytes "    option redispatch") refl,
            shown-AllLine (not (is_empty p.retry_on)) _
                (IsLine-after (bytes "    retry-on ") _ refl (join-IsLine p.retry_on h), tt),
          ),
        )))

section-AllLine : (r : Rule) → IsPlainRule r → All IsLine (section_text r)
section-AllLine r p = (
  IsLine-after (bytes "backend ") _ refl (word-IsLine _ p.backend_name),
  (
    IsLine-of_test (bytes "    balance roundrobin") refl,
    (
      IsLine-of_test (bytes "    option httpchk GET /healthz") refl,
      All-append IsLine _ _ (resilience-AllLine r.resilience p.retries)
          (All-append IsLine _ _ (servers-AllLine r.servers p.servers) (tt, tt)),
    ),
  ),
)

sections-AllLine : (rs : List Rule) → All IsPlainRule rs → All IsLine (sections_text rs)
sections-AllLine [] p = tt
sections-AllLine (r ∷ rs) p =
    All-append IsLine (section_text r) (sections_text rs) (section-AllLine r p.0)
      (sections-AllLine rs p.1)

pub body-AllLine : (m : RoutingModel) → IsPlainModel m → All IsLine (body_text m)
body-AllLine m p = (
  IsLine-of_test (bytes "    bind :8080") refl,
  (
    IsLine-of_test (bytes "    http-request set-var(txn.host) req.hdr(host),lower,field(1,:)") refl,
    All-append IsLine _ _ (routes-AllLine m.host m.rules p.host p.rules) (
      IsLine-of_test (bytes "    default_backend kubetraffic_no_route") refl,
      (
        tt,
        (
          IsLine-of_test (bytes "backend kubetraffic_no_route") refl,
          (IsLine-of_test refusal_text refl, (tt, sections-AllLine m.rules p.rules)),
        ),
      ),
    ),
  ),
)
