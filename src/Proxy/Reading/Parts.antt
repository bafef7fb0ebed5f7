-- ===== src/Proxy/Reading/Parts.antt =====
-- What a reader sees of the lines of a model's rules.
use mathlib.Core.List.{append_assoc}
use kubetraffic.Prelude.{
  ◌≡◌, refl, sym, ap, ◌∙◌, false, true, Bool, not, Str, str_eq, bytes, List, [], ◌∷◌, ◌++◌, map,
  is_empty, Option, none, some, All, decimal, parse-decimal, format_int,
}
use kubetraffic.Prelude.Int.{pos, ltb_ℤ}
use kubetraffic.Model.{Resilience, Server, Rule, RoutingModel}
use kubetraffic.Proxy.Reading.{
  View, RouteView, ServerView, BackendView, words_from, read_words, read_lines,
}
use kubetraffic.Proxy.Reading.Words.{
  IsWord, words_word, IsWord-colon, decimal-IsWord, format_int-IsWord,
}
use kubetraffic.Proxy.Reading.Lines.{
  route_text, server_text, shown, retry_text, resilience_text, connect_text, timeout_text,
}
use kubetraffic.Proxy.Reading.Plain.{IsPlainServer, IsPlainRule}

-- What is to be seen of a model.
abbrev pub view_route : Str → Rule → RouteView
view_route host r = record {
  host_method = bytes "str";
  host = host;
  path_method = bytes "beg";
  path = r.path;
  backend = r.backend_name;
}

abbrev pub view_server : Server → ServerView
view_server s = record {
  name = s.name;
  endpoint = s.address ++ (58 ∷ format_int s.port);
  weight = s.weight;
}

abbrev pub view_backend : Rule → BackendView
view_backend r = record { name = r.backend_name; servers = map view_server r.servers }

abbrev pub view_model : RoutingModel → View
view_model m = record {
  host_value = bytes "req.hdr(host),lower,field(1,:)";
  default_backend = bytes "kubetraffic_no_route";
  routes = map (view_route m.host) m.rules;
  backends =
      record { name = bytes "kubetraffic_no_route"; servers = [] } ∷ map view_backend m.rules;
  pending = [];
}

read-route_text :
    (host : Str) (r : Rule) (v : View)
    → IsWord host
    → IsPlainRule r
    → read_words (words_from [] (route_text host r)) v
      ≡ record v { routes = view_route host r ∷ v.routes }
unfolding words_from str_eq
read-route_text host r v h p =
    ap (λ t. read_words (bytes "use_backend" ∷ t) v)
      (words_word r.backend_name _ p.backend_name
        ∙ ap
            (λ t.
              r.backend_name
              ∷ bytes "if"
              ∷ bytes "{"
              ∷ bytes "var(txn.host)"
              ∷ bytes "-m"
              ∷ bytes "str"
              ∷ t)
            (words_word host _ h
              ∙ ap (λ t. host ∷ bytes "}" ∷ bytes "{" ∷ bytes "path" ∷ bytes "-m" ∷ bytes "beg" ∷ t)
                  (words_word r.path (bytes "}") p.path)))

read-server_text :
    (s : Server) (v : View)
    → IsPlainServer s
    → read_words (words_from [] (server_text s)) v
      ≡ record v { pending = view_server s ∷ v.pending }
unfolding words_from str_eq
read-server_text s v p =
    let port = format_int s.port in
    let endpoint = s.address ++ (58 ∷ port) in
    let weight = decimal s.weight in
    let after = bytes " weight " ++ (weight ++ bytes " check inter 5s fall 3 rise 2") in
    ap (λ t. read_words (bytes "server" ∷ t) v)
      (words_word s.name _ p.name
        ∙ ap (λ t. s.name ∷ t)
            (ap (words_from []) (sym (append_assoc s.address (58 ∷ port) after))
              ∙ (words_word endpoint _
                    (IsWord-colon s.address port p.address (format_int-IsWord s.port))
                  ∙ ap (λ t. endpoint ∷ bytes "weight" ∷ t)
                      (words_word weight _ (decimal-IsWord s.weight)))))
    ∙ ap
        (λ n. record v {
          pending = record { name = s.name; endpoint = endpoint; weight = n } ∷ v.pending;
        })
        (parse-decimal s.weight)

pub read-routes :
    (host : Str) (rs : List Rule) (more : List Str)
    → IsWord host
    → All IsPlainRule rs
    → let v = read_lines more in
      read_lines (map (route_text host) rs ++ more)
      ≡ record v { routes = map (view_route host) rs ++ v.routes }
unfolding read_lines
read-routes host [] more h p = refl
read-routes host (r ∷ rs) more h p =
    read-route_text host r (read_lines (map (route_text host) rs ++ more)) h p.0
    ∙ ap (λ (v : View). record v { routes = view_route host r ∷ v.routes })
        (read-routes host rs more h p.1)

pub read-servers :
    (ss : List Server) (more : List Str)
    → All IsPlainServer ss
    → let v = read_lines more in
      read_lines (map server_text ss ++ more)
      ≡ record v { pending = map view_server ss ++ v.pending }
unfolding read_lines
read-servers [] more p = refl
read-servers (s ∷ ss) more p =
    read-server_text s (read_lines (map server_text ss ++ more)) p.0
    ∙ ap (λ (v : View). record v { pending = view_server s ∷ v.pending }) (read-servers ss more p.1)

-- A line that starts with another word is not seen.
read_other :
    (w : Str) (t : List Str) (v : View)
    → str_eq w (bytes "use_backend") ≡ false
    → str_eq w (bytes "server") ≡ false
    → str_eq w (bytes "backend") ≡ false
    → str_eq w (bytes "http-request") ≡ false
    → str_eq w (bytes "default_backend") ≡ false
    → read_words (w ∷ t) v ≡ v
read_other w [] v a b c d e = refl
read_other w (x ∷ t) v a b c d e = rw (a, b, d, e, c) refl

abbrev pub AreUnseen : List Str → Type 0
AreUnseen ls = (more : List Str) → read_lines (ls ++ more) ≡ read_lines more

AreUnseen-shown : (c : Bool) (ls : List Str) → AreUnseen ls → AreUnseen (shown c ls)
AreUnseen-shown true ls h more = h more
AreUnseen-shown false ls h more = refl

AreUnseen-append : (ks ls : List Str) → AreUnseen ks → AreUnseen ls → AreUnseen (ks ++ ls)
AreUnseen-append ks ls h k more =
    ap read_lines (append_assoc ks ls more) ∙ (h (ls ++ more) ∙ k more)

AreUnseen-retries : (p : Resilience) → AreUnseen (retry_text p)
unfolding read_lines words_from str_eq
AreUnseen-retries p more =
    read_other (bytes "retries") _ _ refl refl refl refl refl
    ∙ AreUnseen-shown (not (is_empty p.retry_on)) _
        (λ m. read_other (bytes "retry-on") _ _ refl refl refl refl refl) more

pub AreUnseen-resilience : (o : Option Resilience) → AreUnseen (resilience_text o)
unfolding read_lines words_from str_eq
AreUnseen-resilience none = λ more. refl
AreUnseen-resilience (some p) =
    let connect = shown (ltb_ℤ (pos 0) p.connect_timeout_ms) (connect_text p ∷ []) in
    let timeout = shown (ltb_ℤ (pos 0) p.timeout_ms) (timeout_text p ∷ []) in
    let retry = shown (ltb_ℤ (pos 0) p.retries) (retry_text p) in
    AreUnseen-append connect (timeout ++ retry)
      (AreUnseen-shown (ltb_ℤ (pos 0) p.connect_timeout_ms) (connect_text p ∷ []) (λ m. refl))
      (AreUnseen-append timeout retry
        (AreUnseen-shown (ltb_ℤ (pos 0) p.timeout_ms) (timeout_text p ∷ []) (λ m. refl))
        (AreUnseen-shown (ltb_ℤ (pos 0) p.retries) (retry_text p) (AreUnseen-retries p)))
