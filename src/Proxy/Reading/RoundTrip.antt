-- ===== src/Proxy/Reading/RoundTrip.antt =====
-- What a reader sees of a rendered configuration is the model that it was rendered from.
use mathlib.Core.List.{append_assoc, append-nil}
use kubetraffic.Prelude.{
  ◌≡◌, refl, sym, ap, ◌∙◌, Str, str_eq, bytes, List, [], ◌∷◌, ◌++◌, map, All, All-sort, sort,
}
use kubetraffic.Model.{Rule, RoutingModel}
use kubetraffic.Discovery.Reads.{ok}
use kubetraffic.Proxy.Base.{base_config}
use kubetraffic.Proxy.Render.{rule_before, render_body, render}
use kubetraffic.Proxy.Reading.{
  no_view, View, ServerView, BackendView, words_from, lines_from, read_words, read_lines,
  read_config,
}
use kubetraffic.Proxy.Reading.Words.{
  words_last, lines_push, lines-with_lines, IsLine-of_test, with_lines,
}
use kubetraffic.Proxy.Reading.Lines.{
  server_text, resilience_text, section_text, sections_text, body_text, render_body-with_lines,
}
use kubetraffic.Proxy.Reading.Plain.{IsPlainRule, IsPlainModel, body-AllLine}
use kubetraffic.Proxy.Reading.Parts.{
  view_route, view_server, view_backend, view_model, read-routes, read-servers,
  AreUnseen-resilience,
}

read-section :
    (r : Rule) (more : List Str)
    → IsPlainRule r
    → (read_lines more).pending ≡ []
    → let v = read_lines more in
      read_lines (section_text r ++ more) ≡ record v { backends = view_backend r ∷ v.backends }
unfolding read_lines words_from str_eq
read-section r more p none' =
    let v = read_lines more in
    let ss = map server_text r.servers in
    let parts = resilience_text r.resilience ++ (ss ++ [] ∷ []) in
    let held = map view_server r.servers ++ v.pending in
    let seen : read_lines (parts ++ more) ≡ record v { pending = held } =
      ap read_lines (append_assoc (resilience_text r.resilience) (ss ++ [] ∷ []) more)
      ∙ (AreUnseen-resilience r.resilience ((ss ++ [] ∷ []) ++ more)
          ∙ (ap read_lines (append_assoc ss ([] ∷ []) more)
              ∙ read-servers r.servers ([] ∷ more) p.servers)) in
    let all : held ≡ map view_server r.servers =
      ap (λ t. map view_server r.servers ++ t) none' ∙ append-nil (map view_server r.servers) in
    ap (λ t. read_words (bytes "backend" ∷ t) (read_lines (parts ++ more)))
      (words_last r.backend_name p.backend_name)
    ∙ (ap (read_words (bytes "backend" ∷ r.backend_name ∷ [])) seen
        ∙ (ap
              (λ t. record v {
                backends = record { name = r.backend_name; servers = t } ∷ v.backends;
                pending = [];
              })
              all
            ∙ ap (λ t. record v { backends = view_backend r ∷ v.backends; pending = t })
                (sym none')))

read-sections :
    (rs : List Rule)
    → All IsPlainRule rs
    → read_lines (sections_text rs) ≡ record no_view { backends = map view_backend rs }
unfolding read_lines
read-sections [] p = refl
read-sections (r ∷ rs) p =
    let rest = read-sections rs p.1 in
    read-section r (sections_text rs) p.0 (ap (λ (v : View). v.pending) rest)
    ∙ ap (λ (v : View). record v { backends = view_backend r ∷ v.backends }) rest

read-body_text : (m : RoutingModel) → IsPlainModel m → read_lines (body_text m) ≡ view_model m
unfolding read_lines words_from str_eq
read-body_text m p =
    let routes = map (view_route m.host) m.rules in
    let no_route = λ (ss : List ServerView).
      let b : BackendView = record { name = bytes "kubetraffic_no_route"; servers = ss } in b in
    ap (λ (v : View). record v { host_value = bytes "req.hdr(host),lower,field(1,:)" })
      (read-routes m.host m.rules _ p.host p.rules
        ∙ (ap
              (λ (s : View).
                let v : View = record {
                  host_value = s.host_value;
                  default_backend = bytes "kubetraffic_no_route";
                  routes = routes ++ s.routes;
                  backends = no_route s.pending ∷ s.backends;
                  pending = [];
                } in
                v)
              (read-sections m.rules p.rules)
            ∙ ap
                (λ t. record no_view {
                  default_backend = bytes "kubetraffic_no_route";
                  routes = t;
                  backends = no_route [] ∷ map view_backend m.rules;
                })
                (append-nil routes)))

frontend : (ls : List Str) → read_lines (bytes "frontend kubetraffic" ∷ ls) ≡ read_lines ls
unfolding read_lines words_from str_eq
frontend ls = refl

pub read_config-render_body :
    (m : RoutingModel) → IsPlainModel m → read_config (render_body m) ≡ view_model m
unfolding read_config
read_config-render_body m p =
    let first = bytes "frontend kubetraffic" in
    ap (λ t. read_lines (lines_from [] t)) (render_body-with_lines m)
    ∙ (ap read_lines (
          lines_push [] first (with_lines (body_text m) []) (IsLine-of_test first refl)
          ∙ lines-with_lines first (body_text m) (body-AllLine m p))
        ∙ frontend (body_text m)
        ∙ read-body_text m p)

-- A model whose names and addresses are single words, with retry conditions on one line, is
-- rendered, and after the base configuration a reader of the text sees the model with its rules in
-- order: how the host of a request is taken, the tests of host and path with the backend, the
-- default backend, and each backend with its servers, their addresses with their ports, and their
-- weights.
pub read_config-render :
    (password : Str) (m : RoutingModel)
    → IsPlainModel m
    → (body : Str) × (render password m ≡ ok (record { raw = base_config password ++ body }))
      × (read_config body ≡ view_model (record m { rules = sort rule_before m.rules }))
unfolding render
read_config-render password m p =
    let ordered : RoutingModel = record m { rules = sort rule_before m.rules } in
    let plain : IsPlainModel ordered = record {
      host = p.host;
      rules = All-sort rule_before IsPlainRule m.rules p.rules;
    } in
    (render_body ordered, rw p.host.full refl, read_config-render_body ordered plain)
