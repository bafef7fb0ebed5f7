-- ===== src/Proxy/Reading.antt =====
-- A reader of rendered configurations, as HAProxy takes them: lines, and in a line the words
-- between blanks. It sees which requests go to which backend, and the servers of each.
pub mod Words
pub mod Lines
pub mod Plain
pub mod Parts
pub mod RoundTrip
pub mod Built
pub mod Dispatch
use kubetraffic.Prelude.{
  ◌&&◌, true, false, ℕ, Str, bytes, str_eq, is_nil, Bool, List, [], ◌∷◌, ◌++◌, ◌==◌, parse_decimal,
  if◌then◌else◌,
}

-- A word that has come to its end; blanks make no words.
abbrev pub end_word : Str → List Str → List Str
end_word w rest = if is_nil w then rest else w ∷ rest

unfoldable pub words_from : Str → Str → List Str
words_from w [] = end_word w []
words_from w (c ∷ s) =
    let ended = end_word w (words_from [] s) in
    let longer = words_from (w ++ c ∷ []) s in if c == 32 then ended else longer

unfoldable pub lines_from : Str → Str → List Str
lines_from l [] = l ∷ []
lines_from l (c ∷ s) =
    let ended = l ∷ lines_from [] s in
    let longer = lines_from (l ++ c ∷ []) s in if c == 10 then ended else longer

-- A `use_backend` line: the methods with which the host and the path are compared, the texts that
-- they are compared with, and the backend.
pub record RouteView : Type 0 where
  pub host_method : Str
  pub host : Str
  pub path_method : Str
  pub path : Str
  pub backend : Str

-- The address with its port, as they are written, and the weight.
pub record ServerView : Type 0 where
  pub name : Str
  pub endpoint : Str
  pub weight : ℕ

pub record BackendView : Type 0 where
  pub name : Str
  pub servers : List ServerView

-- `pending` are the servers after the last header that was read, from the end. `host_value` is the
-- expression that the variable `txn.host` is set to.
pub record View : Type 0 where
  pub host_value : Str
  pub default_backend : Str
  pub routes : List RouteView
  pub backends : List BackendView
  pub pending : List ServerView

abbrev pub no_view : View
no_view = record { host_value = []; default_backend = []; routes = []; backends = []; pending = [] }

abbrev same_words : List Str → List Str → Bool
same_words [] [] = true
same_words (w ∷ ws) (x ∷ xs) = str_eq w x && same_words ws xs
same_words _ _ = false

-- `use_backend B if { var(txn.host) -m METHOD HOST } { path -m METHOD PATH }`; a line with other
-- words is not read.
abbrev route_view : Str → List Str → View → View
route_view b (w2 ∷ w3 ∷ w4 ∷ w5 ∷ m ∷ h ∷ w8 ∷ w9 ∷ w10 ∷ w11 ∷ n ∷ p ∷ w14 ∷ []) v =
    if same_words (w2 ∷ w3 ∷ w4 ∷ w5 ∷ w8 ∷ w9 ∷ w10 ∷ w11 ∷ w14 ∷ []) (
      bytes "if"
      ∷ bytes "{"
      ∷ bytes "var(txn.host)"
      ∷ bytes "-m"
      ∷ bytes "}"
      ∷ bytes "{"
      ∷ bytes "path"
      ∷ bytes "-m"
      ∷ bytes "}"
      ∷ [])
    then record v {
      routes =
          record { host_method = m; host = h; path_method = n; path = p; backend = b } ∷ v.routes;
    }
    else v
route_view b _ v = v

-- `http-request set-var(txn.host) EXPRESSION`
abbrev request_view : Str → List Str → View → View
request_view x (e ∷ []) v =
    if str_eq x (bytes "set-var(txn.host)") then record v { host_value = e } else v
request_view x _ v = v

-- `server NAME ADDRESS:PORT weight W …`
abbrev server_view : Str → List Str → View → View
server_view n (e ∷ w ∷ weight ∷ rest) v = record v {
  pending = record { name = n; endpoint = e; weight = parse_decimal weight } ∷ v.pending;
}
server_view n _ v = v

abbrev pub read_words : List Str → View → View
read_words (w ∷ x ∷ rest) v =
    if str_eq w (bytes "use_backend")
    then route_view x rest v
    else if str_eq w (bytes "server")
    then server_view x rest v
    else if str_eq w (bytes "http-request")
    then request_view x rest v
    else if str_eq w (bytes "default_backend")
    then record v { default_backend = x }
    else if str_eq w (bytes "backend")
    then record v { backends = record { name = x; servers = v.pending } ∷ v.backends; pending = [] }
    else v
read_words _ v = v

unfoldable pub read_lines : List Str → View
unfolding words_from
read_lines [] = no_view
read_lines (l ∷ rest) = read_words (words_from [] l) (read_lines rest)

unfoldable pub read_config : Str → View
unfolding read_lines lines_from
read_config text = read_lines (lines_from [] text)
