-- ===== src/Proxy/Normalize.antt =====
-- `normalize` of controller/internal/proxy/haproxy.go: lines without trailing blanks, none empty.
use kubetraffic.Prelude.{ℕ, Str, bytes, is_nil, List, [], ◌∷◌, ◌==◌, ◌||◌, if◌then◌else◌}
use kubetraffic.Proxy.Render.{join}

abbrev pub cons_line : ℕ → List Str → List Str
cons_line c [] = (c ∷ []) ∷ []
cons_line c (l ∷ rest) = (c ∷ l) ∷ rest

-- `strings.Split(cfg, "\n")`: never empty.
unfoldable pub split_lines : Str → List Str
split_lines [] = [] ∷ []
split_lines (c ∷ s) = let rest = split_lines s in if c == 10 then [] ∷ rest else cons_line c rest

-- `strings.TrimRight(l, " \t")`
unfoldable pub trim_right : Str → Str
trim_right [] = []
trim_right (c ∷ s) =
    let rest = trim_right s in
    if is_nil rest then (if (c == 32) || (c == 9) then [] else c ∷ []) else c ∷ rest

unfoldable pub kept_lines : List Str → List Str
unfolding trim_right
kept_lines [] = []
kept_lines (l ∷ rest) =
    let kept = kept_lines rest in
    let trimmed = trim_right l in if is_nil trimmed then kept else trimmed ∷ kept

unfoldable pub normalize : Str → Str
unfolding split_lines kept_lines join
normalize cfg = join (bytes "\n") (kept_lines (split_lines cfg))
