-- ===== src/Proxy/Normal.antt =====
-- `normalize` is a normal form.
use kubetraffic.Prelude.{
  ◌⊎◌, ℕ, ◌≡◌, refl, ap, ◌∙◌, ◌≢◌, inl, inr, false, List, [], ◌∷◌, ◌++◌, arith, if◌then◌else◌, ◌==◌,
  Bool-cases, Str, bytes, is_nil, All, ==_iff,
}
use kubetraffic.Proxy.Render.{join}
use kubetraffic.Proxy.Normalize.{cons_line, split_lines, trim_right, kept_lines, normalize}

abbrev pub HasNoBreak : Str → Type 0
HasNoBreak l = All (λ c. c ≢ 10) l

-- A line that is kept: it is not empty, and ends in no blank.
record IsKept (l : Str) : Type 0 where
  whole : HasNoBreak l
  trimmed : trim_right l ≡ l
  filled : is_nil l ≡ false

cons_line-whole :
    (c : ℕ) (ls : List Str) → c ≢ 10 → All HasNoBreak ls → All HasNoBreak (cons_line c ls)
cons_line-whole c [] h k = ((h, tt), tt)
cons_line-whole c (l ∷ rest) h k = ((h, k.0), k.1)

split_lines-whole : (s : Str) → All HasNoBreak (split_lines s)
unfolding split_lines
split_lines-whole [] = (tt, tt)
split_lines-whole (c ∷ s) = elim (Bool-cases (c == 10)) [
  | inl e ↦ rw e (tt, split_lines-whole s)
  | inr e ↦
      rw e (
        cons_line-whole c (split_lines s) (λ same. cc ((==_iff c 10).1 same)) (split_lines-whole s))
]

trim_right_idem : (s : Str) → trim_right (trim_right s) ≡ trim_right s
unfolding trim_right
trim_right_idem [] = refl
trim_right_idem (c ∷ s) = ground (arith, trim_right_idem s)

trim_right-whole : (s : Str) → HasNoBreak s → HasNoBreak (trim_right s)
unfolding trim_right
trim_right-whole [] h = tt
trim_right-whole (c ∷ s) h = ground (arith, trim_right-whole s h.1)

kept_lines-IsKept : (ls : List Str) → All HasNoBreak ls → All IsKept (kept_lines ls)
unfolding kept_lines
kept_lines-IsKept [] h = tt
kept_lines-IsKept (l ∷ rest) h = elim (Bool-cases (is_nil (trim_right l))) [
  | inl e ↦ rw e (kept_lines-IsKept rest h.1)
  | inr e ↦ rw e (
    record { whole = trim_right-whole l h.0; trimmed = trim_right_idem l; filled = e },
    kept_lines-IsKept rest h.1,
  )
]

kept_lines-of_IsKept : (ls : List Str) → All IsKept ls → kept_lines ls ≡ ls
unfolding kept_lines
kept_lines-of_IsKept [] h = refl
kept_lines-of_IsKept (l ∷ rest) h = rw (h.0.trimmed, h.0.filled, kept_lines-of_IsKept rest h.1)

not_break : {A : Type 0} (c : ℕ) → c ≢ 10 → (x y : A) → (if c == 10 then x else y) ≡ y
not_break c h x y = ground arith

split_lines-append : (l s : Str) → HasNoBreak l → split_lines (l ++ 10 ∷ s) ≡ l ∷ split_lines s
unfolding split_lines
split_lines-append [] s h = refl
split_lines-append (c ∷ l) s h = rw (split_lines-append l s h.1) (not_break c h.0 _ _)

split_lines-one : (l : Str) → HasNoBreak l → split_lines l ≡ l ∷ []
unfolding split_lines
split_lines-one [] h = refl
split_lines-one (c ∷ l) h = rw (split_lines-one l h.1) (not_break c h.0 _ _)

split_lines-join :
    (l : Str) (ls : List Str)
    → All HasNoBreak (l ∷ ls)
    → split_lines (join (bytes "\n") (l ∷ ls)) ≡ l ∷ ls
unfolding join
split_lines-join l [] h = split_lines-one l h.0
split_lines-join l (m ∷ ls) h =
    split_lines-append l (join (bytes "\n") (m ∷ ls)) h.0
    ∙ ap (λ t. l ∷ t) (split_lines-join m ls h.1)

kept-whole : (ls : List Str) → All IsKept ls → All HasNoBreak ls
kept-whole [] h = tt
kept-whole (l ∷ rest) h = (h.0.whole, kept-whole rest h.1)

normalize-kept :
    (ls : List Str) → All IsKept ls → normalize (join (bytes "\n") ls) ≡ join (bytes "\n") ls
unfolding normalize
normalize-kept [] h = refl
normalize-kept (l ∷ rest) h =
    ap (λ t. join (bytes "\n") (kept_lines t)) (split_lines-join l rest (kept-whole (l ∷ rest) h))
    ∙ ap (join (bytes "\n")) (kept_lines-of_IsKept (l ∷ rest) h)

-- Normalizing a normalized text changes nothing.
pub normalize_idem : (cfg : Str) → normalize (normalize cfg) ≡ normalize cfg
unfolding normalize
normalize_idem cfg =
    normalize-kept (kept_lines (split_lines cfg))
      (kept_lines-IsKept (split_lines cfg) (split_lines-whole cfg))

abbrev pub IsBlank : ℕ → Type 0
IsBlank c = (c ≡ 32) ⊎ (c ≡ 9)

-- A line that ends in a character that is no blank.
pub record IsClean (l : Str) : Type 0 where
  pub whole : HasNoBreak l
  pub start : Str
  pub last : ℕ
  pub ends : l ≡ start ++ last ∷ []
  pub full : IsBlank last → ⊥

-- Texts whose lines are kept alike, whatever the first line is put after.
record IsAlike (s t : Str) : Type 0 where
  l : Str
  ls : List Str
  m : Str
  ms : List Str
  left : split_lines s ≡ l ∷ ls
  right : split_lines t ≡ m ∷ ms
  alike : (w : Str) → kept_lines ((w ++ l) ∷ ls) ≡ kept_lines ((w ++ m) ∷ ms)
