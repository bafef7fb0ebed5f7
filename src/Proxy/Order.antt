-- ===== src/Proxy/Order.antt =====
-- The order of the rendered rules makes the longest matching path win.
use kubetraffic.Prelude.{
  All-of_sort, ℕ, ◌≤◌, ◌≡◌, ap, inl, inr, true, false, Option, none, some, List, [], ◌∷◌, arith,
  if◌then◌else◌, ltb, Bool-cases, Str, str_eq, length, All, sort, insert_sorted, has_prefix,
  str_eq_sound,
}
use mathlib.Core.Path.{subst}
use kubetraffic.Model.{Rule}
use kubetraffic.Proxy.Render.{rule_before}

-- HAProxy takes the first `use_backend` line whose condition holds: `path -m beg` is the test of a
-- prefix.
abbrev pub first_backend : Str → List Rule → Option Rule
first_backend path [] = none
first_backend path (r ∷ rest) = if has_prefix path r.path then some r else first_backend path rest

-- No matching rule has a path above this length.
abbrev pub IsLongest : Str → ℕ → List Rule → Type 0
IsLongest path n rules = All (λ (r : Rule). has_prefix path r.path ≡ true → length r.path ≤ n) rules

abbrev pub AtMost : ℕ → List Rule → Type 0
AtMost n rules = All (λ (r : Rule). length r.path ≤ n) rules

-- Longest path first.
abbrev pub Descends : List Rule → Type 0
Descends [] = Unit
Descends (r ∷ rest) = AtMost (length r.path) rest × Descends rest

rule_before-le : (a b : Rule) → rule_before a b ≡ true → length b.path ≤ length a.path
unfolding rule_before
rule_before-le a b h = elim (Bool-cases (str_eq a.path b.path)) [
  | inl same ↦ let e = ap (λ (s : Str). length s) (str_eq_sound a.path b.path same) in omega arith
  | inr other ↦ let h' : ltb (length b.path) (length a.path) ≡ true = rw other at h in ground arith
]

not-rule_before-le : (a b : Rule) → rule_before a b ≡ false → length a.path ≤ length b.path
unfolding rule_before
not-rule_before-le a b h = elim (Bool-cases (str_eq a.path b.path)) [
  | inl same ↦ let e = ap (λ (s : Str). length s) (str_eq_sound a.path b.path same) in omega arith
  | inr other ↦ let h' : ltb (length b.path) (length a.path) ≡ false = rw other at h in ground arith
]

AtMost-mono : (m n : ℕ) (rs : List Rule) → m ≤ n → AtMost m rs → AtMost n rs
AtMost-mono m n [] l h = tt
AtMost-mono m n (r ∷ rest) l h = (omega arith, AtMost-mono m n rest l h.1)

AtMost-insert :
    (n : ℕ) (x : Rule) (ys : List Rule)
    → length x.path ≤ n
    → AtMost n ys
    → AtMost n (insert_sorted rule_before x ys)
unfolding insert_sorted
AtMost-insert n x [] l h = (l, tt)
AtMost-insert n x (y ∷ ys) l h = elim (Bool-cases (rule_before x y)) [
  | inl e ↦ rw e (l, h)
  | inr e ↦ rw e (h.0, AtMost-insert n x ys l h.1)
]

Descends-insert :
    (x : Rule) (ys : List Rule) → Descends ys → Descends (insert_sorted rule_before x ys)
unfolding insert_sorted
Descends-insert x [] h = (tt, tt)
Descends-insert x (y ∷ ys) h = elim (Bool-cases (rule_before x y)) [
  | inl e ↦
      let l = rule_before-le x y e in
      rw e ((l, AtMost-mono (length y.path) (length x.path) ys l h.0), h)
  | inr e ↦
      rw e (
        AtMost-insert (length y.path) x ys (not-rule_before-le x y e) h.0,
        Descends-insert x ys h.1,
      )
]

pub sort-Descends : (rs : List Rule) → Descends (sort rule_before rs)
unfolding sort
sort-Descends [] = tt
sort-Descends (r ∷ rs) = Descends-insert r (sort rule_before rs) (sort-Descends rs)

pub AtMost-IsLongest : (path : Str) (n : ℕ) (rs : List Rule) → AtMost n rs → IsLongest path n rs
AtMost-IsLongest path n [] h = tt
AtMost-IsLongest path n (r ∷ rest) h = ((λ m. h.0), AtMost-IsLongest path n rest h.1)

first_backend-IsLongest :
    (path : Str) (rs : List Rule) (r : Rule)
    → Descends rs
    → first_backend path rs ≡ some r
    → (has_prefix path r.path ≡ true) × IsLongest path (length r.path) rs
first_backend-IsLongest path [] r d h = cc
first_backend-IsLongest path (x ∷ rest) r d h = elim (Bool-cases (has_prefix path x.path)) [
  | inl e ↦
      let same : x ≡ r = (let h' : some x ≡ some r = rw e at h in cc) in
      subst
        (λ (q : Rule). (has_prefix path q.path ≡ true) × IsLongest path (length q.path) (x ∷ rest))
        same (e, ((λ m. omega arith), AtMost-IsLongest path (length x.path) rest d.0))
  | inr e ↦
      let h' : first_backend path rest ≡ some r = rw e at h in
      let (matches, longest) = first_backend-IsLongest path rest r d.1 h' in
      (matches, ((λ m. cc), longest))
]

-- In the order in which a model's rules are rendered, the first rule whose path is a prefix of a
-- request's path is a rule of the longest such path among all the rules of the model.
pub sort-first_backend :
    (path : Str) (rules : List Rule) (r : Rule)
    → first_backend path (sort rule_before rules) ≡ some r
    → (has_prefix path r.path ≡ true) × IsLongest path (length r.path) rules
sort-first_backend path rules r h =
    let (matches, longest) =
      first_backend-IsLongest path (sort rule_before rules) r (sort-Descends rules) h in
    (matches, All-of_sort rule_before _ rules longest)
