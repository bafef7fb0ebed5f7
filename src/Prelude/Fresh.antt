-- ===== src/Prelude/Fresh.antt =====
-- Lists of strings with no repetition, and what a `seen` map says of them.
use mathlib.Core.Path.{◌≡◌, refl}
use mathlib.Core.Logic.{◌≢◌, ◌↔◌}
use mathlib.Core.Bool.{false}
use mathlib.Core.List.{List, [], ◌∷◌}
use native.Mathlib.Omega.{arith}
use kubetraffic.Prelude.Lists.{All}
use kubetraffic.Prelude.Text.{Str, str_eq_iff}
use kubetraffic.Prelude.Maps.{contains}

abbrev pub Differs : Str → List Str → Type 0
Differs x ys = All (λ y. x ≢ y) ys

abbrev pub Distinct : List Str → Type 0
Distinct [] = Unit
Distinct (x ∷ xs) = Differs x xs × Distinct xs

-- None of them is in `seen`.
abbrev pub Unseen : List Str → List Str → Type 0
Unseen seen xs = All (λ x. contains x seen ≡ false) xs

-- Each is new to a `seen` that grows by each.
abbrev pub FreshAfter : List Str → List Str → Type 0
FreshAfter seen [] = Unit
FreshAfter seen (x ∷ xs) = (contains x seen ≡ false) × FreshAfter (x ∷ seen) xs

Unseen-cons :
    (x : Str) (seen xs : List Str) → Unseen (x ∷ seen) xs ↔ (Differs x xs × Unseen seen xs)
unfolding contains
Unseen-cons x seen [] = ground arith
Unseen-cons x seen (y ∷ ys) = ground (arith, str_eq_iff x y, Unseen-cons x seen ys)

FreshAfter-iff : (seen xs : List Str) → FreshAfter seen xs ↔ (Distinct xs × Unseen seen xs)
FreshAfter-iff seen [] = ground arith
FreshAfter-iff seen (x ∷ xs) = ground (arith, FreshAfter-iff (x ∷ seen) xs, Unseen-cons x seen xs)

Unseen-nil : (xs : List Str) → Unseen [] xs
unfolding contains
Unseen-nil [] = tt
Unseen-nil (x ∷ xs) = (refl, Unseen-nil xs)

pub FreshAfter-nil : (xs : List Str) → FreshAfter [] xs ↔ Distinct xs
FreshAfter-nil xs =
    ((λ h. ((FreshAfter-iff [] xs).0 h).0), (λ h. (FreshAfter-iff [] xs).1 (h, Unseen-nil xs)))

pub contains_of_Differs : (x : Str) (ys : List Str) → Differs x ys → contains x ys ≡ false
unfolding contains
contains_of_Differs x [] h = refl
contains_of_Differs x (y ∷ ys) h = ground (arith, str_eq_iff y x, contains_of_Differs x ys h.1)
