-- ===== src/Prelude/Text.antt =====
-- A Go string is a sequence of bytes: equality, order, prefixes, white space and decimals.
use Prim.Native.Nat.{ℕ}
use Prim.Native.Char.{code}
use Prim.Native.String.{String}
use mathlib.Core.Path.{◌≡◌, refl}
use mathlib.Core.Logic.{◌↔◌}
use mathlib.Core.Bool.{Bool, true, false, ◌&&◌, ◌||◌}
use mathlib.Core.List.{reverse, List, [], ◌∷◌}
use native.Mathlib.Omega.{arith}
use kubetraffic.Prelude.Tests.{ltb, leb, ◌==◌, if◌then◌else◌}

abbrev pub Str : Type 0
Str = List ℕ

-- The bytes of an ASCII literal.
abbrev pub bytes : String → Str
bytes String.[] = []
bytes (String.◌∷◌ c s) = code c ∷ bytes s

unfoldable pub str_eq : Str → Str → Bool
str_eq [] [] = true
str_eq (a ∷ s) (b ∷ t) = (a == b) && str_eq s t
str_eq _ _ = false

pub str_eq_sound : (s t : Str) → str_eq s t ≡ true → s ≡ t
unfolding str_eq
str_eq_sound [] [] h = refl
str_eq_sound [] (b ∷ t) h = cc
str_eq_sound (a ∷ s) [] h = cc
str_eq_sound (a ∷ s) (b ∷ t) h = ground (arith, str_eq_sound s t)

pub str_eq_refl : (s : Str) → str_eq s s ≡ true
unfolding str_eq
str_eq_refl [] = refl
str_eq_refl (a ∷ s) = ground (arith, str_eq_refl s)

pub str_eq_iff : (s t : Str) → (str_eq s t ≡ true) ↔ (s ≡ t)
str_eq_iff s t = (str_eq_sound s t, λ e. rw e (str_eq_refl t))

-- Go's `<` on strings: byte by byte.
unfoldable pub str_ltb : Str → Str → Bool
str_ltb [] [] = false
str_ltb [] (b ∷ t) = true
str_ltb (a ∷ s) [] = false
str_ltb (a ∷ s) (b ∷ t) = ltb a b || ((a == b) && str_ltb s t)

-- `strings.HasPrefix(s, p)`.
unfoldable pub has_prefix : Str → Str → Bool
has_prefix s [] = true
has_prefix [] (b ∷ p) = false
has_prefix (a ∷ s) (b ∷ p) = (a == b) && has_prefix s p

-- `unicode.IsSpace` on a rune of one, two or three bytes.
abbrev is_space1 : ℕ → Bool
is_space1 a = (leb 9 a && leb a 13) || (a == 32)

abbrev is_space2 : ℕ → ℕ → Bool
is_space2 a b = (a == 0xc2) && ((b == 0x85) || (b == 0xa0))

abbrev is_space3 : ℕ → ℕ → ℕ → Bool
is_space3 a b c =
    (((a == 0xe1) && (b == 0x9a)) && (c == 0x80))
    || ((((a == 0xe2) && (b == 0x80))
          && ((leb 0x80 c && leb c 0x8a) || ((c == 0xa8) || ((c == 0xa9) || (c == 0xaf)))))
        || ((((a == 0xe2) && (b == 0x81)) && (c == 0x9f))
            || (((a == 0xe3) && (b == 0x80)) && (c == 0x80))))

-- `strings.TrimSpace(s) == ""`: what is left when the white space at the head is gone.
unfoldable pub trim_left_space : Str → Str
trim_left_space [] = []
trim_left_space (a ∷ []) = if is_space1 a then [] else a ∷ []
trim_left_space (a ∷ b ∷ []) =
    let one = trim_left_space (b ∷ []) in
    if is_space1 a then one else if is_space2 a b then [] else a ∷ b ∷ []
trim_left_space (a ∷ b ∷ c ∷ s) =
    let one = trim_left_space (b ∷ c ∷ s) in
    let two = trim_left_space (c ∷ s) in
    let three = trim_left_space s in
    if is_space1 a
    then one
    else if is_space2 a b
    then two
    else if is_space3 a b c
    then three
    else a ∷ b ∷ c ∷ s

-- The same at the end of a text, which is given last byte first.
unfoldable pub trim_end_space : Str → Str
trim_end_space [] = []
trim_end_space (a ∷ []) = if is_space1 a then [] else a ∷ []
trim_end_space (a ∷ b ∷ []) =
    let one = trim_end_space (b ∷ []) in
    if is_space1 a then one else if is_space2 b a then [] else a ∷ b ∷ []
trim_end_space (a ∷ b ∷ c ∷ s) =
    let one = trim_end_space (b ∷ c ∷ s) in
    let two = trim_end_space (c ∷ s) in
    let three = trim_end_space s in
    if is_space1 a
    then one
    else if is_space2 b a
    then two
    else if is_space3 c b a
    then three
    else a ∷ b ∷ c ∷ s

-- `strings.TrimSpace(s)`
unfoldable pub trim_space : Str → Str
unfolding trim_left_space trim_end_space
trim_space s = reverse (trim_end_space (reverse (trim_left_space s)))

abbrev pub is_nil : Str → Bool
is_nil [] = true
is_nil (a ∷ s) = false

unfoldable pub is_blank : Str → Bool
unfolding trim_left_space
is_blank s = is_nil (trim_left_space s)

pub is_nil_iff : (s : Str) → (is_nil s ≡ true) ↔ (s ≡ [])
is_nil_iff [] = ground arith
is_nil_iff (a ∷ s) = ground arith
