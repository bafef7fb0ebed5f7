-- ===== src/Proxy/Reading/Words.antt =====
-- Words and lines of a text that is put together from parts.
use mathlib.Core.List.{append_assoc, append-nil}
use kubetraffic.Prelude.{
  Bool, true, not, ◌&&◌, ◌==◌, All-append, ℕ, suc, ◌≡◌, ◌≢◌, refl, sym, ap, ◌∙◌, false, Str, List,
  [], ◌∷◌, ◌++◌, All, is_nil, decimal, decimal-IsDigit, is_nil-decimal, IsDigit, format_int, arith,
}
use kubetraffic.Prelude.Int.{ℤ, pos, negsuc}
use kubetraffic.Proxy.Reading.{words_from, lines_from}

abbrev pub IsInline : ℕ → Type 0
IsInline c = c ≢ 10

abbrev pub IsInWord : ℕ → Type 0
IsInWord c = (c ≢ 10) × (c ≢ 32)

-- A text with no line break, and one that is a single word.
abbrev pub IsLine : Str → Type 0
IsLine s = All IsInline s

pub record IsWord (s : Str) : Type 0 where
  pub full : is_nil s ≡ false
  pub inner : All IsInWord s

pub words_push :
    (w a rest : Str) → All IsInWord a → words_from w (a ++ rest) ≡ words_from (w ++ a) rest
unfolding words_from
words_push w [] rest h = ap (λ x. words_from x rest) (sym (append-nil w))
words_push w (c ∷ a) rest ((line, blank), h) =
    ground (arith, words_push (w ++ c ∷ []) a rest h, append_assoc w (c ∷ []) a)

pub words_word :
    (a rest : Str) → IsWord a → words_from [] (a ++ (32 ∷ rest)) ≡ a ∷ words_from [] rest
words_word a rest h = words_push [] a (32 ∷ rest) h.inner ∙ unfold words_from in rw h.full refl

pub lines_push : (l a rest : Str) → IsLine a → lines_from l (a ++ rest) ≡ lines_from (l ++ a) rest
unfolding lines_from
lines_push l [] rest h = ap (λ x. lines_from x rest) (sym (append-nil l))
lines_push l (c ∷ a) rest (line, h) =
    ground (arith, lines_push (l ++ c ∷ []) a rest h, append_assoc l (c ∷ []) a)

-- Lines, each with a break before it, and then a rest.
abbrev pub with_lines : List Str → Str → Str
with_lines [] rest = rest
with_lines (l ∷ ls) rest = 10 ∷ (l ++ with_lines ls rest)

pub lines-with_lines :
    (l : Str) (ls : List Str) → All IsLine ls → lines_from l (with_lines ls []) ≡ l ∷ ls
unfolding lines_from
lines-with_lines l [] h = refl
lines-with_lines l (m ∷ ls) (line, h) =
    ap (λ t. l ∷ t) (lines_push [] m (with_lines ls []) line ∙ lines-with_lines m ls h)

pub with_lines-append :
    (xs ys : List Str) (rest : Str)
    → with_lines (xs ++ ys) rest ≡ with_lines xs (with_lines ys rest)
with_lines-append [] ys rest = refl
with_lines-append (x ∷ xs) ys rest = ap (λ t. 10 ∷ (x ++ t)) (with_lines-append xs ys rest)

pub IsLine-of_inner : (s : Str) → All IsInWord s → IsLine s
IsLine-of_inner [] h = tt
IsLine-of_inner (c ∷ s) ((line, blank), h) = (line, IsLine-of_inner s h)

digits_inner : (s : Str) → All IsDigit s → All IsInWord s
digits_inner [] h = tt
digits_inner (c ∷ s) (d, h) = (((λ e. omega (arith, e)), (λ e. omega (arith, e))), digits_inner s h)

pub decimal-IsWord : (n : ℕ) → IsWord (decimal n)
decimal-IsWord n = record {
  full = is_nil-decimal n;
  inner = digits_inner (decimal n) (decimal-IsDigit n);
}

pub format_int-IsWord : (n : ℤ) → IsWord (format_int n)
unfolding format_int
format_int-IsWord (pos n) = decimal-IsWord n
format_int-IsWord (negsuc n) = record {
  full = refl;
  inner = (((λ e. omega (arith, e)), (λ e. omega (arith, e))), (decimal-IsWord (suc n)).inner);
}

pub words_last : (a : Str) → IsWord a → words_from [] a ≡ a ∷ []
words_last a h =
    ap (words_from []) (sym (append-nil a))
    ∙ (words_push [] a [] h.inner ∙ unfold words_from in rw h.full refl)

-- A name, a colon and a number make one word.
is_nil-append : (a b : Str) → is_nil a ≡ false → is_nil (a ++ b) ≡ false
is_nil-append [] b h = cc
is_nil-append (c ∷ a) b h = refl

pub IsWord-colon : (a b : Str) → IsWord a → IsWord b → IsWord (a ++ (58 ∷ b))
IsWord-colon a b h k = record {
  full = is_nil-append a (58 ∷ b) h.full;
  inner =
      All-append IsInWord a (58 ∷ b) h.inner
        (((λ e. omega (arith, e)), (λ e. omega (arith, e))), k.inner);
}

-- A text without a line break, by a test.
abbrev pub is_inline : Str → Bool
is_inline [] = true
is_inline (c ∷ s) = not (c == 10) && is_inline s

pub IsLine-of_test : (s : Str) → is_inline s ≡ true → IsLine s
IsLine-of_test [] h = tt
IsLine-of_test (c ∷ s) h = ((λ e. ground (arith, h, e)), IsLine-of_test s (ground (arith, h)))

pub IsLine-append : (s t : Str) → IsLine s → IsLine t → IsLine (s ++ t)
IsLine-append s t h k = All-append IsInline s t h k

pub IsLine-after : (s t : Str) → is_inline s ≡ true → IsLine t → IsLine (s ++ t)
IsLine-after s t h k = IsLine-append s t (IsLine-of_test s h) k

-- A text that can stand in a word, by a test.
abbrev pub is_in_word : Str → Bool
is_in_word [] = true
is_in_word (c ∷ s) = not (c == 10) && (not (c == 32) && is_in_word s)

pub inner-of_test : (s : Str) → is_in_word s ≡ true → All IsInWord s
inner-of_test [] h = tt
inner-of_test (c ∷ s) h = (
  ((λ e. ground (arith, h, e)), (λ e. ground (arith, h, e))),
  inner-of_test s (ground (arith, h)),
)
