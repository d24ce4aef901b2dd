-- ===== src/NodeRegistry/Config/Getline.antt =====
-- The lines that `std::getline` yields from a text that was made of lines.
use cxl_dis_lock.Common.{
  ℕ, zero, suc, ◌+◌, ◌%◌, ◌/◌, ◌≡◌, arith, refl, ap, ◌∙◌, Bool, true, not, ◌&&◌, ◌==◌, List, [],
  ◌∷◌, ◌++◌, Bytes, false, Bool-cases, inl, inr,
}
use cxl_dis_lock.NodeRegistry.Config.{newline, getlines, before_line}
use cxl_dis_lock.NodeRegistry.Config.Lines.{digits}

-- No byte of the text is a newline.
unfoldable pub on_one_line : Bytes → Bool
on_one_line [] = true
on_one_line (c ∷ s) = not (c == newline) && on_one_line s

pub on_one_line-append :
    (s t : Bytes) → on_one_line s ≡ true → on_one_line t ≡ true → on_one_line (s ++ t) ≡ true
unfolding on_one_line
on_one_line-append [] t hs ht = ht
on_one_line-append (c ∷ s) t hs ht =
    ground (arith, hs, on_one_line-append s t (ground (arith, hs)) ht)

pub on_one_line-digits : (fuel n : ℕ) → on_one_line (digits fuel n) ≡ true
unfolding on_one_line digits
on_one_line-digits zero n = refl
on_one_line-digits (suc fuel) n = ground (
  arith,
  on_one_line-append (digits fuel (n / 10)) ((48 + n % 10) ∷ []) (on_one_line-digits fuel (n / 10))
      (ground arith),
)

-- The text of a file: each line with a newline behind it.
abbrev pub text_of : List Bytes → Bytes
text_of [] = []
text_of (line ∷ lines) = line ++ newline ∷ text_of lines

abbrev pub all_on_one_line : List Bytes → Bool
all_on_one_line [] = true
all_on_one_line (line ∷ lines) = on_one_line line && all_on_one_line lines

getlines-append :
    (line rest : Bytes)
    → on_one_line line ≡ true
    → getlines (line ++ newline ∷ rest) ≡ line ∷ getlines rest
unfolding getlines on_one_line
getlines-append [] rest h = refl
getlines-append (c ∷ line) rest h = ground (arith, h, getlines-append line rest (ground (arith, h)))

pub getlines-text_of :
    (lines : List Bytes) → all_on_one_line lines ≡ true → getlines (text_of lines) ≡ lines
unfolding getlines
getlines-text_of [] h = refl
getlines-text_of (line ∷ lines) h =
    getlines-append line (text_of lines) (ground (arith, h))
    ∙ ap (λ ls. line ∷ ls) (getlines-text_of lines (ground (arith, h)))

before_line-on_one_line :
    (c : ℕ) (lines : List Bytes)
    → (c == newline) ≡ false
    → all_on_one_line lines ≡ true
    → all_on_one_line (before_line c lines) ≡ true
unfolding on_one_line
before_line-on_one_line c [] other h = ground (arith, other)
before_line-on_one_line c (line ∷ lines) other h = ground (arith, other, h)

-- No line that `getlines` yields has a newline in it.
getlines-on_one_line : (s : Bytes) → all_on_one_line (getlines s) ≡ true
unfolding getlines on_one_line
getlines-on_one_line [] = refl
getlines-on_one_line (c ∷ s) =
    let rest = getlines-on_one_line s in
    elim (Bool-cases (c == newline)) [
      | inl e ↦ rw e rest
      | inr e ↦ rw e (before_line-on_one_line c (getlines s) e rest)
    ]
