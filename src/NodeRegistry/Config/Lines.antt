-- ===== src/NodeRegistry/Config/Lines.antt =====
-- The parts of the parser of src/node_registry.cpp on texts of a known form: a last byte, a decimal number,
-- a text in quotes.
use mathlib.Core.List.{append-nil, append_assoc}
use cxl_dis_lock.Common.{
  ℕ, zero, suc, ◌+◌, ◌/◌, ◌%◌, ◌^◌, ◌<◌, ◌≡◌, arith, refl, ap, sym, ◌∙◌, Bool, true, false, not,
  ltb, ◌==◌, if◌then◌else◌, [], ◌∷◌, ◌++◌, some, Bytes,
}
use cxl_dis_lock.NodeRegistry.Config.{
  is_space, is_digit, quote, comma, is_empty, trim_start, trim_end, ends_with, pop_back,
  drop_quotes, value_in, scan, stoul,
}

pub trim_end-snoc :
    (xs : Bytes) (c : ℕ) → is_space c ≡ false → trim_end (xs ++ c ∷ []) ≡ xs ++ c ∷ []
unfolding trim_end
trim_end-snoc [] c h = ground (arith, h)
trim_end-snoc (x ∷ []) c h = ground (arith, h)
trim_end-snoc (x ∷ y ∷ xs) c h = ground (arith, trim_end-snoc (y ∷ xs) c h)

pub ends_with-snoc : (d : ℕ) (xs : Bytes) (c : ℕ) → ends_with d (xs ++ c ∷ []) ≡ (c == d)
unfolding ends_with
ends_with-snoc d [] c = refl
ends_with-snoc d (x ∷ []) c = refl
ends_with-snoc d (x ∷ y ∷ xs) c = ends_with-snoc d (y ∷ xs) c

pub pop_back-snoc : (xs : Bytes) (c : ℕ) → pop_back (xs ++ c ∷ []) ≡ xs
unfolding pop_back
pop_back-snoc [] c = refl
pop_back-snoc (x ∷ []) c = refl
pop_back-snoc (x ∷ y ∷ xs) c = ap (λ s. x ∷ s) (pop_back-snoc (y ∷ xs) c)

-- The text has a first byte, and this is not white space.
abbrev pub starts_tight : Bytes → Bool
starts_tight [] = false
starts_tight (c ∷ s) = not (is_space c)

-- A value with a comma after it, and one without.
pub value-comma :
    (v : Bytes)
    → starts_tight v ≡ true
    → trim_end v ≡ v
    → value_in (some (32 ∷ v ++ comma ∷ [])) ≡ drop_quotes v
unfolding trim_start
value-comma [] h tight = ground (arith, h)
value-comma (c ∷ w) h tight = ground (
  arith,
  h,
  tight,
  trim_end-snoc (c ∷ w) comma refl,
  ends_with-snoc comma (c ∷ w) comma,
  pop_back-snoc (c ∷ w) comma,
)

pub value-last :
    (v : Bytes)
    → starts_tight v ≡ true
    → trim_end v ≡ v
    → ends_with comma v ≡ false
    → value_in (some (32 ∷ v)) ≡ drop_quotes v
unfolding trim_start
value-last [] h tight last = ground (arith, h)
value-last (c ∷ w) h tight last = ground (arith, h, tight, last)

pub drop_quotes-quoted : (s : Bytes) → drop_quotes (quote ∷ s ++ quote ∷ []) ≡ s
unfolding pop_back ends_with
drop_quotes-quoted [] = refl
drop_quotes-quoted (c ∷ s) =
    ground (arith, ends_with-snoc quote (c ∷ s) quote, pop_back-snoc (c ∷ s) quote)

-- A number below `10 ^ fuel` in decimal.
unfoldable pub digits : ℕ → ℕ → Bytes
digits zero n = 48 ∷ []
digits (suc fuel) n =
    let rest = digits fuel (n / 10) in
    if ltb n 10 then (48 + n) ∷ [] else rest ++ (48 + n % 10) ∷ []

-- The text begins with a digit.
abbrev pub starts_digit : Bytes → Bool
starts_digit [] = false
starts_digit (c ∷ s) = is_digit c

starts-append : (xs ys : Bytes) → starts_digit xs ≡ true → starts_digit (xs ++ ys) ≡ true
starts-append [] ys h = ground (arith, h)
starts-append (x ∷ xs) ys h = h

pub starts-digits : (fuel n : ℕ) → starts_digit (digits fuel n) ≡ true
unfolding digits
starts-digits zero n = refl
starts-digits (suc fuel) n =
    ground (
      arith,
      starts-append (digits fuel (n / 10)) ((48 + n % 10) ∷ []) (starts-digits fuel (n / 10)),
    )

pub trim_end-digits : (fuel n : ℕ) → trim_end (digits fuel n) ≡ digits fuel n
unfolding digits trim_end
trim_end-digits zero n = refl
trim_end-digits (suc fuel) n =
    ground (arith, trim_end-snoc (digits fuel (n / 10)) (48 + n % 10) (ground arith))

pub scan-digits :
    (fuel n : ℕ) (rest : Bytes) → n < 10 ^ fuel → scan 0 (digits fuel n ++ rest) ≡ scan n rest
unfolding digits scan
scan-digits zero n rest h = ground (arith, h)
scan-digits (suc fuel) n rest h = ground (
  arith,
  append_assoc (digits fuel (n / 10)) ((48 + n % 10) ∷ []) rest,
  scan-digits fuel (n / 10) ((48 + n % 10) ∷ rest) (omega (arith, h)),
)

stoul-scan : (s : Bytes) → starts_digit s ≡ true → scan 0 s < 2 ^ 64 → stoul s ≡ some (scan 0 s)
unfolding stoul trim_start
stoul-scan [] h small = ground (arith, h)
stoul-scan (c ∷ s) h small = ground (arith, h, small)

pub stoul-digits : (n : ℕ) → n < 2 ^ 32 → stoul (digits 10 n) ≡ some n
unfolding scan
stoul-digits n h =
    let value : scan 0 (digits 10 n) ≡ n =
      ap (scan 0) (sym (append-nil (digits 10 n))) ∙ scan-digits 10 n [] (omega (arith, h)) in
    stoul-scan (digits 10 n) (starts-digits 10 n) (rw value (omega (arith, h))) ∙ ap some value

starts_tight-digit : (s : Bytes) → starts_digit s ≡ true → starts_tight s ≡ true
starts_tight-digit [] h = ground (arith, h)
starts_tight-digit (c ∷ s) h = ground (arith, h)

drop_quotes-digit : (s : Bytes) → starts_digit s ≡ true → drop_quotes s ≡ s
drop_quotes-digit [] h = refl
drop_quotes-digit (c ∷ []) h = refl
drop_quotes-digit (c ∷ d ∷ s) h = ground (arith, h)

pub starts_tight-digits : (n : ℕ) → starts_tight (digits 10 n) ≡ true
starts_tight-digits n = starts_tight-digit (digits 10 n) (starts-digits 10 n)

pub drop_quotes-digits : (n : ℕ) → drop_quotes (digits 10 n) ≡ digits 10 n
drop_quotes-digits n = drop_quotes-digit (digits 10 n) (starts-digits 10 n)

is_empty-digit : (s : Bytes) → starts_digit s ≡ true → is_empty s ≡ false
is_empty-digit [] h = ground (arith, h)
is_empty-digit (c ∷ s) h = refl

pub is_empty-digits : (n : ℕ) → is_empty (digits 10 n) ≡ false
is_empty-digits n = is_empty-digit (digits 10 n) (starts-digits 10 n)
