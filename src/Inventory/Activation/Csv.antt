-- ===== src/Inventory/Activation/Csv.antt =====
-- `parseCsvLine` reads back every line of RFC 4180.
use zao_rental.Common.{
  ℕ, ◌≡◌, refl, sym, ap, subst, ◌∙◌, ◌⊎◌, inl, inr, Bool, true, false, ◌||◌, List, [], ◌∷◌, ◌++◌,
  map, arith, ◌==◌, if◌then◌else◌, Bool-cases, any, All,
}
use mathlib.Core.List.{append-nil, append_assoc}
use zao_rental.Inventory.Activation.{quote, comma, scan, parse_csv_line}

-- A field that is written as it is, or in quotes with each of its own quotes doubled.
pub data Cell : Type 0 where
  plain quoted : List ℕ → Cell

abbrev pub text_of : Cell → List ℕ
text_of (plain f) = f
text_of (quoted f) = f

abbrev pub doubled : List ℕ → List ℕ
doubled [] = []
doubled (c ∷ cs) = if c == quote then quote ∷ (quote ∷ doubled cs) else c ∷ doubled cs

abbrev pub is_special : ℕ → Bool
is_special c = c == quote || c == comma

-- A plain field has no quote and no comma; a quoted one may have both.
abbrev pub IsWritable : Cell → Type 0
IsWritable (plain f) = any is_special f ≡ false
IsWritable (quoted f) = Unit {0}

abbrev pub print_cell : Cell → List ℕ → List ℕ
print_cell (plain f) rest = f ++ rest
print_cell (quoted f) rest = quote ∷ (doubled f ++ (quote ∷ rest))

-- The cells after the first, each behind its comma.
abbrev pub print_rest : List Cell → List ℕ
print_rest [] = []
print_rest (x ∷ xs) = comma ∷ print_cell x (print_rest xs)

-- A line of at least one cell.
abbrev pub print_line : Cell → List Cell → List ℕ
print_line x xs = print_cell x (print_rest xs)

-- One character of a plain field.
scan-char :
    (c : ℕ) (acc rest : List ℕ)
    → is_special c ≡ false
    → scan false acc (c ∷ rest) ≡ scan false (acc ++ (c ∷ [])) rest
unfolding scan
scan-char c acc rest h = ground (arith, h)

scan-plain :
    (f acc rest : List ℕ)
    → any is_special f ≡ false
    → scan false acc (f ++ rest) ≡ scan false (acc ++ f) rest
scan-plain [] acc rest h = ap (λ t. scan false t rest) (sym (append-nil acc))
scan-plain (c ∷ cs) acc rest h =
    scan-char c acc (cs ++ rest) (ground (arith, h))
    ∙ scan-plain cs (acc ++ (c ∷ [])) rest (ground (arith, h))
    ∙ ap (λ t. scan false t rest) (append_assoc acc (c ∷ []) cs)

-- A text that does not go on with a quote.
abbrev pub IsEnd : List ℕ → Type 0
IsEnd rest = (rest ≡ []) ⊎ ((cs : List ℕ) × (rest ≡ comma ∷ cs))

scan-close : (acc rest : List ℕ) → IsEnd rest → scan true acc (quote ∷ rest) ≡ scan false acc rest
unfolding scan
scan-close acc rest (inl e) = subst (λ t. scan true acc (quote ∷ t) ≡ scan false acc t) (sym e) refl
scan-close acc rest (inr (cs, e)) =
    subst (λ t. scan true acc (quote ∷ t) ≡ scan false acc t) (sym e) refl

scan-escape :
    (acc rest : List ℕ)
    → scan true acc (quote ∷ (quote ∷ rest)) ≡ scan true (acc ++ (quote ∷ [])) rest
unfolding scan
scan-escape acc rest = refl

scan-inside :
    (c : ℕ) (acc : List ℕ) (d : ℕ) (rest : List ℕ)
    → (c == quote) ≡ false
    → scan true acc (c ∷ (d ∷ rest)) ≡ scan true (acc ++ (c ∷ [])) (d ∷ rest)
unfolding scan
scan-inside c acc d rest h = ground (arith, h)

-- What is written within quotes is not empty, since a quote closes it.
doubled-cons :
    (cs rest : List ℕ) → (d : ℕ) × (ds : List ℕ) × (doubled cs ++ (quote ∷ rest) ≡ d ∷ ds)
doubled-cons [] rest = (quote, rest, refl)
doubled-cons (c ∷ cs) rest = elim (Bool-cases (c == quote)) [
  | inl y ↦ (quote, quote ∷ (doubled cs ++ (quote ∷ rest)), ground (arith, y))
  | inr n ↦ (c, doubled cs ++ (quote ∷ rest), ground (arith, n))
]

scan-quoted :
    (f acc rest : List ℕ)
    → IsEnd rest
    → scan true acc (doubled f ++ (quote ∷ rest)) ≡ scan false (acc ++ f) rest
scan-quoted [] acc rest e =
    scan-close acc rest e ∙ ap (λ t. scan false t rest) (sym (append-nil acc))
scan-quoted (c ∷ cs) acc rest e =
    let ih = scan-quoted cs (acc ++ (c ∷ [])) rest e in
    let joined = ap (λ t. scan false t rest) (append_assoc acc (c ∷ []) cs) in
    elim (Bool-cases (c == quote)) [
      | inl y ↦
          let same : c ≡ quote = ground (arith, y) in
          let written : doubled (c ∷ cs) ++ (quote ∷ rest)
              ≡ quote ∷ (quote ∷ (doubled cs ++ (quote ∷ rest))) =
            ground (arith, y) in
          ap (scan true acc) written
          ∙ scan-escape acc (doubled cs ++ (quote ∷ rest))
          ∙ ap (λ (d : ℕ). scan true (acc ++ (d ∷ [])) (doubled cs ++ (quote ∷ rest))) (sym same)
          ∙ ih
          ∙ joined
      | inr n ↦
          let (d, ds, shape) = doubled-cons cs rest in
          let written : doubled (c ∷ cs) ++ (quote ∷ rest) ≡ c ∷ (doubled cs ++ (quote ∷ rest)) =
            ground (arith, n) in
          ap (scan true acc) written
          ∙ ap (λ t. scan true acc (c ∷ t)) shape
          ∙ scan-inside c acc d ds n
          ∙ ap (scan true (acc ++ (c ∷ []))) (sym shape)
          ∙ ih
          ∙ joined
    ]

open-quote : (rest : List ℕ) → scan false [] (quote ∷ rest) ≡ scan true [] rest
unfolding scan
open-quote rest = refl

scan-cell :
    (x : Cell) (rest : List ℕ)
    → IsWritable x
    → IsEnd rest
    → scan false [] (print_cell x rest) ≡ scan false (text_of x) rest
scan-cell (plain f) rest h e = scan-plain f [] rest h
scan-cell (quoted f) rest h e = open-quote (doubled f ++ (quote ∷ rest)) ∙ scan-quoted f [] rest e

scan-end : (f : List ℕ) → scan false f [] ≡ f ∷ []
unfolding scan
scan-end f = refl

scan-comma : (f rest : List ℕ) → scan false f (comma ∷ rest) ≡ f ∷ scan false [] rest
unfolding scan
scan-comma f rest = refl

print_rest-IsEnd : (xs : List Cell) → IsEnd (print_rest xs)
print_rest-IsEnd [] = inl refl
print_rest-IsEnd (x ∷ xs) = inr (print_cell x (print_rest xs), refl)

-- Every line of cells, each plain or quoted with its quotes doubled, is read as the texts of its cells.
pub parse_csv_line-print :
    (x : Cell) (xs : List Cell)
    → IsWritable x
    → All IsWritable xs
    → parse_csv_line (print_line x xs) ≡ text_of x ∷ map text_of xs
parse_csv_line-print x [] h hs = scan-cell x [] h (inl refl) ∙ scan-end (text_of x)
parse_csv_line-print x (y ∷ ys) h hs =
    scan-cell x (print_rest (y ∷ ys)) h (print_rest-IsEnd (y ∷ ys))
    ∙ scan-comma (text_of x) (print_line y ys)
    ∙ ap (λ t. text_of x ∷ t) (parse_csv_line-print y ys hs.0 hs.1)
