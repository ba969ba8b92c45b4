-- ===== src/Release/Dormant/Logs/Whole.antt =====
-- No request drops out of a log that is read.
use zao_rental.Common.{
  ◌<◌, ◌≡◌, ap, subst, ◌∙◌, ◌⊎◌, inl, inr, Bool, true, some, List, [], ◌∷◌, arith, Bool-cases,
  Option-cases, length,
}
use zao_rental.Common.Checked.{passed, Checked-cases}
use zao_rental.Release.Dormant.{RequestLog}
use zao_rental.Release.Dormant.Logs.{
  RawRow, Line, banner, garbled, row, log_limit, read_messages, read_row, read_lines, request_logs,
}

-- The row of a line: its path is that of the request.
abbrev pub AreRows : List Line → List RequestLog → Type 0
AreRows [] [] = Unit
AreRows [] (r ∷ rs) = ⊥
AreRows (banner ∷ ls) rs = AreRows ls rs
AreRows (garbled ∷ ls) rs = ⊥
AreRows (row e ∷ ls) [] = ⊥
AreRows (row e ∷ ls) (r ∷ rs) = (e.request_path ≡ some r.request_path) × AreRows ls rs

read_row-path :
    (e : RawRow) (r : RequestLog) → read_row e ≡ passed r → e.request_path ≡ some r.request_path
unfolding read_row
read_row-path e r h = elim (Option-cases e.request_path) [
  | inl n ↦ absurd (ground (arith, h, n))
  | inr (p, q) ↦ elim (Checked-cases (read_messages e.logs)) [
    | inl (x, m) ↦ absurd (ground (arith, h, q, m))
    | inr (ms, m) ↦ let same : p ≡ r.request_path = ground (arith, h, q, m) in q ∙ ap some same
  ]
]

read_lines-AreRows :
    (ls : List Line) (rs : List RequestLog) → read_lines ls ≡ passed rs → AreRows ls rs
unfolding read_lines
read_lines-AreRows [] [] h = tt
read_lines-AreRows [] (r ∷ rs) h = absurd (ground (arith, h))
read_lines-AreRows (banner ∷ ls) rs h = read_lines-AreRows ls rs h
read_lines-AreRows (garbled ∷ ls) rs h = absurd (cc)
read_lines-AreRows (row e ∷ ls) rs h = elim (Checked-cases (read_row e)) [
  | inl (x, p) ↦ absurd (ground (arith, h, p))
  | inr (r, p) ↦ elim (Checked-cases (read_lines ls)) [
    | inl (x, q) ↦ absurd (ground (arith, h, p, q))
    | inr (out, q) ↦
        let same : r ∷ out ≡ rs = ground (arith, h, p, q) in
        subst (λ x. AreRows (row e ∷ ls) x) same (read_row-path e r p, read_lines-AreRows ls out q)
  ]
]

-- A log that is read has one row for every line that opens an object, in the same order and each with
-- the path of its request; it has fewer rows than the limit, and none only where there was no text.
pub request_logs-AreRows :
    (ls : List Line) (is_blank : Bool) (rs : List RequestLog)
    → request_logs ls is_blank ≡ passed rs
    → AreRows ls rs × (length rs < log_limit) × ((0 < length rs) ⊎ (is_blank ≡ true))
unfolding request_logs
request_logs-AreRows ls is_blank rs h = elim (Checked-cases (read_lines ls)) [
  | inl (x, p) ↦ absurd (ground (arith, h, p))
  | inr (out, p) ↦
      let same : out ≡ rs = ground (arith, h, p) in
      let rows = subst (λ x. AreRows ls x) same (read_lines-AreRows ls out p) in
      let few : length out < log_limit = ground (arith, h, p) in
      (
        rows,
        subst (λ (x : List RequestLog). length x < log_limit) same few,
        elim (Bool-cases is_blank) [
          | inl y ↦ inr y
          | inr n ↦
              let some_ : 0 < length out = ground (arith, h, p, n) in
              inl (subst (λ (x : List RequestLog). 0 < length x) same some_)
        ],
      )
]
