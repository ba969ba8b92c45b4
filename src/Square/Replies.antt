-- ===== src/Square/Replies.antt =====
-- What an answer of a call says of the response.
use zao_rental.Common.{ℕ, ◌≡◌, inl, inr, true, some, arith, Option-cases}
use zao_rental.Square.{Response, Fetched, answered, is_success, read_json, replied, reply}

-- The response of a call that was answered with a value.
abbrev pub Answers : {V : Type 0} → Fetched V → V → Type 0
Answers {V} f v =
    (a : Response V) × (f ≡ answered a) × (is_success a.status ≡ true) × (read_json a ≡ some v)

pub reply-replied :
    {V : Type 0} (a : Response V) (status : ℕ) (v : V)
    → reply a ≡ replied status (some v)
    → (is_success a.status ≡ true) × (read_json a ≡ some v)
reply-replied a status v h = elim (Option-cases (read_json a)) [
  | inl n ↦ absurd (ground (arith, h, n))
  | inr (w, e) ↦ (ground (arith, h), ground (arith, h, e))
]
