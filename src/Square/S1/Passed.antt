-- ===== src/Square/S1/Passed.antt =====
-- When the merchant and its location are accepted.
use zao_rental.Common.{
  ℕ, ◌≡◌, ◌≢◌, ◌⊎◌, inl, inr, sym, ◌++◌, All, Bool-cases, refl, ap, ◌∙◌, Bool, true, false, Option,
  none, some, List, [], ◌∷◌, arith, String, str_eq, ◌==◌, length,
}
use text.Mathlib.TextEquality.{eq_iff}
use zao_rental.Common.Checked.{
  Checked, passed, refused, ◌>>=◌, ensure, >>-eq-passed, ensure-eq-passed,
}
use zao_rental.Square.{Fetched}
use zao_rental.Square.S1.{
  merchant_inactive, location_inactive, sandbox_country_mismatch, currency_mismatch,
  location_id_mismatch, merchant_mismatch, Reason, Merchant, Location, Body, needed, identity,
  code_of, active_status, Sent, send, read, check_merchant, matches_of, only_one, check_location,
  check_locations, status_of, s1_pass, conclude, second_call, run,
}

identity-some : (m : Option String) (s : String) → identity m ≡ passed s → m ≡ some s
identity-some none s h = absurd (cc)
identity-some (some t) s h = ground (arith, h)

active_status-some : (m : Option String) (s : String) → active_status m ≡ passed s → m ≡ some s
active_status-some none s h = absurd (cc)
active_status-some (some t) s h = ground (arith, h)

code_of-some : (n : ℕ) (m : Option String) (s : String) → code_of n m ≡ passed s → m ≡ some s
code_of-some n none s h = absurd (cc)
code_of-some n (some t) s h = ground (arith, h)

-- Inversion of a bind that passes.
bound {ℓ} :
    {A B : Type ℓ} (m : Checked Reason A) (k : A → Checked Reason B) (b : B)
    → (m >>= k) ≡ passed b
    → (a : A) × (m ≡ passed a) × (k a ≡ passed b)
bound (passed a) k b h = (a, refl, h)
bound (refused e) k b h = absurd (cc)

-- An active merchant of Japan that trades in yen, with this main location.
abbrev pub IsMerchant : String → String → Body → Type 0
IsMerchant location id b =
    (m : Merchant) × (b.merchant ≡ some m)
    × (m.id ≡ some id)
    × (m.status ≡ some "ACTIVE")
    × (m.country ≡ some "JP")
    × (m.currency ≡ some "JPY")
    × (m.main_location_id ≡ some location)

-- A location that does not carry the identifier.
abbrev pub IsOther : String → Option Location → Type 0
IsOther location m = (k : Location) → m ≡ some k → k.id ≢ some location

-- The list holds this location, which carries the identifier, and besides it none that does.
abbrev pub IsOnly : String → Location → List (Option Location) → Type 0
IsOnly location l ls =
    (before : List (Option Location)) × (after : List (Option Location)) × (ls
      ≡ before ++ some l ∷ after)
    × (l.id ≡ some location)
    × All (IsOther location) before
    × All (IsOther location) after

-- The only location of that identifier: active, of Japan, in yen, and of the merchant.
abbrev pub IsLocation : String → String → Body → Type 0
IsLocation location merchant b =
    (ls : List (Option Location)) × (l : Location) × (b.locations ≡ some ls)
    × IsOnly location l ls
    × (l.status ≡ some "ACTIVE")
    × (l.country ≡ some "JP")
    × (l.currency ≡ some "JPY")
    × (l.merchant_id ≡ some merchant)

-- One element of the loop: it carries the identifier, and the rest gives what is left, or it does not.
matches_of-step :
    (location : String) (k : Location) (ls : List (Option Location)) (found : List Location)
    → matches_of location (some k ∷ ls) ≡ passed found
    → ((k.id ≡ some location)
        × ((rest : List Location) × (found ≡ k ∷ rest) × (matches_of location ls ≡ passed rest)))
      ⊎ ((k.id ≢ some location) × (matches_of location ls ≡ passed found))
matches_of-step location k ls found h =
    let (id, ei, h1) = bound (identity k.id) _ found h in
    let (rest, er, h2) = bound (matches_of location ls) _ found h1 in
    elim (Bool-cases (str_eq id location)) [
      | inl y ↦ inl (
        identity-some k.id id ei ∙ ap some ((eq_iff id location).0 y),
        (rest, ground (arith, h2, y), er),
      )
      | inr n ↦ inr (
        λ e.
            let same : id ≡ location = ground (arith, identity-some k.id id ei, e) in
            absurd (ground (arith, n, (eq_iff id location).1 same)),
        er ∙ ap passed (ground (arith, h2, n)),
      )
    ]

matches_of-none :
    (location : String) (ls : List (Option Location))
    → matches_of location ls ≡ passed []
    → All (IsOther location) ls
matches_of-none location [] h = tt
matches_of-none location (none ∷ ls) h = absurd (cc)
matches_of-none location (some k ∷ ls) h = elim (matches_of-step location k ls [] h) [
  | inl (e, (rest, bad, r)) ↦ absurd (cc)
  | inr (n, r) ↦ (
    λ j e i. let same : k ≡ j = ground (arith, e) in n (ap (λ (m : Location). m.id) same ∙ i),
    matches_of-none location ls r,
  )
]

matches_of-IsOnly :
    (location : String) (l : Location) (ls : List (Option Location))
    → matches_of location ls ≡ passed (l ∷ [])
    → IsOnly location l ls
matches_of-IsOnly location l [] h = absurd (ground (arith, h))
matches_of-IsOnly location l (none ∷ ls) h = absurd (cc)
matches_of-IsOnly location l (some k ∷ ls) h = elim (matches_of-step location k ls (l ∷ []) h) [
  | inl (e, (rest, split, r)) ↦
      let same : k ≡ l = ground (arith, split) in
      let nil : rest ≡ [] = ground (arith, split) in
      (
        [],
        ls,
        ap (λ m. some m ∷ ls) same,
        sym (ap (λ (m : Location). m.id) same) ∙ e,
        tt,
        matches_of-none location ls (r ∙ ap passed nil),
      )
  | inr (n, r) ↦
      let (before, after, e, i, x, y) = matches_of-IsOnly location l ls r in
      (
        some k ∷ before,
        after,
        ap (λ m. some k ∷ m) e,
        i,
        (
          λ j w v. let same : k ≡ j = ground (arith, w) in n (ap (λ (m : Location). m.id) same ∙ v),
          x,
        ),
        y,
      )
]

needed-some {ℓ} : {A : Type ℓ} (m : Option A) (a : A) → needed m ≡ passed a → m ≡ some a
needed-some none a h = absurd (cc)
needed-some (some b) a h = ground (arith, h)

-- A text that was read and then compared.
compared :
    (m : Option String) (s t : String) (e : Reason)
    → m ≡ some s
    → ensure (str_eq s t) e ≡ passed tt
    → m ≡ some t
compared m s t e read same = read ∙ ap some ((eq_iff s t).0 (ensure-eq-passed (str_eq s t) e same))

check_merchant-IsMerchant :
    (location : String) (b : Body) (id : String)
    → check_merchant location b ≡ passed id
    → IsMerchant location id b
unfolding check_merchant
check_merchant-IsMerchant location b id h =
    let (m, e, h1) = bound (needed b.merchant) _ id h in
    let (i, ei, h2) = bound (identity m.id) _ id h1 in
    let (status, es, h3) = bound (active_status m.status) _ id h2 in
    let (country, ec, h4) = bound (code_of 2 m.country) _ id h3 in
    let (currency, ey, h5) = bound (code_of 3 m.currency) _ id h4 in
    let (main, em, h6) = bound (identity m.main_location_id) _ id h5 in
    let (a, h7) = >>-eq-passed (ensure (str_eq status "ACTIVE") merchant_inactive) _ id h6 in
    let (c, h8) = >>-eq-passed (ensure (str_eq country "JP") sandbox_country_mismatch) _ id h7 in
    let (y, h9) = >>-eq-passed (ensure (str_eq currency "JPY") currency_mismatch) _ id h8 in
    let (l, h10) = >>-eq-passed (ensure (str_eq main location) location_id_mismatch) _ id h9 in
    let same : i ≡ id = ground (arith, h10) in
    (
      m,
      needed-some b.merchant m e,
      identity-some m.id i ei ∙ ap some same,
      compared m.status status "ACTIVE" merchant_inactive (active_status-some m.status status es) a,
      compared m.country country "JP" sandbox_country_mismatch (code_of-some 2 m.country country ec)
          c,
      compared m.currency currency "JPY" currency_mismatch (code_of-some 3 m.currency currency ey)
          y,
      compared m.main_location_id main location location_id_mismatch
          (identity-some m.main_location_id main em) l,
    )

only_one-single :
    (is_empty : Bool) (ls : List Location) (l : Location)
    → only_one is_empty ls ≡ passed l
    → ls ≡ l ∷ []
only_one-single is_empty [] l h = absurd (cc)
only_one-single is_empty (k ∷ []) l h = ground (arith, h)
only_one-single is_empty (k ∷ (j ∷ ls)) l h = absurd (cc)

check_locations-IsLocation :
    (location merchant : String) (b : Body)
    → check_locations location merchant b ≡ passed true
    → IsLocation location merchant b
unfolding check_locations check_location
check_locations-IsLocation location merchant b h =
    let (ls, e, h1) = bound (needed b.locations) _ true h in
    let (found, ef, h2) = bound (matches_of location ls) _ true h1 in
    let (l, el, h3) = bound (only_one (length ls == 0) found) _ true h2 in
    let (status, es, h4) = bound (active_status l.status) _ true h3 in
    let (country, ec, h5) = bound (code_of 2 l.country) _ true h4 in
    let (currency, ey, h6) = bound (code_of 3 l.currency) _ true h5 in
    let (owner, eo, h7) = bound (identity l.merchant_id) _ true h6 in
    let (a, h8) = >>-eq-passed (ensure (str_eq status "ACTIVE") location_inactive) _ true h7 in
    let (c, h9) = >>-eq-passed (ensure (str_eq country "JP") sandbox_country_mismatch) _ true h8 in
    let (y, h10) = >>-eq-passed (ensure (str_eq currency "JPY") currency_mismatch) _ true h9 in
    let (o, h11) = >>-eq-passed (ensure (str_eq owner merchant) merchant_mismatch) _ true h10 in
    (
      ls,
      l,
      needed-some b.locations ls e,
      matches_of-IsOnly location l ls
          (ef ∙ ap passed (only_one-single (length ls == 0) found l el)),
      compared l.status status "ACTIVE" location_inactive (active_status-some l.status status es) a,
      compared l.country country "JP" sandbox_country_mismatch (code_of-some 2 l.country country ec)
          c,
      compared l.currency currency "JPY" currency_mismatch (code_of-some 3 l.currency currency ey)
          y,
      compared l.merchant_id owner merchant merchant_mismatch (identity-some l.merchant_id owner eo)
          o,
    )

conclude-pass :
    (n : ℕ) (m l : Option ℕ) (c : Checked Reason Bool)
    → (conclude n m l c).result ≡ s1_pass
    → c ≡ passed true
conclude-pass n m l (refused e) h = absurd (cc)
conclude-pass n m l (passed true) h = refl
conclude-pass n m l (passed false) h = absurd (cc)

second_call-pass :
    (location : String) (http : Option ℕ) (c : Checked Reason String) (s : Sent)
    → (second_call location http c s).result ≡ s1_pass
    → (merchant : String) × (b : Body) × (c ≡ passed merchant)
      × (read s ≡ passed b)
      × IsLocation location merchant b
second_call-pass location http (refused e) s h = absurd (cc)
second_call-pass location http (passed merchant) s h =
    let (b, e, k) =
      bound (read s) (check_locations location merchant) true
        (conclude-pass 2 http (status_of s) (read s >>= check_locations location merchant) h) in
    (merchant, b, refl, e, check_locations-IsLocation location merchant b k)

-- The stage passes only where the first answer names an active merchant of Japan that trades in yen
-- and has the location as its main one, and the second has exactly one location of that identifier,
-- active, of Japan, in yen, and of that merchant.
pub run-IsAccepted :
    (location token : String) (late : Bool) (first : Fetched Body) (late' : Bool)
    (second : Fetched Body)
    → (run location token late first late' second).result ≡ s1_pass
    → (merchant : String) × (a : Body) × (b : Body) × (read (send token late first) ≡ passed a)
      × (read (send token late' second) ≡ passed b)
      × IsMerchant location merchant a
      × IsLocation location merchant b
unfolding run
run-IsAccepted location token late first late' second h =
    let s = send token late first in
    let (merchant, b, c, e, there) =
      second_call-pass location (status_of s) (read s >>= check_merchant location)
        (send token late' second) h in
    let (a, ea, k) = bound (read s) (check_merchant location) merchant c in
    (merchant, a, b, ea, e, check_merchant-IsMerchant location a merchant k, there)
