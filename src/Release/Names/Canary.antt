-- ===== src/Release/Names/Canary.antt =====
-- A role's name tells whether it is that of the canary.
use zao_rental.Common.{
  ℕ, ◌≡◌, refl, sym, ap, subst, ◌∙◌, Bool, false, ◌&&◌, List, [], ◌∷◌, ◌++◌, arith, String, ◌==◌,
}
use Prim.Native.String.{◌++◌ as str_append}
use Prim.Native.String.append.{nil, cons}
use Prim.Native.Char.{code}
use zao_rental.Contracts.Flow.{codes}
use zao_rental.Common.Checked.{passed}
use zao_rental.Release.Names.{Service, role_for, suffix_of, is_canary}

codes-append : (s t : String) → codes (str_append s t) ≡ codes s ++ codes t
codes-append String.[] t = ap codes (nil t)
codes-append (String.◌∷◌ c s) t = ap codes (cons c s t) ∙ ap (λ cs. code c ∷ cs) (codes-append s t)

-- The last two characters are `ad`.
abbrev ends_ad : List ℕ → Bool
ends_ad [] = false
ends_ad (a ∷ []) = false
ends_ad (a ∷ b ∷ []) = a == b'a' && b == b'd'
ends_ad (a ∷ b ∷ c ∷ cs) = ends_ad (b ∷ c ∷ cs)

ends_ad-append :
    (xs : List ℕ) (a b : ℕ) (ys : List ℕ) → ends_ad (xs ++ (a ∷ b ∷ ys)) ≡ ends_ad (a ∷ b ∷ ys)
ends_ad-append [] a b ys = refl
ends_ad-append (x ∷ []) a b ys = refl
ends_ad-append (x ∷ y ∷ []) a b ys = refl
ends_ad-append (x ∷ y ∷ z ∷ xs) a b ys = ends_ad-append (y ∷ z ∷ xs) a b ys

suffix-canary : (xs : List ℕ) (v : Service) → ends_ad (xs ++ codes (suffix_of v)) ≡ is_canary v
suffix-canary xs Service.auth = ends_ad-append xs _ _ _
suffix-canary xs Service.ledger = ends_ad-append xs _ _ _
suffix-canary xs Service.hold = ends_ad-append xs _ _ _
suffix-canary xs Service.transfer = ends_ad-append xs _ _ _
suffix-canary xs Service.pricing = ends_ad-append xs _ _ _
suffix-canary xs Service.recommendation = ends_ad-append xs _ _ _
suffix-canary xs Service.operations = ends_ad-append xs _ _ _
suffix-canary xs Service.guest = ends_ad-append xs _ _ _
suffix-canary xs Service.content_read = ends_ad-append xs _ _ _
suffix-canary xs Service.booking_access = ends_ad-append xs _ _ _

role_for-ends :
    (d : String) (v : Service) (r : String)
    → role_for d v ≡ passed r
    → ends_ad (codes r) ≡ is_canary v
unfolding role_for
role_for-ends d v r e =
    let q : str_append d (suffix_of v) ≡ r = ground arith in
    subst (λ x. ends_ad (codes x) ≡ is_canary v) q
      (ap ends_ad (codes-append d (suffix_of v)) ∙ suffix-canary (codes d) v)

-- Two services whose roles have the same name, in whatever databases, are both the canary or neither.
pub role_for-canary :
    (d e : String) (v w : Service) (r : String)
    → role_for d v ≡ passed r
    → role_for e w ≡ passed r
    → is_canary v ≡ is_canary w
role_for-canary d e v w r p q = sym (role_for-ends d v r p) ∙ role_for-ends e w r q
