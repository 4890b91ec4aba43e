-- ===== src/Web/Request/Phone.antt =====
-- internal/web/handlers/consent.go: `normalizePhone` and `checked`.
use nexguard.Prelude.{
  ℕ, ◌≤◌, ◌≡◌, ◌⊎◌, refl, Bool, true, false, ◌&&◌, ◌||◌, [], ◌∷◌, ◌++◌, arith, if◌then◌else◌, ◌==◌,
  leb, length, select, take, drop, All,
}
use nexguard.Prelude.Text.{Text, codes, text_eq}

unfoldable pub is_digit : ℕ → Bool
is_digit c = leb b'0' c && leb c b'9'

unfoldable pub digits_of : Text → Text
digits_of = select (λ c. leb b'0' c && leb c b'9')

unfoldable pub starts_with_one : Text → Bool
starts_with_one [] = false
starts_with_one (c ∷ s) = c == b'1'

unfoldable pub normalize_phone : Text → Text
unfolding digits_of starts_with_one
normalize_phone t =
    let d = digits_of t in
    if length d == 10
    then codes "+1" ++ d
    else if length d == 11 && starts_with_one d
    then b'+' ∷ d
    else []

-- `checked`, given the form's value
unfoldable pub checked : Text → Bool
checked v = text_eq v (codes "on") || text_eq v (codes "1") || text_eq v (codes "true")

-- Digits only.
abbrev pub AreDigits : Text → Type 0
AreDigits = All (λ c. (b'0' ≤ c) × (c ≤ b'9'))

digits_of-AreDigits : (t : Text) → AreDigits (digits_of t)
unfolding digits_of
digits_of-AreDigits [] = tt
digits_of-AreDigits (c ∷ t) = ground (arith, digits_of-AreDigits t)

digits_of-id : (t : Text) → AreDigits t → digits_of t ≡ t
unfolding digits_of
digits_of-id [] h = refl
digits_of-id (c ∷ t) h = ground (arith, digits_of-id t h.1)

-- A normalized number is its own normal form.
pub normalize_phone-normalize_phone :
    (t : Text) → normalize_phone (normalize_phone t) ≡ normalize_phone t
unfolding normalize_phone
normalize_phone-normalize_phone t =
    ground (arith, digits_of-id (digits_of t) (digits_of-AreDigits t))

-- "+1" and ten digits.
abbrev pub IsNumber : Text → Type 0
IsNumber s = (length s ≡ 12) × (take 2 s ≡ codes "+1") × AreDigits (drop 2 s)

IsNumber-of_eleven :
    (d : Text) → AreDigits d → length d ≡ 11 → starts_with_one d ≡ true → IsNumber (b'+' ∷ d)
unfolding starts_with_one
IsNumber-of_eleven [] digits n one = absurd (omega arith)
IsNumber-of_eleven (c ∷ d) digits n one = (omega arith, ground arith, digits.1)

-- A result is empty, or "+1" and ten digits.
normalize_phone_format : (t : Text) → (normalize_phone t ≡ []) ⊎ IsNumber (normalize_phone t)
unfolding normalize_phone
normalize_phone_format t =
    ground (arith, digits_of-AreDigits t, IsNumber-of_eleven (digits_of t) (digits_of-AreDigits t))
