-- ===== src/Prelude/Text/Decimal.antt =====
-- `%d` of a number that is not negative, and what it stands for.
use Prim.Native.Nat.{ℕ, zero, suc, ◌+◌, ◌-◌, ◌*◌, ◌/◌, ◌%◌, ◌<◌}
use mathlib.Core.List.{[], ◌∷◌, ◌++◌}
use mathlib.Core.Path.{◌≡◌, refl}
use mathlib.Core.Logic.{◌≢◌}
use native.Mathlib.Omega.{arith}
use nexguard.Prelude.Tests.{if◌then◌else◌, ltb, ◌==◌}
use nexguard.Prelude.Lists.{All}
use nexguard.Prelude.Text.{Text}

digits : ℕ → ℕ → Text
digits zero n = []
digits (suc fuel) n =
    let more = digits fuel (n / 10) ++ (48 + n % 10) ∷ [] in
    if ltb n 10 then (48 + n) ∷ [] else more

-- The fuel is enough: each round divides the number by ten.
unfoldable pub decimal : ℕ → Text
unfolding digits
decimal n = digits (suc n) n

unfoldable pub value_from : ℕ → Text → ℕ
value_from n [] = n
value_from n (c ∷ s) = value_from (n * 10 + (c - 48)) s

value_from-snoc :
    (n : ℕ) (s : Text) (c : ℕ) → value_from n (s ++ c ∷ []) ≡ value_from n s * 10 + (c - 48)
unfolding value_from
value_from-snoc n [] c = refl
value_from-snoc n (x ∷ s) c = value_from-snoc (n * 10 + (x - 48)) s c

value_from-digits : (fuel n : ℕ) → n < fuel → value_from 0 (digits fuel n) ≡ n
unfolding digits value_from
value_from-digits zero n h = absurd (omega arith)
value_from-digits (suc fuel) n h =
    ground (
      arith,
      value_from-snoc 0 (digits fuel (n / 10)) (48 + n % 10),
      value_from-digits fuel (n / 10),
    )

-- A printed number reads back.
pub value_from-decimal : (n : ℕ) → value_from 0 (decimal n) ≡ n
unfolding decimal
value_from-decimal n = value_from-digits (suc n) n (omega arith)

-- The part of a text before its first dash, and the part after it.
unfoldable pub before_dash : Text → Text
before_dash [] = []
before_dash (c ∷ s) = let rest = before_dash s in if c == b'-' then [] else c ∷ rest

unfoldable pub after_dash : Text → Text
after_dash [] = []
after_dash (c ∷ s) = let rest = after_dash s in if c == b'-' then s else rest

abbrev Dashless : Text → Type 0
Dashless = All (λ c. c ≢ b'-')

Dashless-snoc : (s : Text) (c : ℕ) → Dashless s → c ≢ b'-' → Dashless (s ++ c ∷ [])
Dashless-snoc [] c h ne = (ne, tt)
Dashless-snoc (x ∷ s) c h ne = (h.0, Dashless-snoc s c h.1 ne)

digits-Dashless : (fuel n : ℕ) → Dashless (digits fuel n)
unfolding digits
digits-Dashless zero n = tt
digits-Dashless (suc fuel) n =
    ground
      (arith, Dashless-snoc (digits fuel (n / 10)) (48 + n % 10) (digits-Dashless fuel (n / 10)))

before_dash-append : (s rest : Text) → Dashless s → before_dash (s ++ b'-' ∷ rest) ≡ s
unfolding before_dash
before_dash-append [] rest h = refl
before_dash-append (c ∷ s) rest h = ground (arith, before_dash-append s rest h.1)

after_dash-append : (s rest : Text) → Dashless s → after_dash (s ++ b'-' ∷ rest) ≡ rest
unfolding after_dash
after_dash-append [] rest h = refl
after_dash-append (c ∷ s) rest h = ground (arith, after_dash-append s rest h.1)

pub before_dash-decimal : (n : ℕ) (rest : Text) → before_dash (decimal n ++ b'-' ∷ rest) ≡ decimal n
unfolding decimal
before_dash-decimal n rest = before_dash-append _ rest (digits-Dashless (suc n) n)

pub after_dash-decimal : (n : ℕ) (rest : Text) → after_dash (decimal n ++ b'-' ∷ rest) ≡ rest
unfolding decimal
after_dash-decimal n rest = after_dash-append _ rest (digits-Dashless (suc n) n)
