-- ===== src/Keyring/Decimal.antt =====
-- `str(n)` and `int(s)` on texts of ASCII digits. A text is the list of its code points.
use mnemex.Base.{
  ℕ, zero, suc, ◌+◌, ◌-◌, ◌*◌, ◌/◌, ◌%◌, ◌≤◌, ◌<◌, ◌≡◌, refl, Bool, true, false, ◌&&◌, List, [],
  ◌∷◌, ◌++◌, arith, ltb, leb, if◌then◌else◌, All, All-append, Bool-cases, inl, inr,
}

abbrev pub Text : Type 0
Text = List ℕ

abbrev pub is_digit : ℕ → Bool
is_digit c = leb 48 c && leb c 57

-- The digits of `n`, the last one on its own; `n + 1` rounds are enough.
unfoldable pub decimal_in : ℕ → ℕ → Text
decimal_in zero n = []
decimal_in (suc fuel) n =
    let front = decimal_in fuel (n / 10) in
    if ltb n 10 then (48 + n) ∷ [] else front ++ (48 + n % 10) ∷ []

unfoldable pub decimal : ℕ → Text
unfolding decimal_in
decimal n = decimal_in (suc n) n

-- The number that digits stand for, after those that stand for `acc`.
unfoldable pub number_from : ℕ → Text → ℕ
number_from acc [] = acc
number_from acc (c ∷ s) = number_from (acc * 10 + (c - 48)) s

unfoldable pub number : Text → ℕ
unfolding number_from
number s = number_from 0 s

number_from-append :
    (acc c : ℕ) (s : Text) → number_from acc (s ++ c ∷ []) ≡ number_from acc s * 10 + (c - 48)
unfolding number_from
number_from-append acc c [] = refl
number_from-append acc c (d ∷ s) = number_from-append (acc * 10 + (d - 48)) c s

number-decimal_in : (fuel n : ℕ) → n < fuel → number (decimal_in fuel n) ≡ n
unfolding number decimal_in
number-decimal_in zero n h = absurd (omega arith)
number-decimal_in (suc fuel) n h = elim (Bool-cases (ltb n 10)) [
  | inl small ↦ rw small (omega arith)
  | inr big ↦
      let many : 10 ≤ n = ground arith in
      rw big (
        omega (
          arith,
          number_from-append 0 (48 + n % 10) (decimal_in fuel (n / 10)),
          number-decimal_in fuel (n / 10) (omega arith),
        ))
]

pub number-decimal : (n : ℕ) → number (decimal n) ≡ n
unfolding decimal
number-decimal n = number-decimal_in (suc n) n (omega arith)

abbrev pub AllDigits : Text → Type 0
AllDigits s = All (λ c. is_digit c ≡ true) s

decimal_in-AllDigits : (fuel n : ℕ) → AllDigits (decimal_in fuel n)
unfolding decimal_in
decimal_in-AllDigits zero n = tt
decimal_in-AllDigits (suc fuel) n = elim (Bool-cases (ltb n 10)) [
  | inl small ↦ rw small ((let d : is_digit (48 + n) ≡ true = ground arith in d), tt)
  | inr big ↦ rw big (
      All-append (λ c. is_digit c ≡ true) (decimal_in fuel (n / 10)) ((48 + n % 10) ∷ [])
        (decimal_in-AllDigits fuel (n / 10))
        ((let d : is_digit (48 + n % 10) ≡ true = ground arith in d), tt))
]

pub decimal-AllDigits : (n : ℕ) → AllDigits (decimal n)
unfolding decimal
decimal-AllDigits n = decimal_in-AllDigits (suc n) n

-- A text of digits with no leading zero, as `[1-9][0-9]*` wants it.
abbrev pub leads : Text → Bool
leads [] = false
leads (c ∷ s) = leb 49 c && leb c 57

leads-append : (s t : Text) → leads s ≡ true → leads (s ++ t) ≡ true
leads-append [] t h = cc
leads-append (c ∷ s) t h = h

decimal_in-leads : (fuel n : ℕ) → n < fuel → 1 ≤ n → leads (decimal_in fuel n) ≡ true
unfolding decimal_in
decimal_in-leads zero n h p = absurd (omega arith)
decimal_in-leads (suc fuel) n h p = elim (Bool-cases (ltb n 10)) [
  | inl small ↦ rw small (let d : leads ((48 + n) ∷ []) ≡ true = ground arith in d)
  | inr big ↦
      let many : 10 ≤ n = ground arith in
      rw big (
        leads-append (decimal_in fuel (n / 10)) ((48 + n % 10) ∷ [])
          (decimal_in-leads fuel (n / 10) (omega arith) (omega arith)))
]

pub decimal-leads : (n : ℕ) → 1 ≤ n → leads (decimal n) ≡ true
unfolding decimal
decimal-leads n = decimal_in-leads (suc n) n (omega arith)
