-- ===== src/DateFormat/Digits.antt =====
-- The digits of a number, and the padded fields.
use zmey.Base.{
  ℕ, zero, suc, ◌+◌, ◌/◌, ◌%◌, ◌≤◌, ◌<◌, ◌≡◌, ap, ltb, [], ◌∷◌, ◌++◌, All, arith, if◌then◌else◌,
  inl, inr, Bool-cases,
}
use zmey.DateFormat.{Text, print_digits, to_string, two_digits, three_digits}

-- Digits and the separators of a date come before the letters.
abbrev pub IsPlain : Text → Type 0
IsPlain = All (λ c. c < 64)

pub IsPlain-append : (s t : Text) → IsPlain s → IsPlain t → IsPlain (s ++ t)
IsPlain-append [] t hs ht = ht
IsPlain-append (c ∷ s) t hs ht = (hs.0, IsPlain-append s t hs.1 ht)

print_digits-IsPlain : (fuel n : ℕ) → IsPlain (print_digits fuel n)
unfolding print_digits
print_digits-IsPlain zero n = tt
print_digits-IsPlain (suc fuel) n = elim (Bool-cases (ltb n 10)) [
  | inl small ↦ rw small (ground arith, tt)
  | inr large ↦ rw large (
      IsPlain-append (print_digits fuel (n / 10)) _ (print_digits-IsPlain fuel (n / 10))
        (omega arith, tt))
]

pub to_string-IsPlain : (n : ℕ) → IsPlain (to_string n)
unfolding to_string
to_string-IsPlain n = print_digits-IsPlain (suc n) n

pub two_digits-IsPlain : (s : Text) → IsPlain s → IsPlain (two_digits s)
unfolding two_digits
two_digits-IsPlain [] h = omega arith
two_digits-IsPlain (a ∷ []) h = omega arith
two_digits-IsPlain (a ∷ b ∷ rest) h = h

-- Any two amounts of fuel above the number give the same digits.
print_digits-fuel : (f g n : ℕ) → n < f → n < g → print_digits f n ≡ print_digits g n
unfolding print_digits
print_digits-fuel zero g n hf hg = absurd (omega arith)
print_digits-fuel (suc f) zero n hf hg = absurd (omega arith)
print_digits-fuel (suc f) (suc g) n hf hg = elim (Bool-cases (ltb n 10)) [
  | inl small ↦ rw small
  | inr large ↦ rw large (
      ap (λ (s : Text). s ++ (b'0' + n % 10) ∷ [])
        (print_digits-fuel f g (n / 10) (ground arith) (ground arith)))
]

pub to_string_small : (n : ℕ) → n < 10 → to_string n ≡ (b'0' + n) ∷ []
unfolding to_string
to_string_small n h = ground arith

-- The last digit is split off.
pub to_string_large : (n : ℕ) → 10 ≤ n → to_string n ≡ to_string (n / 10) ++ (b'0' + n % 10) ∷ []
unfolding to_string
to_string_large n h = ground (arith, print_digits-fuel n (suc (n / 10)) (n / 10))

-- A number below 100 is written with its two digits.
two_digits-to_string :
    (n : ℕ) → n < 100 → two_digits (to_string n) ≡ (b'0' + n / 10) ∷ (b'0' + n % 10) ∷ []
unfolding two_digits
two_digits-to_string n h = elim (Bool-cases (ltb n 10)) [
  | inl small ↦ ground (arith, to_string_small n)
  | inr large ↦ ground (arith, to_string_large n, to_string_small (n / 10))
]

-- Milliseconds from 10 to 999 are written with three digits. Below 10 there are only two: the
-- second test of the source sees the zero that the first one has put in front.
pub three_digits-to_string :
    (n : ℕ)
    → n < 1000
    → three_digits (to_string n) ≡ (
        if ltb n 10
        then b'0' ∷ (b'0' + n) ∷ []
        else (b'0' + n / 100) ∷ (b'0' + n / 10 % 10) ∷ (b'0' + n % 10) ∷ [])
unfolding three_digits
three_digits-to_string n h = elim (Bool-cases (ltb n 10)) [
  | inl small ↦ ground (arith, to_string_small n)
  | inr large ↦ elim (Bool-cases (ltb n 100)) [
    | inl medium ↦ ground (arith, to_string_large n, to_string_small (n / 10))
    | inr long ↦
        ground (arith, to_string_large n, to_string_large (n / 10), to_string_small (n / 10 / 10))
  ]
]
