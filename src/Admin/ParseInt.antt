-- ===== src/Admin/ParseInt.antt =====
-- `parseInt(text, 10)` as web/server/static/js/admin.js uses it, on texts with no sign and no
-- leading space: the number that the leading digits write, `none` if there are none.
use zmey.Base.{
  ℕ, zero, suc, ◌+◌, ◌*◌, ◌-◌, ◌/◌, ◌%◌, ◌<◌, ◌≡◌, ap, ◌∙◌, Bool, true, ◌&&◌, leb, ltb, [], ◌∷◌,
  ◌++◌, All, Option, none, some, arith, if◌then◌else◌, inl, inr, Bool-cases,
}
use zmey.DateFormat.{Text, print_digits, to_string}

abbrev pub is_digit : ℕ → Bool
is_digit c = leb b'0' c && leb c b'9'

unfoldable pub digits_value : ℕ → Text → ℕ
digits_value acc [] = acc
digits_value acc (c ∷ s) = if is_digit c then digits_value (10 * acc + (c - b'0')) s else acc

unfoldable pub parse_int : Text → Option ℕ
unfolding digits_value
parse_int [] = none
parse_int (c ∷ s) = if is_digit c then some (digits_value 0 (c ∷ s)) else none

digits_value-append :
    (acc : ℕ) (s : Text) (c : ℕ)
    → All (λ d. is_digit d ≡ true) s
    → is_digit c ≡ true
    → digits_value acc (s ++ c ∷ []) ≡ 10 * digits_value acc s + (c - b'0')
unfolding digits_value
digits_value-append acc [] c h hc = ground arith
digits_value-append acc (d ∷ s) c h hc =
    ground (arith, digits_value-append (10 * acc + (d - b'0')) s c h.1 hc)

parse_int-append :
    (s : Text) (c : ℕ)
    → All (λ d. is_digit d ≡ true) s
    → is_digit c ≡ true
    → parse_int (s ++ c ∷ []) ≡ some (digits_value 0 (s ++ c ∷ []))
unfolding parse_int
parse_int-append [] c h hc = ground arith
parse_int-append (d ∷ s) c h hc = ground arith

All-snoc :
    (s : Text) (c : ℕ)
    → All (λ d. is_digit d ≡ true) s
    → is_digit c ≡ true
    → All (λ d. is_digit d ≡ true) (s ++ c ∷ [])
All-snoc [] c h hc = (hc, tt)
All-snoc (d ∷ s) c h hc = (h.0, All-snoc s c h.1 hc)

-- What the printed digits are.
record Prints (n : ℕ) (s : Text) : Type 0 where
  digits : All (λ d. is_digit d ≡ true) s
  value : digits_value 0 s ≡ n
  parsed : parse_int s ≡ some n

Prints-append : (n : ℕ) (s : Text) → Prints (n / 10) s → Prints n (s ++ (b'0' + n % 10) ∷ [])
Prints-append n s h =
    let c = b'0' + n % 10 in
    let hc : is_digit c ≡ true = ground arith in
    let v = digits_value-append 0 s c h.digits hc in
    record {
      digits = All-snoc s c h.digits hc;
      value = omega (arith, v, h.value);
      parsed = parse_int-append s c h.digits hc ∙ ap some (omega (arith, v, h.value));
    }

Prints-print_digits : (fuel n : ℕ) → n < fuel → Prints n (print_digits fuel n)
unfolding print_digits parse_int
Prints-print_digits zero n h = elim h [ ]
Prints-print_digits (suc fuel) n h = elim (Bool-cases (ltb n 10)) [
  | inl small ↦
      rw small (record { digits = ground arith; value = ground arith; parsed = ground arith })
  | inr large ↦ rw large (
      Prints-append n (print_digits fuel (n / 10))
        (Prints-print_digits fuel (n / 10) (ground arith)))
]

-- `parseInt` reads back what `toString` has written.
pub parse_int-to_string : (n : ℕ) → parse_int (to_string n) ≡ some n
unfolding to_string
parse_int-to_string n = (Prints-print_digits (suc n) n (omega arith)).parsed

pub to_string-digits : (n : ℕ) → All (λ d. is_digit d ≡ true) (to_string n)
unfolding to_string
to_string-digits n = (Prints-print_digits (suc n) n (omega arith)).digits
