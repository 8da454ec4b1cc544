-- ===== src/DateFormat.antt =====
-- `dateFormat` of web/client/common/common.tsx, of which web/server/static/js/admin.js has a copy.
-- A text is the list of its character codes, a Date the numbers that its getters return.
pub mod Digits
pub mod Pattern
use zmey.Base.{
  ℕ, zero, suc, ◌+◌, ◌-◌, ◌/◌, ◌%◌, ◌==◌, ltb, Bool, true, false, ◌&&◌, List, [], ◌∷◌, ◌++◌,
  if◌then◌else◌, length,
}

abbrev pub Text : Type 0
Text = List ℕ

pub record Date : Type 0 where
  pub full_year : ℕ
  pub month : ℕ
  pub date : ℕ
  pub hours : ℕ
  pub minutes : ℕ
  pub seconds : ℕ
  pub milliseconds : ℕ

-- `n.toString()`, the digits of `n`. One step for each digit: `n + 1` steps are enough.
unfoldable pub print_digits : ℕ → ℕ → Text
print_digits zero n = []
print_digits (suc fuel) n =
    let tens = print_digits fuel (n / 10) in
    if ltb n 10 then (b'0' + n) ∷ [] else tens ++ (b'0' + n % 10) ∷ []

unfoldable pub to_string : ℕ → Text
unfolding print_digits
to_string n = print_digits (suc n) n

-- `mm[1] ? mm : "0" + mm[0]`
unfoldable pub two_digits : Text → Text
two_digits [] = b'0' ∷ []
two_digits (a ∷ []) = b'0' ∷ a ∷ []
two_digits (a ∷ b ∷ rest) = a ∷ b ∷ rest

-- `if (!ms[2]) ms = "0" + ms; if (!ms[1]) ms = "00" + ms;`
unfoldable pub pad_third : Text → Text
pad_third (a ∷ b ∷ c ∷ rest) = a ∷ b ∷ c ∷ rest
pad_third ms = b'0' ∷ ms

unfoldable pub pad_second : Text → Text
pad_second (a ∷ b ∷ rest) = a ∷ b ∷ rest
pad_second ms = b'0' ∷ b'0' ∷ ms

unfoldable pub three_digits : Text → Text
unfolding pad_third pad_second
three_digits ms = pad_second (pad_third ms)

unfoldable pub starts_with : Text → Text → Bool
starts_with [] s = true
starts_with (p ∷ ps) [] = false
starts_with (p ∷ ps) (c ∷ s) = p == c && starts_with ps s

-- `s.replace(/pattern/g, text)`; `skip` characters belong to a match that is replaced already.
unfoldable pub replace_from : ℕ → Text → Text → Text → Text
unfolding starts_with
replace_from skip pattern_text text [] = []
replace_from (suc k) pattern_text text (c ∷ s) = replace_from k pattern_text text s
replace_from zero pattern_text text (c ∷ s) = elim (starts_with pattern_text (c ∷ s)) [
  | true ↦ text ++ replace_from (length pattern_text - 1) pattern_text text s
  | false ↦ c ∷ replace_from zero pattern_text text s
]

abbrev pub replace : Text → Text → Text → Text
replace = replace_from 0

unfoldable pub date_format : Date → Text → Text
date_format d format =
    let f₁ = replace (b'y' ∷ b'y' ∷ b'y' ∷ b'y' ∷ []) (to_string d.full_year) format in
    let f₂ = replace (b'm' ∷ b'm' ∷ []) (two_digits (to_string (suc d.month))) f₁ in
    let f₃ = replace (b'd' ∷ b'd' ∷ []) (two_digits (to_string d.date)) f₂ in
    let f₄ = replace (b'h' ∷ b'h' ∷ []) (two_digits (to_string d.hours)) f₃ in
    let f₅ = replace (b'i' ∷ b'i' ∷ []) (two_digits (to_string d.minutes)) f₄ in
    let f₆ = replace (b's' ∷ b's' ∷ []) (two_digits (to_string d.seconds)) f₅ in
    replace (b'm' ∷ b's' ∷ []) (three_digits (to_string d.milliseconds)) f₆
