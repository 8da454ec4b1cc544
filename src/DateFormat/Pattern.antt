-- ===== src/DateFormat/Pattern.antt =====
-- What `dateFormat` makes of the pattern that the client uses.
use zmey.Base.{Bool, true, false, ℕ, suc, ◌<◌, ◌≡◌, refl, sym, ap, ◌∙◌, [], ◌∷◌, ◌++◌, arith}
use mathlib.Core.List.{append_assoc, append-nil}
use zmey.DateFormat.{
  Text, Date, to_string, two_digits, three_digits, replace_from, replace, date_format,
}
use zmey.DateFormat.Digits.{IsPlain, IsPlain-append, to_string-IsPlain, two_digits-IsPlain}

-- No match begins in a plain text if the pattern begins with a letter.
replace-append :
    (p : ℕ) (ps text pre rest : Text)
    → 64 < p
    → IsPlain pre
    → replace_from 0 (p ∷ ps) text (pre ++ rest) ≡ pre ++ replace_from 0 (p ∷ ps) text rest
unfolding replace_from
replace-append p ps text [] rest hp h = refl
replace-append p ps text (c ∷ pre) rest hp h =
    ground (arith, replace-append p ps text pre rest hp h.1)

-- One `replace`, where `pre` is written already: `out` is what it makes of the front of the rest.
replace-field :
    (p : ℕ) (ps text pre rest out rest' : Text)
    → 64 < p
    → IsPlain pre
    → replace_from 0 (p ∷ ps) text rest ≡ out ++ rest'
    → replace_from 0 (p ∷ ps) text (pre ++ rest) ≡ pre ++ out ++ rest'
replace-field p ps text pre rest out rest' hp h e =
    replace-append p ps text pre rest hp h
    ∙ ap (λ (t : Text). pre ++ t) e
    ∙ sym (append_assoc pre out rest')

-- yyyy-mm-dd hh:ii:ss, from the end, with `.ms` behind it or not.
abbrev tail : Bool → Text
tail true = b'.' ∷ b'm' ∷ b's' ∷ []
tail false = []

abbrev from_seconds : Bool → Text
from_seconds ms = b':' ∷ b's' ∷ b's' ∷ tail ms

abbrev from_minutes : Bool → Text
from_minutes ms = b':' ∷ b'i' ∷ b'i' ∷ from_seconds ms

abbrev from_hours : Bool → Text
from_hours ms = b' ' ∷ b'h' ∷ b'h' ∷ from_minutes ms

abbrev from_date : Bool → Text
from_date ms = b'-' ∷ b'd' ∷ b'd' ∷ from_hours ms

abbrev from_month : Bool → Text
from_month ms = b'-' ∷ b'm' ∷ b'm' ∷ from_date ms

abbrev pattern : Bool → Text
pattern ms = b'y' ∷ b'y' ∷ b'y' ∷ b'y' ∷ from_month ms

abbrev pub pattern_seconds : Text
pattern_seconds = pattern false

abbrev pub pattern_milliseconds : Text
pattern_milliseconds = pattern true

-- What stands behind the seconds.
abbrev last : Bool → Text → Text
last true text = b'.' ∷ text
last false text = []

-- The calls of `replace`, one after the other; `pre` is what they leave in front.
module _ (ms : Bool) (text pre : Text) (h : IsPlain pre) where
  replace_year : replace (b'y' ∷ b'y' ∷ b'y' ∷ b'y' ∷ []) text (pattern ms) ≡ text ++ from_month ms
  unfolding replace_from
  replace_year =
      elim ms
        as (λ k. replace (b'y' ∷ b'y' ∷ b'y' ∷ b'y' ∷ []) text (pattern k) ≡ text ++ from_month k) [
          | true ↦ refl
          | false ↦ refl
        ]

  replace_month :
      replace (b'm' ∷ b'm' ∷ []) text (pre ++ from_month ms) ≡ pre ++ b'-' ∷ text ++ from_date ms
  unfolding replace_from
  replace_month =
      replace-field b'm' _ text pre (from_month ms) (b'-' ∷ text) (from_date ms) (omega arith) h
        (elim ms
          as (λ k. replace (b'm' ∷ b'm' ∷ []) text (from_month k) ≡ b'-' ∷ text ++ from_date k) [
            | true ↦ refl
            | false ↦ refl
          ])

  replace_date :
      replace (b'd' ∷ b'd' ∷ []) text (pre ++ from_date ms) ≡ pre ++ b'-' ∷ text ++ from_hours ms
  unfolding replace_from
  replace_date =
      replace-field b'd' _ text pre (from_date ms) (b'-' ∷ text) (from_hours ms) (omega arith) h
        (elim ms
          as (λ k. replace (b'd' ∷ b'd' ∷ []) text (from_date k) ≡ b'-' ∷ text ++ from_hours k) [
            | true ↦ refl
            | false ↦ refl
          ])

  replace_hours :
      replace (b'h' ∷ b'h' ∷ []) text (pre ++ from_hours ms) ≡ pre ++ b' ' ∷ text ++ from_minutes ms
  unfolding replace_from
  replace_hours =
      replace-field b'h' _ text pre (from_hours ms) (b' ' ∷ text) (from_minutes ms) (omega arith) h
        (elim ms
          as (λ k. replace (b'h' ∷ b'h' ∷ []) text (from_hours k) ≡ b' ' ∷ text ++ from_minutes k) [
            | true ↦ refl
            | false ↦ refl
          ])

  replace_minutes :
      replace (b'i' ∷ b'i' ∷ []) text (pre ++ from_minutes ms)
      ≡ pre ++ b':' ∷ text ++ from_seconds ms
  unfolding replace_from
  replace_minutes =
      replace-field b'i' _ text pre (from_minutes ms) (b':' ∷ text) (from_seconds ms) (omega arith)
        h
        (elim ms
          as (λ k.
            replace (b'i' ∷ b'i' ∷ []) text (from_minutes k) ≡ b':' ∷ text ++ from_seconds k) [
              | true ↦ refl
              | false ↦ refl
            ])

  replace_seconds :
      replace (b's' ∷ b's' ∷ []) text (pre ++ from_seconds ms) ≡ pre ++ b':' ∷ text ++ tail ms
  unfolding replace_from
  replace_seconds =
      replace-field b's' _ text pre (from_seconds ms) (b':' ∷ text) (tail ms) (omega arith) h
        (elim ms
          as (λ k. replace (b's' ∷ b's' ∷ []) text (from_seconds k) ≡ b':' ∷ text ++ tail k) [
            | true ↦ refl
            | false ↦ refl
          ])

  replace_milliseconds : replace (b'm' ∷ b's' ∷ []) text (pre ++ tail ms) ≡ pre ++ last ms text
  unfolding replace_from
  replace_milliseconds =
      replace-append b'm' _ text pre (tail ms) (omega arith) h
      ∙ ap (λ (t : Text). pre ++ t)
          (elim ms as (λ k. replace (b'm' ∷ b's' ∷ []) text (tail k) ≡ last k text) [
            | true ↦ ap (λ (t : Text). b'.' ∷ t) (append-nil text)
            | false ↦ refl
          ])

abbrev field : ℕ → Text
field n = two_digits (to_string n)

field-IsPlain : (pre : Text) (sep n : ℕ) → IsPlain pre → sep < 64 → IsPlain (pre ++ sep ∷ field n)
field-IsPlain pre sep n h hs =
    IsPlain-append pre (sep ∷ field n) h
      (hs, two_digits-IsPlain (to_string n) (to_string-IsPlain n))

date_format_lem :
    (ms : Bool) (d : Date)
    → date_format d (pattern ms)
      ≡ to_string d.full_year
        ++ b'-' ∷ two_digits (to_string (suc d.month))
        ++ b'-' ∷ two_digits (to_string d.date)
        ++ b' ' ∷ two_digits (to_string d.hours)
        ++ b':' ∷ two_digits (to_string d.minutes)
        ++ b':' ∷ two_digits (to_string d.seconds)
        ++ last ms (three_digits (to_string d.milliseconds))
unfolding date_format
date_format_lem ms d =
    let p₁ = to_string d.full_year in
    let h₁ = to_string-IsPlain d.full_year in
    let p₂ = p₁ ++ b'-' ∷ field (suc d.month) in
    let h₂ = field-IsPlain p₁ b'-' (suc d.month) h₁ (omega arith) in
    let p₃ = p₂ ++ b'-' ∷ field d.date in
    let h₃ = field-IsPlain p₂ b'-' d.date h₂ (omega arith) in
    let p₄ = p₃ ++ b' ' ∷ field d.hours in
    let h₄ = field-IsPlain p₃ b' ' d.hours h₃ (omega arith) in
    let p₅ = p₄ ++ b':' ∷ field d.minutes in
    let h₅ = field-IsPlain p₄ b':' d.minutes h₄ (omega arith) in
    let p₆ = p₅ ++ b':' ∷ field d.seconds in
    let h₆ = field-IsPlain p₅ b':' d.seconds h₅ (omega arith) in
    rw (
      replace_year ms p₁ [] tt,
      replace_month ms (field (suc d.month)) p₁ h₁,
      replace_date ms (field d.date) p₂ h₂,
      replace_hours ms (field d.hours) p₃ h₃,
      replace_minutes ms (field d.minutes) p₄ h₄,
      replace_seconds ms (field d.seconds) p₅ h₅,
      replace_milliseconds ms (three_digits (to_string d.milliseconds)) p₆ h₆,
    )

-- With the pattern yyyy-mm-dd hh:ii:ss year, month, day, hours, minutes and seconds stand in
-- this order with its separators, each but the year padded by the rule for two digits; the
-- month is counted from 1.
pub date_format-seconds :
    (d : Date)
    → date_format d pattern_seconds
      ≡ to_string d.full_year
        ++ b'-' ∷ two_digits (to_string (suc d.month))
        ++ b'-' ∷ two_digits (to_string d.date)
        ++ b' ' ∷ two_digits (to_string d.hours)
        ++ b':' ∷ two_digits (to_string d.minutes)
        ++ b':' ∷ two_digits (to_string d.seconds)
        ++ []
date_format-seconds d = date_format_lem false d

-- With the pattern yyyy-mm-dd hh:ii:ss.ms the milliseconds stand behind these and a dot, padded by
-- the rule for three digits.
pub date_format-milliseconds :
    (d : Date)
    → date_format d pattern_milliseconds
      ≡ to_string d.full_year
        ++ b'-' ∷ two_digits (to_string (suc d.month))
        ++ b'-' ∷ two_digits (to_string d.date)
        ++ b' ' ∷ two_digits (to_string d.hours)
        ++ b':' ∷ two_digits (to_string d.minutes)
        ++ b':' ∷ two_digits (to_string d.seconds)
        ++ b'.' ∷ three_digits (to_string d.milliseconds)
date_format-milliseconds d = date_format_lem true d
