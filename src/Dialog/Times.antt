-- ===== src/Dialog/Times.antt =====
-- The times of an event as one line of text: `render` in web/client/central_widget/event_dialog.tsx
-- writes each time with a semicolon behind it, `hSubmit` splits the line and drops empty pieces.
use Prim.Native.Char.{Char, code}
use zmey.Base.{
  ◌≡◌, refl, ap, ◌∙◌, ◌==◌, List, [], ◌∷◌, ◌++◌, Bool, true, false, arith, if◌then◌else◌, All, keep,
  String,
}

abbrev pub semicolon : Char → Bool
semicolon ch = code ch == b';'

add_to_head : Char → List String → List String
add_to_head ch [] = String.◌∷◌ ch String.[] ∷ []
add_to_head ch (s ∷ ss) = String.◌∷◌ ch s ∷ ss

-- `s.split(';')`
unfoldable pub split : String → List String
unfolding add_to_head
split String.[] = String.[] ∷ []
split (String.◌∷◌ ch s) = if semicolon ch then String.[] ∷ split s else add_to_head ch (split s)

-- `v.length` as a test
abbrev pub nonempty : String → Bool
nonempty String.[] = false
nonempty (String.◌∷◌ ch s) = true

-- An empty input gives no times; else the pieces of the text that are not empty.
unfoldable pub parse_times : String → List String
unfolding split
parse_times s = if nonempty s then keep nonempty (split s) else []

-- `v + rest`
append : String → String → String
append String.[] t = t
append (String.◌∷◌ ch s) t = String.◌∷◌ ch (append s t)

-- The loop `timeStartOnceOfDay += v + ";"`
unfoldable pub print_times : List String → String
unfolding append
print_times [] = String.[]
print_times (v ∷ vs) = append v (String.◌∷◌ ";" (print_times vs))

-- A time: some characters, no semicolon among them.
abbrev pub is_free : String → Bool
is_free String.[] = true
is_free (String.◌∷◌ ch s) = if semicolon ch then false else is_free s

abbrev pub IsTime : String → Type 0
IsTime v = (nonempty v ≡ true) × (is_free v ≡ true)

split-append :
    (v rest : String) → is_free v ≡ true → split (append v (String.◌∷◌ ";" rest)) ≡ v ∷ split rest
unfolding split append
split-append String.[] rest h = refl
split-append (String.◌∷◌ ch s) rest h = ground (arith, split-append s rest)

split-print_times :
    (vs : List String) → All IsTime vs → split (print_times vs) ≡ vs ++ String.[] ∷ []
unfolding split print_times
split-print_times [] h = refl
split-print_times (v ∷ vs) h =
    ground (arith, split-append v (print_times vs) h.0.1, split-print_times vs h.1)

keep-times : (vs : List String) → All IsTime vs → keep nonempty (vs ++ String.[] ∷ []) ≡ vs
keep-times [] h = refl
keep-times (v ∷ vs) h = ground (arith, keep-times vs h.1)

nonempty-append : (v rest : String) → nonempty v ≡ true → nonempty (append v rest) ≡ true
unfolding append
nonempty-append String.[] rest h = cc
nonempty-append (String.◌∷◌ ch s) rest h = refl

-- The line that the dialog shows for a list of times is read back as that list, provided that
-- no time is empty or holds a semicolon.
pub parse_times-print_times : (vs : List String) → All IsTime vs → parse_times (print_times vs) ≡ vs
unfolding parse_times print_times
parse_times-print_times [] h = refl
parse_times-print_times (v ∷ vs) h =
    rw (nonempty-append v (String.◌∷◌ ";" (print_times vs)) h.0.0)
      (ap (keep nonempty) (split-print_times (v ∷ vs) h) ∙ keep-times (v ∷ vs) h)
