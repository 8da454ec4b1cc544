-- ===== src/App/Page.antt =====
-- The status line of web/client/app.tsx, and the settings of an object that the server sends as a
-- text.
use zmey.Base.{Bool, true, false, Option, [], ◌∷◌, String, if◌then◌else◌}
use zmey.Types.{MessType}
use zmey.DateFormat.{Text, replace}
use zmey.ServerApi.Fetch.{codes}

-- `objFromJS`: the text of a Python dictionary. `JSON.parse` is the browser's; `none` is what it
-- throws.
unfoldable pub obj_from_js {ℓ} : {A : Type ℓ} → (Text → Option A) → Text → Option A
obj_from_js parse s =
    let quoted = replace (codes "'") (b'"' ∷ []) s in
    let with_true = replace (codes "True") (codes "true") quoted in
    parse (replace (codes "False") (codes "false") with_true)

-- The message, its type, and whether a timeout is set.
pub record StatusLine : Type 0 where
  pub mess : String
  pub mess_type : MessType
  pub has_timeout : Bool

-- A timeout that is set is cleared first, so there is one at most.
unfoldable pub set_status_mess : String → MessType → StatusLine → StatusLine
set_status_mess mess mess_type s = record { mess = mess; mess_type = mess_type; has_timeout = true }

unfoldable pub time_out : StatusLine → StatusLine
time_out s =
    if s.has_timeout then record { mess = ""; mess_type = MessType.ok; has_timeout = false } else s

-- What the central widget gets for `setStatusMess`: it does not pass on the type.
unfoldable pub central_status_mess : String → MessType → StatusLine → StatusLine
unfolding set_status_mess
central_status_mess mess mess_type s = set_status_mess mess MessType.ok s

pub data Colour : Type 0 where
  black red : Colour

unfoldable pub colour : StatusLine → Colour
colour s = elim s.mess_type [ MessType.ok ↦ black | MessType.error ↦ red ]
