-- ===== src/Dialog/Submit.antt =====
-- `hSubmit` of web/client/central_widget/event_dialog.tsx on every branch.
use zmey.Base.{
  ℕ, ◌==◌, ◌≡◌, refl, not, ◌&&◌, ◌||◌, Bool, true, false, Option, none, some, List, [], ◌∷◌, String,
  str_eq, if◌then◌else◌, arith,
}
use zmey.JsMap
use zmey.JsMap.{JsMap}
use zmey.Types.{Event}
use zmey.Client.{Client, Request, add_event, change_event, returns, send}
use zmey.Store.Events
use zmey.Dialog.{Dialog, set_status_mess}
use zmey.Dialog.EventForm.{Form, exists, new_event, h_submit, error_of}

-- Does one of the events have this name?
abbrev pub taken : String → List Event → Bool
taken name [] = false
taken name (e ∷ es) = if str_eq e.name name then true else taken name es

-- A name is needed, and it is free, unless an edit leaves it as it is.
abbrev pub is_valid : Event → Form → Client → Bool
is_valid sel f c =
    not (str_eq f.name "")
    && ((not (sel.id == 0) && str_eq sel.name f.name) || not (taken f.name (JsMap.values c.events)))

abbrev pub request_of : Event → List ℕ → Form → Request
request_of sel tasks f =
    if sel.id == 0 then add_event (new_event sel tasks f) else change_event (new_event sel tasks f)

found : Option Event → Bool
found none = false
found (some e) = true

found-get_by_name :
    (name : String) (m : JsMap Event)
    → found (Events.get_by_name name m) ≡ taken name (JsMap.values m)
unfolding found Events.get_by_name
found-get_by_name name [] = refl
found-get_by_name name ((k, e) ∷ m) = ground (arith, found-get_by_name name m)

exists-taken : (name : String) (c : Client) → exists name c ≡ taken name (JsMap.values c.events)
unfolding found
exists-taken name c = ground (arith, found-get_by_name name c.events)

-- The event dialog's `hSubmit` returns and sends at most one request, and changes nothing else
-- of the client: to create or to change the event as the form describes it, if `m_hasAdded` is
-- false, the name is not empty, and it is free or left as it was by an edit. The flag is set
-- afterwards exactly if it was before or a request to create is sent.
pub h_submit-all :
    (sel : Event) (tasks : List ℕ) (f : Form) (d : Dialog) (c : Client)
    → let passes = not d.has_added && is_valid sel f c in
      ((h_submit sel tasks f d c).outcome
        ≡ returns (if passes then send (request_of sel tasks f) c else c))
      × ((h_submit sel tasks f d c).dialog.has_added ≡ (d.has_added || (passes && sel.id == 0)))
unfolding h_submit error_of set_status_mess
h_submit-all sel tasks f d c = ground (arith, exists-taken f.name c)
