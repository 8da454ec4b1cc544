-- ===== src/Store/Events.antt =====
-- web/client/store/store_event.tsx
use zmey.Base.{ℕ, String, Option, none, some, [], ◌∷◌, if◌then◌else◌, str_eq}
use zmey.JsMap
use zmey.JsMap.{JsMap}
use zmey.Types.{Event}

abbrev pub copy : Event → Event
copy ev = record ev {
  time_start_once_of_day = ev.time_start_once_of_day;
  tasks_for_start = ev.tasks_for_start;
}

unfoldable pub get : ℕ → JsMap Event → Option Event
get id m =
    if JsMap.has id m then elim (JsMap.get id m) [ none ↦ none | some v ↦ some (copy v) ] else none

unfoldable pub get_by_name : String → JsMap Event → Option Event
get_by_name name [] = none
get_by_name name ((k, v) ∷ m) = if str_eq v.name name then some (copy v) else get_by_name name m

abbrev pub set_all : JsMap Event → JsMap Event → JsMap Event
set_all evs m = evs

unfoldable pub add : Event → JsMap Event → JsMap Event
add ev m = if JsMap.has ev.id m then m else JsMap.set ev.id ev m

unfoldable pub del : ℕ → JsMap Event → JsMap Event
del id m = if JsMap.has id m then JsMap.delete id m else m

unfoldable pub upd : Event → JsMap Event → JsMap Event
upd ev m = if JsMap.has ev.id m then JsMap.set ev.id ev m else m
