-- ===== src/Store/TaskTemplates.antt =====
-- web/client/store/store_task_template.tsx
use zmey.Base.{ℕ, String, Option, none, some, [], ◌∷◌, if◌then◌else◌, str_eq}
use zmey.JsMap
use zmey.JsMap.{JsMap}
use zmey.Types.{TaskTemplate}

abbrev pub copy : TaskTemplate → TaskTemplate
copy ttl = ttl

unfoldable pub get : ℕ → JsMap TaskTemplate → Option TaskTemplate
get id m =
    if JsMap.has id m then elim (JsMap.get id m) [ none ↦ none | some v ↦ some (copy v) ] else none

unfoldable pub get_by_name : String → JsMap TaskTemplate → Option TaskTemplate
get_by_name name [] = none
get_by_name name ((k, v) ∷ m) = if str_eq v.name name then some (copy v) else get_by_name name m

abbrev pub set_all : JsMap TaskTemplate → JsMap TaskTemplate → JsMap TaskTemplate
set_all ttls m = ttls

unfoldable pub add : TaskTemplate → JsMap TaskTemplate → JsMap TaskTemplate
add ttl m = if JsMap.has ttl.id m then m else JsMap.set ttl.id ttl m

unfoldable pub del : ℕ → JsMap TaskTemplate → JsMap TaskTemplate
del id m = if JsMap.has id m then JsMap.delete id m else m

unfoldable pub upd : TaskTemplate → JsMap TaskTemplate → JsMap TaskTemplate
upd ttl m = if JsMap.has ttl.id m then JsMap.set ttl.id ttl m else m
