-- ===== src/Store/Pipelines.antt =====
-- web/client/store/store_pipeline.tsx
use zmey.Base.{ℕ, List, keep, String, Bool, Option, none, some, [], ◌∷◌, if◌then◌else◌, str_eq}
use zmey.JsMap
use zmey.JsMap.{JsMap}
use zmey.Types.{Pipeline, PipelineSetts}

abbrev pub copy : Pipeline → Pipeline
copy ppl = record ppl { setts = record (ppl.setts) { is_visible = ppl.setts.is_visible } }

unfoldable pub get : ℕ → JsMap Pipeline → Option Pipeline
get id m =
    if JsMap.has id m then elim (JsMap.get id m) [ none ↦ none | some v ↦ some (copy v) ] else none

unfoldable pub get_by_name : String → JsMap Pipeline → Option Pipeline
get_by_name name [] = none
get_by_name name ((k, v) ∷ m) = if str_eq v.name name then some (copy v) else get_by_name name m

abbrev pub set_all : JsMap Pipeline → JsMap Pipeline → JsMap Pipeline
set_all ppls m = ppls

unfoldable pub add : Pipeline → JsMap Pipeline → JsMap Pipeline
add ppl m = if JsMap.has ppl.id m then m else JsMap.set ppl.id ppl m

unfoldable pub del : ℕ → JsMap Pipeline → JsMap Pipeline
del id m = if JsMap.has id m then JsMap.delete id m else m

unfoldable pub upd : Pipeline → JsMap Pipeline → JsMap Pipeline
upd ppl m = if JsMap.has ppl.id m then JsMap.set ppl.id ppl m else m

-- `forEach` with a test and `push`.
abbrev pub get_selected : JsMap Pipeline → List Pipeline
get_selected m = keep (λ p. p.setts.is_selected) (JsMap.values m)

abbrev pub get_visible : JsMap Pipeline → List Pipeline
get_visible m = keep (λ p. p.setts.is_visible) (JsMap.values m)

-- The three setters change the object that the Map holds, and set it again under its own id.
abbrev pub store_setts : ℕ → Pipeline → PipelineSetts → JsMap Pipeline → JsMap Pipeline
store_setts id ppl setts m =
    let ppl' = record ppl { setts = setts } in JsMap.set ppl.id ppl' (JsMap.set id ppl' m)

unfoldable pub set_selected : ℕ → Bool → JsMap Pipeline → JsMap Pipeline
set_selected id on m = elim (JsMap.get id m) [
  | none ↦ m
  | some ppl ↦ store_setts id ppl (record (ppl.setts) { is_selected = on }) m
]

unfoldable pub set_visible : ℕ → Bool → JsMap Pipeline → JsMap Pipeline
set_visible id on m = elim (JsMap.get id m) [
  | none ↦ m
  | some ppl ↦ store_setts id ppl (record (ppl.setts) { is_visible = on }) m
]

unfoldable pub set_change_task : ℕ → Bool → JsMap Pipeline → JsMap Pipeline
set_change_task id on m = elim (JsMap.get id m) [
  | none ↦ m
  | some ppl ↦ store_setts id ppl (record (ppl.setts) { has_change_task = on }) m
]
