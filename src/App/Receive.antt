-- ===== src/App/Receive.antt =====
-- What `componentDidMount` of web/client/app.tsx does with the answers of the server: the settings of
-- pipelines and of tasks come as texts that Python has printed.
use zmey.Base.{
  ℕ, ◌≡◌, refl, sym, subst, ap, ◌∙◌, Bool, true, false, Option, none, some, List, [], ◌∷◌, ◌++◌,
  map, String, arith,
}
use zmey.JsMap
use zmey.JsMap.{JsMap, IsMap}
use zmey.Types.{Pipeline, PipelineSetts, PipelineTask, TaskSetts, TaskTemplate, Event, MessType}
use zmey.Client.{Client}
use zmey.DateFormat.{Text, replace_from, starts_with}
use zmey.ServerApi.{Answer, response, json_then, on_success, on_error}
use zmey.ServerApi.Fetch.{codes}
use zmey.App.{
  fill, pipelines_received, pipeline_tasks_received, task_templates_received, events_received,
}
use zmey.App.Fill.{last_with, fill-IsMap, get-fill}
use zmey.App.Page.{StatusLine, obj_from_js, set_status_mess}

-- An object whose settings are a text; `with_setts` puts the parsed ones in their place.
pub record Received (A S : Type 0) : Type 0 where
  pub with_setts : S → A
  pub setts : Text

-- The loop up to the text that does not parse, which throws.
unfoldable pub load : {A S : Type 0} → (Text → Option S) → List (Received A S) → Option (List A)
load parse [] = some []
load parse (r ∷ rest) = elim (obj_from_js parse r.setts) [
  | none ↦ none
  | some setts ↦ elim (load parse rest) [
    | none ↦ none
    | some objects ↦ some (r.with_setts setts ∷ objects)
  ]
]

-- The stores, the name of the user and the status line.
pub record Page : Type 0 where
  pub user_name : String
  pub client : Client
  pub line : StatusLine

-- The store is set after the loop. What the loop throws goes to the same `catch` as a rejected
-- promise.
unfoldable pub pipelines_answered :
    (Text → Option PipelineSetts) → Answer (List (Received Pipeline PipelineSetts)) → Page → Page
unfolding json_then load
pipelines_answered parse answer p =
    let failed = record p {
      line = set_status_mess "Server error fill Pipelines" MessType.error p.line;
    } in
    elim (json_then answer) [
      | on_error ↦ failed
      | on_success rs ↦ elim (load parse rs) [
        | none ↦ failed
        | some ps ↦ record p { client = pipelines_received ps p.client }
      ]
    ]

unfoldable pub pipeline_tasks_answered :
    (Text → Option TaskSetts) → Answer (List (Received PipelineTask TaskSetts)) → Page → Page
unfolding json_then load
pipeline_tasks_answered parse answer p =
    let failed = record p {
      line = set_status_mess "Server error fill PipelineTasks" MessType.error p.line;
    } in
    elim (json_then answer) [
      | on_error ↦ failed
      | on_success rs ↦ elim (load parse rs) [
        | none ↦ failed
        | some ts ↦ record p { client = pipeline_tasks_received ts p.client }
      ]
    ]

-- Templates and events come as objects; of the user the name is kept.
unfoldable pub task_templates_answered : Answer (List TaskTemplate) → Page → Page
unfolding json_then
task_templates_answered answer p = elim (json_then answer) [
  | on_error ↦ record p {
    line = set_status_mess "Server error fill TaskTeplates" MessType.error p.line;
  }
  | on_success ts ↦ record p { client = task_templates_received ts p.client }
]

unfoldable pub events_answered : Answer (List Event) → Page → Page
unfolding json_then
events_answered answer p = elim (json_then answer) [
  | on_error ↦ record p { line = set_status_mess "Server error fill Events" MessType.error p.line }
  | on_success es ↦ record p { client = events_received es p.client }
]

unfoldable pub user_answered : Answer String → Page → Page
unfolding json_then
user_answered answer p = elim (json_then answer) [
  | on_error ↦ record p { line = set_status_mess "Server error get user" MessType.error p.line }
  | on_success name ↦ record p { user_name = name }
]

-- The settings of a pipeline as Python's `str` prints the dictionary that JSON has brought, and as
-- `JSON.stringify` prints them, with a space after each colon and comma.
abbrev python_bool : Bool → Text
python_bool true = codes "True"
python_bool false = codes "False"

abbrev pub python_text : PipelineSetts → Text
python_text s =
    codes "{'isVisible': "
    ++ python_bool s.is_visible
    ++ codes ", 'isSelected': "
    ++ python_bool s.is_selected
    ++ codes ", 'hasChangeTask': "
    ++ python_bool s.has_change_task
    ++ codes "}"

abbrev json_bool : Bool → Text
json_bool true = codes "true"
json_bool false = codes "false"

abbrev pub json_text : PipelineSetts → Text
json_text s =
    codes "{\"isVisible\": "
    ++ json_bool s.is_visible
    ++ codes ", \"isSelected\": "
    ++ json_bool s.is_selected
    ++ codes ", \"hasChangeTask\": "
    ++ json_bool s.has_change_task
    ++ codes "}"

-- The pipeline as the server sends it.
abbrev pub printed : Pipeline → Received Pipeline PipelineSetts
printed p = record { with_setts = λ s. record p { setts = s }; setts = python_text p.setts }

obj_from_js-python :
    (parse : Text → Option PipelineSetts) (visible selected changed : Bool)
    → let s : PipelineSetts = record {
      is_visible = visible;
      is_selected = selected;
      has_change_task = changed;
    } in
      obj_from_js parse (python_text s) ≡ parse (json_text s)
unfolding obj_from_js replace_from starts_with
obj_from_js-python parse true true true = refl
obj_from_js-python parse true true false = refl
obj_from_js-python parse true false true = refl
obj_from_js-python parse true false false = refl
obj_from_js-python parse false true true = refl
obj_from_js-python parse false true false = refl
obj_from_js-python parse false false true = refl
obj_from_js-python parse false false false = refl

load-printed :
    (parse : Text → Option PipelineSetts)
    → ((s : PipelineSetts) → parse (json_text s) ≡ some s)
    → (ps : List Pipeline) → load parse (map printed ps) ≡ some ps
unfolding load
load-printed parse h [] = refl
load-printed parse h (p ∷ ps) =
    let s = p.setts in
    let e = obj_from_js-python parse s.is_visible s.is_selected s.has_change_task ∙ h s in
    let loaded = load-printed parse h ps in
    ap
      (λ (o : Option PipelineSetts). elim o [
        | none ↦ none
        | some setts ↦ elim (load parse (map printed ps)) [
          | none ↦ none
          | some objects ↦ some (record p { setts = setts } ∷ objects)
        ]
      ])
      e
    ∙ ap (λ (o : Option (List Pipeline)). elim o [ none ↦ none | some qs ↦ some (p ∷ qs) ]) loaded

-- Let `JSON.parse` read the settings of a pipeline back from their JSON text with a space
-- after each colon and comma. When the server sends pipelines whose settings Python has
-- printed, the store is then a Map, it holds for each id the last pipeline with that id, with
-- its settings, and the status line is as it was.
pub pipelines_answered-printed :
    (parse : Text → Option PipelineSetts) (ok : Bool) (ps : List Pipeline) (p : Page)
    → ((s : PipelineSetts) → parse (json_text s) ≡ some s)
    → let m = (pipelines_answered parse (response ok (some (map printed ps))) p).client.pipelines in
      IsMap m
      × ((k : ℕ) → JsMap.get k m ≡ last_with (λ q. q.id) k ps none)
      × ((pipelines_answered parse (response ok (some (map printed ps))) p).line ≡ p.line)
unfolding pipelines_answered json_then pipelines_received JsMap.get
pipelines_answered-printed parse ok ps p h =
    let filled : pipelines_answered parse (response ok (some (map printed ps))) p
        ≡ record p { client = record (p.client) { pipelines = fill (λ q. q.id) ps [] } } =
      ground (arith, load-printed parse h ps) in
    let m_eq = ap (λ (q : Page). q.client.pipelines) filled in
    (
      subst IsMap (sym m_eq) (fill-IsMap (λ (q : Pipeline). q.id) ps [] tt),
      λ k. ap (JsMap.get k) m_eq ∙ get-fill (λ (q : Pipeline). q.id) k ps [],
      ap (λ (q : Page). q.line) filled,
    )
