-- ===== src/Central/Items.antt =====
-- The entries of the lists and the tabs of the central widget: list_item.tsx,
-- switch_widget.tsx and tab_item.tsx of web/client/common.
use zmey.Base.{ℕ, ◌≡◌, refl, ap, Bool, true, false, not, Option, none, some, List, [], ◌∷◌, String}
use zmey.DateFormat.{Text, to_string}
use zmey.JsMap.{JsMap}
use zmey.Types.{Pipeline, PipelineTask}
use zmey.Store.Pipelines
use zmey.Store.PipelineTasks
use zmey.Admin.ParseInt.{parse_int, parse_int-to_string}
use zmey.Client.{Client, Outcome, throws}
use zmey.Central.{select_pipeline, hide_pipeline, get_selected_pipeline_id}

-- The buttons are shown while the mouse is over the entry.
pub data Mouse : Type 0 where
  enter leave : Mouse

unfoldable pub is_show_btn : Mouse → Bool
is_show_btn enter = true
is_show_btn leave = false

-- The element that the mouse is over: the entry itself, or one of its buttons, which have no id.
pub data Target : Type 0 where
  entry button : Target

abbrev pub target_id : ℕ → Target → Text
target_id id entry = to_string id
target_id id button = []

-- `parseInt(e.target.id, 10)`; `none` is NaN.
unfoldable pub double_click : ℕ → Target → Option ℕ
double_click id target = parse_int (target_id id target)

-- The double click on a pipeline. `Pipelines.get(NaN)` is `null`, so its settings throw.
unfoldable pub double_click_pipeline : ℕ → Target → Client → Outcome
unfolding double_click
double_click_pipeline id target c = elim (double_click id target) [
  | none ↦ throws c
  | some n ↦ select_pipeline n c
]

-- The click on a tab, or on its button; that one does not reach the tab.
unfoldable pub click_tab : ℕ → Target → Client → Outcome
click_tab id entry c = select_pipeline id c
click_tab id button c = hide_pipeline id c

-- The colour of a tab's title is black if its pipeline is selected, else gray.
pub record Tab : Type 0 where
  pub id : ℕ
  pub title : String
  pub is_black : Bool

unfoldable pub tabs_of : List Pipeline → List Tab
tabs_of [] = []
tabs_of (p ∷ ps) = record { id = p.id; title = p.name; is_black = p.setts.is_selected } ∷ tabs_of ps

unfoldable pub pipeline_tabs : JsMap Pipeline → List Tab
unfolding tabs_of
pipeline_tabs m = tabs_of (Pipelines.get_visible m)

-- An entry of the list of tasks: those of the pipeline that is selected.
pub record Entry : Type 0 where
  pub id : ℕ
  pub title : String
  pub tooltip : String

unfoldable pub entries_of : List PipelineTask → List Entry
entries_of [] = []
entries_of (t ∷ ts) = record { id = t.id; title = t.name; tooltip = t.description } ∷ entries_of ts

unfoldable pub pipeline_task_list : Client → List Entry
unfolding entries_of
pipeline_task_list c =
    entries_of (PipelineTasks.get_by_ppl_id (get_selected_pipeline_id c) c.pipeline_tasks)

-- The double click on an entry selects its pipeline, and that on one of its buttons throws.
pub double_click_pipeline-target :
    (id : ℕ) (c : Client)
    → (double_click_pipeline id entry c ≡ select_pipeline id c)
      × (double_click_pipeline id button c ≡ throws c)
unfolding double_click_pipeline double_click parse_int
double_click_pipeline-target id c = (
  ap (λ (o : Option ℕ). elim o [ none ↦ throws c | some n ↦ select_pipeline n c ])
      (parse_int-to_string id),
  refl,
)

-- switch_widget.tsx: a click turns the box, and `onChange` gets its new state.
unfoldable pub click_switch : {A : Type 0} → Bool → (Bool → A) → A
click_switch is_checked on_change = on_change (not is_checked)
