-- ===== src/Graph/View.antt =====
-- What the component `Tasks` in `render` of web/client/graph/graph_panel.tsx does and shows, and
-- what graph_task_context_menu.tsx beside it shows. `offs` is half the size of the container on the
-- screen, which the browser reports; coordinates count half pixels.
use zmey.Base.{
  ℕ, ℤ, ◌+ℤ◌, ◌-ℤ◌, ◌==◌, not, ◌||◌, Bool, false, Option, none, some, List, [], ◌∷◌, String, length,
  if◌then◌else◌,
}
use zmey.JsMap.{JsMap}
use zmey.Store.PipelineTasks
use zmey.Store.Pipelines
use zmey.Types.{Point, Pipeline, PipelineTask}
use zmey.Client.{Client, returns, throws}
use zmey.Graph.Handlers.{Panel, Step, redraw}

-- The statements after one that may throw.
abbrev pub then_step : Step → (Panel → Client → Step) → Step
then_step s f = elim s.outcome [ throws c ↦ s | returns c ↦ f s.panel c ]

-- `moveTaskOnCenter`
abbrev pub center_on : List PipelineTask → Point → Panel → Panel
center_on [] offs p = p
center_on (t ∷ ts) offs p = if t.id == p.ppl_task_id then p else record p {
  ppl_task_id = t.id;
  scroll = record { x = t.setts.position_x -ℤ offs.x; y = t.setts.position_y -ℤ offs.y };
}

unfoldable pub move_task_on_center : Point → Panel → Client → Panel
move_task_on_center offs p c =
    center_on (PipelineTasks.get_selected p.ppl_id c.pipeline_tasks) offs p

-- The first statement: the panel turns to the pipeline that is selected.
unfoldable pub turn_to : List Pipeline → Panel → Client → Step
turn_to [] p c =
    if p.ppl_id == 0
    then record { panel = p; outcome = returns c }
    else record { panel = record p { ppl_id = 0 }; outcome = redraw 0 c }
turn_to (s ∷ ss) p c =
    if not (s.id == p.ppl_id) || s.setts.has_change_task
    then record {
      panel = record p { ppl_id = s.id };
      outcome =
          redraw s.id (record c { pipelines = Pipelines.set_change_task s.id false c.pipelines });
    }
    else record { panel = p; outcome = returns c }

-- The last one: the lines are drawn anew if the number of tasks has changed.
unfoldable pub recount : Panel → Client → Step
recount p c =
    let count = length (PipelineTasks.get_by_ppl_id p.ppl_id c.pipeline_tasks) in
    if p.task_count_mem == count
    then record { panel = p; outcome = returns c }
    else record { panel = record p { task_count_mem = count }; outcome = redraw p.ppl_id c }

unfoldable pub render_tasks : Point → Panel → Client → Step
unfolding turn_to move_task_on_center recount
render_tasks offs p c =
    then_step (turn_to (Pipelines.get_selected c.pipelines) p c)
      λ p₁ c₁. recount (move_task_on_center offs p₁ c₁) c₁

-- The properties of a `GraphTask` but its handlers.
pub record Shown : Type 0 where
  pub title : String
  pub id : ℕ
  pub move_enabled : Bool
  pub is_selected : Bool

unfoldable pub shown_tasks : ℕ → List PipelineTask → List Shown
shown_tasks captured_id [] = []
shown_tasks captured_id (t ∷ ts) =
    let rest = shown_tasks captured_id ts in
    if t.setts.is_visible
    then record {
      title = t.name;
      id = t.id;
      move_enabled = not (captured_id == t.id);
      is_selected = t.setts.is_selected;
    }
      ∷ rest
    else rest

-- The names in one of the two lists of the context menu; `none` is the TypeError of a task that is
-- not stored.
unfoldable pub names_of : List ℕ → JsMap PipelineTask → Option (List String)
names_of [] m = some []
names_of (id ∷ ids) m = elim (PipelineTasks.get id m) [
  | none ↦ none
  | some t ↦ elim (names_of ids m) [ none ↦ none | some names ↦ some (t.name ∷ names) ]
]

pub record TaskMenu : Type 0 where
  pub left : ℤ
  pub top : ℤ
  pub can_start : Bool
  pub next_names : List String
  pub prev_names : List String

-- `some none`: there is no menu.
unfoldable pub render_menu : ℕ → JsMap PipelineTask → Option (Option TaskMenu)
unfolding names_of
render_menu id m = elim (PipelineTasks.get id m) [
  | none ↦ some none
  | some task ↦ elim (names_of task.next_tasks_id m) [
    | none ↦ none
    | some nexts ↦ elim (names_of task.prev_tasks_id m) [
      | none ↦ none
      | some prevs ↦ some (
          some (record {
            left = task.setts.position_x +ℤ task.setts.width;
            top = task.setts.position_y;
            can_start = task.is_enabled;
            next_names = nexts;
            prev_names = prevs;
          }))
    ]
  ]
]
