-- ===== src/Tests/Data.antt =====
-- Concrete objects: three pipeline tasks with the connection 1 → 2, and the stores that hold them.
use zmey.Base.{ℕ, ◌+◌, ◌*◌, pos, refl, Bool, true, false, List, [], ◌∷◌, arith}
use zmey.JsArray.{includes}
use zmey.JsMap
use zmey.JsMap.{JsMap, IsMap}
use zmey.Types.{PipelineTask, TaskSetts, Rect, Pipeline}
use zmey.Client.{Client}
use zmey.Graph.Links.{Linked, IsAligned, IsKeyed}

abbrev pub square : ℕ → ℕ → Rect
square x y = record { x = pos x; y = pos y; w = pos 10; h = pos 10 }

-- A task's sockets are on the left and on the right of the place (x, y).
abbrev pub setts_at : Bool → ℕ → ℕ → TaskSetts
setts_at selected x y = record {
  is_visible = true;
  is_selected = selected;
  is_moved = false;
  position_x = pos x;
  position_y = pos y;
  width = pos 100;
  height = pos 40;
  socket_in_rect = square x y;
  socket_in_point = record { x = pos x; y = pos y };
  socket_out_rect = square (x + 90) y;
  socket_out_point = record { x = pos (x + 90); y = pos y };
}

abbrev pub task : ℕ → Bool → List ℕ → List ℕ → List ℕ → PipelineTask
task id selected nexts prevs starts = record {
  id = id;
  ppl_id = 1;
  tt_id = 1;
  is_enabled = true;
  next_tasks_id = nexts;
  prev_tasks_id = prevs;
  is_start_next = starts;
  params = "";
  name = "t";
  description = "";
  setts = setts_at selected (200 * id) 0;
}

abbrev pub task_1 : PipelineTask
task_1 = task 1 true (2 ∷ []) [] (1 ∷ [])

abbrev pub task_2 : PipelineTask
task_2 = task 2 false [] (1 ∷ []) []

abbrev pub task_3 : PipelineTask
task_3 = task 3 false [] [] []

abbrev pub tasks : JsMap PipelineTask
tasks = (1, task_1) ∷ (2, task_2) ∷ (3, task_3) ∷ []

abbrev pub pipeline : ℕ → Bool → Bool → Pipeline
pipeline id visible selected = record {
  id = id;
  name = "p";
  description = "";
  setts = record { is_visible = visible; is_selected = selected; has_change_task = false };
}

abbrev pub pipelines : JsMap Pipeline
pipelines = (1, pipeline 1 true true) ∷ (2, pipeline 2 false false) ∷ []

abbrev pub client : Client
client = record {
  pipelines = pipelines;
  task_templates = [];
  pipeline_tasks = tasks;
  events = [];
  sent = [];
}

pub tasks-Linked : Linked tasks
unfolding JsMap.get includes
tasks-Linked = record {
  symmetric = λ a b. ground arith;
  next_distinct = λ a. ground arith;
  prev_distinct = λ b. ground arith;
}

pub tasks-IsAligned : IsAligned tasks
unfolding JsMap.get
tasks-IsAligned a = ground arith

pub tasks-IsKeyed : IsKeyed tasks
unfolding JsMap.get
tasks-IsKeyed k t e = ground arith

pub tasks-IsMap : IsMap tasks
unfolding JsMap.has
tasks-IsMap = (refl, (refl, (refl, tt)))
