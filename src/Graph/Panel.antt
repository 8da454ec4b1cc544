-- ===== src/Graph/Panel.antt =====
-- web/client/graph/graph_panel.tsx: connecting tasks with the mouse, selecting them, drawing.
-- Coordinates are integers. The canvas's rectangle is a parameter of the handlers: they are given
-- the mouse position relative to it.
use zmey.Base.{ℕ, leb_ℤ, ◌+ℤ◌, Bool, true, false, not, ◌&&◌, none, some, List, [], ◌∷◌, ◌++◌}
use zmey.JsArray.{find, truthy}
use zmey.Store.PipelineTasks
use zmey.Types.{Point, Rect, PipelineTask}
use zmey.Client.{Client, Outcome, returns, throws, send, change_pipeline_task, ◌>>=◌}

pub data SocketType : Type 0 where
  input output : SocketType

unfoldable pub is_pnt_into_rect : Point → Rect → Bool
is_pnt_into_rect pnt rect =
    leb_ℤ rect.x pnt.x
    && (leb_ℤ pnt.x (rect.x +ℤ rect.w) && (leb_ℤ rect.y pnt.y && leb_ℤ pnt.y (rect.y +ℤ rect.h)))

-- `PipelineTasks.upd(task); ServerAPI.changePipelineTask(task)`
abbrev pub upd_and_send : PipelineTask → Client → Client
upd_and_send t c =
    send (change_pipeline_task t)
      (record c { pipeline_tasks = PipelineTasks.upd t c.pipeline_tasks })

abbrev pub push_next : ℕ → PipelineTask → PipelineTask
push_next id t = record t {
  next_tasks_id = t.next_tasks_id ++ id ∷ [];
  is_start_next = t.is_start_next ++ 1 ∷ [];
}

abbrev pub push_prev : ℕ → PipelineTask → PipelineTask
push_prev id t = record t { prev_tasks_id = t.prev_tasks_id ++ id ∷ [] }

-- The two tests of the loop in `hMouseUp`: the mouse is over the other socket of `pt`, and the
-- captured task is not yet connected to `pt`.
abbrev pub is_over : SocketType → Point → PipelineTask → Bool
is_over output mpos pt = is_pnt_into_rect mpos pt.setts.socket_in_rect
is_over input mpos pt = is_pnt_into_rect mpos pt.setts.socket_out_rect

abbrev pub known : SocketType → PipelineTask → ℕ → Bool
known output task id = truthy (find id task.next_tasks_id)
known input task id = truthy (find id task.prev_tasks_id)

abbrev pub near_end : SocketType → ℕ → PipelineTask → PipelineTask
near_end output = push_next
near_end input = push_prev

abbrev pub far_end : SocketType → ℕ → PipelineTask → PipelineTask
far_end output = push_prev
far_end input = push_next

-- The body of a branch: the local copy `task` has been changed already.
unfoldable pub join : SocketType → PipelineTask → ℕ → Client → Outcome
join type task pt_id c =
    let c₁ = upd_and_send task c in
    elim (PipelineTasks.get pt_id c₁.pipeline_tasks) [
      | none ↦ throws c₁
      | some other ↦ returns (upd_and_send (far_end type task.id other) c₁)
    ]

-- The loop of `hMouseUp`; `task` is its local copy of the captured task.
unfoldable pub connect_all :
    SocketType → Point → PipelineTask → List PipelineTask → Client → Outcome
connect_all type mpos task [] c = returns c
connect_all type mpos task (pt ∷ pts) c =
    elim (is_over type mpos pt && not (known type task pt.id)) [
      | true ↦
          let task' = near_end type pt.id task in
          join type task' pt.id c >>= connect_all type mpos task' pts
      | false ↦ connect_all type mpos task pts c
    ]
