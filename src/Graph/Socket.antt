-- ===== src/Graph/Socket.antt =====
-- web/client/graph/graph_task.tsx: a task on the panel, the places of its two sockets, and dragging.
-- Coordinates count half pixels, so that the half of an element's height is one of them too. What
-- the browser reports of the elements is the parameter `Dom`; where the task is dragged to, and
-- that it is kept within the panel, is `Draggable`'s.
use zmey.Base.{ℕ, ℤ, ◌+ℤ◌, ◌-ℤ◌, Bool, true, false, none, some, if◌then◌else◌, ◌==◌}
use zmey.Types.{Point, Rect, PipelineTask}
use zmey.Client.{Client, Outcome, returns, throws, send, change_pipeline_task}
use zmey.Store.PipelineTasks
use zmey.Store.PipelineTasks.{Socket}
use zmey.Graph.Panel.{SocketType, input, output}
use zmey.Graph.Handlers.{Panel, Step, h_task_move, h_task_select, h_socket_captured}

-- `offsetLeft`, `offsetTop` and `offsetWidth` of an element, and `offsetHeight / 2`.
pub record Element : Type 0 where
  pub left : ℤ
  pub top : ℤ
  pub width : ℤ
  pub half_height : ℤ

abbrev pub height : Element → ℤ
height e = e.half_height +ℤ e.half_height

-- The two sockets and the element around them, the parent of both.
pub record Dom : Type 0 where
  pub parent : Element
  pub input : Element
  pub output : Element

unfoldable pub get_socket_point : SocketType → ℤ → ℤ → Dom → Point
get_socket_point input cp_x cp_y dom = record {
  x = cp_x +ℤ dom.parent.left +ℤ dom.input.width;
  y = cp_y +ℤ dom.parent.top +ℤ dom.input.top +ℤ dom.input.half_height;
}
get_socket_point output cp_x cp_y dom = record {
  x = cp_x +ℤ dom.parent.left +ℤ dom.parent.width -ℤ dom.output.width;
  y = cp_y +ℤ dom.parent.top +ℤ dom.output.top +ℤ dom.output.half_height;
}

-- Width and height are those of the input socket in both cases.
unfoldable pub get_socket_rect : SocketType → ℤ → ℤ → Dom → Rect
get_socket_rect input cp_x cp_y dom = record {
  x = cp_x +ℤ dom.parent.left;
  y = cp_y +ℤ dom.parent.top +ℤ dom.input.top;
  w = dom.input.width;
  h = height dom.input;
}
get_socket_rect output cp_x cp_y dom = record {
  x = cp_x +ℤ dom.parent.left +ℤ dom.parent.width -ℤ dom.output.width;
  y = cp_y +ℤ dom.parent.top +ℤ dom.output.top;
  w = dom.input.width;
  h = height dom.input;
}

abbrev pub socket_at : SocketType → Point → Dom → Socket
socket_at type pos dom = record {
  point = get_socket_point type pos.x pos.y dom;
  rect = get_socket_rect type pos.x pos.y dom;
}

unfoldable pub set_task_sockets : ℕ → Point → Dom → Client → Client
set_task_sockets id pos dom c = record c {
  pipeline_tasks =
      PipelineTasks.set_sockets id (socket_at input pos dom) (socket_at output pos dom)
        c.pipeline_tasks;
}

unfoldable pub component_did_mount : ℕ → Dom → Client → Outcome
unfolding set_task_sockets
component_did_mount id dom c = elim (PipelineTasks.get id c.pipeline_tasks) [
  | none ↦ throws c
  | some task ↦
      let pos : Point = record { x = task.setts.position_x; y = task.setts.position_y } in
      let c₁ = set_task_sockets id pos dom c in
      returns (record c₁ {
        pipeline_tasks =
            PipelineTasks.set_size id dom.parent.width (height dom.parent) c₁.pipeline_tasks;
      })
]

-- `onDrag`; `hMove` is the panel's.
unfoldable pub on_drag : ℕ → Point → Dom → Panel → Client → Outcome
unfolding set_task_sockets
on_drag id to dom p c =
    let m₁ = PipelineTasks.set_moved id true c.pipeline_tasks in
    h_task_move id p (set_task_sockets id to dom (record c { pipeline_tasks = m₁ }))

unfoldable pub on_stop : ℕ → Point → Client → Outcome
on_stop id to c =
    let m₁ = PipelineTasks.set_moved id false c.pipeline_tasks in
    let m₂ = PipelineTasks.set_position id to.x to.y m₁ in
    elim (PipelineTasks.get id m₂) [
      | none ↦ throws (record c { pipeline_tasks = m₂ })
      | some t ↦ returns (send (change_pipeline_task t) (record c { pipeline_tasks = m₂ }))
    ]

-- `onMouseDown` of a socket; `task` is the copy that `render` has read.
unfoldable pub on_socket_down : SocketType → ℕ → PipelineTask → Dom → Panel → Client → Step
on_socket_down type id task dom p c =
    h_socket_captured type id
      (get_socket_point type task.setts.position_x task.setts.position_y dom) p c

-- `onMouseDown` of the body, with the number of the button; 2 is the right one. `render` hands
-- `hShowContextMenu` and `hTaskSelect` over.
unfoldable pub on_body_down : ℕ → ℕ → Panel → Client → Step
on_body_down button id p c =
    let p₁ = if button == 2 then record p { context_menu_task_id = id } else p in
    h_task_select id p₁ c

pub data Colour : Type 0 where
  white gray yellow : Colour

-- `bodyStyle.backgroundColor`
unfoldable pub body_colour : PipelineTask → Bool → Colour
body_colour task is_selected =
    let by_state = if task.is_enabled then white else gray in
    if is_selected then yellow else by_state
