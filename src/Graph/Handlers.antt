-- ===== src/Graph/Handlers.antt =====
-- The event handlers of web/client/graph/graph_panel.tsx, over the component's own state and the
-- client's. A handler that draws throws where drawing does; what precedes stays done.
use zmey.Base.{◌+ℤ◌, ℕ, ◌==◌, not, ◌&&◌, true, false, none, some, List, [], ◌∷◌, if◌then◌else◌}
use zmey.JsMap
use zmey.JsMap.{JsMap, changed}
use zmey.Store.PipelineTasks
use zmey.Types.{Point, PipelineTask}
use zmey.Client.{Client, Outcome, returns, throws, send, change_pipeline_task, ◌>>=◌}
use zmey.Graph.Panel.{SocketType, input, connect_all}
use zmey.Graph.Draw.{draw_all}

pub data Cursor : Type 0 where
  default_cursor auto_cursor move_cursor : Cursor

-- `IState`, the fields that decide what is drawn, and the scroll position of the container as it is
-- assigned; the browser keeps it in range.
pub record Panel : Type 0 where
  pub captured_id : ℕ
  pub captured_type : SocketType
  pub context_menu_task_id : ℕ
  pub mouse_cursor : Cursor
  pub mouse_start_mem : Point
  pub ppl_id : ℕ
  pub ppl_task_id : ℕ
  pub task_count_mem : ℕ
  pub scroll : Point

pub record Step : Type 0 where
  pub panel : Panel
  pub outcome : Outcome

unfoldable pub redraw : ℕ → Client → Outcome
redraw ppl_id c = elim (draw_all ppl_id c.pipeline_tasks) [
  | none ↦ throws c
  | some lines ↦ returns c
]

-- The part of `hMouseUp` for a captured socket, up to `setState`. A captured task that is not in
-- the store is `null`, and the first use of it throws, before anything has changed.
unfoldable pub drop_socket : Point → Panel → Client → Outcome
drop_socket mpos p c = elim (PipelineTasks.get p.captured_id c.pipeline_tasks) [
  | none ↦ throws c
  | some task ↦
      connect_all p.captured_type mpos task (PipelineTasks.get_by_ppl_id p.ppl_id c.pipeline_tasks)
        c
      >>= λ c'.
          redraw p.ppl_id
            (record c' { pipeline_tasks = PipelineTasks.set_moved task.id false c'.pipeline_tasks })
]

released : Panel → Outcome → Panel
released p (throws c) = p
released p (returns c) = record p {
  captured_id = 0;
  captured_type = input;
  mouse_cursor = auto_cursor;
}

unfoldable pub h_mouse_up : Point → Panel → Client → Step
unfolding released
h_mouse_up mpos p c =
    if p.captured_id == 0
    then record { panel = record p { mouse_cursor = auto_cursor }; outcome = returns c }
    else (let done = drop_socket mpos p c in record { panel = released p done; outcome = done })

-- `which` is the mouse button; 3 is the right one.
unfoldable pub h_mouse_down : ℕ → Panel → Panel
h_mouse_down which p =
    let moved = if which == 3 then record p { mouse_cursor = move_cursor } else p in
    if p.context_menu_task_id == 0 then moved else record moved { context_menu_task_id = 0 }

-- `movement` is by how much the mouse has moved.
unfoldable pub h_mouse_move : ℕ → Point → Panel → Client → Step
h_mouse_move which movement p c =
    let drawn = if p.captured_id == 0 then returns c else redraw p.ppl_id c in
    record {
      panel = elim drawn [
        | throws c' ↦ p
        | returns c' ↦
            if which == 3
            then record p {
              scroll = record { x = p.scroll.x +ℤ movement.x; y = p.scroll.y +ℤ movement.y };
            }
            else record p { mouse_cursor = auto_cursor }
      ];
      outcome = drawn;
    }

-- The callbacks that `render` hands to a `GraphTask` for the mouse down on one of its sockets.
unfoldable pub h_socket_captured : SocketType → ℕ → Point → Panel → Client → Step
h_socket_captured type id mpos p c = record {
  panel = record p { captured_id = id; captured_type = type; mouse_start_mem = mpos };
  outcome =
      returns (record c { pipeline_tasks = PipelineTasks.set_moved id true c.pipeline_tasks });
}

unfoldable pub h_task_move : ℕ → Panel → Client → Outcome
h_task_move id p c =
    redraw p.ppl_id (record c { pipeline_tasks = PipelineTasks.set_moved id true c.pipeline_tasks })

-- `hHide` of the context menu, after `setState`.
unfoldable pub h_hide_menu : Panel → Client → Step
h_hide_menu p c = record {
  panel = record p { context_menu_task_id = 0 };
  outcome = redraw p.ppl_id c;
}

-- A handler of the menu ends with `this.props.hHide()`; `done` is what precedes.
unfoldable pub menu_handler : Outcome → Panel → Step
unfolding h_hide_menu
menu_handler done p = elim done [
  | throws c ↦ record { panel = p; outcome = throws c }
  | returns c ↦ h_hide_menu p c
]

-- `hHide` of a task
unfoldable pub h_hide : ℕ → Client → Outcome
h_hide id c =
    let m = PipelineTasks.set_visible id false c.pipeline_tasks in
    elim (PipelineTasks.get id m) [
      | none ↦ throws (record c { pipeline_tasks = m })
      | some t ↦ returns (send (change_pipeline_task t) (record c { pipeline_tasks = m }))
    ]

-- The loop of `hTaskSelect`. `t` is the object in the Map: what is sent is its new state.
unfoldable pub deselect_others : ℕ → List PipelineTask → Client → Client
deselect_others id [] c = c
deselect_others id (t ∷ ts) c = elim (t.setts.is_selected && not (t.id == id)) [
  | false ↦ deselect_others id ts c
  | true ↦
      let m = PipelineTasks.set_selected t.id false c.pipeline_tasks in
      elim (JsMap.get t.id m) [
        | none ↦ deselect_others id ts (record c { pipeline_tasks = m })
        | some t' ↦
            deselect_others id ts (send (change_pipeline_task t') (record c { pipeline_tasks = m }))
      ]
]

-- The second half of `hTaskSelect`: the object that is sent is the copy read before the change.
unfoldable pub select_task : ℕ → Client → Outcome
select_task id c = elim (PipelineTasks.get id c.pipeline_tasks) [
  | none ↦ throws c
  | some task ↦
      if task.setts.is_selected
      then returns c
      else returns (
          send (change_pipeline_task task)
            (record c { pipeline_tasks = PipelineTasks.set_selected id true c.pipeline_tasks }))
]

unfoldable pub h_task_select : ℕ → Panel → Client → Step
unfolding deselect_others select_task
h_task_select id p c = record {
  panel = record p { ppl_task_id = id };
  outcome = select_task id (deselect_others id (JsMap.values c.pipeline_tasks) c);
}
