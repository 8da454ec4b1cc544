-- ===== src/Session/Moves.antt =====
-- Moving, showing and hiding a task in web/client/graph keeps the store of tasks in order.
use zmey.Base.{ℕ, ◌≡◌, true, false, some, arith, inl, inr, Bool-cases}
use zmey.JsMap
use zmey.JsMap.{JsMap}
use zmey.JsMap.Laws.{get_of_has}
use zmey.Types.{Point}
use zmey.Client.{Client, Outcome, returns, send, change_pipeline_task, start_task}
use zmey.Store.PipelineTasks
use zmey.Store.Laws.{get-task}
use zmey.Graph.Settings.{
  with_setts, moved, placed, shown, set_moved-Resets, set_position-Resets, set_visible-Resets,
}
use zmey.Graph.Lines.{draw_all-outgoing}
use zmey.Graph.Panel.{input, output}
use zmey.Graph.Handlers.{
  Panel, redraw, menu_handler, h_hide_menu, h_task_move, h_hide, h_mouse_move,
}
use zmey.Graph.Socket.{
  Dom, height, socket_at, set_task_sockets, component_did_mount, on_drag, on_stop,
}
use zmey.Graph.Menu.{start}
use zmey.Graph.Consistent.{
  IsConsistent, Safe, set_moved-IsConsistent, set_visible-IsConsistent, set_sockets-IsConsistent,
  set_position-IsConsistent, set_size-IsConsistent,
}

pub redraw-returns :
    (ppl_id : ℕ) (c : Client) → IsConsistent c.pipeline_tasks → redraw ppl_id c ≡ returns c
unfolding redraw
redraw-returns ppl_id c h =
    let (lines, drawn, _) = draw_all-outgoing ppl_id c.pipeline_tasks h.domain.is_map h.linked in
    ground (arith, drawn)

h_task_move-Safe :
    (id : ℕ) (p : Panel) (c : Client) → IsConsistent c.pipeline_tasks → Safe (h_task_move id p c)
unfolding h_task_move
h_task_move-Safe id p c h =
    let h₁ = set_moved-IsConsistent id c.pipeline_tasks h true in
    let c₁ = record c { pipeline_tasks = PipelineTasks.set_moved id true c.pipeline_tasks } in
    (c₁, redraw-returns p.ppl_id c₁ h₁, h₁)

pub on_drag-Safe :
    (id : ℕ) (to : Point) (dom : Dom) (p : Panel) (c : Client)
    → IsConsistent c.pipeline_tasks
    → Safe (on_drag id to dom p c)
unfolding on_drag set_task_sockets
on_drag-Safe id to dom p c h =
    let m₁ = PipelineTasks.set_moved id true c.pipeline_tasks in
    h_task_move-Safe id p _ (
      set_sockets-IsConsistent id m₁ (set_moved-IsConsistent id c.pipeline_tasks h true)
        (socket_at input to dom) (socket_at output to dom))

pub on_stop-Safe :
    (id : ℕ) (to : Point) (c : Client)
    → IsConsistent c.pipeline_tasks
    → JsMap.has id c.pipeline_tasks ≡ true
    → Safe (on_stop id to c)
unfolding on_stop
on_stop-Safe id to c h stored =
    let m = c.pipeline_tasks in
    let (t, e) = get_of_has id m stored in
    let m₁ = PipelineTasks.set_moved id false m in
    let h₁ = set_moved-IsConsistent id m h false in
    let m₂ = PipelineTasks.set_position id to.x to.y m₁ in
    let t' = with_setts (placed to.x to.y) (with_setts (moved false) t) in
    let found : PipelineTasks.get id m₂ ≡ some t' = ground (
      arith,
      get-task id m₂,
      set_position-Resets id m₁ h₁.keyed to.x to.y id,
      set_moved-Resets id m h.keyed false id,
      e,
    ) in
    (
      send (change_pipeline_task t') (record c { pipeline_tasks = m₂ }),
      ground (arith, found),
      set_position-IsConsistent id m₁ h₁ to.x to.y,
    )

pub h_hide-Safe :
    (id : ℕ) (c : Client)
    → IsConsistent c.pipeline_tasks
    → JsMap.has id c.pipeline_tasks ≡ true
    → Safe (h_hide id c)
unfolding h_hide
h_hide-Safe id c h stored =
    let m = c.pipeline_tasks in
    let (t, e) = get_of_has id m stored in
    let m₁ = PipelineTasks.set_visible id false m in
    let t' = with_setts (shown false) t in
    let found : PipelineTasks.get id m₁ ≡ some t' =
      ground (arith, get-task id m₁, set_visible-Resets id m h.keyed false id, e) in
    (
      send (change_pipeline_task t') (record c { pipeline_tasks = m₁ }),
      ground (arith, found),
      set_visible-IsConsistent id m h false,
    )

pub component_did_mount-Safe :
    (id : ℕ) (dom : Dom) (c : Client)
    → IsConsistent c.pipeline_tasks
    → JsMap.has id c.pipeline_tasks ≡ true
    → Safe (component_did_mount id dom c)
unfolding component_did_mount set_task_sockets
component_did_mount-Safe id dom c h stored =
    let m = c.pipeline_tasks in
    let (t, e) = get_of_has id m stored in
    let pos : Point = record { x = t.setts.position_x; y = t.setts.position_y } in
    let h₁ = set_sockets-IsConsistent id m h (socket_at input pos dom) (socket_at output pos dom) in
    let c₁ = set_task_sockets id pos dom c in
    let wide = dom.parent.width in
    let high = height dom.parent in
    (
      record c₁ { pipeline_tasks = PipelineTasks.set_size id wide high c₁.pipeline_tasks },
      ground (arith, get-task id m, e),
      set_size-IsConsistent id c₁.pipeline_tasks h₁ wide high,
    )

-- What the menu does after a handler.
pub menu_handler-Safe :
    (done : Outcome) (p : Panel) → Safe done → Safe ((menu_handler done p).outcome)
unfolding menu_handler h_hide_menu
menu_handler-Safe done p (c, run, h) = (c, ground (arith, run, redraw-returns p.ppl_id c h), h)

pub start-Safe :
    (id : ℕ) (c : Client)
    → IsConsistent c.pipeline_tasks
    → JsMap.has id c.pipeline_tasks ≡ true
    → Safe (start id c)
unfolding start
start-Safe id c h stored =
    let (t, e) = get_of_has id c.pipeline_tasks stored in
    let g = get-task id c.pipeline_tasks in
    elim (Bool-cases t.is_enabled) [
      | inl on ↦ (send (start_task id id 0 t.tt_id t.params) c, ground (arith, g, e, on), h)
      | inr off ↦ (c, ground (arith, g, e, off), h)
    ]

pub h_mouse_move-returns :
    (which : ℕ) (movement : Point) (p : Panel) (c : Client)
    → IsConsistent c.pipeline_tasks
    → (h_mouse_move which movement p c).outcome ≡ returns c
unfolding h_mouse_move
h_mouse_move-returns which movement p c h = ground (arith, redraw-returns p.ppl_id c h)
