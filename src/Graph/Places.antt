-- ===== src/Graph/Places.antt =====
-- The sockets of a task and what dragging it leaves in the store: graph_task.tsx in
-- web/client/graph.
use zmey.Base.{
  ℕ, ℤ, pos, ◌≡◌, ◌≤ℤ◌, refl, ◌∙◌, true, false, some, [], ◌∷◌, ◌++◌, arith, int_laws, leb_ℤ_of_le,
  ◌+ℤ◌,
}
use zmey.JsMap
use zmey.JsMap.{JsMap, IsMap, changed}
use zmey.Types.{Point, Rect, PipelineTask, TaskSetts}
use zmey.Client.{Client, returns, send, change_pipeline_task, ◌>>=◌}
use zmey.Store.PipelineTasks
use zmey.Store.Laws.{get-task}
use zmey.Graph.Links.{Linked, IsKeyed, has_next}
use zmey.Graph.Settings.{
  with_setts, moved, placed, socketed, set_moved-Resets, set_position-Resets, set_sockets-Resets,
  set_moved-IsMap, set_sockets-IsMap, Linked-Resets, IsKeyed-Resets, has_next-Resets,
}
use zmey.Graph.Lines.{draw_all-outgoing}
use zmey.Graph.Panel.{SocketType, input, output, is_pnt_into_rect}
use zmey.Graph.Handlers.{Panel, h_task_move, redraw}
use zmey.Graph.Socket.{
  Dom, height, get_socket_point, get_socket_rect, socket_at, set_task_sockets, on_drag, on_stop,
}

-- No size is negative, and the output socket is at most twice as high as the input socket.
pub record IsLaidOut (dom : Dom) : Type 0 where
  pub wide : pos 0 ≤ℤ dom.input.width
  pub high : pos 0 ≤ℤ dom.input.half_height
  pub high_output : pos 0 ≤ℤ dom.output.half_height
  pub alike : dom.output.half_height ≤ℤ height dom.input

into_rect :
    (p : Point) (r : Rect)
    → r.x ≤ℤ p.x
    → p.x ≤ℤ r.x +ℤ r.w
    → r.y ≤ℤ p.y
    → p.y ≤ℤ r.y +ℤ r.h
    → is_pnt_into_rect p r ≡ true
unfolding is_pnt_into_rect
into_rect p r h₁ h₂ h₃ h₄ = rw (
  leb_ℤ_of_le r.x p.x h₁,
  leb_ℤ_of_le p.x (r.x +ℤ r.w) h₂,
  leb_ℤ_of_le r.y p.y h₃,
  leb_ℤ_of_le p.y (r.y +ℤ r.h) h₄,
)

socket_into :
    (type : SocketType) (x y : ℤ) (dom : Dom)
    → IsLaidOut dom
    → is_pnt_into_rect (get_socket_point type x y dom) (get_socket_rect type x y dom) ≡ true
unfolding get_socket_point get_socket_rect
socket_into input x y dom h =
    into_rect _ _ (omega int_laws) (omega int_laws) (omega int_laws) (omega int_laws)
socket_into output x y dom h =
    into_rect _ _ (omega int_laws) (omega int_laws) (omega int_laws) (omega int_laws)

-- The settings of a task that was dragged to a place and dropped there.
abbrev pub dropped_at : Point → Dom → TaskSetts → TaskSetts
dropped_at to dom s =
    placed to.x to.y (moved false (socketed (socket_at input to dom) (socket_at output to dom) s))

-- Let the tasks be under their own ids, the width of the input socket and the heights of both
-- sockets not be negative, and half the height of the output socket be at most the height of
-- the input socket. After `setTaskSockets` of a stored task the point of each of its sockets
-- lies in the rectangle of the socket.
pub set_task_sockets-into :
    (id : ℕ) (to : Point) (dom : Dom) (c : Client) (t : PipelineTask)
    → IsKeyed c.pipeline_tasks
    → JsMap.get id c.pipeline_tasks ≡ some t
    → IsLaidOut dom
    → (t' : PipelineTask) × (JsMap.get id (set_task_sockets id to dom c).pipeline_tasks ≡ some t')
      × (is_pnt_into_rect t'.setts.socket_in_point t'.setts.socket_in_rect ≡ true)
      × (is_pnt_into_rect t'.setts.socket_out_point t'.setts.socket_out_rect ≡ true)
unfolding set_task_sockets
set_task_sockets-into id to dom c t keyed e h =
    let i = socket_at input to dom in
    let o = socket_at output to dom in
    (
      with_setts (socketed i o) t,
      ground (arith, e, set_sockets-Resets id c.pipeline_tasks keyed i o id),
      socket_into input to.x to.y dom h,
      socket_into output to.x to.y dom h,
    )

-- On a consistent Map of tasks under their own ids, dragging a stored task to a place and
-- dropping it there returns. The task is then stored with that place, its sockets there, as
-- not being moved, and otherwise as it was; it alone is sent, the store is consistent, and
-- the connections are the same.
pub on_drag-on_stop :
    (id : ℕ) (to : Point) (dom : Dom) (p : Panel) (c : Client) (t : PipelineTask)
    → IsMap c.pipeline_tasks
    → Linked c.pipeline_tasks
    → IsKeyed c.pipeline_tasks
    → JsMap.get id c.pipeline_tasks ≡ some t
    → let t' = with_setts (dropped_at to dom) t in
      (c' : Client) × ((on_drag id to dom p c >>= on_stop id to) ≡ returns c')
      × (JsMap.get id c'.pipeline_tasks ≡ some t')
      × (c'.sent ≡ c.sent ++ change_pipeline_task t' ∷ [])
      × Linked c'.pipeline_tasks
      × ((a b : ℕ) → has_next a b c'.pipeline_tasks ≡ has_next a b c.pipeline_tasks)
unfolding on_drag on_stop h_task_move redraw set_task_sockets
on_drag-on_stop id to dom p c t is_map linked keyed e =
    let i = socket_at input to dom in
    let o = socket_at output to dom in
    let m = c.pipeline_tasks in
    let m₁ = PipelineTasks.set_moved id true m in
    let r₁ = set_moved-Resets id m keyed true in
    let k₁ = IsKeyed-Resets id (moved true) m m₁ r₁ keyed in
    let l₁ = Linked-Resets id (moved true) m m₁ r₁ linked in
    let m₂ = PipelineTasks.set_sockets id i o m₁ in
    let r₂ = set_sockets-Resets id m₁ k₁ i o in
    let k₂ = IsKeyed-Resets id (socketed i o) m₁ m₂ r₂ k₁ in
    let l₂ = Linked-Resets id (socketed i o) m₁ m₂ r₂ l₁ in
    let m₃ = PipelineTasks.set_moved id true m₂ in
    let r₃ = set_moved-Resets id m₂ k₂ true in
    let k₃ = IsKeyed-Resets id (moved true) m₂ m₃ r₃ k₂ in
    let l₃ = Linked-Resets id (moved true) m₂ m₃ r₃ l₂ in
    let is_map₃ =
      set_moved-IsMap id true m₂ (set_sockets-IsMap id i o m₁ (set_moved-IsMap id true m is_map)) in
    let (lines, drawn, _) = draw_all-outgoing p.ppl_id m₃ is_map₃ l₃ in
    let m₄ = PipelineTasks.set_moved id false m₃ in
    let r₄ = set_moved-Resets id m₃ k₃ false in
    let k₄ = IsKeyed-Resets id (moved false) m₃ m₄ r₄ k₃ in
    let l₄ = Linked-Resets id (moved false) m₃ m₄ r₄ l₃ in
    let m₅ = PipelineTasks.set_position id to.x to.y m₄ in
    let r₅ = set_position-Resets id m₄ k₄ to.x to.y in
    let t' = with_setts (dropped_at to dom) t in
    let stored : JsMap.get id m₅ ≡ some t' = ground (arith, e, r₁ id, r₂ id, r₃ id, r₄ id, r₅ id) in
    (
      send (change_pipeline_task t') (record c { pipeline_tasks = m₅ }),
      ground (arith, drawn, get-task id m₅, stored),
      stored,
      refl,
      Linked-Resets id (placed to.x to.y) m₄ m₅ r₅ l₄,
      λ a b.
          has_next-Resets id (placed to.x to.y) m₄ m₅ r₅ a b
          ∙ has_next-Resets id (moved false) m₃ m₄ r₄ a b
          ∙ has_next-Resets id (moved true) m₂ m₃ r₃ a b
          ∙ has_next-Resets id (socketed i o) m₁ m₂ r₂ a b
          ∙ has_next-Resets id (moved true) m m₁ r₁ a b,
    )
