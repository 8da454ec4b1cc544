-- ===== src/Session/Race.antt =====
-- The answer to an edit in web/client/central_widget/pipeline_task_dialog.tsx that comes after
-- `deleteNextConnect` of web/client/graph/graph_task_context_menu.tsx.
use zmey.Base.{
  none, subst, ◌∙◌, inl, inr, Bool-cases, ℕ, ◌≡◌, ◌≢◌, refl, ap, true, false, some, arith, ◌==◌,
  if◌then◌else◌,
}
use zmey.JsArray.{includes}
use zmey.JsMap
use zmey.JsMap.{JsMap}
use zmey.JsMap.Laws.{get_of_has, get-set, has-get}
use zmey.Types.{PipelineTask}
use zmey.Client.{throws, Client, returns, send, change_form_task, final}
use zmey.Store.Laws.{upd-task}
use zmey.Dialog.{Dialog}
use zmey.Dialog.Sent.{form_task, with_form}
use zmey.Dialog.TaskForm.{Form, valid, check, h_submit, submit_edit, edited_task, change_success}
use zmey.Graph.Links.{
  next-Distinct_at, prev-Distinct_at, next_stored, prev_stored, has_next, has_prev,
}
use zmey.Store.PipelineTasks
use zmey.Store.Connections.{drop_prev}
use zmey.Store.Connections.Detach.{del_all_connections_lem}
use zmey.Central.{del_pipeline_task_success}
use zmey.Central.Delete.{get-del}
use zmey.Graph.Handlers.{redraw}
use zmey.Graph.Dangling.{redraw-throws}
use zmey.Graph.Menu.{delete_next_connect}
use zmey.Graph.Disconnect.{delete_next_connect-Disconnects}
use zmey.Graph.Consistent.{IsConsistent}

-- Let `a` name `b` as a next task and not be named by it, in a store that is otherwise like the
-- consistent `m`. Once `b` has been deleted, the panel of the pipeline of `a` cannot be drawn.
delete-throws :
    (a b : ℕ) (t : PipelineTask) (m : JsMap PipelineTask) (c : Client)
    → IsConsistent m
    → ((k : ℕ) → JsMap.get k c.pipeline_tasks ≡ (if a == k then some t else JsMap.get k m))
    → JsMap.has a m ≡ true
    → JsMap.has b m ≡ true
    → has_prev b a m ≡ false
    → includes b t.next_tasks_id ≡ true
    → a ≢ b
    → (u : PipelineTask) × (c' : Client) × (JsMap.get b c.pipeline_tasks ≡ some u)
      × (del_pipeline_task_success u c ≡ returns c')
      × (redraw t.ppl_id c' ≡ throws c')
unfolding del_pipeline_task_success
delete-throws a b t m c h put stored_a stored_b unnamed named apart =
    let (u, found) = get_of_has b m stored_b in
    let own = h.keyed b u found in
    let at : JsMap.get b c.pipeline_tasks ≡ some u = ground (arith, put b, found) in
    let kept : (n : ℕ) → JsMap.has n m ≡ true → JsMap.has n c.pipeline_tasks ≡ true = λ n old.
      let (q, e) = get_of_has n m old in
      has-get n c.pipeline_tasks (if a == n then t else q) (ground (arith, put n, e)) in
    let (c₁, run, spec) =
      del_all_connections_lem b u c at (next-Distinct_at h.linked b u found)
        (prev-Distinct_at h.linked b u found) (λ n e. kept n (next_stored h.linked b u n found e))
        (λ n e. kept n (prev_stored h.linked b u n found e))
        (ground (arith, h.linked.symmetric b b)) in
    let m₂ = PipelineTasks.del u.id c₁.pipeline_tasks in
    let t' = if includes a u.next_tasks_id then drop_prev b t else t in
    let kept_a : JsMap.get a m₂ ≡ some t' =
      ground (arith, get-del u.id a c₁.pipeline_tasks, own, spec a, put a, unnamed, found) in
    let gone : JsMap.get b m₂ ≡ none = ground (arith, get-del u.id b c₁.pipeline_tasks, own) in
    let c₂ = record c₁ { pipeline_tasks = m₂ } in
    let same : (t'.ppl_id ≡ t.ppl_id) × (t'.next_tasks_id ≡ t.next_tasks_id) =
      elim (Bool-cases (includes a u.next_tasks_id)) [
        | inl e ↦ ground (arith, e)
        | inr e ↦ ground (arith, e)
      ] in
    (
      u,
      c₂,
      at,
      ground (arith, run, own),
      subst (λ i. redraw i c₂ ≡ throws c₂) same.0
          (redraw-throws a b t' c₂ kept_a (ap (includes b) same.1 ∙ named) gone),
    )

-- On a consistent Map of tasks under their own ids, none of them 0, let a stored task that is
-- connected to another one be edited with a valid form without moving it to another pipeline,
-- while `m_hasAdded` is false. Let the connection be deleted before the server answers with
-- the task it was sent, the ids as numbers. All three handlers return, and the store is consistent before the
-- answer; after it the task names the other one as a next task again, and the other one does
-- not name it as a previous task. Once the server has consented to the deletion of that other
-- task, drawing the panel of the pipeline throws.
pub edit-outdated :
    (a b tt_id : ℕ) (t : PipelineTask) (f : Form) (d : Dialog) (c : Client)
    → IsConsistent c.pipeline_tasks
    → JsMap.get a c.pipeline_tasks ≡ some t
    → has_next a b c.pipeline_tasks ≡ true
    → a ≢ b
    → d.has_added ≡ false
    → check t f c ≡ valid t.ppl_id tt_id
    → (t' u : PipelineTask) × (c₁ c₂ c₃ c₄ : Client) × (h_submit t f d c
        ≡ record { dialog = d; outcome = returns c₁ })
      × (c₁ ≡ send (change_form_task (form_task t')) c)
      × (delete_next_connect a b c₁ ≡ returns c₂)
      × IsConsistent c₂.pipeline_tasks
      × (has_next a b c₂.pipeline_tasks ≡ false)
      × ((change_success t' d c₂).outcome ≡ returns c₃)
      × (has_next a b c₃.pipeline_tasks ≡ true)
      × (has_prev b a c₃.pipeline_tasks ≡ false)
      × (JsMap.get b c₃.pipeline_tasks ≡ some u)
      × (del_pipeline_task_success u c₃ ≡ returns c₄)
      × (redraw t.ppl_id c₄ ≡ throws c₄)
unfolding h_submit submit_edit edited_task change_success
edit-outdated a b tt_id t f d c h e linked_to apart added ok =
    let t' = with_form t t.ppl_id tt_id f in
    let c₁ = send (change_form_task (form_task t')) c in
    let (c₂, run, done) = delete_next_connect-Disconnects a b c₁ h.linked h.keyed linked_to in
    let m₂ = c₂.pipeline_tasks in
    let own = h.keyed a t e in
    let gone : has_next a b m₂ ≡ false = ground (arith, done.edges a b, linked_to) in
    let nonzero : (t.id == 0) ≡ false = ground (
      arith,
      own,
      h.domain.no_zero,
      has-get a c.pipeline_tasks t e,
      ap (λ (j : ℕ). JsMap.has j c.pipeline_tasks),
    ) in
    let c₃ = final ((change_success t' d c₂).outcome) in
    let stored = done.kept a (has-get a c.pipeline_tasks t e) in
    let put : (k : ℕ)
        → JsMap.get k c₃.pipeline_tasks ≡ (if a == k then some t' else JsMap.get k m₂) =
      λ k. ground (
        arith,
        upd-task t' m₂,
        own,
        stored,
        get-set t'.id k t' m₂,
        ap (λ (j : ℕ). JsMap.has j m₂),
      ) in
    let linked_at : includes b t'.next_tasks_id ≡ true = ground (arith, linked_to, e) in
    let unnamed : has_prev b a m₂ ≡ false = ground (arith, gone, done.linked.symmetric a b) in
    let consistent : IsConsistent m₂ = record {
      domain = done.domain h.domain;
      linked = done.linked;
      keyed = done.keyed;
    } in
    let stored_b = done.kept b (next_stored h.linked a t b e linked_at) in
    let (u, c₄, at, deleted, stuck) =
      delete-throws a b t' m₂ c₃ consistent put stored stored_b unnamed linked_at apart in
    (
      t',
      u,
      c₁,
      c₂,
      c₃,
      c₄,
      ground (arith, ok, nonzero),
      refl,
      run,
      consistent,
      gone,
      refl,
      ground (arith, put a, linked_to, e),
      ground (arith, put b, gone, done.linked.symmetric a b),
      at,
      deleted,
      stuck,
    )
