-- ===== src/Session/Edits.antt =====
-- Deleting connections and tasks, and the dialog of a task, keep the store of tasks in order.
use zmey.Base.{ℕ, ◌≡◌, subst, true, false, not, ◌&&◌, some, arith, ◌==◌, inl, inr, Bool-cases}
use zmey.JsMap
use zmey.JsMap.{JsMap}
use zmey.JsMap.Laws.{get_of_has, has-delete, IsMap-delete}
use zmey.Types.{PipelineTask}
use zmey.Client.{Client, returns, final, send, change_pipeline_task}
use zmey.Store.PipelineTasks
use zmey.Store.Laws.{get-task}
use zmey.Store.Connections.{del_all_connections}
use zmey.Store.Connections.Detach.{del_all_connections_lem, isolated}
use zmey.Central.{del_pipeline_task_success}
use zmey.Central.Delete.{get-del, Linked-del}
use zmey.Graph.Menu.{delete_next_connect, delete_prev_connect, delete_task_from_map}
use zmey.Graph.Links.{
  has_next, has_prev, next-Distinct_at, prev-Distinct_at, next_stored, prev_stored,
}
use zmey.Graph.Domain.{IsDomain, set-IsDomain, del_all_connections-Holds}
use zmey.Graph.Settings.{with_setts, shown, set_visible-Resets}
use zmey.Graph.Isolate.{Linked-isolate, IsKeyed-isolate, has_next-isolate}
use zmey.Graph.Disconnect.{delete_next_connect-Disconnects, delete_prev_connect-Disconnects}
use zmey.Graph.Consistent.{IsConsistent, Safe, set_visible-IsConsistent}

pub delete_next_connect-Safe :
    (props_id id : ℕ) (c : Client)
    → IsConsistent c.pipeline_tasks
    → has_next props_id id c.pipeline_tasks ≡ true
    → Safe (delete_next_connect props_id id c)
delete_next_connect-Safe props_id id c h shown =
    let (c', run, done) = delete_next_connect-Disconnects props_id id c h.linked h.keyed shown in
    (c', run, record { domain = done.domain h.domain; linked = done.linked; keyed = done.keyed })

pub delete_prev_connect-Safe :
    (props_id id : ℕ) (c : Client)
    → IsConsistent c.pipeline_tasks
    → has_prev props_id id c.pipeline_tasks ≡ true
    → Safe (delete_prev_connect props_id id c)
delete_prev_connect-Safe props_id id c h shown =
    let (c', run, done) = delete_prev_connect-Disconnects props_id id c h.linked h.keyed shown in
    (c', run, record { domain = done.domain h.domain; linked = done.linked; keyed = done.keyed })

-- `delAllConnections` of a stored task; no connection touches the task afterwards.
isolate_lem :
    (id : ℕ) (t : PipelineTask) (c : Client)
    → IsConsistent c.pipeline_tasks
    → JsMap.get id c.pipeline_tasks ≡ some t
    → (c' : Client) × (del_all_connections id c ≡ returns c')
      × IsConsistent c'.pipeline_tasks
      × (JsMap.get id c'.pipeline_tasks ≡ some (isolated t))
      × ((a b : ℕ)
          → has_next a b c'.pipeline_tasks
            ≡ (has_next a b c.pipeline_tasks && (not (id == a) && not (id == b))))
isolate_lem id t c h e =
    let m = c.pipeline_tasks in
    let (c', run, spec) =
      del_all_connections_lem id t c e (next-Distinct_at h.linked id t e)
        (prev-Distinct_at h.linked id t e) (λ n. next_stored h.linked id t n e)
        (λ n. prev_stored h.linked id t n e) (ground (arith, h.linked.symmetric id id)) in
    let m' = c'.pipeline_tasks in
    (
      c',
      run,
      record {
        domain =
            subst (λ o. IsDomain (final o).pipeline_tasks) run
              (del_all_connections-Holds IsDomain set-IsDomain id c h.domain);
        linked = Linked-isolate m m' h.linked id t e spec;
        keyed = IsKeyed-isolate m m' h.linked id t e spec h.keyed;
      },
      ground (arith, spec id),
      has_next-isolate m m' h.linked id t e spec,
    )

pub del_all_connections-Safe :
    (id : ℕ) (c : Client)
    → IsConsistent c.pipeline_tasks
    → JsMap.has id c.pipeline_tasks ≡ true
    → Safe (del_all_connections id c)
del_all_connections-Safe id c h stored =
    let (t, e) = get_of_has id c.pipeline_tasks stored in
    let (c', run, h', _, _) = isolate_lem id t c h e in (c', run, h')

pub delete_task_from_map-Safe :
    (id : ℕ) (c : Client)
    → IsConsistent c.pipeline_tasks
    → JsMap.has id c.pipeline_tasks ≡ true
    → Safe (delete_task_from_map id c)
unfolding delete_task_from_map
delete_task_from_map-Safe id c h stored =
    let (t, e) = get_of_has id c.pipeline_tasks stored in
    let (c₁, run, h₁, alone, _) = isolate_lem id t c h e in
    let m₁ = c₁.pipeline_tasks in
    let m₂ = PipelineTasks.set_visible id false m₁ in
    let t' = with_setts (shown false) (isolated t) in
    let found : PipelineTasks.get id m₂ ≡ some t' =
      ground (arith, get-task id m₂, set_visible-Resets id m₁ h₁.keyed false id, alone) in
    (
      send (change_pipeline_task t') (record c₁ { pipeline_tasks = m₂ }),
      ground (arith, run, found),
      set_visible-IsConsistent id m₁ h₁ false,
    )

del-IsDomain : (id : ℕ) (m : JsMap PipelineTask) → IsDomain m → IsDomain (PipelineTasks.del id m)
unfolding PipelineTasks.del
del-IsDomain id m h =
    let h' : IsDomain (JsMap.delete id m) = record {
      is_map = IsMap-delete id m h.is_map;
      no_zero = has-delete id 0 m h.no_zero;
    } in
    elim (Bool-cases (JsMap.has id m)) [
      | inl stored ↦ ground (arith, stored, h')
      | inr gone ↦ ground (arith, gone, h)
    ]

pub del_pipeline_task_success-Safe :
    (sel : PipelineTask) (c : Client)
    → IsConsistent c.pipeline_tasks
    → JsMap.has sel.id c.pipeline_tasks ≡ true
    → Safe (del_pipeline_task_success sel c)
unfolding del_pipeline_task_success
del_pipeline_task_success-Safe sel c h stored =
    let (t, e) = get_of_has sel.id c.pipeline_tasks stored in
    let (c₁, run, h₁, _, edges) = isolate_lem sel.id t c h e in
    let m₁ = c₁.pipeline_tasks in
    let m₂ = PipelineTasks.del sel.id m₁ in
    (
      record c₁ { pipeline_tasks = m₂ },
      ground (arith, run),
      record {
        domain = del-IsDomain sel.id m₁ h₁.domain;
        linked = Linked-del sel.id m₁ h₁.linked (λ a b. ground (arith, edges a b));
        keyed = λ k u f. h₁.keyed k u (ground (arith, f, get-del sel.id k m₁));
      },
    )
