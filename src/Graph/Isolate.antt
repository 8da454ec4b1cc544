-- ===== src/Graph/Isolate.antt =====
-- `delAllConnections` on the graph of connections.
use zmey.Base.{
  ℕ, ◌≡◌, true, not, ◌&&◌, some, arith, ◌==◌, inl, inr, if◌then◌else◌, Option-cases, length, ◌≢◌,
  [],
}
use zmey.JsArray.{includes, Distinct, find_index}
use zmey.JsArray.Laws.{length-splice, includes-splice, Distinct-splice}
use zmey.JsMap
use zmey.JsMap.{JsMap, changed}
use zmey.JsMap.Laws.{get_of_has}
use zmey.Types.{PipelineTask}
use zmey.Client.{Client, returns}
use zmey.Store.Connections.{del_all_connections, drop_next, drop_prev}
use zmey.Store.Connections.Detach.{isolated, del_all_connections_lem}
use zmey.Graph.Links.{
  next_of, prev_of, starts_of, has_next, has_prev, Linked, IsAligned, IsKeyed, next-Distinct_at,
  prev-Distinct_at, next_stored, prev_stored,
}

-- The stores before and after, as `del_all_connections_lem` relates them.
module _ (m m' : JsMap PipelineTask) (linked : Linked m) (id : ℕ) (t : PipelineTask)
    (stored : JsMap.get id m ≡ some t)
    (spec : (k : ℕ)
      → JsMap.get k m' ≡ (
          if id == k
          then some (isolated t)
          else changed
              (includes k t.prev_tasks_id)
              (drop_next id)
              (changed (includes k t.next_tasks_id) (drop_prev id) (JsMap.get k m)))) where
  pub has_next-isolate :
      (a b : ℕ) → has_next a b m' ≡ (has_next a b m && (not (id == a) && not (id == b)))
  unfolding includes
  has_next-isolate a b = elim (Option-cases (JsMap.get a m)) [
    | inl e ↦ ground (arith, spec a, e, stored)
    | inr (u, e) ↦ ground (
      arith,
      e,
      stored,
      spec a,
      linked.symmetric a id,
      includes-splice id b u.next_tasks_id (includes a t.prev_tasks_id)
          (next-Distinct_at linked a u e),
    )
  ]

  has_prev-isolate :
      (a b : ℕ) → has_prev b a m' ≡ (has_prev b a m && (not (id == a) && not (id == b)))
  unfolding includes
  has_prev-isolate a b = elim (Option-cases (JsMap.get b m)) [
    | inl e ↦ ground (arith, spec b, e, stored)
    | inr (u, e) ↦ ground (
      arith,
      e,
      stored,
      spec b,
      linked.symmetric id b,
      includes-splice id a u.prev_tasks_id (includes b t.next_tasks_id)
          (prev-Distinct_at linked b u e),
    )
  ]

  next-Distinct-isolate : (a : ℕ) → Distinct (next_of a m')
  next-Distinct-isolate a = elim (Option-cases (JsMap.get a m)) [
    | inl e ↦ ground (arith, spec a, e, stored)
    | inr (u, e) ↦ ground (
      arith,
      e,
      stored,
      spec a,
      linked.symmetric a id,
      Distinct-splice id u.next_tasks_id (includes a t.prev_tasks_id)
          (next-Distinct_at linked a u e),
    )
  ]

  prev-Distinct-isolate : (b : ℕ) → Distinct (prev_of b m')
  prev-Distinct-isolate b = elim (Option-cases (JsMap.get b m)) [
    | inl e ↦ ground (arith, spec b, e, stored)
    | inr (u, e) ↦ ground (
      arith,
      e,
      stored,
      spec b,
      linked.symmetric id b,
      Distinct-splice id u.prev_tasks_id (includes b t.next_tasks_id)
          (prev-Distinct_at linked b u e),
    )
  ]

  pub Linked-isolate : Linked m'
  Linked-isolate = record {
    symmetric = λ a b. rw (has_next-isolate a b, has_prev-isolate a b, linked.symmetric a b);
    next_distinct = next-Distinct-isolate;
    prev_distinct = prev-Distinct-isolate;
  }

  pub IsKeyed-isolate : IsKeyed m → IsKeyed m'
  IsKeyed-isolate keyed k u e = elim (Option-cases (JsMap.get k m)) [
    | inl gone ↦ ground (arith, spec k, gone, keyed id t stored)
    | inr (q, found) ↦ ground (arith, spec k, found, keyed k q, keyed id t stored)
  ]

-- On a consistent store `delAllConnections` of a stored task returns, the store stays
-- consistent, and the connections left are those that do not touch the task.
pub del_all_connections-Linked :
    (c : Client) (id : ℕ)
    → Linked c.pipeline_tasks
    → JsMap.has id c.pipeline_tasks ≡ true
    → (c' : Client) × (del_all_connections id c ≡ returns c')
      × Linked c'.pipeline_tasks
      × ((a b : ℕ)
          → has_next a b c'.pipeline_tasks
            ≡ (has_next a b c.pipeline_tasks && (not (id == a) && not (id == b))))
del_all_connections-Linked c id linked has =
    let (t, e) = get_of_has id c.pipeline_tasks has in
    let (c', run, spec) =
      del_all_connections_lem id t c e (next-Distinct_at linked id t e)
        (prev-Distinct_at linked id t e) (λ n. next_stored linked id t n e)
        (λ n. prev_stored linked id t n e) (ground (arith, linked.symmetric id id)) in
    (
      c',
      run,
      Linked-isolate c.pipeline_tasks c'.pipeline_tasks linked id t e spec,
      has_next-isolate c.pipeline_tasks c'.pipeline_tasks linked id t e spec,
    )

-- On a consistent store with a flag for each connection, `delAllConnections` of a stored task
-- returns and every other task has a flag for each of its connections. But the task itself
-- keeps its flags while it has no next tasks left.
pub del_all_connections-flags :
    (c : Client) (id : ℕ)
    → Linked c.pipeline_tasks
    → IsAligned c.pipeline_tasks
    → JsMap.has id c.pipeline_tasks ≡ true
    → (c' : Client) × (del_all_connections id c ≡ returns c')
      × ((a : ℕ)
          → a ≢ id
          → length (starts_of a c'.pipeline_tasks) ≡ length (next_of a c'.pipeline_tasks))
      × (next_of id c'.pipeline_tasks ≡ [])
      × (starts_of id c'.pipeline_tasks ≡ starts_of id c.pipeline_tasks)
del_all_connections-flags c id linked aligned has =
    let (t, e) = get_of_has id c.pipeline_tasks has in
    let (c', run, spec) =
      del_all_connections_lem id t c e (next-Distinct_at linked id t e)
        (prev-Distinct_at linked id t e) (λ n. next_stored linked id t n e)
        (λ n. prev_stored linked id t n e) (ground (arith, linked.symmetric id id)) in
    (
      c',
      run,
      λ a other. elim (Option-cases (JsMap.get a c.pipeline_tasks)) [
        | inl gone ↦ ground (arith, spec a, gone)
        | inr (u, f) ↦ ground (
          arith,
          f,
          spec a,
          aligned a,
          length-splice (find_index id u.next_tasks_id) u.is_start_next u.next_tasks_id,
        )
      ],
      ground (arith, spec id),
      ground (arith, spec id, e),
    )
