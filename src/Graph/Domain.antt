-- ===== src/Graph/Domain.antt =====
-- What every change of the objects in the store of tasks keeps of its keys: the handlers of
-- web/client/graph and `delAllConnections` of web/client/store/store_pipeline_task.tsx store objects
-- under keys that are there, and bring in none.
use zmey.Base.{
  sym, subst, ℕ, ◌≡◌, ap, true, false, not, ◌&&◌, List, [], ◌∷◌, none, some, arith, inl, inr,
  Bool-cases, Option-cases,
}
use zmey.JsMap
use zmey.JsMap.{JsMap, IsMap}
use zmey.JsMap.Laws.{get-set, has-get, has-set, IsMap-set}
use zmey.Types.{Point, PipelineTask}
use zmey.Client.{Client, final->>=, Outcome, returns, final, ◌>>=◌}
use zmey.Store.PipelineTasks
use zmey.Store.Connections.{
  detach_next, detach_prev, clear_connections, del_all_connections, drop_prev, drop_next,
  store_and_send,
}
use zmey.Graph.Panel.{SocketType, join, connect_all, is_over, known, near_end, far_end}

-- A property of the Map that storing an object under a key that is there keeps.
abbrev pub Closed : (JsMap PipelineTask → Type 0) → Type 0
Closed P =
    (k : ℕ) (v : PipelineTask) (m : JsMap PipelineTask)
    → JsMap.has k m ≡ true
    → P m
    → P (JsMap.set k v m)

module _ (P : JsMap PipelineTask → Type 0) (closed : Closed P) where
  abbrev Holds : Client → Type 0
  Holds c = P c.pipeline_tasks

  pub upd-Holds : (t : PipelineTask) (m : JsMap PipelineTask) → P m → P (PipelineTasks.upd t m)
  unfolding PipelineTasks.upd
  upd-Holds t m h = elim (Bool-cases (JsMap.has t.id m)) [
    | inl found ↦ rw found (closed t.id t m found h)
    | inr gone ↦ ground (arith, gone, h)
  ]

  join-Holds :
      (type : SocketType) (task : PipelineTask) (pt_id : ℕ) (c : Client)
      → Holds c
      → Holds (final (join type task pt_id c))
  unfolding join
  join-Holds type task pt_id c h =
      let h₁ = upd-Holds task c.pipeline_tasks h in
      elim (Option-cases (PipelineTasks.get pt_id (PipelineTasks.upd task c.pipeline_tasks))) [
        | inl gone ↦ ground (arith, gone, h₁)
        | inr (other, found) ↦ ground (
          arith,
          found,
          upd-Holds (far_end type task.id other) (PipelineTasks.upd task c.pipeline_tasks) h₁,
        )
      ]

  pub connect_all-Holds :
      (type : SocketType) (mpos : Point) (task : PipelineTask) (pts : List PipelineTask)
      → (c : Client) → Holds c
      → Holds (final (connect_all type mpos task pts c))
  unfolding connect_all
  connect_all-Holds type mpos task [] c h = h
  connect_all-Holds type mpos task (pt ∷ pts) c h =
      elim (Bool-cases (is_over type mpos pt && not (known type task pt.id))) [
        | inr skipped ↦ ground (arith, skipped, connect_all-Holds type mpos task pts c h)
        | inl hit ↦
            let task' = near_end type pt.id task in
            ground (
              arith,
              hit,
              final->>= Holds (join type task' pt.id c) (connect_all type mpos task' pts)
                  (join-Holds type task' pt.id c h) (connect_all-Holds type mpos task' pts),
            )
      ]

  detach_next-Holds :
      (id : ℕ) (ns : List ℕ) (c : Client) → Holds c → Holds (final (detach_next id ns c))
  unfolding detach_next
  detach_next-Holds id [] c h = h
  detach_next-Holds id (n ∷ ns) c h = elim (Option-cases (JsMap.get n c.pipeline_tasks)) [
    | inl gone ↦ ground (arith, gone, h)
    | inr (t, found) ↦ ground (
      arith,
      found,
      detach_next-Holds id ns (store_and_send n (drop_prev id t) c)
          (closed n (drop_prev id t) c.pipeline_tasks (has-get n c.pipeline_tasks t found) h),
    )
  ]

  detach_prev-Holds :
      (id : ℕ) (ns : List ℕ) (c : Client) → Holds c → Holds (final (detach_prev id ns c))
  unfolding detach_prev
  detach_prev-Holds id [] c h = h
  detach_prev-Holds id (n ∷ ns) c h = elim (Option-cases (JsMap.get n c.pipeline_tasks)) [
    | inl gone ↦ ground (arith, gone, h)
    | inr (t, found) ↦ ground (
      arith,
      found,
      detach_prev-Holds id ns (store_and_send n (drop_next id t) c)
          (closed n (drop_next id t) c.pipeline_tasks (has-get n c.pipeline_tasks t found) h),
    )
  ]

  -- The end of `clear_connections`.
  abbrev store_last : ℕ → Client → Outcome
  store_last id c = elim (JsMap.get id c.pipeline_tasks) [
    | none ↦ returns c
    | some ppt ↦ returns (store_and_send id (record ppt { prev_tasks_id = [] }) c)
  ]

  abbrev cleared : ℕ → PipelineTask → Client → Client
  cleared id t c = record c {
    pipeline_tasks = JsMap.set id (record t { next_tasks_id = [] }) c.pipeline_tasks;
  }

  store_last-Holds : (id : ℕ) (c : Client) → Holds c → Holds (final (store_last id c))
  store_last-Holds id c h = elim (Option-cases (JsMap.get id c.pipeline_tasks)) [
    | inl gone ↦ ground (arith, gone, h)
    | inr (t, found) ↦ ground (
      arith,
      found,
      closed id (record t { prev_tasks_id = [] }) c.pipeline_tasks
          (has-get id c.pipeline_tasks t found) h,
    )
  ]

  clear_found :
      (id : ℕ) (t : PipelineTask) (c : Client)
      → JsMap.get id c.pipeline_tasks ≡ some t
      → clear_connections id c ≡ (detach_prev id t.prev_tasks_id (cleared id t c) >>= store_last id)
  unfolding clear_connections
  clear_found id t c found =
      let stored : JsMap.get id (cleared id t c).pipeline_tasks
          ≡ some (record t { next_tasks_id = [] }) =
        ground (arith, get-set id id (record t { next_tasks_id = [] }) c.pipeline_tasks) in
      ground (arith, found, stored)

  clear-Holds : (id : ℕ) (c : Client) → Holds c → Holds (final (clear_connections id c))
  unfolding clear_connections detach_prev
  clear-Holds id c h = elim (Option-cases (JsMap.get id c.pipeline_tasks)) [
    | inl gone ↦ ground (arith, gone, h)
    | inr (t, found) ↦
        subst (λ o. Holds (final o)) (sym (clear_found id t c found))
          (final->>= Holds (detach_prev id t.prev_tasks_id (cleared id t c)) (store_last id)
            (detach_prev-Holds id t.prev_tasks_id (cleared id t c) (
              closed id (record t { next_tasks_id = [] }) c.pipeline_tasks
                (has-get id c.pipeline_tasks t found) h))
            (store_last-Holds id))
  ]

  pub del_all_connections-Holds :
      (id : ℕ) (c : Client) → Holds c → Holds (final (del_all_connections id c))
  unfolding del_all_connections
  del_all_connections-Holds id c h = elim (Option-cases (JsMap.get id c.pipeline_tasks)) [
    | inl gone ↦ ground (arith, gone, h)
    | inr (t, found) ↦ ground (
      arith,
      found,
      final->>= Holds (detach_next id t.next_tasks_id c) (clear_connections id)
          (detach_next-Holds id t.next_tasks_id c h) (clear-Holds id),
    )
  ]

-- The store is a Map without the key 0.
pub record IsDomain (m : JsMap PipelineTask) : Type 0 where
  pub is_map : IsMap m
  pub no_zero : JsMap.has 0 m ≡ false

pub set-IsDomain : Closed IsDomain
set-IsDomain k v m h d = record {
  is_map = IsMap-set k v m d.is_map;
  no_zero = ground (arith, has-set k 0 v m, d.no_zero, h, ap (λ (j : ℕ). JsMap.has j m));
}
