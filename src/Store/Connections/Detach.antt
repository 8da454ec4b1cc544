-- ===== src/Store/Connections/Detach.antt =====
-- What the two loops of `delAllConnections` and the method as a whole leave in the store.
use zmey.Base.{
  ℕ, ◌≡◌, refl, ap, true, false, Option, some, List, [], ◌∷◌, arith, ◌==◌, if◌then◌else◌,
  Bool-cases, inl, inr,
}
use zmey.JsArray.{includes, Distinct}
use zmey.JsArray.Laws.{splice-find_index, includes-without, Distinct-without}
use zmey.JsMap
use zmey.JsMap.{JsMap, changed}
use zmey.JsMap.Laws.{has-changed, get-set, has-set, get_of_has}
use zmey.Types.{PipelineTask}
use zmey.Client.{Client, returns}
use zmey.Store.Connections.{
  clear_connections, del_all_connections, store_and_send, drop_prev, drop_next, detach_next,
  detach_prev, clear_connections, del_all_connections,
}

-- The ids of a list are all in the Map.
abbrev pub AreStored : List ℕ → Client → Type 0
AreStored ns c = (n : ℕ) → includes n ns ≡ true → JsMap.has n c.pipeline_tasks ≡ true

module _ (f : PipelineTask → PipelineTask) where
  AreStored-tail :
      (n : ℕ) (ns : List ℕ) (t : PipelineTask) (c : Client)
      → AreStored (n ∷ ns) c
      → AreStored ns (store_and_send n (f t) c)
  unfolding includes
  AreStored-tail n ns t c h k e = ground (arith, has-set n k (f t) c.pipeline_tasks, h k)

  get-tail :
      (n : ℕ) (ns : List ℕ) (t : PipelineTask) (c : Client) (k : ℕ) (r : Option PipelineTask)
      → includes n ns ≡ false
      → JsMap.get n c.pipeline_tasks ≡ some t
      → r ≡ changed (includes k ns) f (JsMap.get k (store_and_send n (f t) c).pipeline_tasks)
      → r ≡ changed (includes k (n ∷ ns)) f (JsMap.get k c.pipeline_tasks)
  unfolding includes
  get-tail n ns t c k r d e h = ground (
    arith,
    get-set n k (f t) c.pipeline_tasks,
    ap (λ (j : ℕ). includes j ns),
    ap (λ (j : ℕ). JsMap.get j c.pipeline_tasks),
  )

-- The loops do not throw if the ids are stored, and change each task that is listed, once.
pub detach_next_lem :
    (id : ℕ) (ns : List ℕ) (c : Client)
    → Distinct ns
    → AreStored ns c
    → (c' : Client) × (detach_next id ns c ≡ returns c')
      × ((k : ℕ)
          → JsMap.get k c'.pipeline_tasks
            ≡ changed (includes k ns) (drop_prev id) (JsMap.get k c.pipeline_tasks))
unfolding detach_next includes
detach_next_lem id [] c d h = (c, refl, λ k. ground arith)
detach_next_lem id (n ∷ ns) c d h =
    let (t, e) = get_of_has n c.pipeline_tasks (h n (ground arith)) in
    let (c', run, spec) =
      detach_next_lem id ns (store_and_send n (drop_prev id t) c) d.1
        (AreStored-tail (drop_prev id) n ns t c h) in
    (c', rw (e, detach_next) run, λ k. get-tail (drop_prev id) n ns t c k _ d.0 e (spec k))

pub detach_prev_lem :
    (id : ℕ) (ns : List ℕ) (c : Client)
    → Distinct ns
    → AreStored ns c
    → (c' : Client) × (detach_prev id ns c ≡ returns c')
      × ((k : ℕ)
          → JsMap.get k c'.pipeline_tasks
            ≡ changed (includes k ns) (drop_next id) (JsMap.get k c.pipeline_tasks))
unfolding detach_prev includes
detach_prev_lem id [] c d h = (c, refl, λ k. ground arith)
detach_prev_lem id (n ∷ ns) c d h =
    let (t, e) = get_of_has n c.pipeline_tasks (h n (ground arith)) in
    let (c', run, spec) =
      detach_prev_lem id ns (store_and_send n (drop_next id t) c) d.1
        (AreStored-tail (drop_next id) n ns t c h) in
    (c', rw (e, detach_prev) run, λ k. get-tail (drop_next id) n ns t c k _ d.0 e (spec k))

abbrev pub isolated : PipelineTask → PipelineTask
isolated t = record t { next_tasks_id = []; prev_tasks_id = [] }

clear_connections_lem :
    (id : ℕ) (p : PipelineTask) (c : Client)
    → JsMap.get id c.pipeline_tasks ≡ some p
    → Distinct p.prev_tasks_id
    → AreStored p.prev_tasks_id c
    → includes id p.prev_tasks_id ≡ false
    → (c' : Client) × (clear_connections id c ≡ returns c')
      × ((k : ℕ)
          → JsMap.get k c'.pipeline_tasks ≡ (
              if id == k
              then some (isolated p)
              else changed
                  (includes k p.prev_tasks_id)
                  (drop_next id)
                  (JsMap.get k c.pipeline_tasks)))
unfolding clear_connections
clear_connections_lem id p c e d h self =
    let p₁ = record p { next_tasks_id = [] } in
    let c₁ = record c { pipeline_tasks = JsMap.set id p₁ c.pipeline_tasks } in
    let stored : JsMap.get id c₁.pipeline_tasks ≡ some p₁ =
      ground (arith, get-set id id p₁ c.pipeline_tasks) in
    let (c₂, run, spec) =
      detach_prev_lem id p.prev_tasks_id c₁ d
        (λ n i. ground (arith, has-set id n p₁ c.pipeline_tasks, h n i)) in
    let kept : JsMap.get id c₂.pipeline_tasks ≡ some p₁ = ground (arith, spec id) in
    (
      store_and_send id (isolated p) c₂,
      ground arith,
      λ k. ground (
        arith,
        get-set id k (isolated p) c₂.pipeline_tasks,
        spec k,
        get-set id k p₁ c.pipeline_tasks,
      ),
    )

-- The method returns, empties both lists of its task, and takes the task out of the lists of the
-- tasks that were connected to it. Nothing else changes.
pub del_all_connections_lem :
    (id : ℕ) (t : PipelineTask) (c : Client)
    → JsMap.get id c.pipeline_tasks ≡ some t
    → Distinct t.next_tasks_id
    → Distinct t.prev_tasks_id
    → AreStored t.next_tasks_id c
    → AreStored t.prev_tasks_id c
    → includes id t.next_tasks_id ≡ includes id t.prev_tasks_id
    → (c' : Client) × (del_all_connections id c ≡ returns c')
      × ((k : ℕ)
          → JsMap.get k c'.pipeline_tasks ≡ (
              if id == k
              then some (isolated t)
              else changed (includes k t.prev_tasks_id) (drop_next id) (
                  changed
                    (includes k t.next_tasks_id)
                    (drop_prev id)
                    (JsMap.get k c.pipeline_tasks))))
unfolding del_all_connections
del_all_connections_lem id t c e dn dp sn sp self =
    let (c₁, run₁, spec₁) = detach_next_lem id t.next_tasks_id c dn sn in
    let still = λ (n : ℕ) (i : includes n t.prev_tasks_id ≡ true).
      has-changed n _ (drop_prev id) c.pipeline_tasks c₁.pipeline_tasks (spec₁ n) (sp n i) in
    elim (Bool-cases (includes id t.next_tasks_id)) [
      | inl loop ↦
          let cut = splice-find_index id t.prev_tasks_id (ground arith) in
          let others = λ (n : ℕ). includes-without n id t.prev_tasks_id dp in
          let (c₂, run₂, spec₂) =
            clear_connections_lem id (drop_prev id t) c₁ (ground (arith, spec₁ id))
              (rw cut (Distinct-without id t.prev_tasks_id dp))
              (rw cut (λ n i. still n (ground (arith, others n))))
              (rw cut (ground (arith, others id))) in
          (c₂, ground arith, λ k. ground (arith, spec₂ k, spec₁ k, others k, ap (includes k) cut))
      | inr apart ↦
          let (c₂, run₂, spec₂) =
            clear_connections_lem id t c₁ (ground (arith, spec₁ id)) dp still (ground arith) in
          (c₂, ground arith, λ k. ground (arith, spec₂ k, spec₁ k))
    ]
