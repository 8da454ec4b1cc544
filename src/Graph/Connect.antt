-- ===== src/Graph/Connect.antt =====
-- What a new connection does to the graph, and the loop of `hMouseUp`.
use zmey.Base.{
  ℕ, ◌≡◌, refl, ap, ◌∙◌, true, false, ◌&&◌, ◌||◌, some, List, [], ◌∷◌, arith, ◌==◌, inl, inr,
  if◌then◌else◌, Option-cases, length-append,
}
use zmey.JsArray.{includes}
use zmey.JsArray.Laws.{includes-append, Distinct-append}
use zmey.JsMap
use zmey.JsMap.{JsMap, changed}
use zmey.JsMap.Laws.{has-of_none, has-get, get-set, get_of_has}
use zmey.Types.{PipelineTask}
use zmey.Client.{Client, returns}
use zmey.Store.PipelineTasks
use zmey.Store.Laws.{get-task, upd-task}
use zmey.Graph.Links.{
  has_next, has_prev, Linked, IsAligned, IsKeyed, next-Distinct_at, prev-Distinct_at,
}
use zmey.Graph.Panel.{push_next, push_prev, SocketType, output, input, near_end, join, upd_and_send}

-- A store with the connection from `a₀` to `b₀` added at both ends.
abbrev pub Joined : ℕ → ℕ → JsMap PipelineTask → JsMap PipelineTask → Type 0
Joined a₀ b₀ m m' =
    (k : ℕ)
    → JsMap.get k m'
      ≡ changed (b₀ == k) (push_prev a₀) (changed (a₀ == k) (push_next b₀) (JsMap.get k m))

module _ (a₀ b₀ : ℕ) (m m' : JsMap PipelineTask) (joined : Joined a₀ b₀ m m') where
  pub has_next-join :
      (a b : ℕ) → JsMap.has a₀ m ≡ true → has_next a b m' ≡ (has_next a b m || (a₀ == a && b₀ == b))
  unfolding includes
  has_next-join a b h = elim (Option-cases (JsMap.get a m)) [
    | inl e ↦ ground (arith, joined a, e, has-of_none a m, ap (λ (j : ℕ). JsMap.has j m))
    | inr (u, e) ↦ ground (arith, joined a, e, includes-append b u.next_tasks_id b₀)
  ]

  has_prev-join :
      (a b : ℕ) → JsMap.has b₀ m ≡ true → has_prev b a m' ≡ (has_prev b a m || (a₀ == a && b₀ == b))
  unfolding includes
  has_prev-join a b h = elim (Option-cases (JsMap.get b m)) [
    | inl e ↦ ground (arith, joined b, e, has-of_none b m, ap (λ (j : ℕ). JsMap.has j m))
    | inr (u, e) ↦ ground (arith, joined b, e, includes-append a u.prev_tasks_id a₀)
  ]

  pub Linked-join :
      Linked m
      → JsMap.has a₀ m ≡ true
      → JsMap.has b₀ m ≡ true
      → has_next a₀ b₀ m ≡ false
      → Linked m'
  Linked-join linked ha hb new = record {
    symmetric = λ a b. rw (has_next-join a b ha, has_prev-join a b hb, linked.symmetric a b);
    next_distinct = λ a. elim (Option-cases (JsMap.get a m)) [
      | inl e ↦ ground (arith, joined a, e)
      | inr (u, e) ↦ ground (
        arith,
        joined a,
        e,
        next-Distinct_at linked a u e,
        Distinct-append u.next_tasks_id b₀ (next-Distinct_at linked a u e),
        ap (λ (j : ℕ). has_next j b₀ m),
      )
    ];
    prev_distinct = λ b. elim (Option-cases (JsMap.get b m)) [
      | inl e ↦ ground (arith, joined b, e)
      | inr (u, e) ↦ ground (
        arith,
        joined b,
        e,
        prev-Distinct_at linked b u e,
        Distinct-append u.prev_tasks_id a₀ (prev-Distinct_at linked b u e),
        linked.symmetric a₀ b₀,
        ap (λ (j : ℕ). has_prev j a₀ m),
      )
    ];
  }

  pub IsAligned-join : IsAligned m → IsAligned m'
  IsAligned-join aligned a = elim (Option-cases (JsMap.get a m)) [
    | inl e ↦ ground (arith, joined a, e)
    | inr (u, e) ↦ ground (
      arith,
      joined a,
      e,
      aligned a,
      length-append u.next_tasks_id (b₀ ∷ []),
      length-append u.is_start_next (let flag : List ℕ = 1 ∷ [] in flag),
    )
  ]

  pub IsKeyed-join : IsKeyed m → IsKeyed m'
  IsKeyed-join keyed k t e = elim (Option-cases (JsMap.get k m)) [
    | inl gone ↦ ground (arith, joined k, gone)
    | inr (u, found) ↦ ground (arith, joined k, found, keyed k u)
  ]

abbrev pub source_of : SocketType → ℕ → ℕ → ℕ
source_of output id pt_id = id
source_of input id pt_id = pt_id

abbrev pub target_of : SocketType → ℕ → ℕ → ℕ
target_of output id pt_id = pt_id
target_of input id pt_id = id

upd_as :
    (id : ℕ) (t : PipelineTask) (m : JsMap PipelineTask)
    → t.id ≡ id
    → JsMap.has id m ≡ true
    → PipelineTasks.upd t m ≡ JsMap.set id t m
upd_as id t m e h =
    ground (arith, upd-task t m, ap (λ (j : ℕ). JsMap.has j m), ap (λ (j : ℕ). JsMap.set j t m))

-- Two updates through `upd`, the second of the object that is read after the first.
module _ (f g : PipelineTask → PipelineTask) (f-id : (t : PipelineTask) → (f t).id ≡ t.id)
    (g-id : (t : PipelineTask) → (g t).id ≡ t.id) where
  pub upd_twice :
      (id pt_id : ℕ) (task p : PipelineTask) (m : JsMap PipelineTask)
      → task.id ≡ id
      → p.id ≡ pt_id
      → JsMap.get id m ≡ some task
      → JsMap.get pt_id m ≡ some p
      → (other : PipelineTask) × (PipelineTasks.get pt_id (PipelineTasks.upd (f task) m)
          ≡ some other)
        × (other ≡ (if id == pt_id then f task else p))
        × ((k : ℕ)
            → JsMap.get k (PipelineTasks.upd (g other) (PipelineTasks.upd (f task) m))
              ≡ changed (pt_id == k) g (changed (id == k) f (JsMap.get k m)))
  upd_twice id pt_id task p m same far e h =
      let other = if id == pt_id then f task else p in
      let m₁ = JsMap.set id (f task) m in
      let first = upd_as id (f task) m (f-id task ∙ same) (has-get id m task e) in
      let other-id : other.id ≡ pt_id = ground (arith, f-id task) in
      let found : JsMap.get pt_id m₁ ≡ some other = ground (arith, get-set id pt_id (f task) m) in
      let second =
        upd_as pt_id (g other) m₁ (g-id other ∙ other-id) (has-get pt_id m₁ other found) in
      (
        other,
        rw (first, get-task) found,
        refl,
        λ k.
            rw (first, second, get-set)
              (ground (arith, get-set id k (f task) m, ap (λ (j : ℕ). JsMap.get j m))),
      )

-- A branch of the loop returns, and adds the connection at both ends, also where a task is
-- connected to itself, provided that the local copy was what the store held.
pub join-Joined :
    (type : SocketType) (id pt_id : ℕ) (task : PipelineTask) (c : Client)
    → IsKeyed c.pipeline_tasks
    → JsMap.get id c.pipeline_tasks ≡ some task
    → JsMap.has pt_id c.pipeline_tasks ≡ true
    → (c' : Client) × (join type (near_end type pt_id task) pt_id c ≡ returns c')
      × Joined
          (source_of type id pt_id)
          (target_of type id pt_id)
          c.pipeline_tasks
          c'.pipeline_tasks
unfolding join
join-Joined output id pt_id task c keyed e h =
    let (p, found) = get_of_has pt_id c.pipeline_tasks h in
    let (other, read, _, spec) =
      upd_twice (push_next pt_id) (push_prev task.id) (λ t. refl) (λ t. refl) id pt_id task p
        c.pipeline_tasks (keyed id task e) (keyed pt_id p found) e found in
    (
      upd_and_send (push_prev task.id other) (upd_and_send (push_next pt_id task) c),
      rw (read, join),
      λ k. ground (arith, spec k, keyed id task e),
    )
join-Joined input id pt_id task c keyed e h =
    let (p, found) = get_of_has pt_id c.pipeline_tasks h in
    let (other, read, _, spec) =
      upd_twice (push_prev pt_id) (push_next task.id) (λ t. refl) (λ t. refl) id pt_id task p
        c.pipeline_tasks (keyed id task e) (keyed pt_id p found) e found in
    (
      upd_and_send (push_next task.id other) (upd_and_send (push_prev pt_id task) c),
      rw (read, join),
      λ k. ground (arith, spec k, keyed id task e),
    )
