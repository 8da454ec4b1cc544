-- ===== src/Graph/Disconnect.antt =====
-- What the context menu's `deleteNextConnect` and `deletePrevConnect` do to the graph.
use zmey.Base.{
  ℕ, ◌≡◌, refl, ap, ◌∙◌, true, not, ◌&&◌, some, arith, ◌==◌, inl, inr, if◌then◌else◌, Option-cases,
}
use zmey.JsArray.{includes, find_index}
use zmey.JsArray.Laws.{includes-splice, Distinct-splice, length-splice, element-find_index}
use zmey.JsMap
use zmey.JsMap.{JsMap, changed}
use zmey.JsMap.Laws.{get_of_has, has-get}
use zmey.Types.{PipelineTask}
use zmey.Client.{Client, returns}
use zmey.Store.Laws.{get-task}
use zmey.Store.Connections.{drop_next, drop_prev}
use zmey.Graph.Links.{
  has_next, has_prev, Linked, IsAligned, IsKeyed, next-Distinct_at, prev-Distinct_at, next_stored,
  prev_stored, has_of_next, has_of_prev,
}
use zmey.Graph.Panel.{upd_and_send}
use zmey.Graph.Domain.{IsDomain, set-IsDomain, upd-Holds}
use zmey.Graph.Connect.{upd_twice}
use zmey.Graph.Menu.{delete_next_connect, delete_prev_connect}

-- A store with the connection from `a₀` to `b₀` removed at both ends.
abbrev Severed : ℕ → ℕ → JsMap PipelineTask → JsMap PipelineTask → Type 0
Severed a₀ b₀ m m' =
    (k : ℕ)
    → JsMap.get k m'
      ≡ changed (b₀ == k) (drop_prev a₀) (changed (a₀ == k) (drop_next b₀) (JsMap.get k m))

-- What both handlers promise of the store before and after. If each connection had its flag, it has
-- it afterwards.
pub record Disconnects (a₀ b₀ : ℕ) (m m' : JsMap PipelineTask) : Type 0 where
  pub linked : Linked m'
  pub aligned : IsAligned m → IsAligned m'
  pub domain : IsDomain m → IsDomain m'
  pub kept : (k : ℕ) → JsMap.has k m ≡ true → JsMap.has k m' ≡ true
  pub keyed : IsKeyed m'
  pub edges : (a b : ℕ) → has_next a b m' ≡ (has_next a b m && not (a₀ == a && b₀ == b))

module _ (a₀ b₀ : ℕ) (m m' : JsMap PipelineTask) (linked : Linked m) (old : has_next a₀ b₀ m ≡ true)
    (severed : Severed a₀ b₀ m m') where
  has_next-sever : (a b : ℕ) → has_next a b m' ≡ (has_next a b m && not (a₀ == a && b₀ == b))
  unfolding includes
  has_next-sever a b = elim (Option-cases (JsMap.get a m)) [
    | inl e ↦ ground (arith, severed a, e)
    | inr (u, e) ↦ ground (
      arith,
      severed a,
      e,
      ap (λ (j : ℕ). has_next j b₀ m),
      includes-splice b₀ b u.next_tasks_id (a₀ == a) (next-Distinct_at linked a u e),
    )
  ]

  has_prev-sever : (a b : ℕ) → has_prev b a m' ≡ (has_prev b a m && not (a₀ == a && b₀ == b))
  unfolding includes
  has_prev-sever a b = elim (Option-cases (JsMap.get b m)) [
    | inl e ↦ ground (arith, severed b, e)
    | inr (u, e) ↦ ground (
      arith,
      severed b,
      e,
      linked.symmetric a₀ b₀,
      ap (λ (j : ℕ). has_prev j a₀ m),
      includes-splice a₀ a u.prev_tasks_id (b₀ == b) (prev-Distinct_at linked b u e),
    )
  ]

  Linked-sever : Linked m'
  Linked-sever = record {
    symmetric = λ a b. rw (has_next-sever a b, has_prev-sever a b, linked.symmetric a b);
    next_distinct = λ a. elim (Option-cases (JsMap.get a m)) [
      | inl e ↦ ground (arith, severed a, e)
      | inr (u, e) ↦ ground (
        arith,
        severed a,
        e,
        ap (λ (j : ℕ). has_next j b₀ m),
        next-Distinct_at linked a u e,
        Distinct-splice b₀ u.next_tasks_id (a₀ == a) (next-Distinct_at linked a u e),
      )
    ];
    prev_distinct = λ b. elim (Option-cases (JsMap.get b m)) [
      | inl e ↦ ground (arith, severed b, e)
      | inr (u, e) ↦ ground (
        arith,
        severed b,
        e,
        linked.symmetric a₀ b₀,
        ap (λ (j : ℕ). has_prev j a₀ m),
        prev-Distinct_at linked b u e,
        Distinct-splice a₀ u.prev_tasks_id (b₀ == b) (prev-Distinct_at linked b u e),
      )
    ];
  }

  Disconnects-sever : IsKeyed m → (IsDomain m → IsDomain m') → Disconnects a₀ b₀ m m'
  Disconnects-sever keyed domain = record {
    domain = domain;
    kept = λ k h.
        let (t, e) = get_of_has k m h in
        let t₁ = if a₀ == k then drop_next b₀ t else t in
        has-get k m' (if b₀ == k then drop_prev a₀ t₁ else t₁) (ground (arith, e, severed k));
    linked = Linked-sever;
    aligned = λ aligned a. elim (Option-cases (JsMap.get a m)) [
      | inl e ↦ ground (arith, severed a, e)
      | inr (u, e) ↦ ground (
        arith,
        severed a,
        e,
        aligned a,
        length-splice (find_index b₀ u.next_tasks_id) u.is_start_next u.next_tasks_id,
      )
    ];
    keyed = λ k t e. elim (Option-cases (JsMap.get k m)) [
      | inl gone ↦ ground (arith, severed k, gone)
      | inr (u, found) ↦ ground (arith, severed k, found, keyed k u)
    ];
    edges = has_next-sever;
  }

twice-IsDomain :
    (t u : PipelineTask) (c : Client)
    → IsDomain c.pipeline_tasks
    → IsDomain (upd_and_send u (upd_and_send t c)).pipeline_tasks
twice-IsDomain t u c h =
    let upd = upd-Holds IsDomain set-IsDomain in
    upd u (upd_and_send t c).pipeline_tasks (upd t c.pipeline_tasks h)

-- The other task, as the handlers choose it, is the one that is in the store after the first
-- change.
module _ (props_id id : ℕ) (t p other : PipelineTask) (c : Client)
    (stored : JsMap.get props_id c.pipeline_tasks ≡ some t)
    (found : JsMap.get id c.pipeline_tasks ≡ some p) (p-id : p.id ≡ id) where
  run_next :
      includes id t.next_tasks_id ≡ true
      → other ≡ (if props_id == id then drop_next id t else p)
      → delete_next_connect props_id id c
        ≡ returns (upd_and_send (drop_prev props_id other) (upd_and_send (drop_next id t) c))
  unfolding delete_next_connect
  run_next shown same = ground (
    arith,
    get-task props_id c.pipeline_tasks,
    get-task id c.pipeline_tasks,
    element-find_index id t.next_tasks_id,
  )

  run_prev :
      includes id t.prev_tasks_id ≡ true
      → other ≡ (if props_id == id then drop_prev id t else p)
      → delete_prev_connect props_id id c
        ≡ returns (upd_and_send (drop_next props_id other) (upd_and_send (drop_prev id t) c))
  unfolding delete_prev_connect
  run_prev shown same = ground (
    arith,
    get-task props_id c.pipeline_tasks,
    get-task id c.pipeline_tasks,
    element-find_index id t.prev_tasks_id,
  )

pub delete_next_connect-Disconnects :
    (props_id id : ℕ) (c : Client)
    → Linked c.pipeline_tasks
    → IsKeyed c.pipeline_tasks
    → has_next props_id id c.pipeline_tasks ≡ true
    → (c' : Client) × (delete_next_connect props_id id c ≡ returns c')
      × Disconnects props_id id c.pipeline_tasks c'.pipeline_tasks
delete_next_connect-Disconnects props_id id c linked keyed h =
    let m = c.pipeline_tasks in
    let (t, e) = get_of_has props_id m (has_of_next props_id id m h) in
    let shown = rw e at h in
    let (p, found) = get_of_has id m (next_stored linked props_id t id e shown) in
    let (other, read, same, spec) =
      upd_twice (drop_next id) (drop_prev props_id) (λ t. refl) (λ t. refl) props_id id t p m
        (keyed props_id t e) (keyed id p found) e found in
    (
      upd_and_send (drop_prev props_id other) (upd_and_send (drop_next id t) c),
      run_next props_id id t p other c e found (keyed id p found) shown same,
      Disconnects-sever props_id id m _ linked h spec keyed
          (twice-IsDomain (drop_next id t) (drop_prev props_id other) c),
    )

pub delete_prev_connect-Disconnects :
    (props_id id : ℕ) (c : Client)
    → Linked c.pipeline_tasks
    → IsKeyed c.pipeline_tasks
    → has_prev props_id id c.pipeline_tasks ≡ true
    → (c' : Client) × (delete_prev_connect props_id id c ≡ returns c')
      × Disconnects id props_id c.pipeline_tasks c'.pipeline_tasks
delete_prev_connect-Disconnects props_id id c linked keyed h =
    let m = c.pipeline_tasks in
    let (t, e) = get_of_has props_id m (has_of_prev id props_id m h) in
    let shown = rw e at h in
    let (p, found) = get_of_has id m (prev_stored linked props_id t id e shown) in
    let (other, read, same, spec) =
      upd_twice (drop_prev id) (drop_next props_id) (λ t. refl) (λ t. refl) props_id id t p m
        (keyed props_id t e) (keyed id p found) e found in
    (
      upd_and_send (drop_next props_id other) (upd_and_send (drop_prev id t) c),
      run_prev props_id id t p other c e found (keyed id p found) shown same,
      Disconnects-sever id props_id m _ linked (linked.symmetric id props_id ∙ h)
          (λ k. ground (arith, spec k)) keyed
          (twice-IsDomain (drop_prev id t) (drop_next props_id other) c),
    )

-- As `Disconnects`, of a store with a flag for each connection.
pub record Disconnected (a₀ b₀ : ℕ) (m m' : JsMap PipelineTask) : Type 0 where
  pub linked : Linked m'
  pub aligned : IsAligned m'
  pub keyed : IsKeyed m'
  pub edges : (a b : ℕ) → has_next a b m' ≡ (has_next a b m && not (a₀ == a && b₀ == b))

Disconnects-Disconnected :
    (a₀ b₀ : ℕ) (m m' : JsMap PipelineTask)
    → IsAligned m
    → Disconnects a₀ b₀ m m'
    → Disconnected a₀ b₀ m m'
Disconnects-Disconnected a₀ b₀ m m' aligned d = record {
  linked = d.linked;
  aligned = d.aligned aligned;
  keyed = d.keyed;
  edges = d.edges;
}

-- On a consistent store with a flag for each connection and the tasks under their own ids,
-- `deleteNextConnect` of a connection that there is returns; that connection alone is gone, at
-- both of its ends, and the store is as consistent as before. This includes the connection of a
-- task to itself.
pub delete_next_connect-Disconnected :
    (props_id id : ℕ) (c : Client)
    → Linked c.pipeline_tasks
    → IsAligned c.pipeline_tasks
    → IsKeyed c.pipeline_tasks
    → has_next props_id id c.pipeline_tasks ≡ true
    → (c' : Client) × (delete_next_connect props_id id c ≡ returns c')
      × Disconnected props_id id c.pipeline_tasks c'.pipeline_tasks
delete_next_connect-Disconnected props_id id c linked aligned keyed h =
    let (c', run, d) = delete_next_connect-Disconnects props_id id c linked keyed h in
    (c', run, Disconnects-Disconnected props_id id c.pipeline_tasks c'.pipeline_tasks aligned d)

-- On a consistent store with a flag for each connection and the tasks under their own ids,
-- `deletePrevConnect` of a task that the menu's task names as a previous one returns; the
-- connection from that task alone is gone, at both of its ends, and the store is as consistent
-- as before.
pub delete_prev_connect-Disconnected :
    (props_id id : ℕ) (c : Client)
    → Linked c.pipeline_tasks
    → IsAligned c.pipeline_tasks
    → IsKeyed c.pipeline_tasks
    → has_prev props_id id c.pipeline_tasks ≡ true
    → (c' : Client) × (delete_prev_connect props_id id c ≡ returns c')
      × Disconnected id props_id c.pipeline_tasks c'.pipeline_tasks
delete_prev_connect-Disconnected props_id id c linked aligned keyed h =
    let (c', run, d) = delete_prev_connect-Disconnects props_id id c linked keyed h in
    (c', run, Disconnects-Disconnected id props_id c.pipeline_tasks c'.pipeline_tasks aligned d)
