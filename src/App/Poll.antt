-- ===== src/App/Poll.antt =====
-- The polling of web/client/app.tsx: its timeouts and queries, and what the store of the runs holds.
use zmey.Base.{◌≡◌, ◌≢◌, Bool, true, false, none, some, List, [], arith}
use zmey.JsMap
use zmey.JsMap.{JsMap}
use zmey.Types.{PipelineTask, Task}
use zmey.ServerApi.{Answer, response, rejected}
use zmey.App.{Poller, Query, update_task_state, polled_id, answered}

-- A round of the polling sets the timeout for the next one exactly if it sends no query, and
-- every answer to a query, errors included, sets it.
pub poll_continues :
    (tasks : JsMap PipelineTask) (p : Poller) (q : Query) (answer : Answer (List Task))
    → ((update_task_state tasks p).poller.scheduled ≡ true
        → (update_task_state tasks p).query ≡ none)
      × ((update_task_state tasks p).query ≡ none
          → (update_task_state tasks p).poller.scheduled ≡ true)
      × ((answered q answer p).scheduled ≡ true)
unfolding update_task_state answered
poll_continues tasks p q answer = ground arith

-- Let a task be polled that is not the one polled before. The first query asks for all its
-- runs. If it fails, the next one asks for changes only, and an answer to that with no runs
-- leaves the store as it was before the first query.
pub failed_first_query :
    (tasks : JsMap PipelineTask) (p : Poller) (ok : Bool)
    → polled_id (JsMap.values tasks) ≢ 0
    → polled_id (JsMap.values tasks) ≢ p.ppl_task_id
    → let first = update_task_state tasks p in
      let id = polled_id (JsMap.values tasks) in
      (first.query ≡ some (record { ppl_task_id = id; if_change = false }))
      × (let p₁ = answered (record { ppl_task_id = id; if_change = false }) rejected first.poller in
          let second = update_task_state tasks p₁ in
          (second.query ≡ some (record { ppl_task_id = id; if_change = true }))
          × ((answered
                (record { ppl_task_id = id; if_change = true })
                (response ok (some []))
                second.poller).store
              ≡ p.store))
unfolding update_task_state answered
failed_first_query tasks p ok h k = ground arith
