-- ===== src/Dialog/NewPipeline.antt =====
-- A new pipeline in web/client/central_widget/pipeline_dialog.tsx, from the server's answer to the
-- timeout after which central_widget.tsx beside it selects the pipeline.
use zmey.Base.{ℕ, ◌≡◌, refl, false, ◌||◌, ◌==◌, none, some, arith}
use zmey.JsMap
use zmey.JsMap.{JsMap}
use zmey.JsMap.Laws.{get-set, has-set}
use zmey.Types.{Pipeline}
use zmey.Client.{Client, returns, throws}
use zmey.Store.Pipelines
use zmey.Central.{select_pipeline}
use zmey.Central.Select.{is_selected, is_visible, select_pipeline-alone}
use zmey.Store.Ordered.{IsStore, IsStore-set}
use zmey.Dialog.{
  Dialog, Submitted, no_callback, hide_and_reset, no_mess, time_out, on_add_success,
  set_status_mess,
}
use zmey.Dialog.PipelineForm.{add_success}

-- The timeout of the message on a new pipeline: `onHide`, then `onNew`, and the flag last, which stays
-- if `onNew` throws.
unfoldable pub time_out_new : Pipeline → Dialog → Client → Submitted
unfolding time_out
time_out_new resp d c = elim d.timer [
  | none ↦ record { dialog = d; outcome = returns c }
  | some t ↦ elim t.cback [
    | no_callback ↦ record { dialog = time_out d; outcome = returns c }
    | hide_and_reset ↦ elim (select_pipeline resp.id c) [
      | returns c' ↦ record { dialog = time_out d; outcome = returns c' }
      | throws c' ↦ record {
        dialog = record d { shown = false; status_mess = no_mess; timer = none };
        outcome = throws c';
      }
    ]
  ]
]

-- Let the store be a Map under the pipelines' own ids, and the server answer a request to
-- create a pipeline with one whose id is not stored. The answer adds it; when the timeout of
-- its message has run out, the dialog is hidden and `m_hasAdded` reset, and the new pipeline
-- alone is selected, it is visible, and the visibility of no other pipeline has changed.
pub add_success-selected :
    (resp : Pipeline) (d : Dialog) (c : Client)
    → IsStore c.pipelines
    → JsMap.has resp.id c.pipelines ≡ false
    → (c₁ c₂ : Client) × (d' : Dialog) × ((add_success resp d c).outcome ≡ returns c₁)
      × (time_out_new resp (add_success resp d c).dialog c₁
          ≡ record { dialog = d'; outcome = returns c₂ })
      × ((d'.shown ≡ false) × (d'.has_added ≡ false))
      × ((k : ℕ) → is_selected k c₂.pipelines ≡ (resp.id == k))
      × ((k : ℕ) → is_visible k c₂.pipelines ≡ (is_visible k c.pipelines || resp.id == k))
unfolding add_success on_add_success set_status_mess time_out_new time_out Pipelines.add
add_success-selected resp d c s fresh =
    let m = c.pipelines in
    let m₁ = JsMap.set resp.id resp m in
    let c₁ = record c { pipelines = m₁ } in
    let (c₂, run, sel, vis) =
      select_pipeline-alone resp.id c₁ (IsStore-set resp.id resp m refl s)
        (ground (arith, has-set resp.id resp.id resp m)) in
    (
      c₁,
      c₂,
      record d { shown = false; has_added = false; status_mess = no_mess; timer = none },
      ground arith,
      ground (arith, run),
      (refl, refl),
      sel,
      λ k. ground (arith, vis k, get-set resp.id k resp m),
    )
