-- ===== src/Tests/Tabs.antt =====
-- A session on two pipelines: the first is hidden, and the second then deleted.
use zmey.Base.{◌≡◌, ◌⊎◌, refl, false, arith}
use zmey.Admin.ParseInt.{parse_int}
use zmey.JsMap
use zmey.JsMap.{JsMap}
use zmey.Client.{returns, throws, final}
use zmey.Store.Pipelines
use zmey.Central.{hide_pipeline}
use zmey.Central.Items.{button, double_click_pipeline, double_click}
use zmey.Session.Tabs.{IsTabbed}
use zmey.Session.Pipelines.{act, Fails, clicked_twice, Reached, begin, after, hidden, delete_asked}
use zmey.Session.PipelineRun.{session-IsTabbed}
use zmey.Tests.Data.{client, pipeline, pipelines}

pipelines-IsTabbed : IsTabbed pipelines
unfolding JsMap.get JsMap.has
pipelines-IsTabbed = record {
  store = record { is_map = (refl, (refl, tt)); keyed = λ k p e. ground arith };
  seen = λ k on. ground arith;
}

-- The first is hidden, and a button of the list is clicked twice.
second-Reached :
    Reached client (final (act (clicked_twice 2 button) (final (act (hidden 1) client))))
unfolding JsMap.has
second-Reached = after (clicked_twice 2 button) (after (hidden 1) begin refl) tt

session-IsTabbed_example :
    let u = final (act (clicked_twice 2 button) (final (act (hidden 1) client))) in
    let a = delete_asked (pipeline 2 false false) in
    IsTabbed u.pipelines
    × IsTabbed (final (act a u)).pipelines
    × ((act a u ≡ returns (final (act a u))) ⊎ (Fails a u × (act a u ≡ throws u)))
unfolding act hide_pipeline Pipelines.get Pipelines.set_visible Pipelines.set_selected JsMap.get
    JsMap.has JsMap.set double_click_pipeline double_click parse_int
session-IsTabbed_example =
    session-IsTabbed client (final (act (clicked_twice 2 button) (final (act (hidden 1) client))))
      (delete_asked (pipeline 2 false false)) pipelines-IsTabbed second-Reached refl
