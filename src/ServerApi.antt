-- ===== src/ServerApi.antt =====
-- web/client/server_api: which callback gets the server's answer. `fetch` and the parsing of JSON
-- are the browser's: an answer says whether the promise was rejected, the `ok` flag of the
-- response, and the object that its body parses to, if it does.
pub mod Fetch
pub mod Reader
pub mod Routes
use zmey.Base.{Bool, Option, none, some, if◌then◌else◌}

pub data Answer {ℓ} (A : Type ℓ) : Type ℓ where
  rejected : Answer A
  response : Bool → Option A → Answer A

-- The callback that is called; the text of an error is not looked at.
pub data Called {ℓ} (A : Type ℓ) : Type ℓ where
  on_success : A → Called A
  on_error : Called A

module _ {ℓ} {A : Type ℓ} where
  -- `.then(response => response.json()).then(onSucces).catch(onError)`
  unfoldable pub json_then : Answer A → Called A
  json_then rejected = on_error
  json_then (response ok none) = on_error
  json_then (response ok (some body)) = on_success body

-- `.then(resp => resp.ok ? onSucces() : onError()).catch(onError)`
unfoldable pub ok_then {ℓ} : {A : Type ℓ} → Answer A → Called (Unit {0})
ok_then rejected = on_error
ok_then (response ok body) = if ok then on_success tt else on_error
