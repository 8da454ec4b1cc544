-- ===== src/Dialog/Steps.antt =====
-- A session of the event dialog of web/client/central_widget, which serves one object after another: the
-- flag `m_hasAdded` and the requests that are under way. The button is `hSubmit` itself.
use zmey.Base.{
  ℕ, suc, ◌+◌, ◌-◌, ◌==◌, ◌≡◌, sym, subst, false, true, none, arith, List, [], ◌∷◌, ◌++◌, inl, inr,
  Bool-cases, Option-cases,
}
use zmey.Types.{Event}
use zmey.Client.{Client, Request, add_event, change_event, final, returns, send}
use zmey.Dialog.EventForm.{Form, h_submit, error_of, new_event}
use zmey.Dialog.{
  Dialog, Mess, no_mess, time_out, on_add_success, on_add_error, on_change_success, on_change_error,
  reject,
}

-- A dialog with the numbers of its requests that the server has not answered.
pub record Session : Type 0 where
  pub dialog : Dialog
  pub adds : ℕ
  pub changes : ℕ

abbrev pub fresh : Session
fresh = record {
  dialog = record { has_added = false; shown = false; status_mess = no_mess; timer = none };
  adds = 0;
  changes = 0;
}

-- How many requests to create an event, and to change one, are in the log.
abbrev pub adds_in : List Request → ℕ
adds_in [] = 0
adds_in (add_event e ∷ rs) = suc (adds_in rs)
adds_in (_ ∷ rs) = adds_in rs

abbrev pub changes_in : List Request → ℕ
changes_in [] = 0
changes_in (change_event e ∷ rs) = suc (changes_in rs)
changes_in (_ ∷ rs) = changes_in rs

-- The button: `hSubmit`, with the requests that it has sent under way.
unfoldable pub submit : Event → List ℕ → Form → Client → Session → Session
submit sel tasks f c s =
    let done = h_submit sel tasks f s.dialog c in
    let sent = (final done.outcome).sent in
    record {
      dialog = done.dialog;
      adds = s.adds + (adds_in sent - adds_in c.sent);
      changes = s.changes + (changes_in sent - changes_in c.sent);
    }

pub data Step (s : Session) : Session → Type 0 where
  opened : Step s (record s { dialog = record (s.dialog) { shown = true } })
  closed : Step s (record s { dialog = record (s.dialog) { shown = false } })
  submitted :
      (sel : Event) (tasks : List ℕ) (f : Form) (c : Client) → Step s (submit sel tasks f c s)
  add_ok :
      (n : ℕ) → s.adds ≡ suc n → Step s (record s { dialog = on_add_success s.dialog; adds = n })
  add_failed :
      (n : ℕ) → s.adds ≡ suc n → Step s (record s { dialog = on_add_error s.dialog; adds = n })
  change_ok :
      (n : ℕ)
      → s.changes ≡ suc n
      → Step s (record s { dialog = on_change_success s.dialog; changes = n })
  change_failed :
      (n : ℕ)
      → s.changes ≡ suc n
      → Step s (record s { dialog = on_change_error s.dialog; changes = n })
  timed_out : Step s (record s { dialog = time_out s.dialog })

pub data Reach (s : Session) : Session → Type 0 where
  here : Reach s s
  next : {t u : Session} → Reach s t → Step t u → Reach s u

adds_in-append :
    (rs : List Request) (r : Request) → adds_in (rs ++ r ∷ []) ≡ adds_in rs + adds_in (r ∷ [])
adds_in-append [] r = ground arith
adds_in-append (q ∷ rs) r = ground (arith, adds_in-append rs r)

changes_in-append :
    (rs : List Request) (r : Request)
    → changes_in (rs ++ r ∷ []) ≡ changes_in rs + changes_in (r ∷ [])
changes_in-append [] r = ground arith
changes_in-append (q ∷ rs) r = ground (arith, changes_in-append rs r)

-- The four ways through `hSubmit`.
pub data Submits (s : Session) : Session → Type 0 where
  ignored : Submits s s
  refused :
      (mess : Mess)
      → s.dialog.has_added ≡ false
      → Submits s (record s { dialog = reject mess s.dialog })
  add_sent :
      s.dialog.has_added ≡ false
      → Submits s (record s { dialog = record (s.dialog) { has_added = true }; adds = suc s.adds })
  change_sent : s.dialog.has_added ≡ false → Submits s (record s { changes = suc s.changes })

-- A request that is sent is under way.
submit-sends :
    (sel : Event) (tasks : List ℕ) (f : Form) (c : Client) (s : Session) (d : Dialog) (r : Request)
    → h_submit sel tasks f s.dialog c ≡ record { dialog = d; outcome = returns (send r c) }
    → submit sel tasks f c s ≡ record {
      dialog = d;
      adds = s.adds + adds_in (r ∷ []);
      changes = s.changes + changes_in (r ∷ []);
    }
unfolding submit
submit-sends sel tasks f c s d r run =
    ground (arith, run, adds_in-append c.sent r, changes_in-append c.sent r)

submit-keeps :
    (sel : Event) (tasks : List ℕ) (f : Form) (c : Client) (s : Session) (d : Dialog)
    → h_submit sel tasks f s.dialog c ≡ record { dialog = d; outcome = returns c }
    → submit sel tasks f c s ≡ record s { dialog = d }
unfolding submit
submit-keeps sel tasks f c s d run = ground (arith, run)

pub submit-Submits :
    (sel : Event) (tasks : List ℕ) (f : Form) (c : Client) (s : Session)
    → Submits s (submit sel tasks f c s)
unfolding h_submit
submit-Submits sel tasks f c s =
    let e = new_event sel tasks f in
    elim (Bool-cases s.dialog.has_added) [
      | inl busy ↦
          subst (Submits s) (sym (submit-keeps sel tasks f c s s.dialog (ground (arith, busy))))
            ignored
      | inr free ↦ elim (Option-cases (error_of sel f c)) [
        | inr (mess, wrong) ↦
            subst (Submits s)
              (sym
                (submit-keeps sel tasks f c s (reject mess s.dialog) (ground (arith, free, wrong))))
              (refused mess free)
        | inl right ↦ elim (Bool-cases (sel.id == 0)) [
          | inl new ↦
              let run =
                submit-sends sel tasks f c s (record (s.dialog) { has_added = true }) (add_event e)
                  (ground (arith, free, right, new)) in
              subst (Submits s) (ground (arith, run)) (add_sent free)
          | inr old ↦
              let run =
                submit-sends sel tasks f c s s.dialog (change_event e)
                  (ground (arith, free, right, old)) in
              subst (Submits s) (ground (arith, run)) (change_sent free)
        ]
      ]
    ]
