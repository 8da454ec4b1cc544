-- ===== src/Dialog/Guard.antt =====
-- The flag `m_hasAdded` of the event dialog in web/client/central_widget over a whole session.
use zmey.Base.{ℕ, suc, ◌≤◌, ◌≡◌, ◌≢◌, refl, Bool, true, false, Option, none, some, arith}
use zmey.Dialog.{
  Timer, no_callback, hide_and_reset, set_status_mess, time_out, on_add_success, on_add_error,
  on_change_success, on_change_error,
}
use zmey.Dialog.Steps.{
  Session, fresh, Step, opened, closed, submitted, add_ok, add_failed, change_ok, change_failed,
  timed_out, Reach, here, next, Submits, ignored, refused, add_sent, change_sent, submit-Submits,
}

abbrev pub resets : Option Timer → Bool
resets none = false
resets (some t) = elim t.cback [ no_callback ↦ false | hide_and_reset ↦ true ]

-- While a request to create is open the flag is set, and no timeout is about to reset it.
pub record OneAdd (s : Session) : Type 0 where
  pub bounded : s.adds ≤ 1
  pub flagged : s.adds ≢ 0 → s.dialog.has_added ≡ true
  pub quiet : s.adds ≢ 0 → resets s.dialog.timer ≡ false
  pub armed : s.dialog.has_added ≡ false → resets s.dialog.timer ≡ false

Submits-OneAdd : {s t : Session} → Submits s t → OneAdd s → OneAdd t
unfolding set_status_mess
Submits-OneAdd ignored h = h
Submits-OneAdd (refused mess e) h = ground arith
Submits-OneAdd (add_sent e) h = ground arith
Submits-OneAdd (change_sent e) h = ground arith

Step-OneAdd : {s t : Session} → Step s t → OneAdd s → OneAdd t
unfolding time_out on_add_success on_add_error on_change_success on_change_error
Step-OneAdd opened h = ground arith
Step-OneAdd closed h = ground arith
Step-OneAdd {s} (submitted sel tasks f c) h = Submits-OneAdd (submit-Submits sel tasks f c s) h
Step-OneAdd (add_ok n e) h = ground arith
Step-OneAdd (add_failed n e) h = ground arith
Step-OneAdd (change_ok n e) h = ground arith
Step-OneAdd (change_failed n e) h = ground arith
Step-OneAdd timed_out h = ground arith

Reach-OneAdd : {s t : Session} → OneAdd s → Reach s t → OneAdd t
Reach-OneAdd h here = h
Reach-OneAdd h (next r st) = Step-OneAdd st (Reach-OneAdd h r)

-- However the user's actions, the server's answers and the timeouts follow one another, an
-- event dialog that started afresh never has two requests to create an event under way.
pub Reach-one_add : {s : Session} → Reach fresh s → s.adds ≤ 1
Reach-one_add r =
    (Reach-OneAdd
      (record {
        bounded = omega arith;
        flagged = λ n. absurd (n refl);
        quiet = λ n. refl;
        armed = λ e. refl;
      })
      r).bounded

-- The flag is set, and nothing is left that would reset it.
pub record IsStuck (s : Session) : Type 0 where
  pub flagged : s.dialog.has_added ≡ true
  pub unarmed : resets s.dialog.timer ≡ false
  pub unanswered : s.adds ≡ 0

Submits-IsStuck : {s t : Session} → Submits s t → IsStuck s → IsStuck t
unfolding set_status_mess
Submits-IsStuck ignored h = h
Submits-IsStuck (refused mess e) h = ground arith
Submits-IsStuck (add_sent e) h = ground arith
Submits-IsStuck (change_sent e) h = ground arith

Step-IsStuck : {s t : Session} → Step s t → IsStuck s → IsStuck t
unfolding time_out on_add_success on_add_error on_change_success on_change_error
Step-IsStuck opened h = ground arith
Step-IsStuck closed h = ground arith
Step-IsStuck {s} (submitted sel tasks f c) h = Submits-IsStuck (submit-Submits sel tasks f c s) h
Step-IsStuck (add_ok n e) h = ground arith
Step-IsStuck (add_failed n e) h = ground arith
Step-IsStuck (change_ok n e) h = ground arith
Step-IsStuck (change_failed n e) h = ground arith
Step-IsStuck timed_out h = ground arith

Reach-IsStuck : {s t : Session} → IsStuck s → Reach s t → IsStuck t
Reach-IsStuck h here = h
Reach-IsStuck h (next r st) = Step-IsStuck st (Reach-IsStuck h r)

-- Let a request to create and one to edit be under way, and the invariant of the dialog hold.
-- If the answer to the creation is followed by that to the edit before the timeout, the state
-- after both is reached, and from there the flag `m_hasAdded` is set in every state that can be
-- reached.
pub change_ok-stuck :
    (s : Session) (a c : ℕ)
    → OneAdd s
    → s.adds ≡ suc a
    → s.changes ≡ suc c
    → let t = record s {
      dialog = on_change_success (on_add_success s.dialog);
      adds = a;
      changes = c;
    } in
      Reach s t × ((u : Session) → Reach t u → u.dialog.has_added ≡ true)
unfolding on_add_success on_change_success
change_ok-stuck s a c h e f = (
  next (next here (add_ok a e)) (change_ok c f),
  λ u r.
      (Reach-IsStuck
        (record {
          flagged = h.flagged (ground arith);
          unarmed = refl;
          unanswered = omega (arith, h.bounded);
        })
        r).flagged,
)
