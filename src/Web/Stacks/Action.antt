-- ===== src/Web/Stacks/Action.antt =====
-- The update and rollback buttons: the third function of web/static/stacks.js.
use doupro.Base.{
  Bool, true, false, ◌≡◌, Option, none, some, List, [], ◌∷◌, ◌++◌, Text, codes, text_eq,
  if◌then◌else◌, arith,
}
use doupro.Web.Stacks.Spinner.{create_donut_spinner, outer_html}

pub record Button : Type 0 where
  pub disabled : Bool
  pub inner_html : Text
  pub class_name : Text

-- The page: the button, whether a reload is timed, what was alerted, and the requests that were
-- sent, by the form's `action`.
pub record Page : Type 0 where
  pub button : Button
  pub reload_timed : Bool
  pub alerts : List Text
  pub requests : List Text

-- How `fetch` ends: it fails with a message, or with an answer: its `ok`, and the `error.message` of
-- its JSON body, `none` where the body is no JSON or lacks the message.
pub data Reply : Type 0 where
  failed : Text → Reply
  answered : Bool → Option Text → Reply

-- `(… && result.body.error.message) || 'operation failed'`
unfoldable pub message_of : Option Text → Text
message_of none = codes "operation failed"
message_of (some m) = if text_eq m [] then codes "operation failed" else m

-- The `catch` clause, with the values that the listener saved.
unfoldable pub restore : Text → Text → Text → Page → Page
restore original_html original_class message p = record p {
  button = record { disabled = false; inner_html = original_html; class_name = original_class };
  alerts = p.alerts ++ ((codes "Error: " ++ message) ∷ []);
}

abbrev pub problem : Reply → Option Text
problem (failed message) = some message
problem (answered true body) = none
problem (answered false body) = some (message_of body)

abbrev pub EndsWith : Page → Option Text → Page → Type 0
EndsWith p (some message) p' =
    (p'.button ≡ p.button)
    × (p'.alerts ≡ p.alerts ++ ((codes "Error: " ++ message) ∷ []))
    × (p'.reload_timed ≡ p.reload_timed)
EndsWith p none p' =
    (p'.button.disabled ≡ true)
    × (p'.button.inner_html ≡ outer_html create_donut_spinner)
    × (p'.alerts ≡ p.alerts)
    × (p'.reload_timed ≡ true)

-- the part of the listener before the request, for the form's `action`
unfoldable pub start : Text → Page → Page
start action p = record p {
  button = record (p.button) { disabled = true; inner_html = outer_html create_donut_spinner };
  requests = p.requests ++ (action ∷ []);
}

-- the whole listener; a button outside any form does nothing
unfoldable pub run_action : Option Text → Reply → Page → Page
unfolding start restore message_of
run_action none reply p = p
run_action (some action) (failed message) p =
    restore p.button.inner_html p.button.class_name message (start action p)
run_action (some action) (answered true body) p = record (start action p) { reload_timed = true }
run_action (some action) (answered false body) p =
    restore p.button.inner_html p.button.class_name (message_of body) (start action p)

-- A click on an enabled button of a form sends one request. If the operation fails, by the
-- network or by an answer that is not ok, the button is as before the click, the reader is told
-- the error, and no reload is timed; if it succeeds, the button stays disabled and holds the spinner, nothing is
-- alerted, and the page will reload.
pub run_action-EndsWith :
    (action : Text) (reply : Reply) (p : Page)
    → p.button.disabled ≡ false
    → ((run_action (some action) reply p).requests ≡ p.requests ++ (action ∷ []))
      × EndsWith p (problem reply) (run_action (some action) reply p)
unfolding run_action
run_action-EndsWith action (failed message) p h = ground arith
run_action-EndsWith action (answered true body) p h = ground arith
run_action-EndsWith action (answered false body) p h = ground arith
