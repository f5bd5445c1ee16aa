-- ===== src/Web/Tests.antt =====
-- Runs of the scripts, and the theorems about them at concrete inputs.
use doupro.Base.{
  ◌≡◌, refl, true, false, Option, none, some, List, [], ◌∷◌, ◌++◌, Text, codes, arith, zero, suc,
  ap, if◌then◌else◌, text_eq,
}
use mathlib.Core.List.{append-nil}
use doupro.Base.Int.{pos, negsuc, ◌+ℤ◌, ◌-ℤ◌}
use doupro.Web.Csv.{split, join, trim}
use doupro.Web.Csv.Laws.{IsClean}
use doupro.Web.Html.{escape_html}
use doupro.Web.Combobox.{
  Config, Combobox, Event, typed, focus, arrow_down, enter, selected, step, run, attach, open_panel,
  is_offered, is_nil,
}
use doupro.Web.Combobox.Options.{Offers, open_panel-Offers}
use doupro.Web.Combobox.Keys.{IsValid, run-attach-IsValid}
use doupro.Web.Csrf.{match_cookie, get_entry}
use doupro.Web.Csrf.Cookies.{print_jar, match_cookie-print_jar}
use doupro.Web.Stacks.{Object, Json, Section, Page, is_set, load_state}
use doupro.Web.Stacks.Filter
use doupro.Web.Stacks.Action
use doupro.Web.Stacks.Spinner.{circle, outer_html}
use doupro.Web.Wiring.{
  Work, parse, script, Script, open_page, wire_each, stack_section, submit_button, filter_button,
  theme_button, hide_button, show_button, stacks, updatable_filter, update_actions, theme, sidebar,
}
use doupro.Web.Wiring.Once.{open_page-wired, scripts_of, parsed}

abbrev same_case : Text → Text
same_case s = s

abbrev names : List Text
names = codes "web" ∷ codes "db" ∷ codes "web-cache" ∷ []

abbrev chooser : Config
chooser = record { multi = true; has_on_select = false }

abbrev field : Config
field = record { multi = false; has_on_select = true }

abbrev visit : List (List Text × Event)
visit =
    (names, typed (codes " we ")) ∷ (names, arrow_down) ∷ (names, arrow_down) ∷ (names, enter) ∷ []

picked_by_keys :
    selected chooser (run same_case chooser visit (attach chooser [] (codes "db")))
    ≡ codes "db" ∷ codes "web-cache" ∷ []
unfolding selected step attach is_offered split join trim ◌+ℤ◌ ◌-ℤ◌ escape_html
picked_by_keys = refl

open_panel-Offers_example :
    Offers same_case field names
      (attach field (codes "db") [])
      (open_panel same_case field names (attach field (codes "db") [])).current_options
    × ((open_panel same_case field names (attach field (codes "db") [])).panel_hidden
        ≡ is_nil (open_panel same_case field names (attach field (codes "db") [])).current_options)
open_panel-Offers_example = open_panel-Offers same_case field names (attach field (codes "db") [])

run-attach-IsValid_example :
    IsValid chooser (run same_case chooser visit (attach chooser [] (codes "db")))
run-attach-IsValid_example = run-attach-IsValid same_case chooser [] (codes "db") visit

abbrev half_way : List (List Text × Event)
half_way = (names, focus) ∷ (names, arrow_down) ∷ []

half_way_shown : (run same_case field half_way (attach field [] [])).panel_hidden ≡ false
unfolding selected step attach is_offered split join trim ◌+ℤ◌ ◌-ℤ◌ escape_html
half_way_shown = refl

half_way_at : (run same_case field half_way (attach field [] [])).highlighted ≡ pos 0
unfolding selected step attach is_offered split join trim ◌+ℤ◌ ◌-ℤ◌ escape_html
half_way_at = refl

web_IsClean : IsClean (codes "web")
unfolding trim
web_IsClean = record { no_comma = omega arith; trimmed_already = refl; full = refl }

abbrev one_chip : Combobox
one_chip = record {
  input_value = [];
  hidden_value = codes "db, web";
  chips = codes "db" ∷ codes "web" ∷ [];
  panel_hidden = true;
  buttons = [];
  shaded = [];
  current_options = [];
  highlighted = negsuc 0;
  notified = [];
}

chips_synced : one_chip.chips ≡ selected chooser one_chip
unfolding selected split trim
chips_synced = refl

abbrev jar : List (Text × Text)
jar = (codes "theme", codes "a=b") ∷ (codes "doupro_csrf", codes "beef") ∷ []

jar_matched : match_cookie (codes "doupro_csrf") (print_jar jar) ≡ some (codes "beef")
unfolding match_cookie
jar_matched = refl

match_cookie-print_jar_example :
    match_cookie (codes "doupro_csrf") (print_jar jar) ≡ get_entry (codes "doupro_csrf") jar
match_cookie-print_jar_example =
    match_cookie-print_jar (codes "doupro_csrf") jar (omega arith) (omega arith)

-- A notation for objects that can be read back: an entry begins with 0 or 1 for its Boolean, and a
-- code unit of its name is raised by two.
abbrev raised : Text → Text → Text
raised [] r = r
raised (c ∷ k) r = suc (suc c) ∷ raised k r

abbrev entries : Object → Text
entries [] = []
entries ((k, v) ∷ s) = (if v then 0 else 1) ∷ raised k (entries s)

abbrev read_entries : Text → Text × Object
read_entries [] = ([], [])
read_entries (zero ∷ t) = let (k, s) = read_entries t in ([], (k, true) ∷ s)
read_entries (suc zero ∷ t) = let (k, s) = read_entries t in ([], (k, false) ∷ s)
read_entries (suc (suc c) ∷ t) = let (k, s) = read_entries t in (c ∷ k, s)

read_entries-raised :
    (k r : Text) → read_entries (raised k r) ≡ (k ++ (read_entries r).0, (read_entries r).1)
read_entries-raised [] r = refl
read_entries-raised (c ∷ k) r = ground (arith, read_entries-raised k r)

read_entries-entries : (s : Object) → read_entries (entries s) ≡ ([], s)
read_entries-entries [] = refl
read_entries-entries ((k, true) ∷ s) =
    ground (arith, read_entries-raised k (entries s), read_entries-entries s, append-nil k)
read_entries-entries ((k, false) ∷ s) =
    ground (arith, read_entries-raised k (entries s), read_entries-entries s, append-nil k)

abbrev write_object : Object → Text
write_object [] = codes "{}"
write_object (e ∷ s) = entries (e ∷ s)

abbrev read_object : Text → Option Object
read_object t = some (if text_eq t (codes "{}") then [] else (read_entries t).1)

read_object-write_object : (s : Object) → read_object (write_object s) ≡ some s
read_object-write_object [] = refl
read_object-write_object ((k, true) ∷ s) =
    ap (λ (t : Text × Object). some t.1) (read_entries-entries ((k, true) ∷ s))
read_object-write_object ((k, false) ∷ s) =
    ap (λ (t : Text × Object). some t.1) (read_entries-entries ((k, false) ∷ s))

write_object_full : (s : Object) → text_eq (write_object s) [] ≡ false
write_object_full [] = refl
write_object_full (e ∷ s) = refl

abbrev toy_json : Json
toy_json = record {
  parse = read_object;
  stringify = write_object;
  parse_empty = refl;
  parse-stringify = λ s. (s, read_object-write_object s, λ k. refl);
  stringify_full = write_object_full;
}

abbrev media : Section
media = record {
  name = codes "media";
  complete = true;
  body_hidden = false;
  chevron_rotated = true;
}

abbrev stacks_page : Page
stacks_page = record { storage = none; state = []; sections = media ∷ [] }

-- A stack that was never toggled, and yet is collapsed.
constructor_collapsed : is_set (codes "constructor") (load_state toy_json none) ≡ true
unfolding is_set load_state
constructor_collapsed = refl

abbrev rows : List Filter.Row
rows =
    record { updatable = codes "1"; hidden = false }
    ∷ record { updatable = codes "0"; hidden = false }
    ∷ []

abbrev filter_page : Filter.Page
filter_page = record {
  active = false;
  button_text = codes "Updatable";
  button_title = [];
  stacks = record { rows = rows; stack_hidden = false } ∷ [];
}

abbrev action_page : Action.Page
action_page = record {
  button = record { disabled = false; inner_html = codes "Update"; class_name = codes "btn" };
  reload_timed = false;
  alerts = [];
  requests = [];
}

spinner_markup :
    outer_html circle
    ≡ codes "<circle cx="
      ++ (34 ∷ codes "12")
      ++ (34 ∷ codes " cy=")
      ++ (34 ∷ codes "12")
      ++ (34 ∷ codes " r=")
      ++ (34 ∷ codes "10")
      ++ (34 ∷ codes "></circle>")
unfolding outer_html
spinner_markup = refl

run_action-EndsWith_example :
    ((Action.run_action (some (codes "/update")) (Action.answered false none) action_page).requests
      ≡ codes "/update" ∷ [])
    × Action.EndsWith action_page
        (some (Action.message_of none))
        (Action.run_action (some (codes "/update")) (Action.answered false none) action_page)
run_action-EndsWith_example =
    Action.run_action-EndsWith (codes "/update") (Action.answered false none) action_page refl

-- The scripts of the head, a page, and the script at its end.
abbrev containers_page : List Work
containers_page =
    script theme
    ∷ script sidebar
    ∷ parse hide_button
    ∷ parse show_button
    ∷ parse theme_button
    ∷ parse filter_button
    ∷ parse (stack_section true)
    ∷ parse (submit_button (codes "/containers/1/update"))
    ∷ []

abbrev late_scripts : List Script
late_scripts = stacks ∷ updatable_filter ∷ update_actions ∷ []

open_page-wired_example :
    (open_page containers_page late_scripts).elements
    ≡ wire_each (scripts_of containers_page ++ late_scripts) (parsed containers_page)
open_page-wired_example = open_page-wired containers_page late_scripts
