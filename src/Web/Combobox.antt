-- ===== src/Web/Combobox.antt =====
-- The searchable dropdown of web/static/combobox.js: the closure's variables and the elements that
-- it writes are a record, and every listener is a function from that record to itself.
-- `getOptions()` is the list `options` that a step is given, and `toLowerCase` is a parameter. The
-- browser gives a chip's `data-name` back as the name that was escaped into it.
pub mod Options
pub mod Selection
pub mod Keys
use doupro.Base.{
  ℕ, suc, Bool, true, false, not, ◌&&◌, Option, none, some, List, [], ◌∷◌, ◌++◌, Text, includes,
  text_eq, occurs, length, get_elem?, take, keep, if◌then◌else◌, ◌==◌,
}
use doupro.Base.Int.{ℤ, pos, negsuc, ◌+ℤ◌, ◌-ℤ◌, min_ℤ, max_ℤ}
use doupro.Web.Csv.{split, join, trim, trimmed}
use doupro.Web.Html.{escape_html}

pub record Config : Type 0 where
  pub multi : Bool
  -- whether the caller passed an `onSelect`
  pub has_on_select : Bool

pub record Combobox : Type 0 where
  -- `input.value`
  pub input_value : Text
  -- `hiddenEl.value`
  pub hidden_value : Text
  -- the `data-name`s of the rendered chips, which are also the `sel` of their listeners
  pub chips : List Text
  -- whether the panel's classes hold `hidden`
  pub panel_hidden : Bool
  -- the labels of the rendered option buttons, as HTML, and which of them are highlighted
  pub buttons : List Text
  pub shaded : List Bool
  pub current_options : List Text
  pub highlighted : ℤ
  -- the values that `onSelect` was called with
  pub notified : List Text

-- What happens to the element. Other keys change nothing.
pub data Event : Type 0 where
  typed : Text → Event
  focus blur : Event
  arrow_down arrow_up enter escape other_key : Event
  mouse_down : ℕ → Event
  remove_chip : ℕ → Event
  -- the page writes the hidden field and calls `refreshChips`
  refresh_chips : Text → Event

unfoldable pub selected : Config → Combobox → List Text
selected cfg s = if cfg.multi then trimmed (split b',' s.hidden_value) else []

unfoldable pub render_chips : Config → Combobox → Combobox
unfolding selected
render_chips cfg s = if cfg.multi then record s { chips = selected cfg s } else s

abbrev is_index : ℕ → ℤ → Bool
is_index i (pos k) = i == k
is_index i (negsuc k) = false

-- `i === highlighted`, for the buttons from the one with index `i` on
abbrev pub shade_from : ℕ → ℤ → List Text → List Bool
shade_from i h [] = []
shade_from i h (o ∷ os) = is_index i h ∷ shade_from (suc i) h os

unfoldable pub highlight : Combobox → Combobox
highlight s = record s { shaded = shade_from 0 s.highlighted s.buttons }

abbrev pub escape_all : List Text → List Text
escape_all [] = []
escape_all (o ∷ os) = escape_html o ∷ escape_all os

abbrev none_shaded : List Text → List Bool
none_shaded [] = []
none_shaded (o ∷ os) = false ∷ none_shaded os

abbrev pub is_nil : List Text → Bool
is_nil [] = true
is_nil (o ∷ os) = false

unfoldable pub close : Combobox → Combobox
close s = record s { panel_hidden = true }

unfoldable pub pick : Config → Text → Combobox → Combobox
unfolding selected render_chips close
pick cfg value s =
    if cfg.multi
    then (let sel = selected cfg s in
        let added =
          if includes sel value
          then s
          else render_chips cfg (record s { hidden_value = join b',' (sel ++ (value ∷ [])) }) in
        close (record added { input_value = [] }))
    else (let filled = record s { input_value = value } in
        close (
          if cfg.has_on_select
          then record filled { notified = s.notified ++ (value ∷ []) }
          else filled))

abbrev pub pick_at : Config → Option Text → Combobox → Combobox
pick_at cfg none s = s
pick_at cfg (some value) s = pick cfg value s

-- The click on a chip's button: `sel.filter((n) => n !== btn.dataset.name).join(',')`.
abbrev pub without : Text → List Text → List Text
without name [] = []
without name (n ∷ ns) = if text_eq n name then without name ns else n ∷ without name ns

abbrev pub remove_at : Config → Option Text → Combobox → Combobox
remove_at cfg none s = s
remove_at cfg (some name) s =
    render_chips cfg (record s { hidden_value = join b',' (without name s.chips) })

-- `open`, from the assignment of `currentOptions` on
unfoldable pub show_found : List Text → Combobox → Combobox
show_found found s =
    let searched = record s { current_options = found; highlighted = negsuc 0 } in
    if is_nil found then record searched { panel_hidden = true } else record searched {
      buttons = escape_all found;
      shaded = none_shaded found;
      panel_hidden = false;
    }

abbrev pub enter_at : Config → ℤ → Combobox → Combobox
enter_at cfg (pos i) s = pick_at cfg (get_elem? s.current_options i) s
enter_at cfg (negsuc _) s = s

-- the `keydown` listener, past its first line
abbrev pub key_down : Config → Event → Combobox → Combobox
key_down cfg arrow_down s = highlight (record s {
  highlighted = min_ℤ (s.highlighted +ℤ pos 1) (pos (length s.current_options) -ℤ pos 1);
})
key_down cfg arrow_up s =
    highlight (record s { highlighted = max_ℤ (s.highlighted -ℤ pos 1) (pos 0) })
key_down cfg enter s = enter_at cfg s.highlighted s
key_down cfg escape s = close s
key_down cfg _ s = s

module _ (to_lower_case : Text → Text) where
  -- the test of `filter` in `open`
  unfoldable pub is_offered : List Text → Text → Text → Bool
  is_offered sel query o = not (includes sel o) && occurs query (to_lower_case o)

  unfoldable pub open_panel : Config → List Text → Combobox → Combobox
  unfolding selected is_offered show_found
  open_panel cfg options s =
      let query = to_lower_case (trim s.input_value) in
      show_found (take 8 (keep (is_offered (selected cfg s) query) options)) s

  -- One event. An option button can be pressed only while the panel is shown.
  unfoldable pub step : Config → List Text → Event → Combobox → Combobox
  unfolding open_panel highlight pick close render_chips
  step cfg options (typed t) s = open_panel cfg options (record s { input_value = t })
  step cfg options focus s = open_panel cfg options s
  step cfg options blur s = close s
  step cfg options (mouse_down i) s =
      if s.panel_hidden then s else pick_at cfg (get_elem? s.current_options i) s
  step cfg options (remove_chip i) s = remove_at cfg (get_elem? s.chips i) s
  step cfg options (refresh_chips t) s = render_chips cfg (record s { hidden_value = t })
  step cfg options key s = if s.panel_hidden then s else key_down cfg key s

  abbrev pub run : Config → List (List Text × Event) → Combobox → Combobox
  run cfg [] s = s
  run cfg ((options, e) ∷ es) s = run cfg es (step cfg options e s)

-- `attachCombobox`: the state after the call, for the two elements' values.
unfoldable pub attach : Config → Text → Text → Combobox
unfolding render_chips
attach cfg input_text hidden_text = render_chips cfg (record {
  input_value = input_text;
  hidden_value = hidden_text;
  chips = [];
  panel_hidden = true;
  buttons = [];
  shaded = [];
  current_options = [];
  highlighted = negsuc 0;
  notified = [];
})
