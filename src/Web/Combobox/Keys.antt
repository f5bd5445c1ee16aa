-- ===== src/Web/Combobox/Keys.antt =====
-- The listeners of web/static/combobox.js keep the panel, the buttons and the chips consistent.
use doupro.Base.{
  ℕ, zero, suc, ◌≤◌, ◌<◌, ◌≡◌, refl, ap, ◌∙◌, Bool, true, false, Option, none, some, List, [], ◌∷◌,
  arith, Text, length, get_elem?, if◌then◌else◌, length-take-le, if_both,
}
use doupro.Base.Int.{ℤ, pos, negsuc, ◌+ℤ◌, ◌-ℤ◌, min_ℤ, max_ℤ}
use doupro.Web.Combobox.{
  enter_at, Config, Combobox, Event, selected, show_found, open_panel, is_nil, render_chips,
  highlight, close, pick, pick_at, remove_at, step, run, attach, escape_all, shade_from,
  none_shaded, key_down, typed, focus, blur, arrow_down, arrow_up, enter, escape, other_key,
  mouse_down, remove_chip, refresh_chips,
}

abbrev pub InRange : ℤ → ℕ → Type 0
InRange (pos k) n = k < n
InRange (negsuc k) n = k ≡ 0

pub record IsValid (cfg : Config) (s : Combobox) : Type 0 where
  -- -1 or the index of an option
  pub in_range : InRange s.highlighted (length s.current_options)
  pub bounded : length s.current_options ≤ 8
  pub shown : s.panel_hidden ≡ false → is_nil s.current_options ≡ false
  pub rendered : s.panel_hidden ≡ false → s.buttons ≡ escape_all s.current_options
  pub shading : s.panel_hidden ≡ false → s.shaded ≡ shade_from 0 s.highlighted s.buttons
  pub synced : cfg.multi ≡ true → s.chips ≡ selected cfg s

none_shaded_lem :
    (i : ℕ) (os : List Text) → none_shaded os ≡ shade_from i (negsuc 0) (escape_all os)
none_shaded_lem i [] = refl
none_shaded_lem i (o ∷ os) = ap (◌∷◌ false) (none_shaded_lem (suc i) os)

attach-IsValid : (cfg : Config) (t u : Text) → IsValid cfg (attach cfg t u)
unfolding attach
attach-IsValid cfg t u = ground arith

close-IsValid : {cfg : Config} {s : Combobox} → IsValid cfg s → IsValid cfg (close s)
unfolding close selected
close-IsValid v = ground arith

pick-IsValid : {cfg : Config} (o : Text) {s : Combobox} → IsValid cfg s → IsValid cfg (pick cfg o s)
unfolding pick
pick-IsValid o v = ground arith

show_found-IsValid :
    {cfg : Config} (found : List Text) {s : Combobox}
    → length found ≤ 8
    → IsValid cfg s
    → IsValid cfg (show_found found s)
unfolding show_found selected
show_found-IsValid found few v = ground (arith, none_shaded_lem 0 found)

render_chips-IsValid :
    {cfg : Config} (t : Text) {s : Combobox}
    → IsValid cfg s
    → IsValid cfg (render_chips cfg (record s { hidden_value = t }))
unfolding render_chips
render_chips-IsValid t v = ground arith

pick_at-IsValid :
    {cfg : Config} (o : Option Text) {s : Combobox} → IsValid cfg s → IsValid cfg (pick_at cfg o s)
pick_at-IsValid none v = v
pick_at-IsValid (some o) v = pick-IsValid o v

remove_at-IsValid :
    {cfg : Config} (o : Option Text) {s : Combobox}
    → IsValid cfg s
    → IsValid cfg (remove_at cfg o s)
remove_at-IsValid none v = v
remove_at-IsValid (some o) v = render_chips-IsValid _ v

typed-IsValid :
    {cfg : Config} (t : Text) {s : Combobox}
    → IsValid cfg s
    → IsValid cfg (record s { input_value = t })
unfolding selected
typed-IsValid t v = ground arith

is_nil-length : (os : List Text) → is_nil os ≡ false → 0 < length os
is_nil-length [] h = cc
is_nil-length (o ∷ os) h = omega arith

move-IsValid :
    {cfg : Config} {s : Combobox} (h : ℤ)
    → InRange h (length s.current_options)
    → IsValid cfg s
    → IsValid cfg (highlight (record s { highlighted = h }))
unfolding highlight selected
move-IsValid h r v = ground arith

down-InRange :
    (h : ℤ) (n : ℕ) → 0 < n → InRange h n → InRange (min_ℤ (h +ℤ pos 1) (pos n -ℤ pos 1)) n
unfolding ◌+ℤ◌ ◌-ℤ◌
down-InRange h n p r = ground arith

up-InRange : (h : ℤ) (n : ℕ) → 0 < n → InRange h n → InRange (max_ℤ (h -ℤ pos 1) (pos 0)) n
unfolding ◌-ℤ◌
up-InRange h n p r = ground arith

enter_at-IsValid :
    {cfg : Config} (h : ℤ) {s : Combobox} → IsValid cfg s → IsValid cfg (enter_at cfg h s)
enter_at-IsValid (pos i) {s} v = pick_at-IsValid (get_elem? s.current_options i) v
enter_at-IsValid (negsuc _) v = v

key_down-IsValid :
    {cfg : Config} (e : Event) {s : Combobox}
    → s.panel_hidden ≡ false
    → IsValid cfg s
    → IsValid cfg (key_down cfg e s)
key_down-IsValid arrow_down {s} o v =
    move-IsValid _ (down-InRange s.highlighted _ (is_nil-length _ (v.shown o)) v.in_range) v
key_down-IsValid arrow_up {s} o v =
    move-IsValid _ (up-InRange s.highlighted _ (is_nil-length _ (v.shown o)) v.in_range) v
key_down-IsValid enter {s} o v = enter_at-IsValid s.highlighted v
key_down-IsValid escape o v = close-IsValid v
key_down-IsValid _ o v = v

when_shown-IsValid :
    {cfg : Config} (e : Event) {s : Combobox}
    → IsValid cfg s
    → IsValid cfg (if s.panel_hidden then s else key_down cfg e s)
when_shown-IsValid {cfg} e {s} v =
    if_both (IsValid cfg) s.panel_hidden (λ _. v) (λ h. key_down-IsValid e h v)

press-IsValid :
    {cfg : Config} (o : Option Text) {s : Combobox}
    → IsValid cfg s
    → IsValid cfg (if s.panel_hidden then s else pick_at cfg o s)
press-IsValid {cfg} o {s} v =
    if_both (IsValid cfg) s.panel_hidden (λ _. v) (λ _. pick_at-IsValid o v)

module _ (to_lower_case : Text → Text) where
  open_panel-IsValid :
      {cfg : Config} (options : List Text) {s : Combobox}
      → IsValid cfg s
      → IsValid cfg (open_panel to_lower_case cfg options s)
  unfolding open_panel
  open_panel-IsValid options v = show_found-IsValid _ (length-take-le 8 _) v

  step-IsValid :
      {cfg : Config} (options : List Text) (e : Event) {s : Combobox}
      → IsValid cfg s
      → IsValid cfg (step to_lower_case cfg options e s)
  unfolding step
  step-IsValid options (typed t) v = open_panel-IsValid options (typed-IsValid t v)
  step-IsValid options focus v = open_panel-IsValid options v
  step-IsValid options blur v = close-IsValid v
  step-IsValid options (mouse_down i) {s} v = press-IsValid (get_elem? s.current_options i) v
  step-IsValid options (remove_chip i) {s} v = remove_at-IsValid (get_elem? s.chips i) v
  step-IsValid options (refresh_chips t) v = render_chips-IsValid t v
  step-IsValid options arrow_down v = when_shown-IsValid arrow_down v
  step-IsValid options arrow_up v = when_shown-IsValid arrow_up v
  step-IsValid options enter v = when_shown-IsValid enter v
  step-IsValid options escape v = when_shown-IsValid escape v
  step-IsValid options other_key v = when_shown-IsValid other_key v

  run_from-IsValid :
      {cfg : Config} (es : List (List Text × Event)) {s : Combobox}
      → IsValid cfg s
      → IsValid cfg (run to_lower_case cfg es s)
  run_from-IsValid [] v = v
  run_from-IsValid ((options, e) ∷ es) v = run_from-IsValid es (step-IsValid options e v)

  -- After any sequence of events on a freshly attached dropdown the highlight is -1 or the index of
  -- an option, there are at most eight options, a shown panel has options and shows exactly these,
  -- with only the highlighted one marked, and the chips of a multi-select are its selection.
  pub run-attach-IsValid :
      (cfg : Config) (input_text hidden_text : Text) (es : List (List Text × Event))
      → IsValid cfg (run to_lower_case cfg es (attach cfg input_text hidden_text))
  run-attach-IsValid cfg t u es = run_from-IsValid es (attach-IsValid cfg t u)

get_elem?-some : (os : List Text) (i : ℕ) → i < length os → (o : Text) × (get_elem? os i ≡ some o)
get_elem?-some [] i h = elim h [ ]
get_elem?-some (o ∷ os) zero h = (o, refl)
get_elem?-some (o ∷ os) (suc i) h = get_elem?-some os i (omega arith)

if_false {ℓ} : {A : Type ℓ} (b : Bool) (x y : A) → b ≡ false → (if b then x else y) ≡ y
if_false true x y h = cc
if_false false x y h = refl

enter_step :
    (cfg : Config) (o : Text) (s : Combobox) (i : ℕ)
    → s.panel_hidden ≡ false
    → s.highlighted ≡ pos i
    → get_elem? s.current_options i ≡ some o
    → (if s.panel_hidden then s else enter_at cfg s.highlighted s) ≡ pick cfg o s
enter_step cfg o s i shown at e =
    if_false s.panel_hidden s (enter_at cfg s.highlighted s) shown
    ∙ ap (λ h. enter_at cfg h s) at
    ∙ ap (λ p. pick_at cfg p s) e

pick_hides : (cfg : Config) (o : Text) (s : Combobox) → (pick cfg o s).panel_hidden ≡ true
unfolding pick
pick_hides cfg o s = ground arith

-- In a consistent dropdown the Enter key never reads past the options: with option `i` highlighted
-- in a shown panel, it picks the option that stands there, and the panel is hidden.
enter_picks :
    (to_lower_case : Text → Text) (cfg : Config) (options : List Text) (s : Combobox) (i : ℕ)
    → IsValid cfg s
    → s.panel_hidden ≡ false
    → s.highlighted ≡ pos i
    → (o : Text) × (get_elem? s.current_options i ≡ some o)
      × (step to_lower_case cfg options enter s ≡ pick cfg o s)
      × ((step to_lower_case cfg options enter s).panel_hidden ≡ true)
unfolding step
enter_picks to_lower_case cfg options s i v shown at =
    let (o, e) = get_elem?-some s.current_options i (rw at at v.in_range) in
    let same : step to_lower_case cfg options enter s ≡ pick cfg o s =
      enter_step cfg o s i shown at e in
    (o, e, same, ap (λ (t : Combobox). t.panel_hidden) same ∙ pick_hides cfg o s)
