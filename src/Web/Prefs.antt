-- ===== src/Web/Prefs.antt =====
-- The two preferences that are kept in the browser: web/static/theme.js and web/static/sidebar.js.
use doupro.Base.{
  Bool, true, false, ◌≡◌, refl, Option, none, some, List, [], ◌∷◌, ◌++◌, Text, codes, text_eq,
  if◌then◌else◌, arith,
}

-- The document (texts here are code points): the item of `localStorage`, `dataset.theme`, and the icon and the title of the
-- toggle, where `wireToggle` has set them.
pub record ThemePage : Type 0 where
  pub stored : Option Text
  pub theme : Text
  pub icon : Text
  pub title : Text

abbrev stored_is : Option Text → Text → Bool
stored_is none t = false
stored_is (some s) t = text_eq s t

-- the script's first lines
unfoldable pub initial_theme : Option Text → Text
initial_theme stored = if stored_is stored (codes "light") then codes "light" else codes "dark"

unfoldable pub render : ThemePage → ThemePage
render p = record p {
  icon = if text_eq p.theme (codes "light") then codes "☀" ++ (0xFE0F ∷ []) else codes "🌙";
  title =
      if text_eq p.theme (codes "light")
      then codes "Switch to dark theme"
      else codes "Switch to light theme";
}

-- A page that has the toggle, after `wireToggle`.
unfoldable pub load_theme : Option Text → ThemePage
unfolding initial_theme render
load_theme stored =
    render (record { stored = stored; theme = initial_theme stored; icon = []; title = [] })

-- the listener of the toggle
unfoldable pub toggle_theme : ThemePage → ThemePage
unfolding render
toggle_theme p =
    let next = if text_eq p.theme (codes "light") then codes "dark" else codes "light" in
    render (record p { theme = next; stored = some next })

abbrev pub other_theme : Text → Text
other_theme t = if text_eq t (codes "light") then codes "dark" else codes "light"

-- A click on the toggle changes to the other of the two themes, and a page that is loaded afterwards
-- shows the same theme, icon and title.
load_theme-toggle :
    (stored : Option Text)
    → ((toggle_theme (load_theme stored)).theme ≡ other_theme (initial_theme stored))
      × (load_theme (toggle_theme (load_theme stored)).stored ≡ toggle_theme (load_theme stored))
unfolding load_theme toggle_theme
load_theme-toggle stored = ground arith

pub record SidebarPage : Type 0 where
  pub stored : Option Text
  pub collapsed : Bool
  -- `dataset.sidebar`
  pub sidebar : Text

abbrev sidebar_word : Bool → Text
sidebar_word c = if c then codes "collapsed" else codes "expanded"

unfoldable pub load_sidebar : Option Text → SidebarPage
load_sidebar stored =
    let c = stored_is stored (codes "1") in
    record { stored = stored; collapsed = c; sidebar = sidebar_word c }

unfoldable pub set_collapsed : Bool → SidebarPage → SidebarPage
set_collapsed next p = record {
  collapsed = next;
  sidebar = sidebar_word next;
  stored = some (if next then codes "1" else codes "0");
}

-- The hide and show buttons: `true` is a click on the first, `false` one on the second.
abbrev pub clicks : List Bool → SidebarPage → SidebarPage
clicks [] p = p
clicks (b ∷ bs) p = clicks bs (set_collapsed b p)

load-set_collapsed :
    (c : Bool) (q : SidebarPage) → load_sidebar (set_collapsed c q).stored ≡ set_collapsed c q
unfolding load_sidebar set_collapsed
load-set_collapsed true q = refl
load-set_collapsed false q = refl

load_sidebar_stored :
    (bs : List Bool) (p : SidebarPage)
    → load_sidebar p.stored ≡ p
    → load_sidebar (clicks bs p).stored ≡ clicks bs p
load_sidebar_stored [] p h = h
load_sidebar_stored (b ∷ bs) p h =
    load_sidebar_stored bs (set_collapsed b p) (load-set_collapsed b p)

-- Whatever the stored item was and whichever buttons are clicked, a page that is loaded afterwards
-- shows the sidebar as the clicks left it.
load_sidebar-clicks :
    (stored : Option Text) (bs : List Bool)
    → load_sidebar (clicks bs (load_sidebar stored)).stored ≡ clicks bs (load_sidebar stored)
unfolding load_sidebar
load_sidebar-clicks stored bs = load_sidebar_stored bs (load_sidebar stored) refl
