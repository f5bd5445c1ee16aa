-- ===== src/Web/Wiring/Suits.antt =====
-- Which runs let an element of each tag have one listener more.
use doupro.Base.{suc, arith}
use doupro.Web.Wiring.{
  is_section, is_action, is_filter, is_theme, is_hide, is_show, stack_section, submit_button,
  filter_button, theme_button, hide_button, show_button, other, stacks, updatable_filter,
  update_actions, theme,
}
use doupro.Web.Wiring.Counts.{Runs, ran, Suits, Keeps}

pub is_section-Suits : (n : Runs) → Suits is_section n (ran stacks n)
is_section-Suits n (stack_section complete) k h = ground arith
is_section-Suits n (submit_button action) k h = ground arith
is_section-Suits n filter_button k h = ground arith
is_section-Suits n theme_button k h = ground arith
is_section-Suits n hide_button k h = ground arith
is_section-Suits n show_button k h = ground arith
is_section-Suits n other k h = ground arith

pub is_filter-Suits : (n : Runs) → Suits is_filter n (ran updatable_filter n)
is_filter-Suits n (stack_section complete) k h = ground arith
is_filter-Suits n (submit_button action) k h = ground arith
is_filter-Suits n filter_button k h = ground arith
is_filter-Suits n theme_button k h = ground arith
is_filter-Suits n hide_button k h = ground arith
is_filter-Suits n show_button k h = ground arith
is_filter-Suits n other k h = ground arith

pub filter-Keeps : (n : Runs) → Keeps n (ran updatable_filter n)
filter-Keeps n (stack_section complete) k h = ground arith
filter-Keeps n (submit_button action) k h = ground arith
filter-Keeps n filter_button k h = ground arith
filter-Keeps n theme_button k h = ground arith
filter-Keeps n hide_button k h = ground arith
filter-Keeps n show_button k h = ground arith
filter-Keeps n other k h = ground arith

pub is_action-Suits : (n : Runs) → Suits is_action n (ran update_actions n)
is_action-Suits n (stack_section complete) k h = ground arith
is_action-Suits n (submit_button action) k h = ground arith
is_action-Suits n filter_button k h = ground arith
is_action-Suits n theme_button k h = ground arith
is_action-Suits n hide_button k h = ground arith
is_action-Suits n show_button k h = ground arith
is_action-Suits n other k h = ground arith

pub is_theme-Suits : (n : Runs) → Suits is_theme n (ran theme n)
is_theme-Suits n (stack_section complete) k h = ground arith
is_theme-Suits n (submit_button action) k h = ground arith
is_theme-Suits n filter_button k h = ground arith
is_theme-Suits n theme_button k h = ground arith
is_theme-Suits n hide_button k h = ground arith
is_theme-Suits n show_button k h = ground arith
is_theme-Suits n other k h = ground arith

pub theme-Keeps : (n : Runs) → Keeps n (ran theme n)
theme-Keeps n (stack_section complete) k h = ground arith
theme-Keeps n (submit_button action) k h = ground arith
theme-Keeps n filter_button k h = ground arith
theme-Keeps n theme_button k h = ground arith
theme-Keeps n hide_button k h = ground arith
theme-Keeps n show_button k h = ground arith
theme-Keeps n other k h = ground arith

pub is_hide-Suits : (n : Runs) → Suits is_hide n (record n { of_hide = suc n.of_hide })
is_hide-Suits n (stack_section complete) k h = ground arith
is_hide-Suits n (submit_button action) k h = ground arith
is_hide-Suits n filter_button k h = ground arith
is_hide-Suits n theme_button k h = ground arith
is_hide-Suits n hide_button k h = ground arith
is_hide-Suits n show_button k h = ground arith
is_hide-Suits n other k h = ground arith

pub hide-Keeps : (n : Runs) → Keeps n (record n { of_hide = suc n.of_hide })
hide-Keeps n (stack_section complete) k h = ground arith
hide-Keeps n (submit_button action) k h = ground arith
hide-Keeps n filter_button k h = ground arith
hide-Keeps n theme_button k h = ground arith
hide-Keeps n hide_button k h = ground arith
hide-Keeps n show_button k h = ground arith
hide-Keeps n other k h = ground arith

pub is_show-Suits : (n : Runs) → Suits is_show n (record n { of_show = suc n.of_show })
is_show-Suits n (stack_section complete) k h = ground arith
is_show-Suits n (submit_button action) k h = ground arith
is_show-Suits n filter_button k h = ground arith
is_show-Suits n theme_button k h = ground arith
is_show-Suits n hide_button k h = ground arith
is_show-Suits n show_button k h = ground arith
is_show-Suits n other k h = ground arith

pub show-Keeps : (n : Runs) → Keeps n (record n { of_show = suc n.of_show })
show-Keeps n (stack_section complete) k h = ground arith
show-Keeps n (submit_button action) k h = ground arith
show-Keeps n filter_button k h = ground arith
show-Keeps n theme_button k h = ground arith
show-Keeps n hide_button k h = ground arith
show-Keeps n show_button k h = ground arith
show-Keeps n other k h = ground arith
