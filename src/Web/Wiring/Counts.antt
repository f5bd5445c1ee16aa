-- ===== src/Web/Wiring/Counts.antt =====
-- How many listeners an element has.
use doupro.Base.{
  inl, inr, subst, sym, Bool, true, false, ◌≡◌, refl, List, [], ◌∷◌, ◌++◌, ℕ, suc, ◌≤◌,
  if◌then◌else◌, arith, All, length, Bool-cases,
}
use doupro.Web.Wiring.{
  Script, Tag, Listener, Element, listen, add_to_all, add_to_first, is_operation, stack_section,
  submit_button, filter_button, theme_button, hide_button, show_button, other, stacks,
  updatable_filter, update_actions, theme, sidebar,
}

-- How often each script has run, that of the sidebar for each of its two buttons.
pub record Runs : Type 0 where
  pub of_stacks : ℕ
  pub of_filter : ℕ
  pub of_actions : ℕ
  pub of_theme : ℕ
  pub of_hide : ℕ
  pub of_show : ℕ

abbrev pub ran : Script → Runs → Runs
ran stacks n = record n { of_stacks = suc n.of_stacks }
ran updatable_filter n = record n { of_filter = suc n.of_filter }
ran update_actions n = record n { of_actions = suc n.of_actions }
ran theme n = record n { of_theme = suc n.of_theme }
ran sidebar n = record n { of_hide = suc n.of_hide; of_show = suc n.of_show }

abbrev pub runs_of : List Script → Runs → Runs
runs_of [] n = n
runs_of (s ∷ ss) n = runs_of ss (ran s n)

abbrev pub no_runs : Runs
no_runs = record {
  of_stacks = 0;
  of_filter = 0;
  of_actions = 0;
  of_theme = 0;
  of_hide = 0;
  of_show = 0;
}

-- The listeners that a tag has after so many runs: exactly, where the script looks for every element,
-- and at most, where it looks for the first with an `id`.
abbrev pub Counted : Runs → Tag → ℕ → Type 0
Counted n (stack_section complete) k = k ≡ (if complete then n.of_stacks else 0)
Counted n (submit_button action) k = k ≡ (if is_operation action then n.of_actions else 0)
Counted n filter_button k = k ≤ n.of_filter
Counted n theme_button k = k ≤ n.of_theme
Counted n hide_button k = k ≤ n.of_hide
Counted n show_button k = k ≤ n.of_show
Counted n other k = k ≡ 0

abbrev pub IsWired : Runs → Element → Type 0
IsWired n el = Counted n el.tag (length el.listeners)

length_listen : (ls : List Listener) (l : Listener) → length (ls ++ (l ∷ [])) ≡ suc (length ls)
length_listen [] l = refl
length_listen (k ∷ ls) l = omega (arith, length_listen ls l)

-- The tags that the script looks for may have one listener more, and the others keep theirs.
abbrev pub Suits : (Tag → Bool) → Runs → Runs → Type 0
Suits p n m =
    (tag : Tag) (k : ℕ)
    → Counted n tag k
    → (p tag ≡ true → Counted m tag (suc k)) × (p tag ≡ false → Counted m tag k)

listen-IsWired :
    (n : Runs) (l : Listener) (el : Element)
    → Counted n el.tag (suc (length el.listeners))
    → IsWired n (listen l el)
listen-IsWired n l el h = subst (Counted n el.tag) (sym (length_listen el.listeners l)) h

pub add_to_all-IsWired :
    (p : Tag → Bool) (l : Listener) (n m : Runs) (els : List Element)
    → Suits p n m
    → All (IsWired n) els
    → All (IsWired m) (add_to_all (λ el. p el.tag) l els)
add_to_all-IsWired p l n m [] suits h = tt
add_to_all-IsWired p l n m (el ∷ els) suits (h, hs) =
    let (hit_next, miss_next) = suits el.tag (length el.listeners) h in
    elim (Bool-cases (p el.tag)) [
      | inl hit ↦
          rw hit (listen-IsWired m l el (hit_next hit), add_to_all-IsWired p l n m els suits hs)
      | inr miss ↦ rw miss (miss_next miss, add_to_all-IsWired p l n m els suits hs)
    ]

-- Any tag keeps its listeners.
abbrev pub Keeps : Runs → Runs → Type 0
Keeps n m = (tag : Tag) (k : ℕ) → Counted n tag k → Counted m tag k

pub All-Keeps :
    (n m : Runs) (els : List Element) → Keeps n m → All (IsWired n) els → All (IsWired m) els
All-Keeps n m [] keeps h = tt
All-Keeps n m (el ∷ els) keeps (h, hs) =
    (keeps el.tag (length el.listeners) h, All-Keeps n m els keeps hs)

pub add_to_first-IsWired :
    (p : Tag → Bool) (l : Listener) (n m : Runs) (els : List Element)
    → Suits p n m
    → Keeps n m
    → All (IsWired n) els
    → All (IsWired m) (add_to_first (λ el. p el.tag) l els)
add_to_first-IsWired p l n m [] suits keeps h = tt
add_to_first-IsWired p l n m (el ∷ els) suits keeps (h, hs) =
    let (hit_next, miss_next) = suits el.tag (length el.listeners) h in
    elim (Bool-cases (p el.tag)) [
      | inl hit ↦ rw hit (listen-IsWired m l el (hit_next hit), All-Keeps n m els keeps hs)
      | inr miss ↦ rw miss (miss_next miss, add_to_first-IsWired p l n m els suits keeps hs)
    ]
