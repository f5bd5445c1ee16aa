-- ===== src/Web/Stacks/Filter.antt =====
-- The filter for updatable containers: the second function of web/static/stacks.js.
use doupro.Base.{
  Bool, true, false, not, ◌&&◌, ◌||◌, ◌≡◌, refl, List, [], ◌∷◌, ℕ, suc, Text, codes, text_eq,
  if◌then◌else◌, ◌==◌, arith,
}

-- A container's row: its `data-updatable`, and whether its classes hold `hidden`.
pub record Row : Type 0 where
  pub updatable : Text
  pub hidden : Bool

pub record Stack : Type 0 where
  pub rows : List Row
  pub stack_hidden : Bool

pub record Page : Type 0 where
  pub active : Bool
  pub button_text : Text
  pub button_title : Text
  pub stacks : List Stack

abbrev is_updatable : Row → Bool
is_updatable r = text_eq r.updatable (codes "1")

-- The loop over a stack's rows, with its `visibleCount` at the end.
abbrev apply_rows : Bool → List Row → List Row × ℕ
apply_rows active [] = ([], 0)
apply_rows active (r ∷ rs) =
    let show = not active || is_updatable r in
    let (rs', count) = apply_rows active rs in
    ((record r { hidden = not show }) ∷ rs', if show then suc count else count)

unfoldable pub apply_stack : Bool → Stack → Stack
apply_stack active s =
    let (rows, count) = apply_rows active s.rows in
    record { rows = rows; stack_hidden = active && count == 0 }

abbrev apply_stacks : Bool → List Stack → List Stack
apply_stacks active [] = []
apply_stacks active (s ∷ ss) = apply_stack active s ∷ apply_stacks active ss

-- the listener of the button
unfoldable pub click : Page → Page
unfolding apply_stack
click p =
    let active = not p.active in
    record {
      active = active;
      button_text = if active then codes "All" else codes "Updatable";
      button_title =
          if active
          then codes "Show all containers"
          else codes "Show only containers with an update available";
      stacks = apply_stacks active p.stacks;
    }

-- The rows that the reader sees.
abbrev visible : List Row → List Text
visible [] = []
visible (r ∷ rs) = let rest = visible rs in if r.hidden then rest else r.updatable ∷ rest

abbrev flags : List Row → List Text
flags [] = []
flags (r ∷ rs) = r.updatable ∷ flags rs

abbrev only_updatable : List Row → List Text
only_updatable [] = []
only_updatable (r ∷ rs) =
    let rest = only_updatable rs in if is_updatable r then r.updatable ∷ rest else rest

abbrev is_none : List Text → Bool
is_none [] = true
is_none (x ∷ xs) = false

apply_rows-visible :
    (active : Bool) (rs : List Row)
    → (visible (apply_rows active rs).0 ≡ (if active then only_updatable rs else flags rs))
      × (((apply_rows active rs).1 == 0) ≡ is_none (if active then only_updatable rs else flags rs))
apply_rows-visible active [] = ground arith
apply_rows-visible active (r ∷ rs) = ground (arith, apply_rows-visible active rs)

-- What the page shows of one stack, with the filter on or off.
abbrev pub IsFiltered : Bool → Stack → Stack → Type 0
IsFiltered true before after =
    (visible after.rows ≡ only_updatable before.rows)
    × (after.stack_hidden ≡ is_none (only_updatable before.rows))
IsFiltered false before after =
    (visible after.rows ≡ flags before.rows) × (after.stack_hidden ≡ false)

abbrev pub AllFiltered : Bool → List Stack → List Stack → Type 0
AllFiltered active [] [] = Unit
AllFiltered active (s ∷ ss) (t ∷ ts) = IsFiltered active s t × AllFiltered active ss ts
AllFiltered active _ _ = ⊥

apply_stack-IsFiltered : (active : Bool) (s : Stack) → IsFiltered active s (apply_stack active s)
unfolding apply_stack
apply_stack-IsFiltered true s = ground (arith, apply_rows-visible true s.rows)
apply_stack-IsFiltered false s = ground (arith, apply_rows-visible false s.rows)

apply_stacks-AllFiltered :
    (active : Bool) (ss : List Stack) → AllFiltered active ss (apply_stacks active ss)
apply_stacks-AllFiltered active [] = tt
apply_stacks-AllFiltered active (s ∷ ss) =
    (apply_stack-IsFiltered active s, apply_stacks-AllFiltered active ss)

-- A click switches the filter. With the filter on, the rows that are seen of a stack are exactly its
-- updatable ones, and the stack is hidden exactly if there are none; with the filter off, every row
-- of every stack is seen, whatever was hidden before.
click-AllFiltered :
    (p : Page)
    → ((click p).active ≡ not p.active) × AllFiltered (not p.active) p.stacks (click p).stacks
unfolding click
click-AllFiltered p = (refl, apply_stacks-AllFiltered (not p.active) p.stacks)
