-- ===== src/Notifier/Channels/Urls.antt =====
-- Which URL an entry is stored with.
use doupro.Base.{
  true, false, ◌≡◌, ◌≢◌, refl, ap, ◌∙◌, ◌⊎◌, inl, inr, List, [], ◌∷◌, suc, Text, text_eq_refl,
  length, ==_iff, arith, All,
}
use doupro.Notifier.Channels.{
  Channel, has_name, by_name, or_url, is_empty, saved, resolve, set_from, set_channels,
}

by_name-has_name :
    (name : Text) (chs : List Channel) → has_name name chs ≡ false → by_name name chs ≡ []
by_name-has_name name [] h = refl
by_name-has_name name (ch ∷ chs) h = ground (arith, by_name-has_name name chs)

-- No two stored channels have one name.
abbrev pub IsDistinct : List Channel → Type 0
IsDistinct [] = Unit
IsDistinct (ch ∷ chs) = (has_name ch.name chs ≡ false) × IsDistinct chs

abbrev Finds : List Channel → Channel → Type 0
Finds existing e = by_name e.name existing ≡ e.url

has_name-Finds :
    (e : Channel) (chs more : List Channel)
    → All (λ c. has_name c.name chs ≡ true) more
    → has_name e.name chs ≡ false
    → All (Finds chs) more
    → All (Finds (e ∷ chs)) more
has_name-Finds e chs [] m d h = tt
has_name-Finds e chs (c ∷ cs) (here, m) d (f, h) = (ground arith, has_name-Finds e chs cs m d h)

has_name_widen :
    (e : Channel) (chs more : List Channel)
    → All (λ c. has_name c.name chs ≡ true) more
    → All (λ c. has_name c.name (e ∷ chs) ≡ true) more
has_name_widen e chs [] m = tt
has_name_widen e chs (c ∷ cs) (here, m) = (ground arith, has_name_widen e chs cs m)

has_own_names : (chs : List Channel) → All (λ c. has_name c.name chs ≡ true) chs
has_own_names [] = tt
has_own_names (ch ∷ chs) =
    (ground (arith, text_eq_refl ch.name), has_name_widen ch chs chs (has_own_names chs))

distinct-Finds : (chs : List Channel) → IsDistinct chs → All (Finds chs) chs
distinct-Finds [] d = tt
distinct-Finds (ch ∷ chs) (fresh, d) = (
  ground (arith, text_eq_refl ch.name),
  has_name-Finds ch chs chs (has_own_names chs) fresh (distinct-Finds chs d),
)

-- Every entry has no URL of its own, and the name of the channel at its position or one that no stored
-- channel has.
abbrev pub InPlace : List Channel → List Channel → List Channel → Type 0
InPlace existing [] [] = Unit
InPlace existing (e ∷ es) (c ∷ cs) =
    (c.url ≡ [])
    × (e.url ≢ [])
    × ((c.name ≡ e.name) ⊎ (has_name c.name existing ≡ false))
    × InPlace existing es cs
InPlace existing _ _ = ⊥

-- The entries with the URLs of the stored channels, position by position.
abbrev pub with_urls : List Channel → List Channel → List Channel
with_urls [] cs = []
with_urls (e ∷ es) [] = []
with_urls (e ∷ es) (c ∷ cs) =
    record c { url = e.url; configured = false; provider = [] } ∷ with_urls es cs

or_url_idem : (s : Text) → or_url s s ≡ s
or_url_idem [] = refl
or_url_idem (c ∷ s) = refl

found_in_place :
    (existing : List Channel) (e c : Channel)
    → (c.name ≡ e.name) ⊎ (has_name c.name existing ≡ false)
    → Finds existing e
    → (by_name c.name existing ≡ e.url) ⊎ (by_name c.name existing ≡ [])
found_in_place existing e c (inl same) finds = inl (ap (λ name. by_name name existing) same ∙ finds)
found_in_place existing e c (inr fresh) finds = inr (by_name-has_name c.name existing fresh)

resolve_in_place :
    (existing : List Channel) (e : Channel) (es : List Channel) (c : Channel)
    → c.url ≡ []
    → (c.name ≡ e.name) ⊎ (has_name c.name existing ≡ false)
    → Finds existing e
    → resolve existing true (e ∷ es) c ≡ e.url
resolve_in_place existing e es c blank named finds =
    elim (found_in_place existing e c named finds) [
      | inl own ↦ rw (blank, own, or_url_idem e.url) refl
      | inr fresh ↦ rw (blank, fresh) refl
    ]

or_url_of_ne : (s other : Text) → s ≢ [] → or_url s other ≡ s
or_url_of_ne [] other ne = absurd (ne refl)
or_url_of_ne (c ∷ s) other ne = refl

is_empty_of_ne : (s : Text) → s ≢ [] → is_empty s ≡ false
is_empty_of_ne [] ne = absurd (ne refl)
is_empty_of_ne (c ∷ s) ne = refl

InPlace-length : (existing es cs : List Channel) → InPlace existing es cs → length cs ≡ length es
InPlace-length existing [] [] h = refl
InPlace-length existing (e ∷ es) (c ∷ cs) (_, _, _, h) = ap suc (InPlace-length existing es cs h)
InPlace-length existing [] (c ∷ cs) h = absurd h
InPlace-length existing (e ∷ es) [] h = absurd h

set_from-InPlace :
    (existing es cs : List Channel)
    → InPlace existing es cs
    → All (Finds existing) es
    → set_from existing true es cs ≡ saved (with_urls es cs)
set_from-InPlace existing [] [] h f = refl
set_from-InPlace existing [] (c ∷ cs) h f = absurd h
set_from-InPlace existing (e ∷ es) [] h f = absurd h
set_from-InPlace existing (e ∷ es) (c ∷ cs) (blank, full, named, h) (finds, f) =
    rw
      (
        resolve_in_place existing e es c blank named finds,
        set_from-InPlace existing es cs h f,
        is_empty_of_ne e.url full,
      )
      refl

-- If no two stored channels have one name, and the entries that are saved are as many as the stored
-- channels, have no URL of their own and each have the name of the stored channel at their position or
-- one that no stored channel has, then every entry is stored with the URL of the stored channel at its
-- position: saving the page's list, with names and filters edited in place, loses and swaps no
-- destination.
pub set_channels-InPlace :
    (existing cs : List Channel)
    → IsDistinct existing
    → InPlace existing existing cs
    → set_channels existing cs ≡ saved (with_urls existing cs)
unfolding set_channels
set_channels-InPlace existing cs distinct h =
    rw ((==_iff (length cs) (length existing)).1 (InPlace-length existing existing cs h))
      (set_from-InPlace existing existing cs h (distinct-Finds existing distinct))

-- Of two stored channels, the second with a URL, a save that swaps them and gives the first a new name,
-- with no URL in either entry, is accepted: the renamed channel is stored with the URL of the other
-- one, and its own URL is lost.
set_channels_swapped :
    (a b : Channel) (name : Text)
    → b.url ≢ []
    → has_name name (a ∷ b ∷ []) ≡ false
    → set_channels (a ∷ b ∷ []) (record b { url = [] } ∷ record a { name = name; url = [] } ∷ [])
      ≡ saved (
          record b { configured = false; provider = [] }
          ∷ record a { name = name; url = b.url; configured = false; provider = [] }
          ∷ [])
unfolding set_channels
set_channels_swapped a b name full fresh =
    rw
      (
        by_name-has_name name (a ∷ b ∷ []) fresh,
        text_eq_refl b.name,
        or_url_of_ne b.url a.url full,
        is_empty_of_ne b.url full,
      )
      refl
