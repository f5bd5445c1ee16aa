-- ===== src/Notifier/Queue/Order.antt =====
-- The order in which the database compares stored instants.
use doupro.Base.{true, false, ◌≡◌, refl, [], ◌∷◌, Text, arith}
use doupro.Store.Time.{Time, stored_le, text_leb, fraction}

text_leb_trans : (r s t : Text) → text_leb r s ≡ true → text_leb s t ≡ true → text_leb r t ≡ true
text_leb_trans [] s t h k = refl
text_leb_trans (c ∷ r) [] t h k = ground arith
text_leb_trans (c ∷ r) (d ∷ s) [] h k = ground arith
text_leb_trans (c ∷ r) (d ∷ s) (e ∷ t) h k = ground (arith, text_leb_trans r s t)

text_leb_total : (s t : Text) → text_leb s t ≡ false → text_leb t s ≡ true
text_leb_total [] t h = ground arith
text_leb_total (c ∷ s) [] h = refl
text_leb_total (c ∷ s) (d ∷ t) h = ground (arith, text_leb_total s t)

pub stored_le_trans :
    (t u v : Time) → stored_le t u ≡ true → stored_le u v ≡ true → stored_le t v ≡ true
unfolding stored_le
stored_le_trans t u v h k =
    ground (arith, text_leb_trans (fraction t.nano) (fraction u.nano) (fraction v.nano))

pub stored_le_total : (t u : Time) → stored_le t u ≡ false → stored_le u t ≡ true
unfolding stored_le
stored_le_total t u h = ground (arith, text_leb_total (fraction t.nano) (fraction u.nano))

text_leb_refl : (s : Text) → text_leb s s ≡ true
text_leb_refl [] = refl
text_leb_refl (c ∷ s) = ground (arith, text_leb_refl s)

pub stored_le_refl : (t : Time) → stored_le t t ≡ true
unfolding stored_le
stored_le_refl t = ground (arith, text_leb_refl (fraction t.nano))
