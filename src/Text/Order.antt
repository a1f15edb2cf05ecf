-- ===== src/Text/Order.antt =====
-- The order of texts is strict and total.
use tarea_integracion_sistem.Prelude.{◌≡◌, refl, true, false, not, [], ◌∷◌, arith}
use tarea_integracion_sistem.Text.{Text, text_eq, text_lt}

pub text_lt_trans : (a b c : Text) → text_lt a b ≡ true → text_lt b c ≡ true → text_lt a c ≡ true
unfolding text_lt
text_lt_trans [] [] c h k = cc
text_lt_trans [] (b ∷ bs) [] h k = cc
text_lt_trans [] (b ∷ bs) (c ∷ cs) h k = refl
text_lt_trans (a ∷ as') [] c h k = cc
text_lt_trans (a ∷ as') (b ∷ bs) [] h k = cc
text_lt_trans (a ∷ as') (b ∷ bs) (c ∷ cs) h k = ground (arith, text_lt_trans as' bs cs)

-- Of two texts that differ one is less, and not the other.
pub text_lt_total : (a b : Text) → text_eq a b ≡ false → text_lt a b ≡ not (text_lt b a)
unfolding text_lt text_eq
text_lt_total [] [] h = cc
text_lt_total [] (b ∷ bs) h = refl
text_lt_total (a ∷ as') [] h = refl
text_lt_total (a ∷ as') (b ∷ bs) h = ground (arith, text_lt_total as' bs)
