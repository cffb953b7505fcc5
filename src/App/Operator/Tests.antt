-- ===== src/App/Operator/Tests.antt =====
-- Operator names of demo/app.js, and a sequence of map moves.
use mobydb_render_engine.Base.{ℕ, List, ◌≡◌, refl, none, some, [], ◌∷◌, codes}
use mobydb_render_engine.App.Operator.{normalize_operator}
use mobydb_render_engine.App.Debounce.{debounce, quiet, debounce-quiet}

enel_produzione :
    normalize_operator (some (codes " ENEL Produzione "))
    ≡ record { display = codes "Enel Distribuzione"; group = codes "enel" }
unfolding normalize_operator
enel_produzione = refl

unspecified :
    normalize_operator (some (codes "RFI2"))
    ≡ record { display = codes "RFI2"; group = codes "other" }
unfolding normalize_operator
unspecified = refl

abbrev moves : List (ℕ × ℕ)
moves = (0, 1) ∷ (300, 2) ∷ (700, 3) ∷ []

debounce-quiet_example : debounce 400 moves (record { t = none; fired = [] }) ≡ quiet 400 moves
debounce-quiet_example = debounce-quiet 400 moves

last_of_each : quiet 400 moves ≡ 2 ∷ 3 ∷ []
last_of_each = refl
