-- ===== src/Text/Examples.antt =====
-- The search at a concrete device name.
use moonlight_tv.Base.{some, true, ◌≡◌, ◌↔◌}
use moonlight_tv.Text.{codes, contains_ci}
use moonlight_tv.Text.Contains.{Occurs, contains_ci_iff}

contains_ci_iff_example :
    (contains_ci (some (codes "LG Keyboard")) (codes "key") ≡ true)
    ↔ Occurs (codes "LG Keyboard") (codes "key")
contains_ci_iff_example = contains_ci_iff (codes "LG Keyboard") 107 (codes "ey")
