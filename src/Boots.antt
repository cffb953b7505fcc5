-- ===== src/Boots.antt =====
-- `boot` of demo/lab_overlay.js and of demo/lab_tile_preview.js: both try again after a while as long as the
-- page has no bus, and then subscribe to it.
use mobydb_render_engine.Base.{
  ℕ, suc, ◌+◌, ◌-◌, ◌≡◌, refl, Bool, true, false, List, [], ◌∷◌, ltb, if◌then◌else◌, arith,
}

pub record Booting : Type 0 where
  pub has_styles : Bool
  pub timers : ℕ
  pub subscriptions : ℕ

-- `boot` on a page that has the bus or not.
unfoldable pub boot : (bus : Bool) → Booting → Booting
boot false b = record b { has_styles = true; timers = suc b.timers }
boot true b = record b { has_styles = true; subscriptions = suc b.subscriptions }

-- A timer runs.
unfoldable pub boot_timer : (bus : Bool) → Booting → Booting
boot_timer bus b = if ltb 0 b.timers then boot bus (record b { timers = b.timers - 1 }) else b

unfoldable pub boots : List Bool → Booting → Booting
boots [] b = b
boots (bus ∷ rest) b = boots rest (boot_timer bus b)

abbrev pub unloaded : Booting
unloaded = record { has_styles = false; timers = 0; subscriptions = 0 }

-- Either one timer waits or the overlay listens, once.
abbrev pub IsOnce : Booting → Type 0
IsOnce b = b.timers + b.subscriptions ≡ 1

boot_timer-IsOnce : (bus : Bool) (b : Booting) → IsOnce b → IsOnce (boot_timer bus b)
unfolding boot_timer boot
boot_timer-IsOnce true b h = ground arith
boot_timer-IsOnce false b h = ground arith

boots-IsOnce : (bs : List Bool) (b : Booting) → IsOnce b → IsOnce (boots bs b)
unfolding boots
boots-IsOnce [] b h = h
boots-IsOnce (bus ∷ rest) b h = boots-IsOnce rest (boot_timer bus b) (boot_timer-IsOnce bus b h)

-- From the first call of `boot`, whenever the bus appears: the overlay waits for its one timer, or it has
-- subscribed exactly once.
pub boot-IsOnce : (bus : Bool) (bs : List Bool) → IsOnce (boots bs (boot bus unloaded))
unfolding boot
boot-IsOnce true bs = boots-IsOnce bs _ refl
boot-IsOnce false bs = boots-IsOnce bs _ refl
