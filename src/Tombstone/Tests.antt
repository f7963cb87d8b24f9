-- ===== src/Tombstone/Tests.antt =====
-- A few deletions, and the theorem about them.
use nginx_media.Base.{◌≡◌, refl, true, false, List, [], ◌∷◌}
use nginx_media.Tombstone.{Tombstone, tombstone_init, add, refuses, has_loop, has}
use nginx_media.Tombstone.Recent.{remember}

abbrev log : List Tombstone
log =
    record { hash = 11; revision = 4 }
    ∷ record { hash = 12; revision = 6 }
    ∷ record { hash = 11; revision = 9 }
    ∷ []

refuses_stale : has (remember tombstone_init log) 11 9 ≡ true
unfolding remember add has has_loop refuses
refuses_stale = refl

accepts_newer : has (remember tombstone_init log) 12 7 ≡ false
unfolding remember add has has_loop refuses
accepts_newer = refl
