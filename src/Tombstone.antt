-- ===== src/Tombstone.antt =====
-- src/core/ngx_media_tombstone.c: the last 256 deletions, which refuse operations that they have
-- overtaken.
--
-- `Tombstones` is `ngx_media_tombstone_ring_t`, its slots a function of the index. The ring's
-- pointer is present.
pub mod Recent
mod Tests
use nginx_media.Base.{
  ℕ, zero, suc, ◌+◌, ◌-◌, ◌%◌, Bool, true, false, ◌&&◌, ltb, leb, ◌==◌, if◌then◌else◌, update,
}

pub record Tombstone : Type 0 where
  pub hash : ℕ
  pub revision : ℕ

pub record Tombstones : Type 0 where
  pub slots : ℕ → Tombstone
  -- the slot that the next deletion takes
  pub next : ℕ
  pub count : ℕ

-- NGX_MEDIA_TOMBSTONES
abbrev pub capacity : ℕ
capacity = 256

-- ngx_media_tombstone_init
abbrev pub tombstone_init : Tombstones
tombstone_init = record { slots = λ i. record { hash = 0; revision = 0 }; next = 0; count = 0 }

unfoldable pub add : Tombstones → ℕ → ℕ → Tombstones
add r hash revision = record r {
  slots = update r.slots r.next (record { hash = hash; revision = revision });
  next = (r.next + 1) % capacity;
  count = if ltb r.count capacity then r.count + 1 else r.count;
}

-- `if (slots[i].hash != hash) continue; if (revision <= slots[i].revision) return 1;`
unfoldable pub refuses : Tombstone → ℕ → ℕ → Bool
refuses t hash revision = (t.hash == hash) && leb revision t.revision

-- The loop of `ngx_media_tombstone_has` from slot `i` on, `n` slots.
unfoldable pub has_loop : ℕ → ℕ → Tombstones → ℕ → ℕ → Bool
has_loop zero i r hash revision = false
has_loop (suc n) i r hash revision =
    if refuses (r.slots i) hash revision then true else has_loop n (i + 1) r hash revision

unfoldable pub has : Tombstones → ℕ → ℕ → Bool
unfolding has_loop refuses
has r hash revision = has_loop r.count 0 r hash revision
