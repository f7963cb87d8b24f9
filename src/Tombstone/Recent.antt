-- ===== src/Tombstone/Recent.antt =====
-- The ring answers for exactly the last 256 deletions.
use nginx_media.Base.{ℕ, ◌-◌, ◌%◌, ◌≡◌, Bool, false, ◌||◌, List, [], ◌∷◌, length, drop, update, min}
use nginx_media.Ring.{window}
use nginx_media.Tombstone.{Tombstone, Tombstones, add}

abbrev pub any {ℓ} : {A : Type ℓ} → (A → Bool) → List A → Bool
any p [] = false
any p (x ∷ xs) = p x || any p xs

abbrev slot_of : ℕ → ℕ
slot_of i = i % 256

record Records (r : Tombstones) (log : List Tombstone) : Type 0 where
  counted : r.count ≡ min 256 (length log)
  turned : r.next ≡ length log % 256
  suffix :
      window slot_of r.slots (length log - 256) (min 256 (length log)) ≡ drop (length log - 256) log

module _ (r : Tombstones) (log : List Tombstone) (x : Tombstone) (v : Records r log) where
  slots' : ℕ → Tombstone
  slots' = update r.slots (slot_of (length log)) x

-- The deletions of a log, oldest first.
unfoldable pub remember : Tombstones → List Tombstone → Tombstones
remember r [] = r
remember r (x ∷ xs) = remember (add r x.hash x.revision) xs
