-- ===== src/Feed/Budget.antt =====
-- The unit and byte budgets of `ngx_media_feed_read`, as the prefix that they cut from a list.
use nginx_media.Base.{
  ℕ, ◌+◌, ◌≤◌, ◌<◌, ◌≡◌, refl, ap, Bool, not, ◌&&◌, ◌||◌, List, [], ◌∷◌, arith, length, take, ltb,
  ◌/=◌, if◌then◌else◌, Bool-cases, inl, inr,
}
use nginx_media.Feed.{Slot}
use nginx_media.Feed.Valid.{total, slot_len}

module _ (max_units max_bytes : ℕ) where
  -- The budgets stop a batch that already has `count` units of `bytes` bytes before the unit `s`.
  abbrev pub stops : ℕ → ℕ → Slot → Bool
  stops count bytes s =
      not (ltb count max_units)
      || (ltb 0 count && (max_bytes /= 0 && ltb max_bytes (bytes + slot_len s)))

  -- The units that a batch takes from the list of those that are available.
  unfoldable pub budgeted : ℕ → ℕ → List Slot → List Slot
  budgeted count bytes [] = []
  budgeted count bytes (s ∷ w) =
      if stops count bytes s then [] else s ∷ budgeted (count + 1) (bytes + slot_len s) w

-- A batch is a prefix of what is available.
pub budgeted-take :
    (mu mb count bytes : ℕ) (w : List Slot)
    → budgeted mu mb count bytes w ≡ take (length (budgeted mu mb count bytes w)) w
unfolding budgeted
budgeted-take mu mb count bytes [] = refl
budgeted-take mu mb count bytes (s ∷ w) = elim (Bool-cases (stops mu mb count bytes s)) [
  | inl stop ↦ rw stop
  | inr go ↦ rw go (ap (◌∷◌ s) (budgeted-take mu mb (count + 1) (bytes + slot_len s) w))
]

pub budgeted-units :
    (mu mb count bytes : ℕ) (w : List Slot)
    → count ≤ mu
    → count + length (budgeted mu mb count bytes w) ≤ mu
unfolding budgeted
budgeted-units mu mb count bytes [] h = omega arith
budgeted-units mu mb count bytes (s ∷ w) h =
    ground (arith, budgeted-units mu mb (count + 1) (bytes + slot_len s) w)

pub budgeted-bytes :
    (mu mb count bytes : ℕ) (w : List Slot)
    → 0 < count
    → bytes ≤ mb
    → 0 < mb
    → bytes + total (budgeted mu mb count bytes w) ≤ mb
unfolding budgeted
budgeted-bytes mu mb count bytes [] c h p = omega arith
budgeted-bytes mu mb count bytes (s ∷ w) c h p =
    ground (arith, budgeted-bytes mu mb (count + 1) (bytes + slot_len s) w)
