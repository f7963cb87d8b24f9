-- ===== src/Nal.antt =====
-- src/codec/ngx_media_nal.c: the units of an Annex B stream and their kinds.
--
-- An iterator is the list of the bytes from its position to the end of the buffer; the empty list is
-- a position at the end. The search for the next unit is the loop of `ngx_media_nal_iter_next` on
-- fuel, with an outcome of its own for fuel that has run out.
pub mod Units
pub mod Split
mod Tests
use nginx_media.Base.{
  ℕ, zero, suc, ◌+◌, ◌/◌, ◌%◌, Bool, false, ◌&&◌, ◌||◌, Option, none, some, List, [], ◌∷◌, length,
  take, drop, get_or, leb, ◌==◌, if◌then◌else◌,
}

pub data Codec : Type 0 where
  h264 : Codec
  h265 : Codec

-- `p + 4 <= end` and the four bytes of the long start code
unfoldable pub long_code : List ℕ → Bool
long_code p =
    leb 4 (length p)
    && (get_or p 0 0 == 0 && (get_or p 1 0 == 0 && (get_or p 2 0 == 0 && (get_or p 3 0 == 1))))

unfoldable pub short_code : List ℕ → Bool
short_code p = leb 3 (length p) && (get_or p 0 0 == 0 && (get_or p 1 0 == 0 && (get_or p 2 0 == 1)))

-- The place of a start code is counted from one byte further on.
abbrev pub later : Option (ℕ × ℕ) → Option (ℕ × ℕ)
later none = none
later (some (n, len)) = some (suc n, len)

-- The first start code: how many bytes stand before it, and its length.
unfoldable pub start_code : List ℕ → Option (ℕ × ℕ)
start_code [] = none
start_code (b ∷ p) =
    let rest = start_code p in
    if long_code (b ∷ p)
    then some (0, 4)
    else if short_code (b ∷ p)
    then some (0, 3)
    else later rest

-- `while (nal_end > nal_start && nal_end[-1] == 0) nal_end--`, with `n = nal_end - nal_start`
unfoldable pub trim_zeros : List ℕ → ℕ → ℕ
trim_zeros p zero = zero
trim_zeros p (suc n) = let rest = trim_zeros p n in if get_or p n 0 == 0 then rest else suc n

pub data Found : Type 0 where
  out_of_fuel : Found
  ended : Found
  -- the unit, and the iterator after it
  unit : List ℕ → List ℕ → Found

-- The bytes from the first byte of a unit to the next start code, or to the end of the buffer.
abbrev pub extent_of : List ℕ → Option (ℕ × ℕ) → ℕ
extent_of p none = length p
extent_of p (some (n, len)) = n

abbrev pub extent : List ℕ → ℕ
extent p = extent_of p (start_code p)

abbrev pub unit_at : List ℕ → List ℕ × List ℕ
unit_at q = (take (trim_zeros q (extent q)) q, drop (extent q) q)

abbrev pub after_code : List ℕ → Option (ℕ × ℕ) → Option (List ℕ × List ℕ)
after_code p none = none
after_code p (some (n, len)) = some (unit_at (drop (n + len) p))

-- One pass of the loop: no start code, or the unit after it (perhaps empty) and the new position.
unfoldable pub pass : List ℕ → Option (List ℕ × List ℕ)
pass p = after_code p (start_code p)

-- An empty unit is passed over.
abbrev pub found_unit : (List ℕ → Found) → Option (List ℕ × List ℕ) → Found
found_unit again none = ended
found_unit again (some ([], rest)) = again rest
found_unit again (some (b ∷ nal, rest)) = unit (b ∷ nal) rest

unfoldable pub next_loop : ℕ → List ℕ → Found
next_loop zero p = out_of_fuel
next_loop (suc fuel) p = found_unit (λ rest. next_loop fuel rest) (pass p)

-- `ngx_media_nal_iter_next` with the fuel that its theorem shows to be enough
unfoldable pub iter_next : List ℕ → Found
iter_next p = next_loop (suc (length p)) p

unfoldable pub nal_type : Codec → List ℕ → ℕ
nal_type codec [] = 0
nal_type h265 (b ∷ nal) = b / 2 % 64
nal_type h264 (b ∷ nal) = b % 32

unfoldable pub is_vcl : Codec → ℕ → Bool
is_vcl h265 kind = leb kind 31
is_vcl h264 kind = leb 1 kind && leb kind 5

unfoldable pub is_config : Codec → ℕ → Bool
is_config h265 kind = kind == 32 || (kind == 33 || (kind == 34))
is_config h264 kind = kind == 7 || (kind == 8)

unfoldable pub is_keyframe : Codec → ℕ → Bool
is_keyframe h265 kind = leb 16 kind && leb kind 21
is_keyframe h264 kind = kind == 5
