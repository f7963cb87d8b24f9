-- ===== src/Compat.antt =====
-- src/core/ngx_media_compat.c: how interchangeable a source's tracks are with the program's.
--
-- `Track` is `ngx_media_track_t` without its codec configuration, which the classification does not
-- read, and a track set is the list of its tracks. An absent set is `none`.
pub mod Classes
mod Tests
use nginx_media.Base.{
  ℕ, Bool, true, false, ◌&&◌, ◌||◌, Option, none, some, List, [], ◌∷◌, length, ltb, ◌==◌, ◌/=◌,
  if◌then◌else◌,
}
use nginx_media.Buffer.{media_video, media_audio}

pub record Track : Type 0 where
  pub media_type : ℕ
  pub codec : ℕ
  pub payload_format : ℕ
  pub profile : ℕ
  pub level : ℕ
  pub width : ℕ
  pub height : ℕ
  pub frame_rate_num : ℕ
  pub frame_rate_den : ℕ
  pub sample_rate : ℕ
  pub channels : ℕ

-- NGX_MEDIA_COMPAT_READY, _DEGRADED, _INCOMPATIBLE, in their order
pub data Compat : Type 0 where
  compat_ready compat_degraded compat_incompatible : Compat

unfoldable pub worst : Compat → Compat → Compat
worst compat_ready b = b
worst compat_degraded compat_ready = compat_degraded
worst compat_degraded b = b
worst compat_incompatible b = compat_incompatible

-- `a != 0 && b != 0 && a != b`
abbrev pub differs : ℕ → ℕ → Bool
differs a b = (a /= 0) && ((b /= 0) && (a /= b))

unfoldable pub compat_track : Track → Track → Compat
compat_track p c =
    let audio =
      differs p.sample_rate c.sample_rate
      || (differs p.channels c.channels || differs p.profile c.profile) in
    let video =
      differs p.profile c.profile
      || (differs p.level c.level || (differs p.width c.width || differs p.height c.height)) in
    if p.codec /= c.codec
    then compat_incompatible
    else if p.media_type /= c.media_type
    then compat_incompatible
    else if (p.media_type == media_audio) && audio
    then compat_degraded
    else if (p.media_type == media_video) && video
    then compat_degraded
    else if p.payload_format /= c.payload_format
    then compat_degraded
    else compat_ready

-- The loop over the candidate's tracks for one program track: whether one was found, and the result.
unfoldable pub match_track : Track → List Track → Bool → Compat → Bool × Compat
match_track p [] found result = (found, result)
match_track p (c ∷ cs) found result =
    let skipped = match_track p cs found result in
    let matched = match_track p cs true (worst result (compat_track p c)) in
    if c.media_type /= p.media_type then skipped else matched

-- The loop over the program's tracks: none for the early return.
unfoldable pub match_all : List Track → List Track → Compat → Option Compat
match_all [] cs result = some result
match_all (p ∷ ps) cs result =
    let (found, result') = match_track p cs false result in
    let rest = match_all ps cs result' in if found then rest else none

-- `if (candidate->count > program->count) result = worst(result, DEGRADED)`
unfoldable pub reshape : ℕ → ℕ → Option Compat → Compat
reshape program candidate none = compat_incompatible
reshape program candidate (some result) =
    if ltb program candidate then worst result compat_degraded else result

unfoldable pub classify : Option (List Track) → Option (List Track) → Compat
classify none candidate = compat_ready
classify (some ps) none = compat_ready
classify (some ps) (some cs) =
    let result = match_all ps cs compat_ready in
    if length ps == 0 then compat_ready else reshape (length ps) (length cs) result
