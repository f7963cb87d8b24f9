-- ===== src/Health.antt =====
-- src/core/ngx_media_health.c: layered evidence that a source is usable, and the verdict drawn
-- from it.
--
-- `Health` is `ngx_media_health_t`. A bit mask of the six evidence bits is a record of six flags,
-- in the order of the bits. Times are milliseconds in 64-bit words, and a difference of two wraps.
-- The pointers that the code tests for NULL are present.
pub mod Decision
pub mod Recovery
mod Tests
use nginx_media.Base.{
  ℕ, ◌+◌, ◌^◌, Bool, true, false, ◌&&◌, ◌||◌, not, ltb, leb, ◌==◌, if◌then◌else◌, inc64, sub64,
}
use nginx_media.Base.Int.{ℤ, pos, ◌-ℤ◌, ltb_ℤ}

pub record Evidence : Type 0 where
  pub transport_up : Bool
  pub data_flowing : Bool
  pub container_valid : Bool
  pub timestamps_advancing : Bool
  pub media_valid : Bool
  pub tracks_compatible : Bool

abbrev pub no_evidence : Evidence
no_evidence = record {
  transport_up = false;
  data_flowing = false;
  container_valid = false;
  timestamps_advancing = false;
  media_valid = false;
  tracks_compatible = false;
}

-- NGX_MEDIA_HEALTH_REQUIRED
abbrev pub required_evidence : Evidence
required_evidence = record {
  transport_up = true;
  data_flowing = true;
  container_valid = true;
  timestamps_advancing = true;
  media_valid = true;
  tracks_compatible = false;
}

-- `(evidence & required) == required`
unfoldable pub covers : Evidence → Evidence → Bool
covers e r =
    (not r.transport_up || e.transport_up)
    && (not r.data_flowing || e.data_flowing)
    && (not r.container_valid || e.container_valid)
    && (not r.timestamps_advancing || e.timestamps_advancing)
    && (not r.media_valid || e.media_valid)
    && (not r.tracks_compatible || e.tracks_compatible)

pub record Health : Type 0 where
  pub evidence : Evidence
  pub required : Evidence
  pub failure_timeout : ℕ
  pub recovery_timeout : ℕ
  pub last_media : ℕ
  pub last_ts_progress : ℕ
  pub last_container_error : ℕ
  pub unhealthy_since : ℕ
  pub healthy_since : ℕ
  pub last_dts : ℤ
  pub container_errors : ℕ
  pub transitions : ℕ
  pub healthy : Bool
  pub eligible : Bool

-- ngx_media_health_init with the selector's two timeouts.
unfoldable pub health_init : ℕ → ℕ → ℕ → Health
health_init failure recovery now = record {
  evidence = record no_evidence { container_valid = true };
  required = required_evidence;
  failure_timeout = failure;
  recovery_timeout = recovery;
  last_media = now;
  last_ts_progress = now;
  last_container_error = 0;
  unhealthy_since = 0;
  healthy_since = now;
  last_dts = pos 0;
  container_errors = 0;
  transitions = 0;
  healthy = true;
  eligible = true;
}

unfoldable pub transport : Health → Bool → ℕ → Health
transport h true now = record h { evidence = record h.evidence { transport_up = true } }
transport h false now = record h {
  evidence = no_evidence;
  healthy_since = 0;
  unhealthy_since = now;
  transitions = if h.healthy || h.eligible then inc64 h.transitions else h.transitions;
  healthy = false;
  eligible = false;
}

abbrev pub is_zero : ℤ → Bool
is_zero (pos n) = n == 0
is_zero _ = false

-- `if (dts > last_dts) { ... } else if (last_dts != 0 && last_dts - dts > 90000) { ... }`
abbrev pub moves : Health → ℤ → Bool
moves h dts =
    ltb_ℤ h.last_dts dts || (not (is_zero h.last_dts) && ltb_ℤ (pos 90000) (h.last_dts -ℤ dts))

unfoldable pub media : Health → ℤ → ℕ → Health
media h dts now =
    if moves h dts
    then record h { last_media = now; last_dts = dts; last_ts_progress = now }
    else record h { last_media = now }

unfoldable pub container : Health → ℕ → ℕ → Health
container h errors now =
    if ltb h.container_errors errors
    then record h {
      container_errors = errors;
      last_container_error = now;
      evidence = record h.evidence { container_valid = false };
    }
    else h

unfoldable pub tracks : Health → Bool → Health
tracks h compatible = record h { evidence = record h.evidence { tracks_compatible = compatible } }

-- The evidence that depends on the time: the first half of `ngx_media_health_evaluate`.
unfoldable pub refresh : Health → ℕ → Evidence
refresh h now =
    let flowing = h.evidence.transport_up && leb (sub64 now h.last_media) h.failure_timeout in
    let advancing =
      h.evidence.transport_up && leb (sub64 now h.last_ts_progress) h.failure_timeout in
    let clean = leb h.recovery_timeout (sub64 now h.last_container_error) in
    record h.evidence {
      data_flowing = flowing;
      media_valid = flowing;
      timestamps_advancing = advancing;
      container_valid = h.evidence.container_valid || clean;
    }

-- `if (health->healthy_since == 0) health->healthy_since = now;`
abbrev pub since : Health → ℕ → ℕ
since h now = if h.healthy_since == 0 then now else h.healthy_since

-- The verdict on that evidence: the second half.
unfoldable pub decide : Health → Bool → ℕ → Health
decide h true now =
    if not h.healthy && leb h.recovery_timeout (sub64 now (since h now))
    then record h {
      healthy_since = since h now;
      healthy = true;
      eligible = true;
      transitions = inc64 h.transitions;
      unhealthy_since = 0;
    }
    else record h { healthy_since = since h now; eligible = h.healthy }
decide h false now =
    if h.healthy
    then record h {
      healthy = false;
      eligible = false;
      transitions = inc64 h.transitions;
      healthy_since = 0;
      unhealthy_since = now;
    }
    else record h { eligible = false }

unfoldable pub evaluate : Health → ℕ → Health
unfolding refresh decide covers
evaluate h now =
    let e = refresh h now in decide (record h { evidence = e }) (covers e h.required) now
