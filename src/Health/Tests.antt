-- ===== src/Health/Tests.antt =====
-- A source that fails, recovers and fails again, and the theorems about it.
use nginx_media.Base.{◌≡◌, refl, true, false, [], ◌∷◌, arith}
use nginx_media.Base.Int.{pos, ◌-ℤ◌}
use nginx_media.Health.{Health, health_init, transport, media, covers, refresh, decide, evaluate}
use nginx_media.Health.Recovery.{
  opened, closed, frame, evaluated, step, run, closed_fails, recovery_interrupted,
}

-- failure after 100 ms, recovery after 500 ms
abbrev source : Health
source = record {
  evidence = record {
    transport_up = true;
    data_flowing = true;
    container_valid = true;
    timestamps_advancing = true;
    media_valid = true;
    tracks_compatible = false;
  };
  required = record {
    transport_up = true;
    data_flowing = true;
    container_valid = true;
    timestamps_advancing = true;
    media_valid = true;
    tracks_compatible = false;
  };
  failure_timeout = 100;
  recovery_timeout = 500;
  last_media = 1000;
  last_ts_progress = 1000;
  last_container_error = 0;
  unhealthy_since = 0;
  healthy_since = 900;
  last_dts = pos 9000;
  container_errors = 0;
  transitions = 0;
  healthy = true;
  eligible = true;
}

-- it failed at 800 and had its first good evaluation at 1000
abbrev recovering : Health
recovering = record source {
  healthy = false;
  eligible = false;
  healthy_since = 1000;
  transitions = 1;
}

stalls : (run source (evaluated 1050 ∷ evaluated 1101 ∷ [])).healthy ≡ false
unfolding run step evaluate refresh decide covers
stalls = refl

restarts :
    (run (health_init 100 500 1) (opened 10 ∷ frame (pos 90) 50 ∷ evaluated 60 ∷ [])).healthy ≡ true
unfolding run step evaluate refresh decide covers transport media health_init ◌-ℤ◌
restarts = refl

closed_fails_example :
    (run source (closed 1010 ∷ frame (pos 9100) 1020 ∷ evaluated 1030 ∷ [])).eligible ≡ false
closed_fails_example =
    closed_fails source 1010 (frame (pos 9100) 1020 ∷ evaluated 1030 ∷ []) refl (refl, (refl, tt))

-- Evidence was bad at 1500, half a second after the first good evaluation, and is good for no
-- time at all when the source is trusted again at 1501.
recovery_interrupted_example :
    (run recovering (evaluated 1500 ∷ frame (pos 9100) 1501 ∷ evaluated 1501 ∷ [])).eligible ≡ true
unfolding run step evaluate refresh decide covers media ◌-ℤ◌
recovery_interrupted_example =
    recovery_interrupted recovering 1500 1501 (pos 9100) refl (omega arith) refl refl (omega arith)
