-- ===== src/Ts/Demux/Valid/Packets.antt =====
-- The bounds of the demultiplexer, through packets and byte runs of any content.
use nginx_media.Base.{
  ℕ, zero, suc, ◌+◌, ◌-◌, ◌*◌, ◌^◌, ◌≤◌, ◌<◌, ◌≡◌, min, refl, ap, subst, Bool, true, ◌||◌, ◌&&◌,
  not, Option, none, some, List, [], ◌∷◌, ◌++◌, length, take, drop, get_or, ltb, leb, ◌==◌,
  if◌then◌else◌, All, if_elim, arith, length-drop, add64,
}
use mathlib.Core.Option.{some-injective}
use nginx_media.Ts.{packet_size, sync_byte}
use nginx_media.Ts.Demux.{Es, Psi, Core, Demux, demux_init, conf_tracks, conf_au_bytes, es_size}
use nginx_media.Ts.Demux.Assembly.{au_append}
use nginx_media.Ts.Demux.Flush.{au_flush}
use nginx_media.Ts.Demux.Section.{Which, of_pat, of_pmt, psi_of, set_psi}
use nginx_media.Ts.Demux.Packet.{
  cc_declined, announced, pes_payload, pts_flag, dts_flag, no_pes, fresh, with_pts, with_dts,
  pes_start, Parsed, Verdict, bad_packet, null_packet, good_packet, parse_packet, continuity_error,
  see_pcr, psi_packet, pes_more, track_packet, track_by_pid, on_track, dispatch, act_on,
  process_packet, count_packet,
}
use nginx_media.Ts.Demux.Feed.{
  resync_skip, skip_bytes, process, feed_loop, tail_packet, demux_feed, Call, feed, flush, do_call,
  run,
}
use nginx_media.Ts.Demux.Valid.{EsValid, PsiValid, CoreValid, BothValid}
use nginx_media.Ts.Demux.Valid.Frames.{
  au_append-Valid, au_flush-Valid, put_back-Valid, demux_flush-Valid,
}
use nginx_media.Ts.Demux.Valid.Tables.{psi_feed-Valid, set_psi-Valid, psi_of-Valid}

module _ (mem : ℕ → Bool) (limit max : ℕ) where
  -- Only the access unit and its allocation count.
  es_valid :
      (t t' : Es) → t'.au ≡ t.au → t'.au_cap ≡ t.au_cap → EsValid limit max t → EsValid limit max t'
  es_valid t t' same same_cap w = record {
    room = omega (arith, ap length same, same_cap, w.room);
    ceiling = omega (arith, same_cap, w.ceiling);
  }

  flushed_when :
      (b : Bool) (i : ℕ) (d : Core) (t : Es)
      → BothValid limit max (d, t)
      → BothValid limit max (if b then au_flush mem i d t else (d, t))
  flushed_when b i d t (v, w) =
      if_elim (BothValid limit max) b (λ _. au_flush-Valid mem limit max i d t v w) (λ _. (v, w))

  pes_payload-Valid :
      (i : ℕ) (d : Core) (t : Es) (p : List ℕ)
      → CoreValid limit max d
      → EsValid limit max t
      → BothValid limit max (pes_payload mem i d t p)
  unfolding pes_payload
  pes_payload-Valid i d t p v w =
      let body = drop (9 + get_or p 8 0) p in
      let bound = announced p - 3 - get_or p 8 0 in
      let append = min (length body) bound in
      let t0 : Es = record t { pes_remaining = bound - append } in
      let r = au_append mem d t0 (take append body) in
      if_elim (BothValid limit max) (announced p == 0)
        (λ _. au_append-Valid mem limit max d t body v w)
        (λ _.
          if_elim (BothValid limit max) (ltb (announced p) (3 + get_or p 8 0)) (λ _. (v, w))
            (λ _. flushed_when (r.1.pes_remaining == 0) i r.0 r.1 (
              au_append-Valid mem limit max d t0 (take append body) v (es_valid t t0 refl refl w))))

  with_pts-Valid : (t : Es) (p : List ℕ) → EsValid limit max t → EsValid limit max (with_pts t p)
  with_pts-Valid t p w =
      if_elim (EsValid limit max) (pts_flag p) (λ _. record { room = w.room; ceiling = w.ceiling })
        (λ _. w)

  with_dts-Valid : (t : Es) (p : List ℕ) → EsValid limit max t → EsValid limit max (with_dts t p)
  with_dts-Valid t p w =
      if_elim (EsValid limit max) (dts_flag p) (λ _. record { room = w.room; ceiling = w.ceiling })
        (λ _. w)

  pes_start-Valid :
      (i : ℕ) (d : Core) (t : Es) (p : List ℕ)
      → CoreValid limit max d
      → EsValid limit max t
      → BothValid limit max (pes_start mem i d t p)
  unfolding pes_start
  pes_start-Valid i d t p v w =
      let new = es_valid t (fresh t) refl refl w in
      let stamped = with_pts-Valid (fresh t) p new in
      if_elim (BothValid limit max) (no_pes p) (λ _. (v, new))
        (λ _.
          if_elim (BothValid limit max) (ltb (length p) (9 + get_or p 8 0)) (λ _. (v, new))
            (λ _.
              if_elim (BothValid limit max) (pts_flag p && ltb (length p) 14) (λ _. (v, new))
                (λ _.
                  if_elim (BothValid limit max) (dts_flag p && ltb (length p) 19)
                    (λ _. (v, stamped))
                    (λ _.
                      pes_payload-Valid i d (with_dts (with_pts (fresh t) p) p) p v
                        (with_dts-Valid (with_pts (fresh t) p) p stamped)))))

  continuity_error-Valid :
      (b : Bool) (d : Core) → CoreValid limit max d → CoreValid limit max (continuity_error b d)
  continuity_error-Valid b d v = if_elim (CoreValid limit max) b (λ _. v) (λ _. v)

  psi_packet-Valid :
      (w : Which) (d : Core) (x : Parsed)
      → CoreValid limit max d
      → CoreValid limit max (psi_packet mem w d x)
  unfolding psi_packet
  psi_packet-Valid w d x v =
      let psi = psi_of w d in
      let psi' : Psi = record psi { cc = x.cc; cc_valid = true } in
      let valid = psi_of-Valid mem limit max w d v in
      let seen : PsiValid limit max psi' = record {
        room = valid.room;
        expected = valid.expected;
        unfinished = valid.unfinished;
      } in
      let declined = cc_declined psi.cc psi.cc_valid x.cc x.has_payload in
      let d' = continuity_error declined (set_psi w d psi') in
      let v' =
        continuity_error-Valid declined (set_psi w d psi')
          (set_psi-Valid mem limit max w d psi' seen v) in
      if_elim (CoreValid limit max) x.has_payload
        (λ _. psi_feed-Valid mem limit max w d' x.pusi x.payload v') (λ _. v')

  pes_more-Valid :
      (i : ℕ) (d : Core) (t : Es) (p : List ℕ)
      → CoreValid limit max d
      → EsValid limit max t
      → BothValid limit max (pes_more mem i d t p)
  unfolding pes_more
  pes_more-Valid i d t p v w =
      let append = if t.pes_remaining == 0 then length p else min (length p) t.pes_remaining in
      let r = au_append mem d t (take append p) in
      let (v', w') = au_append-Valid mem limit max d t (take append p) v w in
      let t'' : Es = record (r.1) { pes_remaining = t.pes_remaining - append } in
      if_elim (BothValid limit max) (t.pes_remaining == 0) (λ _. (v', w'))
        (λ _. flushed_when (t''.pes_remaining == 0) i r.0 t'' (v', es_valid r.1 t'' refl refl w'))

  track_packet-Valid :
      (i : ℕ) (d : Core) (t : Es) (x : Parsed)
      → CoreValid limit max d
      → EsValid limit max t
      → BothValid limit max (track_packet mem i d t x)
  unfolding track_packet
  track_packet-Valid i d t x v w =
      let declined = cc_declined t.cc t.cc_valid x.cc x.has_payload && not x.discontinuity in
      let d' = continuity_error declined d in
      let t' : Es = record t { cc = x.cc; cc_valid = true } in
      let v' = continuity_error-Valid declined d v in
      let w' = es_valid t t' refl refl w in
      let (v'', w'') = au_flush-Valid mem limit max i d' t' v' w' in
      if_elim (BothValid limit max) (not x.has_payload) (λ _. (v', w'))
        (λ _.
          if_elim (BothValid limit max) x.pusi
            (λ _.
              pes_start-Valid i (au_flush mem i d' t').0 (au_flush mem i d' t').1 x.payload v'' w'')
            (λ _.
              if_elim (BothValid limit max)
                (ltb 0 (length t.au) || (t.au_overflow || ltb 0 t.pes_remaining))
                (λ _. pes_more-Valid i d' t' x.payload v' w') (λ _. (v', w'))))

  on_track-Valid :
      (d : Core) (x : Parsed) (pid i : ℕ) (ts : List Es)
      → All (EsValid limit max) ts
      → CoreValid limit max d
      → CoreValid limit max (on_track mem d x (track_by_pid pid i ts))
  unfolding track_by_pid
  on_track-Valid d x pid i [] h v = v
  on_track-Valid d x pid i (t ∷ ts) (h, hs) v =
      if_elim (λ o. CoreValid limit max (on_track mem d x o)) (t.pid == pid)
        (λ _.
          put_back-Valid mem limit max i (track_packet mem i d t x)
            (track_packet-Valid i d t x v h))
        (λ _. on_track-Valid d x pid (i + 1) ts hs v)

  dispatch-Valid :
      (d : Core) (x : Parsed) → CoreValid limit max d → CoreValid limit max (dispatch mem d x)
  unfolding dispatch
  dispatch-Valid d x v =
      if_elim (CoreValid limit max) (x.pid == 0) (λ _. psi_packet-Valid of_pat d x v)
        (λ _.
          if_elim (CoreValid limit max) (d.pat_valid && (x.pid == d.pmt_pid))
            (λ _. psi_packet-Valid of_pmt d x v)
            (λ _. on_track-Valid d x x.pid 0 d.tracks v.tracks_valid v))

  act_on-Valid :
      (d : Core) (y : Verdict) → CoreValid limit max d → CoreValid limit max (act_on mem d y)
  act_on-Valid d bad_packet v = v
  act_on-Valid d null_packet v = v
  act_on-Valid d (good_packet x) v = dispatch-Valid (see_pcr x.pcr d) x (seen x.pcr)
    where
      seen : (o : Option ℕ) → CoreValid limit max (see_pcr o d)
      seen none = v
      seen (some base) = v

  pub process_packet-Valid :
      (d : Core) (p : List ℕ) → CoreValid limit max d → CoreValid limit max (process_packet mem d p)
  unfolding process_packet
  process_packet-Valid d p v = act_on-Valid (count_packet d) (parse_packet p) v

  -- The whole demultiplexer: its core, and a tail that is shorter than a packet.
  pub record DemuxValid (d : Demux) : Type 0 where
    pub core : CoreValid limit max d.core
    pub tail : length d.tail < 188

  feed_loop-Valid :
      (fuel : ℕ) (d : Demux) (p : List ℕ)
      → length p ≤ fuel
      → CoreValid limit max d.core
      → DemuxValid (feed_loop mem fuel d p)
  unfolding feed_loop
  feed_loop-Valid zero d p h v = record { core = v; tail = omega (arith, h) }
  feed_loop-Valid (suc fuel) d p h v =
      let skip = suc (resync_skip (drop 1 p)) in
      if_elim DemuxValid (ltb (length p) packet_size)
        (λ short. record { core = v; tail = ground (arith, short) })
        (λ whole.
          if_elim DemuxValid (get_or p 0 0 == sync_byte)
            (λ _.
              feed_loop-Valid fuel (process mem d (take packet_size p)) (drop packet_size p)
                (ground (arith, h, whole, length-drop packet_size p))
                (process_packet-Valid d.core (take packet_size p) v))
            (λ _.
              feed_loop-Valid fuel (skip_bytes d skip) (drop skip p)
                (ground (arith, h, whole, length-drop skip p)) v))

  tail_packet-Valid :
      (d : Demux) (p : List ℕ)
      → CoreValid limit max d.core
      → CoreValid limit max (tail_packet mem d p).core
  tail_packet-Valid d p v =
      if_elim (λ (e : Demux). CoreValid limit max e.core) (get_or p 0 0 == sync_byte)
        (λ _. process_packet-Valid d.core p v) (λ _. v)

  pub demux_feed-Valid : (d : Demux) (p : List ℕ) → DemuxValid d → DemuxValid (demux_feed mem d p)
  unfolding demux_feed
  demux_feed-Valid d p v =
      let d' : Demux = record d { bytes = add64 d.bytes (length p) } in
      let need = packet_size - length d.tail in
      let tail = d.tail ++ take need p in
      if_elim DemuxValid (length d.tail == 0)
        (λ _. feed_loop-Valid (length p) d' p (omega arith) v.core)
        (λ _.
          if_elim DemuxValid (ltb (length tail) packet_size)
            (λ short. record { core = v.core; tail = ground (arith, short) })
            (λ _.
              feed_loop-Valid (length p) (tail_packet mem d' tail) (drop need p)
                (omega (arith, length-drop need p)) (tail_packet-Valid d' tail v.core)))

  flush-Valid : (d : Demux) → DemuxValid d → DemuxValid (do_call mem d flush)
  flush-Valid d v = record { core = demux_flush-Valid mem limit max d.core v.core; tail = v.tail }

  calls-Valid : (d : Demux) (cs : List Call) → DemuxValid d → DemuxValid (run mem d cs)
  unfolding run
  calls-Valid d [] v = v
  calls-Valid d (feed p ∷ cs) v = calls-Valid (demux_feed mem d p) cs (demux_feed-Valid d p v)
  calls-Valid d (flush ∷ cs) v = calls-Valid (do_call mem d flush) cs (flush-Valid d v)

init-Valid :
    (mem : ℕ → Bool) (conf : Option (ℕ × ℕ)) (d : Demux)
    → demux_init mem conf ≡ some d
    → DemuxValid mem (conf_au_bytes conf) (conf_tracks conf) d
unfolding demux_init
init-Valid mem conf =
    let P = λ (o : Option Demux).
      (d : Demux) → o ≡ some d → DemuxValid mem (conf_au_bytes conf) (conf_tracks conf) d in
    if_elim P (leb (2 ^ 64) (conf_tracks conf * es_size)) (λ _ d e. absurd (ground (arith, e)))
      (λ _.
        if_elim P (mem (conf_tracks conf * es_size))
          (λ _ d e.
            subst (DemuxValid mem (conf_au_bytes conf) (conf_tracks conf)) (some-injective _ d e)
              (record {
                core = record {
                  au_limit = refl;
                  track_limit = refl;
                  tracks_valid = tt;
                  tracks_max = omega arith;
                  tracks_32 = omega arith;
                  set_max = omega arith;
                  pat_valid = record {
                    room = omega arith;
                    expected = omega arith;
                    unfinished = λ h. omega (arith, h);
                  };
                  pmt_valid = record {
                    room = omega arith;
                    expected = omega arith;
                    unfinished = λ h. omega (arith, h);
                  };
                  out_valid = tt;
                };
                tail = omega arith;
              }))
          (λ _ d e. absurd (ground (arith, e))))

-- From its initialisation on, and whatever bytes it is fed and whenever it is flushed, the
-- demultiplexer keeps its bounds: each access unit is inside its allocation and that within the
-- configured ceiling, a section is inside its buffer of 1024 bytes, there are at most 32 tracks
-- and at most as many as configured, no frame that was emitted is longer than the ceiling, and the
-- tail is shorter than a packet.
pub run-Valid :
    (mem : ℕ → Bool) (conf : Option (ℕ × ℕ)) (d : Demux) (cs : List Call)
    → demux_init mem conf ≡ some d
    → DemuxValid mem (conf_au_bytes conf) (conf_tracks conf) (run mem d cs)
run-Valid mem conf d cs h =
    calls-Valid mem (conf_au_bytes conf) (conf_tracks conf) d cs (init-Valid mem conf d h)
