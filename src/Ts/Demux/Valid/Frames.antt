-- ===== src/Ts/Demux/Valid/Frames.antt =====
-- The bounds of the demultiplexer, through the assembly of access units and their flush.
use nginx_media.Base.{
  ℕ, zero, suc, ◌+◌, ◌*◌, ◌^◌, ◌≤◌, ◌<◌, ◌≡◌, refl, sym, ap, subst, ◌∙◌, ◌&&◌, Bool, true, false,
  ◌||◌, not, Option, none, some, List, [], ◌∷◌, ◌++◌, length, take, drop, get_elem?, ltb, leb, ◌==◌,
  if◌then◌else◌, All, if_elim, arith, length-append,
}
use native.Mathlib.Nat.{pow-succ', mul_assoc}
use nginx_media.Aac.{Adts, header_min, adts_parse, audio_specific_config}
use nginx_media.Ts.{codec_aac}
use nginx_media.Ts.Demux.{Descriptor, on_tracks, on_frame, Es, Core, emit_event}
use nginx_media.Ts.Demux.Assembly.{
  grow, au_append, au_capacity, overflowed, Mark, emit, emitted, buf_fits, count_out, set_config,
  same_config, tell_tracks, emit_config, payload_annexb, payload_raw,
}
use nginx_media.Ts.Demux.Flush.{
  Scan, scan_units, scan_init, nal_codec, video_picture, video_flush, audio_frame, audio_parsed,
  audio_loop, asc_config, audio_done, audio_flush, au_flush, put_es, put_back, set_descriptor,
  sync_tracks, cleared, current_pts, flush_at, flush_from, demux_flush, with_shape,
}
use nginx_media.Ts.Demux.Valid.{
  EsValid, TsEventValid, CoreValid, BothValid, emit_event-Valid, with_trackset-Valid,
  with_tracks-Valid,
}

-- A capacity that is doubled often enough is enough.
pub grow_lem : (fuel cap need : ℕ) → need ≤ cap * 2 ^ fuel → need ≤ grow fuel cap need
unfolding grow
grow_lem zero cap need h = omega (arith, h)
grow_lem (suc fuel) cap need h =
    let same : cap * 2 * 2 ^ fuel ≡ cap * 2 ^ suc fuel =
      mul_assoc cap 2 (2 ^ fuel) ∙ ap (◌*◌ cap) (sym (pow-succ' 2 fuel)) in
    let rest = grow_lem fuel (cap * 2) need (omega (arith, h, same)) in ground (arith, rest)

module _ (mem : ℕ → Bool) (limit max : ℕ) where
  enough :
      (t : Es) (need : ℕ)
      → need < 2 ^ 64
      → need ≤ grow 64 (if t.au_cap == 0 then 8192 else t.au_cap) need
  enough t need h = grow_lem 64 (if t.au_cap == 0 then 8192 else t.au_cap) need (
      if_elim (λ c. need ≤ c * 2 ^ 64) (t.au_cap == 0) (λ _. omega (arith, h))
        (λ e. ground (arith, h, e)))

  pub au_append-Valid :
      (d : Core) (t : Es) (p : List ℕ)
      → CoreValid limit max d
      → EsValid limit max t
      → BothValid limit max (au_append mem d t p)
  unfolding au_append
  au_append-Valid d t [] v w = (v, w)
  au_append-Valid d t (b ∷ p) v w =
      let need = length t.au + length (b ∷ p) in
      let cap = au_capacity d t need in
      let size : length (t.au ++ b ∷ p) ≡ need = length-append t.au (b ∷ p) in
      let over : BothValid limit max (overflowed d t) =
        (v, record { room = omega arith; ceiling = w.ceiling }) in
      if_elim (BothValid limit max) (leb (2 ^ 64) need || ltb d.max_au_bytes need) (λ _. over)
        (λ inside.
          if_elim (BothValid limit max) (leb need t.au_cap)
            (λ fits. (v, record { room = ground (arith, size, fits); ceiling = w.ceiling }))
            (λ _.
              if_elim (BothValid limit max) (mem cap)
                (λ _. (
                  v,
                  record {
                    room = ground (arith, size, inside, enough t need (ground (arith, inside)));
                    ceiling = omega (arith, v.au_limit);
                  },
                ))
                (λ _. over)))

  pub emit-Valid :
      (d : Core) (t : Es) (p : List ℕ) (m : Mark)
      → CoreValid limit max d
      → CoreValid limit max (emit mem d t p m)
  unfolding emit TsEventValid
  emit-Valid d t [] m v = v
  emit-Valid d t (b ∷ p) m v =
      let frame = on_frame (emitted t (b ∷ p) m) in
      if_elim (CoreValid limit max) (ltb d.max_au_bytes (length (b ∷ p))) (λ _. v)
        (λ inside.
          if_elim (CoreValid limit max) (buf_fits mem (length (b ∷ p)))
            (λ _.
              counted m.config (emit_event frame d)
                (emit_event-Valid limit max frame d (ground (arith, inside, v.au_limit)) v))
            (λ _. v))
    where
      counted : (c : Bool) (d : Core) → CoreValid limit max d → CoreValid limit max (count_out c d)
      counted true d v = v
      counted false d v = v

  length-set_config :
      (p : List ℕ) (i : ℕ) (set : List Descriptor) → length (set_config p i set) ≡ length set
  length-set_config p i [] = refl
  length-set_config p zero (x ∷ set) = refl
  length-set_config p (suc i) (x ∷ set) = ap suc (length-set_config p i set)

  length-set_descriptor :
      (i : ℕ) (x : Descriptor) (set : List Descriptor)
      → length (set_descriptor i x set) ≡ length set
  length-set_descriptor i x [] = refl
  length-set_descriptor zero x (y ∷ set) = refl
  length-set_descriptor (suc i) x (y ∷ set) = ap suc (length-set_descriptor i x set)

  length-sync_tracks :
      (ts : List Es) (set : List Descriptor) → length (sync_tracks ts set) ≡ length set
  unfolding sync_tracks
  length-sync_tracks [] set = refl
  length-sync_tracks (t ∷ ts) set =
      length-sync_tracks ts (set_descriptor t.track_index t.descriptor set)
      ∙ length-set_descriptor t.track_index t.descriptor set

  tell_tracks-Valid : (d : Core) → CoreValid limit max d → CoreValid limit max (tell_tracks d)
  unfolding TsEventValid
  tell_tracks-Valid d v =
      if_elim (CoreValid limit max) d.tracks_ready
        (λ _. emit_event-Valid limit max (on_tracks d.trackset) d v.set_max v) (λ _. v)

  emit_config-Valid :
      (d : Core) (t : Es) (p : List ℕ) (format : ℕ)
      → CoreValid limit max d
      → EsValid limit max t
      → BothValid limit max (emit_config mem d t p format)
  unfolding emit_config
  emit_config-Valid d t [] format v w = (v, w)
  emit_config-Valid d t (b ∷ p) format v w =
      let set = set_config (b ∷ p) t.track_index d.trackset in
      if_elim (BothValid limit max)
        (same_config t.config (b ∷ p) || not (buf_fits mem (length (b ∷ p)))) (λ _. (v, w))
        (λ _. (
          tell_tracks-Valid _ (
              emit-Valid _ _ (b ∷ p) _ (
                with_trackset-Valid limit max d set
                  (omega (arith, length-set_config (b ∷ p) t.track_index d.trackset, v.set_max))
                  v)),
          record { room = w.room; ceiling = w.ceiling },
        ))

  cleared_valid : (t : Es) → EsValid limit max t → EsValid limit max (cleared t)
  cleared_valid t w = record { room = omega arith; ceiling = w.ceiling }

  video_picture-Valid :
      (s : Scan) (r : Core × Es)
      → BothValid limit max r
      → BothValid limit max (video_picture mem s r)
  unfolding video_picture
  video_picture-Valid s (d, t) (v, w) =
      if_elim (BothValid limit max) s.vcl
        (λ _. (emit-Valid d t t.au _ v, record { room = omega arith; ceiling = w.ceiling }))
        (λ _. (v, cleared_valid t w))

  video_flush-Valid :
      (d : Core) (t : Es)
      → CoreValid limit max d
      → EsValid limit max t
      → BothValid limit max (video_flush mem d t)
  unfolding video_flush
  video_flush-Valid d t v w =
      let s = scan_units mem (nal_codec t.codec) (length t.au) t.au scan_init in
      video_picture-Valid s _ (
        if_elim (BothValid limit max) s.have_config
          (λ _. emit_config-Valid d t s.cfg payload_annexb v w) (λ _. (v, w)))

  -- The state in the middle of an access unit of audio.
  TripleValid : Core × Es × Bool → Type 0
  TripleValid (d, t, changed) = CoreValid limit max d × EsValid limit max t

  asc_config-Valid :
      (d : Core) (t : Es) (asc : Option (List ℕ))
      → CoreValid limit max d
      → EsValid limit max t
      → BothValid limit max (asc_config mem d t asc)
  asc_config-Valid d t none v w = (v, w)
  asc_config-Valid d t (some asc) v w = emit_config-Valid d t asc payload_raw v w

  audio_frame-Valid :
      (a : Adts) (p : List ℕ) (r : Core × Es)
      → BothValid limit max r
      → TripleValid (audio_frame mem a p r)
  unfolding audio_frame TripleValid
  audio_frame-Valid a p (d, t) (v, w) = (
    emit-Valid d (with_shape t a) (take a.frame_len p) _ v,
    record { room = w.room; ceiling = w.ceiling },
  )

  audio_parsed-Valid :
      (again : List ℕ → Core × Es × Bool → Core × Es × Bool)
      → ((q : List ℕ) (r : Core × Es × Bool) → TripleValid r → TripleValid (again q r))
      → (p : List ℕ) (r : Core × Es × Bool) (a : Option Adts) → TripleValid r
      → TripleValid (audio_parsed again mem p r a)
  unfolding TripleValid
  audio_parsed-Valid again h p (d, t, changed) none v = v
  audio_parsed-Valid again h p (d, t, changed) (some a) (v, w) =
      if_elim TripleValid (ltb (length p) a.frame_len) (λ _. (v, w))
        (λ _.
          h (drop a.frame_len p) _
            (audio_frame-Valid a p _ (asc_config-Valid d t (audio_specific_config a 2) v w)))

  audio_loop-Valid :
      (fuel : ℕ) (p : List ℕ) (r : Core × Es × Bool)
      → TripleValid r
      → TripleValid (audio_loop mem fuel p r)
  unfolding audio_loop
  audio_loop-Valid zero p r v = v
  audio_loop-Valid (suc fuel) p r v =
      if_elim TripleValid (ltb (length p) header_min) (λ _. v)
        (λ _.
          audio_parsed-Valid (λ q r'. audio_loop mem fuel q r') (audio_loop-Valid fuel) p r
            (adts_parse p) v)

  audio_done-Valid :
      (i : ℕ) (r : Core × Es × Bool) → TripleValid r → BothValid limit max (audio_done i r)
  unfolding audio_done TripleValid
  audio_done-Valid i (d, t, changed) (v, w) =
      let set = sync_tracks (put_es i t d.tracks) d.trackset in
      (
        if_elim (CoreValid limit max) (changed && d.tracks_ready)
            (λ _. tell_tracks-Valid _ (
              with_trackset-Valid limit max d set
                (omega (arith, length-sync_tracks (put_es i t d.tracks) d.trackset, v.set_max)) v))
            (λ _. v),
        cleared_valid t w,
      )

  pub au_flush-Valid :
      (i : ℕ) (d : Core) (t : Es)
      → CoreValid limit max d
      → EsValid limit max t
      → BothValid limit max (au_flush mem i d t)
  unfolding au_flush audio_flush TripleValid
  au_flush-Valid i d t v w =
      let emptied : BothValid limit max (d, record (cleared t) { au_overflow = false }) =
        (v, record { room = omega arith; ceiling = w.ceiling }) in
      if_elim (BothValid limit max) (length t.au == 0) (λ _. emptied)
        (λ _.
          if_elim (BothValid limit max) t.au_overflow (λ _. emptied)
            (λ _.
              if_elim (BothValid limit max) (t.codec == codec_aac)
                (λ _. audio_done-Valid i _ (
                  audio_loop-Valid (length t.au) t.au
                    (d, record t { last_pts = current_pts t }, false)
                    (v, record { room = w.room; ceiling = w.ceiling })))
                (λ _. video_flush-Valid d t v w)))

  put_es-All :
      (i : ℕ) (t : Es) (ts : List Es)
      → EsValid limit max t
      → All (EsValid limit max) ts
      → All (EsValid limit max) (put_es i t ts)
  put_es-All i t [] w h = tt
  put_es-All zero t (x ∷ ts) w (h, hs) = (w, hs)
  put_es-All (suc i) t (x ∷ ts) w (h, hs) = (h, put_es-All i t ts w hs)

  length-put_es : (i : ℕ) (t : Es) (ts : List Es) → length (put_es i t ts) ≡ length ts
  length-put_es i t [] = refl
  length-put_es zero t (x ∷ ts) = refl
  length-put_es (suc i) t (x ∷ ts) = ap suc (length-put_es i t ts)

  pub put_back-Valid :
      (i : ℕ) (r : Core × Es) → BothValid limit max r → CoreValid limit max (put_back i r)
  put_back-Valid i (d, t) (v, w) =
      with_tracks-Valid limit max d (put_es i t d.tracks) (put_es-All i t d.tracks w v.tracks_valid)
        (omega (arith, length-put_es i t d.tracks, v.tracks_max))
        (omega (arith, length-put_es i t d.tracks, v.tracks_32)) v

  -- A track of the list is as valid as the list.
  pub get_es-Valid :
      (ts : List Es) (i : ℕ) (t : Es)
      → All (EsValid limit max) ts
      → get_elem? ts i ≡ some t
      → EsValid limit max t
  get_es-Valid [] i t h e = absurd (ground (arith, e))
  get_es-Valid (x ∷ ts) zero t (h, hs) e = subst (EsValid limit max) (ground (arith, e)) h
  get_es-Valid (x ∷ ts) (suc i) t (h, hs) e = get_es-Valid ts i t hs e

  flush_at-Valid :
      (i : ℕ) (d : Core) (o : Option Es)
      → CoreValid limit max d
      → ((t : Es) → o ≡ some t → EsValid limit max t)
      → CoreValid limit max (flush_at mem i d o)
  flush_at-Valid i d none v h = v
  flush_at-Valid i d (some t) v h =
      put_back-Valid i (au_flush mem i d t) (au_flush-Valid i d t v (h t refl))

  flush_from-Valid :
      (n i : ℕ) (d : Core) → CoreValid limit max d → CoreValid limit max (flush_from mem n i d)
  unfolding flush_from
  flush_from-Valid zero i d v = v
  flush_from-Valid (suc n) i d v =
      flush_from-Valid n (i + 1) _ (
        flush_at-Valid i d (get_elem? d.tracks i) v (λ t. get_es-Valid d.tracks i t v.tracks_valid))

  pub demux_flush-Valid :
      (d : Core) → CoreValid limit max d → CoreValid limit max (demux_flush mem d)
  unfolding demux_flush
  demux_flush-Valid d v = flush_from-Valid (length d.tracks) 0 d v
