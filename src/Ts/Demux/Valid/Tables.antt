-- ===== src/Ts/Demux/Valid/Tables.antt =====
-- The bounds of the demultiplexer, through the program tables.
use nginx_media.Base.{
  ℕ, zero, suc, ◌+◌, ◌-◌, ◌≤◌, ◌<◌, ◌≡◌, min, refl, sym, ap, subst, ◌∙◌, Bool, true, false, ◌||◌,
  ◌&&◌, not, List, [], ◌∷◌, ◌++◌, length, take, drop, get_or, ltb, leb, ◌==◌, ◌/=◌, All, if_elim,
  arith, length-append, length-take,
}
use nginx_media.Ts.{codec_none, crc32}
use nginx_media.Ts.Demux.{Descriptor, on_tracks, Es, Psi, Core}
use nginx_media.Ts.Demux.Section.{
  field_at, codec_of, follow_pmt, pat_loop, parse_pat, pmt_loop, same_streams, es_init, tracks_from,
  add_tracks, trackset_fits, tracks_build, with_streams, parse_pmt, parse_section, Which, of_pat,
  of_pmt, psi_of, set_psi, drop_section, section_max, fill_section, psi_head, psi_step, psi_loop,
  psi_start, psi_feed,
}
use nginx_media.Ts.Demux.Valid.{
  EsValid, PsiValid, TsEventValid, CoreValid, emit_event-Valid, with_trackset-Valid,
  with_tracks-Valid, with_pat-Valid, with_pmt-Valid,
}

module _ (mem : ℕ → Bool) (limit max : ℕ) where
  -- An assembly with no bytes in it.
  empty_valid : (x : Psi) → x.buf ≡ [] → x.expected ≤ 1024 → PsiValid limit max x
  empty_valid x e h = record {
    room = omega (arith, ap length e);
    expected = h;
    unfinished = λ three. omega (arith, three, ap length e);
  }

  pub set_psi-Valid :
      (w : Which) (d : Core) (x : Psi)
      → PsiValid limit max x
      → CoreValid limit max d
      → CoreValid limit max (set_psi w d x)
  set_psi-Valid of_pat d x h v = with_pat-Valid limit max d x h v
  set_psi-Valid of_pmt d x h v = with_pmt-Valid limit max d x h v

  psi_of-set_psi : (w : Which) (d : Core) (x : Psi) → psi_of w (set_psi w d x) ≡ x
  psi_of-set_psi of_pat d x = refl
  psi_of-set_psi of_pmt d x = refl

  pub psi_of-Valid :
      (w : Which) (d : Core) → CoreValid limit max d → PsiValid limit max (psi_of w d)
  psi_of-Valid of_pat d v = v.pat_valid
  psi_of-Valid of_pmt d v = v.pmt_valid

  follow_pmt-Valid :
      (d : Core) (pid : ℕ) → CoreValid limit max d → CoreValid limit max (follow_pmt d pid)
  follow_pmt-Valid d pid v =
      if_elim (CoreValid limit max) (not d.pat_valid || (d.pmt_pid /= pid))
        (λ _. with_pmt-Valid limit max d _ (empty_valid _ refl (omega arith)) v) (λ _. v)

  pat_loop-Valid :
      (fuel : ℕ) (d : Core) (s : List ℕ) (p : ℕ)
      → CoreValid limit max d
      → CoreValid limit max (pat_loop fuel d s p)
  unfolding pat_loop
  pat_loop-Valid zero d s p v = v
  pat_loop-Valid (suc fuel) d s p v =
      if_elim (CoreValid limit max) (ltb (length s - 4) (p + 4)) (λ _. v)
        (λ _.
          if_elim (CoreValid limit max) (field_at 256 s p == 0)
            (λ _. pat_loop-Valid fuel d s (p + 4) v)
            (λ _. follow_pmt-Valid d (field_at 32 s (p + 2)) v))

  parse_pat-Valid :
      (d : Core) (s : List ℕ) → CoreValid limit max d → CoreValid limit max (parse_pat d s)
  unfolding parse_pat
  parse_pat-Valid d s v =
      if_elim (CoreValid limit max) (ltb (length s) 12) (λ _. v)
        (λ _. pat_loop-Valid (length s) d s 8 v)

  Few : List (ℕ × ℕ) × ℕ → Type 0
  Few (streams, bad) = (length streams ≤ max) × (length streams ≤ 32)

  pmt_loop-Few :
      (fuel : ℕ) (s : List ℕ) (p : ℕ) (r : List (ℕ × ℕ) × ℕ) → Few r → Few (pmt_loop fuel max s p r)
  unfolding pmt_loop Few
  pmt_loop-Few zero s p r h = h
  pmt_loop-Few (suc fuel) s p (streams, bad) (most, few) =
      let kind = get_or s p 0 in
      let more = (field_at 32 s (p + 1), kind) ∷ [] in
      let size : length (streams ++ more) ≡ length streams + 1 = length-append streams more in
      if_elim Few (leb (p + 5) (length s - 4) && ltb (length streams) 32)
        (λ go_on. pmt_loop-Few fuel s (p + 5 + field_at 16 s (p + 3)) _ (
          if_elim Few (codec_of kind == codec_none) (λ _. (most, few))
            (λ _.
              if_elim Few (ltb (length streams) max)
                (λ free. (ground (arith, size, free), ground (arith, size, go_on)))
                (λ _. (most, few)))))
        (λ _. (most, few))

  length-tracks_from :
      (i : ℕ) (streams : List (ℕ × ℕ)) → length (tracks_from i streams) ≡ length streams
  unfolding tracks_from
  length-tracks_from i [] = refl
  length-tracks_from i (x ∷ streams) = ap suc (length-tracks_from (i + 1) streams)

  tracks_from-All :
      (i : ℕ) (streams : List (ℕ × ℕ)) → All (EsValid limit max) (tracks_from i streams)
  unfolding tracks_from es_init
  tracks_from-All i [] = tt
  tracks_from-All i (x ∷ streams) =
      (record { room = omega arith; ceiling = omega arith }, tracks_from-All (i + 1) streams)

  length-add_tracks :
      (ts : List Es) (set : List Descriptor)
      → length set ≤ max
      → length (add_tracks max ts set) ≤ max
  unfolding add_tracks
  length-add_tracks [] set h = h
  length-add_tracks (t ∷ ts) set h = length-add_tracks ts _ (
      if_elim (λ (l : List Descriptor). length l ≤ max) (leb max (length set)) (λ _. h)
        (λ more. ground (arith, more, length-append set (t.descriptor ∷ []))))

  tracks_build-Valid : (d : Core) → CoreValid limit max d → CoreValid limit max (tracks_build mem d)
  unfolding tracks_build TsEventValid
  tracks_build-Valid d v =
      let set = add_tracks d.max_tracks d.tracks [] in
      let fits : length set ≤ max =
        subst (λ n. length (add_tracks n d.tracks []) ≤ max) (sym v.track_limit)
          (length-add_tracks d.tracks [] (omega arith)) in
      if_elim (CoreValid limit max) (trackset_fits mem d.max_tracks)
        (λ _.
          emit_event-Valid limit max (on_tracks set)
            (record d { trackset = set; tracks_ready = true }) fits
            (with_trackset-Valid limit max (record d { tracks_ready = true }) set fits v))
        (λ _. with_trackset-Valid limit max d [] (omega arith) v)

  with_streams-Valid :
      (d : Core) (r : List (ℕ × ℕ) × ℕ)
      → Few r
      → CoreValid limit max d
      → CoreValid limit max (with_streams mem d r)
  unfolding Few
  with_streams-Valid d (streams, bad) (most, few) v =
      let d' : Core = record d {
        stats = record d.stats { unsupported_streams = bad };
        pmt_valid = true;
      } in
      let size = length-tracks_from 0 streams in
      let emptied : Core = record d' { trackset = []; tracks_ready = false } in
      if_elim (CoreValid limit max) (same_streams d.tracks streams) (λ _. v)
        (λ _.
          tracks_build-Valid (record emptied { tracks = tracks_from 0 streams })
            (with_tracks-Valid limit max emptied (tracks_from 0 streams) (tracks_from-All 0 streams)
              (omega (arith, size, most)) (omega (arith, size, few))
              (with_trackset-Valid limit max d' [] (omega arith) v)))

  parse_pmt-Valid :
      (d : Core) (s : List ℕ) → CoreValid limit max d → CoreValid limit max (parse_pmt mem d s)
  unfolding parse_pmt Few
  parse_pmt-Valid d s v =
      let p = 12 + field_at 16 s 10 in
      let d' : Core = record d { pcr_pid = field_at 32 s 8 } in
      let start : List (ℕ × ℕ) × ℕ = ([], d.stats.unsupported_streams) in
      let few : Few (pmt_loop (length s) d.max_tracks s p start) =
        subst (λ n. Few (pmt_loop (length s) n s p start)) (sym v.track_limit)
          (pmt_loop-Few (length s) s p start (omega arith, omega arith)) in
      if_elim (CoreValid limit max) (ltb (length s) 16) (λ _. v)
        (λ _.
          if_elim (CoreValid limit max) (ltb (length s - 4) p) (λ _. v)
            (λ _. with_streams-Valid d' (pmt_loop (length s) d.max_tracks s p start) few v))

  pub parse_section-Valid :
      (d : Core) (s : List ℕ) → CoreValid limit max d → CoreValid limit max (parse_section mem d s)
  unfolding parse_section
  parse_section-Valid d s v =
      if_elim (CoreValid limit max) (crc32 s /= 0) (λ _. v)
        (λ _.
          if_elim (CoreValid limit max) (get_or s 0 0 == 0) (λ _. parse_pat-Valid d s v)
            (λ _.
              if_elim (CoreValid limit max) (get_or s 0 0 == 2) (λ _. parse_pmt-Valid d s v)
                (λ _. v)))

  fill_section-Valid :
      (w : Which) (d : Core) (p : List ℕ)
      → length (psi_of w d).buf ≤ (psi_of w d).expected
      → CoreValid limit max d
      → CoreValid limit max (fill_section mem w d p)
  unfolding fill_section
  fill_section-Valid w d p h v =
      let x = psi_of w d in
      let part = take (x.expected - length x.buf) p in
      let buf = x.buf ++ part in
      let d' = parse_section mem d buf in
      let psi = psi_of-Valid w d v in
      let size : length buf ≡ length x.buf + min (x.expected - length x.buf) (length p) =
        length-append x.buf part
        ∙ ap (◌+◌ (length x.buf)) (length-take (x.expected - length x.buf) p) in
      if_elim (CoreValid limit max) (length buf == x.expected)
        (λ _.
          set_psi-Valid w d' (record (psi_of w d') { buf = []; expected = 0; assembling = false })
            (empty_valid (record (psi_of w d') { buf = []; expected = 0; assembling = false }) refl
              (omega arith))
            (parse_section-Valid d buf v))
        (λ more.
          set_psi-Valid w d (record x { buf = buf; assembling = true })
            (record {
              room = omega (arith, size, h, psi.expected);
              expected = psi.expected;
              unfinished = λ _. ground (arith, size, h, more);
            })
            v)

  drop_section-Valid :
      (w : Which) (d : Core) → CoreValid limit max d → CoreValid limit max (drop_section w d)
  drop_section-Valid w d v =
      let x : Psi = record (psi_of w d) { assembling = false; buf = [] } in
      set_psi-Valid w d x (empty_valid x refl (psi_of-Valid w d v).expected) v

  headed_valid :
      (x : Psi) (head : List ℕ) (n : ℕ)
      → length head ≤ 3
      → 4 ≤ n
      → 3 + n ≤ 1024
      → PsiValid limit max (record x { buf = head; expected = 3 + n })
  headed_valid x head n h low high = record {
    room = omega (arith, h);
    expected = high;
    unfinished = λ _. omega (arith, h, low);
  }

  -- Of a pass: the state, whatever is left.
  StepValid : Core × List ℕ → Type 0
  StepValid (d, rest) = CoreValid limit max d

  psi_head-Valid :
      (w : Which) (d : Core) (p : List ℕ)
      → length (psi_of w d).buf < 3
      → CoreValid limit max d
      → StepValid (psi_head mem w d p)
  unfolding psi_head StepValid
  psi_head-Valid w d p new v =
      let x = psi_of w d in
      let psi = psi_of-Valid w d v in
      let part = take (3 - length x.buf) p in
      let head = x.buf ++ part in
      let n = field_at 16 head 1 in
      let headed : Psi = record x { buf = head; expected = 3 + n } in
      let size : length head ≡ length x.buf + min (3 - length x.buf) (length p) =
        length-append x.buf part ∙ ap (◌+◌ (length x.buf)) (length-take (3 - length x.buf) p) in
      if_elim StepValid (ltb (length head) 3)
        (λ short.
          set_psi-Valid w d (record x { buf = head; assembling = true })
            (record {
              room = ground (arith, short);
              expected = psi.expected;
              unfinished = λ three. absurd (ground (arith, short, three));
            })
            v)
        (λ three.
          if_elim StepValid (get_or head 0 0 == 255) (λ _. drop_section-Valid w d v)
            (λ _.
              if_elim StepValid (ltb section_max (3 + n) || ltb n 4) (λ _. drop_section-Valid w d v)
                (λ inside.
                  fill_section-Valid w (set_psi w d headed) (drop (3 - length x.buf) p)
                    (subst (λ (y : Psi). length y.buf ≤ y.expected)
                      (sym (psi_of-set_psi w d headed)) (ground (arith, size, inside)))
                    (set_psi-Valid w d headed
                      (headed_valid x head n (ground (arith, size, new)) (ground (arith, inside))
                        (ground (arith, inside)))
                      v))))

  psi_step-Valid :
      (w : Which) (d : Core) (p : List ℕ) → CoreValid limit max d → StepValid (psi_step mem w d p)
  unfolding psi_step StepValid
  psi_step-Valid w d p v =
      if_elim StepValid (leb 3 (length (psi_of w d).buf))
        (λ begun.
          fill_section-Valid w d p (ground (arith, begun, (psi_of-Valid w d v).unfinished)) v)
        (λ new. psi_head-Valid w d p (ground (arith, new)) v)

  psi_loop-Valid :
      (w : Which) (fuel : ℕ) (d : Core) (p : List ℕ)
      → CoreValid limit max d
      → CoreValid limit max (psi_loop mem w fuel d p)
  unfolding psi_loop StepValid
  psi_loop-Valid w zero d p v = v
  psi_loop-Valid w (suc fuel) d [] v = v
  psi_loop-Valid w (suc fuel) d (b ∷ p) v =
      let (d', rest) = psi_step mem w d (b ∷ p) in
      psi_loop-Valid w fuel d' rest (psi_step-Valid w d (b ∷ p) v)

  psi_start-Valid :
      (w : Which) (d : Core) (p : List ℕ)
      → CoreValid limit max d
      → CoreValid limit max (psi_start mem w d p)
  psi_start-Valid w d [] v = v
  psi_start-Valid w d (pointer ∷ p) v =
      let x : Psi = record (psi_of w d) { assembling = false; buf = []; expected = 0 } in
      if_elim (CoreValid limit max) (ltb (length p) pointer) (λ _. drop_section-Valid w d v)
        (λ _.
          psi_loop-Valid w (length p) (set_psi w d x) (drop pointer p)
            (set_psi-Valid w d x (empty_valid x refl (omega arith)) v))

  pub psi_feed-Valid :
      (w : Which) (d : Core) (pusi : Bool) (p : List ℕ)
      → CoreValid limit max d
      → CoreValid limit max (psi_feed mem w d pusi p)
  unfolding psi_feed
  psi_feed-Valid w d pusi p v =
      if_elim (CoreValid limit max) pusi (λ _. psi_start-Valid w d p v)
        (λ _.
          if_elim (CoreValid limit max) (psi_of w d).assembling
            (λ _. psi_loop-Valid w (length p) d p v) (λ _. v))
