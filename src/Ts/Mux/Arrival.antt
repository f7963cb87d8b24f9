-- ===== src/Ts/Mux/Arrival.antt =====
-- A picture from the multiplexer's call to the demultiplexer's track.
use nginx_media.Base.{
  ℕ, zero, suc, ◌+◌, ◌*◌, ◌%◌, ◌^◌, ◌≤◌, ◌<◌, ◌≡◌, ◌≢◌, refl, sym, ap, subst, ◌∙◌, Bool, true,
  false, ◌&&◌, some, List, [], ◌∷◌, ◌++◌, length, drop, get_or, ◌==◌, if◌then◌else◌, arith,
  length-append, ==→eq, Status, ok, again,
}
use nginx_media.Buffer.{Buf, Frame}
use nginx_media.Ts.Demux.{Es, Demux}
use nginx_media.Ts.Demux.Packet.{track_by_pid}
use nginx_media.Ts.Demux.Feed.{demux_feed}
use nginx_media.Ts.Demux.Chunks.{Aligned, cut, get_or-drop, fed, stored, demux_feed_lem}
use nginx_media.Ts.Mux.{Mux, TsBurst, unsigned}
use nginx_media.Ts.Mux.Packets.{Packets, no_packet, one_packet}
use nginx_media.Ts.Mux.Parse.{drop-append_length}
use nginx_media.Ts.Mux.Send.{pes_of, pes_header, frame_cc, same_ts, is_audio, write_frame}
use nginx_media.Ts.Mux.Write.{
  MuxValid, Open, Carried, Attempt, rolled_back, carried, write_frame-Attempt,
}
use nginx_media.Ts.Mux.Header.{header_with}
use nginx_media.Ts.Mux.Received.{Arrived, gathered}

-- A sync byte stands wherever one of the packets begins.
Packets-Aligned :
    (pid base : ℕ) (pcr first : Bool) (count : ℕ) (all bytes : List ℕ) (count' : ℕ)
    → Packets pid base pcr first count all bytes count'
    → Aligned bytes
unfolding Aligned
Packets-Aligned pid base pcr _ _ _ _ _ (no_packet first count) k h = absurd (omega (arith, h))
Packets-Aligned pid base pcr _ _ _ _ _
      (one_packet first count p part rest bytes count' size sync some_part many parsed ps) zero h =
    first_of p bytes size ∙ sync
  where
    first_of : (p q : List ℕ) → length p ≡ 188 → get_or (p ++ q) (188 * 0) 0 ≡ get_or p 0 0
    first_of [] q e = absurd (omega (arith, e))
    first_of (b ∷ p) q e = refl
Packets-Aligned pid base pcr _ _ _ _ _
      (one_packet first count p part rest bytes count' size sync some_part many parsed ps) (suc k)
      h =
    ap (λ j. get_or (p ++ bytes) j 0) {x = 188 * suc k} {y = 188 + 188 * k} (omega arith)
    ∙ sym (get_or-drop 188 (188 * k) (p ++ bytes))
    ∙ ap (λ l. get_or l (188 * k) 0) (drop-append_length p bytes 188 size)
    ∙ Packets-Aligned pid base pcr false ((count + 1) % 16) rest bytes count' ps k
        (omega (arith, h, size, length-append p bytes))

-- A call that succeeded has carried the frame.
Attempt-ok :
    (m : Mux) (b : TsBurst) (f : Frame) (pcr : Bool) (payload : List ℕ) (r : Status × Mux × TsBurst)
    (m' : Mux) (b' : TsBurst)
    → Attempt m b f pcr payload r
    → r ≡ (ok, m', b')
    → Carried m b f pcr payload m' b'
Attempt-ok m b f pcr payload _ m' b' rolled_back e =
    absurd (not_ok (ap (λ (x : Status × Mux × TsBurst). x.0) e))
  where
    is_ok : Status → Bool
    is_ok ok = true
    is_ok s = false

    not_ok : again ≢ ok
    not_ok h = ground (arith, ap is_ok h)
Attempt-ok m b f pcr payload _ m' b' (carried m1 b1 v) e =
    subst (λ (x : Mux × TsBurst). Carried m b f pcr payload x.0 x.1)
      (ap (λ (x : Status × Mux × TsBurst). (x.1, x.2)) e) v

-- A demultiplexer between two pictures of the track of a pid: no packet is held, and neither is an
-- access unit of the track. The pid is no table's.
pub record Listening (d : Demux) (pid i : ℕ) (t : Es) : Type 0 where
  pub no_tail : d.tail ≡ []
  pub no_table : pid ≢ 0
  pub no_pmt : (d.core.pat_valid && (pid == d.core.pmt_pid)) ≡ false
  pub found : track_by_pid pid 0 d.core.tracks ≡ some (i, t)
  pub no_unit : t.au ≡ []

-- The multiplexer's header of a picture.
video_header :
    (m : Mux) (f : Frame) (payload : List ℕ)
    → is_audio f ≡ false
    → (pes_of m f payload).header ≡ header_with (same_ts f) (unsigned f.pts) (unsigned f.dts)
unfolding pes_header header_with
video_header m f payload video =
    ap (λ a. pes_header (if a then 192 else 224) a f (length payload)) video

module _ (mem : ℕ → Bool) (granted : (n : ℕ) → mem n ≡ true) where
  Carried-Arrived :
      (m : Mux) (b : TsBurst) (f : Frame) (pcr : Bool) (payload : List ℕ) (m' : Mux) (b' : TsBurst)
      (v : Carried m b f pcr payload m' b')
      → is_audio f ≡ false
      → (d : Demux) (i : ℕ) (t : Es) → Listening d m.conf.video_pid i t
      → length payload ≤ d.core.max_au_bytes
      → d.core.max_au_bytes < 2 ^ 64
      → Arrived m.conf.video_pid
          (demux_feed mem d v.bytes).core
          i
          (unsigned f.pts)
          (unsigned f.dts)
          payload
  unfolding fed stored
  Carried-Arrived m b f pcr payload m' b' v video d i t l room small =
      let pid = m.conf.video_pid in
      let base = unsigned f.dts % 2 ^ 33 in
      let ps : Packets pid base pcr true (frame_cc m f) ((pes_of m f payload).header ++ payload)
          v.bytes (frame_cc m' f) =
        subst
          (λ n.
            Packets n base pcr true (frame_cc m f) ((pes_of m f payload).header ++ payload) v.bytes
              (frame_cc m' f))
          (ap (λ a. if a then m.conf.audio_pid else m.conf.video_pid) video) v.packets in
      let same_bytes : d.tail ++ v.bytes ≡ v.bytes = ap (λ l. l ++ v.bytes) l.no_tail in
      let aligned : Aligned (d.tail ++ v.bytes) =
        subst Aligned (sym same_bytes)
          (Packets-Aligned pid base pcr true (frame_cc m f) _ v.bytes (frame_cc m' f) ps) in
      let (there, _) =
        gathered mem granted d.core.max_au_bytes pid base pcr true (frame_cc m f) _ v.bytes
          (frame_cc m' f) ps refl l.no_table small (same_ts f) (unsigned f.pts) (unsigned f.dts)
          payload (ap (λ h. h ++ payload) (video_header m f payload video))
          (==→eq (unsigned f.pts) (unsigned f.dts)) room (length v.bytes) d.core i t (omega arith)
          (record { found = l.found; ceiling = refl; other = l.no_pmt }) l.no_unit in
      subst (λ (e : Demux). Arrived pid e.core i (unsigned f.pts) (unsigned f.dts) payload)
        (sym (demux_feed_lem mem d v.bytes aligned (omega (arith, ap length l.no_tail))))
        (subst
          (λ s.
            Arrived pid (cut mem (length s) d.core s).0 i (unsigned f.pts) (unsigned f.dts) payload)
          (sym same_bytes) there)

  drop_whole : (p q : List ℕ) → drop (length p) (p ++ q) ≡ q
  drop_whole p q = drop-append_length p q (length p) refl

  -- Take a picture that the multiplexer wrote with success to an open burst, and feed the bytes
  -- that this added to the burst to a demultiplexer that holds no tail and knows a track of the
  -- video pid with no access unit in assembly, where the pid is neither the one of the PAT nor a
  -- known PMT's, the picture is within the ceiling on access units, that ceiling is below 2^64,
  -- and allocations succeed. Then that track holds exactly the picture's bytes as its access unit,
  -- without overflow, with the frame's decoding time modulo 2^33, and with its presentation time
  -- modulo 2^33, which also stands for a decoding time that the PES header leaves out.
  pub demux_feed-write_frame :
      (bytes : Buf → List ℕ) (m : Mux) (b : TsBurst) (f : Frame) (pcr : Bool) (buf : Buf) (m' : Mux)
      (b' : TsBurst)
      → MuxValid m
      → Open m b
      → f.payload ≡ some buf
      → is_audio f ≡ false
      → write_frame bytes m b f pcr ≡ (ok, m', b')
      → (d : Demux) (i : ℕ) (t : Es) → Listening d m.conf.video_pid i t
      → length (bytes buf) ≤ d.core.max_au_bytes
      → d.core.max_au_bytes < 2 ^ 64
      → Arrived m.conf.video_pid
          (demux_feed mem d (drop (length b.written) b'.written)).core
          i
          (unsigned f.pts)
          (unsigned f.dts)
          (bytes buf)
  demux_feed-write_frame bytes m b f pcr buf m' b' valid o given video e d i t l room small =
      let v =
        Attempt-ok m b f pcr (bytes buf) _ m' b'
          (write_frame-Attempt bytes m b f pcr buf valid o given) e in
      subst
        (λ q.
          Arrived m.conf.video_pid (demux_feed mem d q).core i (unsigned f.pts) (unsigned f.dts)
            (bytes buf))
        (sym (ap (drop (length b.written)) v.written ∙ drop_whole b.written v.bytes))
        (Carried-Arrived m b f pcr (bytes buf) m' b' v video d i t l room small)
