-- ===== src/Ts/Mux/Write.antt =====
-- `ngx_media_ts_mux_write_frame`: a frame is carried whole, or nothing but a counter has changed.
use nginx_media.Base.{
  ℕ, zero, suc, ◌+◌, ◌-◌, ◌*◌, ◌/◌, ◌%◌, ◌^◌, ◌≤◌, ◌<◌, ◌≡◌, refl, sym, ap, subst, ◌∙◌, Bool, true,
  false, ◌&&◌, some, List, [], ◌∷◌, ◌++◌, length, take, ltb, leb, if◌then◌else◌, if_elim,
  Bool-cases, inl, inr, arith, length-append, inc64, add64, Status, ok, again,
}
use nginx_media.Buffer.{Buf, Frame, is_set}
use nginx_media.Ts.{packet_size, put_ts}
use nginx_media.Ts.Mux.{
  Mux, TsBurst, max_slices, unsigned, payload_capacity, packet_bytes, mux_packet,
}
use nginx_media.Ts.Mux.Parse.{length-packet_bytes}
use nginx_media.Ts.Mux.Send.{
  Pes, pes_total, Sent, full, sent, next_packet, send_loop, pes_of, frame_cc, with_cc, is_audio,
  same_ts, pes_header, frame_done, frame_sent, frame_payload, write_frame,
}
use nginx_media.Ts.Mux.Packets.{
  pes, Packets, Extends, Done, Sending, send_loop-Sending, capacity_lem, capacity_full, part_at,
  part_at_lem,
}

-- The pids can be told from the null packets', and the counters have four bits.
pub record MuxValid (m : Mux) : Type 0 where
  pub video_pid : m.conf.video_pid < 8191
  pub audio_pid : m.conf.audio_pid < 8191
  pub cc_video : m.cc_video < 16
  pub cc_audio : m.cc_audio < 16

-- What a frame that was carried has changed.
pub record Carried (m : Mux) (b : TsBurst) (f : Frame) (pcr : Bool) (payload : List ℕ) (m' : Mux)
    (b' : TsBurst) : Type 0 where
  pub bytes : List ℕ
  pub written : b'.written ≡ b.written ++ bytes
  pub packets :
      Packets
        (pes_of m f payload).pid
        (unsigned f.dts % 2 ^ 33)
        pcr
        true
        (frame_cc m f)
        ((pes_of m f payload).header ++ payload)
        bytes
        (frame_cc m' f)
  pub room : length b'.written ≤ b.capacity
  pub slices :
      b'.slices
      ≡ b.slices
        ++ record {
          offset = length b.written;
          len = length bytes;
          pts = f.pts;
          dts = f.dts;
          media_type = f.media_type;
          codec = f.codec;
          keyframe = f.keyframe;
        }
          ∷ []
  pub counted : m'.frame_bytes ≡ add64 m.frame_bytes (length payload)
  pub no_drop : m'.frame_drops ≡ m.frame_drops

pub data Attempt (m : Mux) (b : TsBurst) (f : Frame) (pcr : Bool) (payload : List ℕ)
    : Status × Mux × TsBurst → Type 0 where
  rolled_back : Attempt m b f pcr payload (again, record m { frame_drops = inc64 m.frame_drops }, b)
  carried :
      (m' : Mux) (b' : TsBurst)
      → Carried m b f pcr payload m' b'
      → Attempt m b f pcr payload (ok, m', b')

take_whole : (p q : List ℕ) → take (length p) (p ++ q) ≡ p
take_whole [] q = refl
take_whole (a ∷ p) q = ap (◌∷◌ a) (take_whole p q)

module _ (m : Mux) (b : TsBurst) (f : Frame) (pcr : Bool) (payload : List ℕ) (v : MuxValid m)
    (room : length b.written ≤ b.capacity) where
  pid_low : (pes_of m f payload).pid < 8191
  pid_low = if_elim (λ p. p < 8191) (is_audio f) (λ _. v.audio_pid) (λ _. v.video_pid)

  cc_low : frame_cc m f < 16
  cc_low = if_elim (λ c. c < 16) (is_audio f) (λ _. v.cc_audio) (λ _. v.cc_video)

  roll_back :
      (m' : Mux) (b' : TsBurst)
      → Extends m b m' b'
      → Attempt m b f pcr payload (frame_done m b f payload (full m' b'))
  roll_back m' b' e =
      let same_m = ap (λ (y : Mux). record y { frame_drops = inc64 y.frame_drops }) e.counters in
      let same_b : record b' { written = take (length b.written) b'.written } ≡ b =
        ap (λ (y : TsBurst). record y { written = take (length b.written) y.written }) e.run ∙ λ i.
        record b { written = take_whole b.written e.bytes i } in
      subst (Attempt m b f pcr payload) (λ i. (again, sym same_m i, sym same_b i)) rolled_back

  frame_cc-with_cc : (m' : Mux) (c : ℕ) → frame_cc (with_cc m' f c) f ≡ c
  frame_cc-with_cc m' c = elim (Bool-cases (is_audio f)) [
    | inl audio ↦ simp audio refl
    | inr video ↦ simp video refl
  ]

  carry :
      (m' : Mux) (b' : TsBurst) (c : ℕ)
      → Done (pes_of m f payload) pcr b.capacity pid_low m b true (frame_cc m f) 0 m' b' c
      → Attempt m b f pcr payload (frame_done m b f payload (sent m' b' c))
  unfolding pes
  carry m' b' c d =
      let grown : b'.written ≡ b.written ++ d.extends.bytes =
        ap (λ (y : TsBurst). y.written) d.extends.run in
      let kept = ap (λ (y : TsBurst). y.slices) d.extends.run in
      let size : length b'.written - length b.written ≡ length d.extends.bytes =
        omega (arith, ap length grown, length-append b.written d.extends.bytes) in
      let m1 : Mux = record m' { frame_bytes = add64 m'.frame_bytes (length payload) } in
      carried _ _ (record {
        bytes = d.extends.bytes;
        written = grown;
        packets =
            subst
              (Packets (pes_of m f payload).pid (unsigned f.dts % 2 ^ 33) pcr true (frame_cc m f)
                ((pes_of m f payload).header ++ payload) d.extends.bytes)
              (sym (frame_cc-with_cc m1 c)) d.packets;
        room = d.room;
        slices = λ i.
            kept i
            ++ record {
              offset = length b.written;
              len = size i;
              pts = f.pts;
              dts = f.dts;
              media_type = f.media_type;
              codec = f.codec;
              keyframe = f.keyframe;
            }
              ∷ [];
        counted =
            if_elim (λ (y : Mux). y.frame_bytes ≡ m1.frame_bytes) (is_audio f) (λ _. refl)
              (λ _. refl)
            ∙ ap (λ (y : Mux). add64 y.frame_bytes (length payload)) d.extends.counters;
        no_drop =
            if_elim (λ (y : Mux). y.frame_drops ≡ m1.frame_drops) (is_audio f) (λ _. refl)
              (λ _. refl)
            ∙ ap (λ (y : Mux). y.frame_drops) d.extends.counters;
      })

  settle :
      (s : Sent)
      → Sending (pes_of m f payload) pcr b.capacity pid_low m b true (frame_cc m f) 0 s
      → Attempt m b f pcr payload (frame_done m b f payload s)
  unfolding Sending
  settle (full m' b') e = roll_back m' b' e
  settle (sent m' b' c) d = carry m' b' c d

  pub attempt : Attempt m b f pcr payload (frame_sent m b f pcr payload)
  attempt =
      let x = pes_of m f payload in
      settle (send_loop (pes_total x) x pcr true 0 m b (frame_cc m f)) (
        send_loop-Sending x pcr b.capacity pid_low (pes_total x) m b true (frame_cc m f) 0
          (omega arith) cc_low refl room)

-- A burst that takes frames: it has its memory, and a free slice.
pub record Open (m : Mux) (b : TsBurst) : Type 0 where
  pub ready : m.tracks_ready ≡ true
  pub backed : is_set b.backing ≡ true
  pub slice : length b.slices < 256
  pub room : length b.written ≤ b.capacity

pub write_frame-Attempt :
    (bytes : Buf → List ℕ) (m : Mux) (b : TsBurst) (f : Frame) (pcr : Bool) (buf : Buf)
    → MuxValid m
    → Open m b
    → f.payload ≡ some buf
    → Attempt m b f pcr (bytes buf) (write_frame bytes m b f pcr)
unfolding write_frame
write_frame-Attempt bytes m b f pcr buf v o given =
    let free : leb max_slices (length b.slices) ≡ false = ground (arith, o.slice) in
    simp o.backed (
      subst (λ q. Attempt m b f pcr (bytes buf) (frame_payload bytes m b f pcr q)) (sym given)
        (simp (o.ready, free) (attempt m b f pcr (bytes buf) v o.room)))

-- How many packets are enough for that much of a PES.
abbrev pub enough_packets : ℕ → ℕ
enough_packets remain = (remain + 175) / 176

abbrev is_sent : Sent → Bool
is_sent (full m b) = false
is_sent (sent m b c) = true

module _ (x : Pes) (pcr : Bool) (low : x.pid < 8191) where
  send_loop_enough :
      (fuel : ℕ) (m : Mux) (b : TsBurst) (first : Bool) (count off : ℕ)
      → length b.written + 188 * enough_packets (pes_total x - off) ≤ b.capacity
      → is_sent (send_loop fuel x pcr first off m b count) ≡ true
  unfolding send_loop mux_packet part_at
  send_loop_enough zero m b first count off room = refl
  send_loop_enough (suc fuel) m b first count off room =
      let w = first && pcr in
      let n = payload_capacity (pes_total x - off) w in
      let more =
        λ (m' : Mux) (b' : TsBurst) (c : ℕ). send_loop fuel x pcr false (off + n) m' b' c in
      let p = packet_bytes x.pid count first w x.base (part_at x pcr 0 low first off) in
      if_elim (λ s. is_sent s ≡ true) (ltb off (pes_total x))
        (λ left.
          if_elim (λ o. is_sent (next_packet more m b o) ≡ true)
            (ltb (b.capacity - length b.written) packet_size)
            (λ no_room. absurd (ground (arith, no_room, left, room)))
            (λ _.
              let before : off < pes_total x = ground (arith, left) in
              let (some_bytes, inside, fits) =
                capacity_lem (pes_total x - off) w (omega (arith, before)) in
              let (_, part_size) = part_at_lem x pcr 0 low first off before in
              let size : length (b.written ++ p) ≡ length b.written + 188 =
                length-append b.written p
                ∙ ap (◌+◌ (length b.written)) (
                    length-packet_bytes x.pid count first w x.base (part_at x pcr 0 low first off)
                      (omega (arith, part_size, fits))) in
              send_loop_enough fuel
                (record m {
                  packets = inc64 m.packets;
                  pcr_packets = if w then inc64 m.pcr_packets else m.pcr_packets;
                })
                (record b { written = b.written ++ p }) false ((count + 1) % 16) (off + n)
                (elim (capacity_full (pes_total x - off) w) [
                  | inl last ↦ omega (arith, size, room, before, last)
                  | inr many ↦ omega (arith, size, room, before, many, inside)
                ])))
        (λ _. refl)

done_ok :
    (m : Mux) (b : TsBurst) (f : Frame) (payload : List ℕ) (s : Sent)
    → is_sent s ≡ true
    → (frame_done m b f payload s).0 ≡ ok
done_ok m b f payload (full m' b') e = absurd (ground (arith, e))
done_ok m b f payload (sent m' b' c) e = refl

header_le :
    (stream_id : ℕ) (bounded : Bool) (f : Frame) (n : ℕ)
    → length (pes_header stream_id bounded f n) ≤ 19
unfolding pes_header put_ts
header_le stream_id bounded f n = elim (Bool-cases (same_ts f)) [
  | inl same ↦ simp same (omega arith)
  | inr other ↦ simp other (omega arith)
]

-- A frame is written if the open burst has room for one packet for each 176 bytes, or part of
-- them, of the frame's bytes and a header of 19.
pub write_frame_ok :
    (bytes : Buf → List ℕ) (m : Mux) (b : TsBurst) (f : Frame) (pcr : Bool) (buf : Buf)
    → MuxValid m
    → Open m b
    → f.payload ≡ some buf
    → length b.written + 188 * enough_packets (19 + length (bytes buf)) ≤ b.capacity
    → (write_frame bytes m b f pcr).0 ≡ ok
unfolding write_frame
write_frame_ok bytes m b f pcr buf v o given room =
    let free : leb max_slices (length b.slices) ≡ false = ground (arith, o.slice) in
    let x = pes_of m f (bytes buf) in
    let short : length x.header ≤ 19 =
      header_le (if is_audio f then 192 else 224) (is_audio f) f (length (bytes buf)) in
    simp o.backed (
      subst (λ q. (frame_payload bytes m b f pcr q).0 ≡ ok) (sym given)
        (simp (o.ready, free)
          (done_ok m b f (bytes buf) (send_loop (pes_total x) x pcr true 0 m b (frame_cc m f)) (
            send_loop_enough x pcr (pid_low m b f pcr (bytes buf) v o.room) (pes_total x) m b true
              (frame_cc m f) 0 (omega (arith, room, short))))))
