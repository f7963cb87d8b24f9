-- ===== src/Ts/Mux/Packets.antt =====
-- The packets of a frame carry its PES in order, and nothing else changes.
use nginx_media.Base.{
  ℕ, zero, suc, ◌+◌, ◌-◌, ◌%◌, ◌^◌, ◌≤◌, ◌<◌, ◌≡◌, ◌≢◌, ◌⊎◌, min, refl, sym, ap, ap₂, subst, ◌∙◌,
  Bool, true, false, ◌&&◌, List, [], ◌∷◌, ◌++◌, length, take, drop, get_or, ltb, ◌==◌,
  if◌then◌else◌, if_elim, Bool-cases, inl, inr, arith, length-append, length-take, length-drop,
  drop-drop, take-append-drop, drop-append_le, inc64, drop-length,
}
use mathlib.Core.List.{append-nil, append_assoc}
use nginx_media.Ts.{packet_size}
use nginx_media.Ts.Demux.Packet.{good_packet, parse_packet}
use nginx_media.Ts.Mux.{
  Mux, TsBurst, payload_capacity, copy_loop, copy_pes, packet_bytes, mux_packet,
}
use nginx_media.Ts.Mux.Send.{Pes, pes_total, Sent, full, sent, next_packet, send_loop}
use nginx_media.Ts.Mux.Parse.{
  read_as, pcr_of, Fits, first-packet_bytes, length-packet_bytes, parse-packet_bytes,
}

take_prefix : (n : ℕ) (src more : List ℕ) → take n src ≡ take (length (take n src)) (src ++ more)
take_prefix zero src more = refl
take_prefix (suc n) [] more = refl
take_prefix (suc n) (x ∷ src) more = ap (◌∷◌ x) (take_prefix n src more)

drop_past :
    (hs ps : List ℕ) (off : ℕ) → length hs ≤ off → drop off (hs ++ ps) ≡ drop (off - length hs) ps
drop_past [] ps off h = ap (λ n. drop n ps) {x = off} {y = off - 0} (omega arith)
drop_past (x ∷ hs) ps zero h = absurd (omega (arith, h))
drop_past (x ∷ hs) ps (suc off) h =
    drop_past hs ps off (omega (arith, h))
    ∙ ap (λ n. drop n ps) {y = suc off - suc (length hs)} (omega arith)

module _ (header payload : List ℕ) where
  whole : List ℕ
  whole = header ++ payload

  -- What one `memcpy` copies is the next part of the PES.
  source : ℕ → List ℕ
  source off =
      if ltb off (length header) then drop off header else drop (off - length header) payload

  source_prefix : (off : ℕ) → (more : List ℕ) × (drop off whole ≡ source off ++ more)
  unfolding whole source
  source_prefix off = elim (Bool-cases (ltb off (length header))) [
    | inl inside ↦
        (payload, simp inside (drop-append_le off header payload (ground (arith, inside))))
    | inr past ↦
        ([], simp past (drop_past header payload off (ground (arith, past)) ∙ sym (append-nil _)))
  ]

  source_some : (off : ℕ) → off < length header + length payload → 0 < length (source off)
  unfolding source
  source_some off h =
      if_elim (λ (l : List ℕ). 0 < length l) (ltb off (length header))
        (λ inside. ground (arith, inside, length-drop off header))
        (λ past. ground (arith, h, past, length-drop (off - length header) payload))

  copy_loop_lem :
      (fuel n off : ℕ)
      → n ≤ fuel
      → off + n ≤ length header + length payload
      → copy_loop fuel n header payload off ≡ take n (drop off whole)
  unfolding copy_loop source
  copy_loop_lem zero n off h inside =
      subst (λ k. [] ≡ take k (drop off whole)) {x = 0} (omega (arith, h)) refl
  copy_loop_lem (suc fuel) n off h inside = elim (Bool-cases (n == 0)) [
    | inl done ↦
        simp done (subst (λ k. [] ≡ take k (drop off whole)) {x = 0} (ground (arith, done)) refl)
    | inr more_left ↦
        let (more, prefix) = source_prefix off in
        let part = take n (source off) in
        let k = length part in
        let size : k ≡ min n (length (source off)) = length-take n (source off) in
        let some_bytes : 1 ≤ k =
          ground (arith, size, more_left, source_some off (ground (arith, inside, more_left))) in
        let same : part ≡ take k (drop off whole) =
          take_prefix n (source off) more ∙ ap (take k) (sym prefix) in
        simp more_left (
          ap₂ (λ p q. p ++ q) same
            (copy_loop_lem fuel (n - k) (off + k) (omega (arith, h, some_bytes))
                (omega (arith, inside, size))
              ∙ ap (take (n - k)) (sym (drop-drop off k whole)))
          ∙ take-append-drop k (n - k) (drop off whole)
          ∙ ap (λ m. take m (drop off whole)) {y = n} (omega (arith, size)))
  ]

pub capacity_lem :
    (remain : ℕ) (w : Bool)
    → 0 < remain
    → (1 ≤ payload_capacity remain w)
      × (payload_capacity remain w ≤ remain)
      × (payload_capacity remain w + (if w then 8 else 0) ≤ 184)
unfolding payload_capacity
capacity_lem remain true h = (ground (arith, h), ground (arith, h), ground (arith, h))
capacity_lem remain false h = (ground (arith, h), ground (arith, h), ground (arith, h))

-- No packet but the last carries less than 176 bytes.
pub capacity_full :
    (remain : ℕ) (w : Bool)
    → (payload_capacity remain w ≡ remain) ⊎ (176 ≤ payload_capacity remain w)
unfolding payload_capacity
capacity_full remain true =
    if_elim (λ n. (n ≡ remain) ⊎ (176 ≤ n)) (ltb (remain + 8) 184) (λ _. inl refl)
      (λ _. inr (omega arith))
capacity_full remain false =
    if_elim (λ n. (n ≡ remain) ⊎ (176 ≤ n)) (ltb (remain + 0) 184) (λ _. inl refl)
      (λ _. inr (omega arith))

-- A run of packets of one pid: they are packets of 188 bytes that the demultiplexer reads with the
-- counters `cc`, `cc + 1`, ... modulo 16, only the first one marked as a start and, with `pcr`,
-- carrying the base; their payloads are the given bytes, at least one byte each, and at least 176 in
-- each but the last.
pub data Packets (pid base : ℕ) (pcr : Bool) : Bool → ℕ → List ℕ → List ℕ → ℕ → Type 0 where
  no_packet : (first : Bool) (cc : ℕ) → Packets pid base pcr first cc [] [] cc
  one_packet :
      (first : Bool) (cc : ℕ) (p part rest bytes : List ℕ) (cc' : ℕ)
      → length p ≡ 188
      → get_or p 0 0 ≡ 71
      → part ≢ []
      → (rest ≢ [] → 176 ≤ length part)
      → parse_packet p ≡ good_packet (read_as pid cc first (pcr_of (first && pcr) base) part)
      → Packets pid base pcr false ((cc + 1) % 16) rest bytes cc'
      → Packets pid base pcr first cc (part ++ rest) (p ++ bytes) cc'

-- Only the packet counters of the multiplexer and the written bytes of the burst differ.
pub record Extends (m : Mux) (b : TsBurst) (m' : Mux) (b' : TsBurst) : Type 0 where
  pub counters : record m' { packets = m.packets; pcr_packets = m.pcr_packets } ≡ m
  pub bytes : List ℕ
  pub run : b' ≡ record b { written = b.written ++ bytes }

abbrev extends_none : (m : Mux) (b : TsBurst) → Extends m b m b
extends_none m b = record {
  counters = refl;
  bytes = [];
  run = λ i. record b { written = sym (append-nil b.written) i };
}

-- A packet and what follows it.
abbrev extends_packet :
    (m : Mux) (b : TsBurst) (p : List ℕ) (n n' : ℕ) (m' : Mux) (b' : TsBurst)
    → Extends
        (record m { packets = n; pcr_packets = n' })
        (record b { written = b.written ++ p })
        m'
        b'
    → Extends m b m' b'
extends_packet m b p n n' m' b' v = record {
  counters =
      ap (λ (x : Mux). record x { packets = m.packets; pcr_packets = m.pcr_packets }) v.counters;
  bytes = p ++ v.bytes;
  run = v.run ∙ λ i. record b { written = append_assoc b.written p v.bytes i };
}

module _ (x : Pes) (pcr : Bool) (cap : ℕ) (low : x.pid < 8191) where
  unfoldable pub pes : List ℕ
  pes = x.header ++ x.payload

  -- The packets from place `off` on, and the room they keep to.
  pub record Done (m : Mux) (b : TsBurst) (first : Bool) (cc off : ℕ) (m' : Mux) (b' : TsBurst)
      (cc' : ℕ) : Type 0 where
    pub extends : Extends m b m' b'
    pub packets : Packets x.pid (x.base % 2 ^ 33) pcr first cc (drop off pes) extends.bytes cc'
    pub room : length b'.written ≤ cap

  unfoldable pub Sending : Mux → TsBurst → Bool → ℕ → ℕ → Sent → Type 0
  Sending m b first cc off (full m' b') = Extends m b m' b'
  Sending m b first cc off (sent m' b' cc') = Done m b first cc off m' b' cc'

  length-pes : length pes ≡ pes_total x
  unfolding pes
  length-pes = length-append x.header x.payload

  Done-end :
      (m : Mux) (b : TsBurst) (first : Bool) (cc off : ℕ)
      → pes_total x ≤ off
      → length b.written ≤ cap
      → Done m b first cc off m b cc
  Done-end m b first cc off h room = record {
    extends = extends_none m b;
    packets =
        subst (λ l. Packets x.pid (x.base % 2 ^ 33) pcr first cc l [] cc)
          (sym (drop-length off pes (omega (arith, h, length-pes)))) (no_packet first cc);
    room = room;
  }

  take-drop : (n : ℕ) (l : List ℕ) → take n l ++ drop n l ≡ l
  take-drop zero l = refl
  take-drop (suc n) [] = refl
  take-drop (suc n) (a ∷ l) = ap (◌∷◌ a) (take-drop n l)

  -- The packet that carries the part of the PES from place `off` on.
  unfoldable pub part_at : Bool → ℕ → List ℕ
  part_at first off =
      copy_pes (payload_capacity (pes_total x - off) (first && pcr)) x.header x.payload off

  pub part_at_lem :
      (first : Bool) (off : ℕ)
      → off < pes_total x
      → (part_at first off
          ≡ take (payload_capacity (pes_total x - off) (first && pcr)) (drop off pes))
        × (length (part_at first off) ≡ payload_capacity (pes_total x - off) (first && pcr))
  unfolding part_at copy_pes pes whole
  part_at_lem first off h =
      let n = payload_capacity (pes_total x - off) (first && pcr) in
      let (some_bytes, inside, _) =
        capacity_lem (pes_total x - off) (first && pcr) (omega (arith, h)) in
      let same =
        copy_loop_lem x.header x.payload n n off (omega arith) (omega (arith, h, inside)) in
      (
        same,
        ap length same
            ∙ length-take n (drop off pes)
            ∙ omega (arith, length-drop off pes, length-pes, inside),
      )

  abbrev packet_at : Bool → ℕ → ℕ → List ℕ
  packet_at first count off =
      packet_bytes x.pid count first (first && pcr) x.base (part_at first off)

  prepend :
      (m : Mux) (b : TsBurst) (first : Bool) (count off n n' : ℕ) (s : Sent)
      → off < pes_total x
      → count < 16
      → Sending
          (record m { packets = n; pcr_packets = n' })
          (record b { written = b.written ++ packet_at first count off })
          false
          ((count + 1) % 16)
          (off + payload_capacity (pes_total x - off) (first && pcr))
          s
      → Sending m b first count off s
  unfolding Sending
  prepend m b first count off n n' (full m' b') h few v =
      extends_packet m b (packet_at first count off) n n' m' b' v
  prepend m b first count off n n' (sent m' b' cc') h few v =
      let size = payload_capacity (pes_total x - off) (first && pcr) in
      let part = part_at first off in
      let (some_bytes, inside, fits) =
        capacity_lem (pes_total x - off) (first && pcr) (omega (arith, h)) in
      let (same, part_size) = part_at_lem first off h in
      let fit : Fits x.pid count first (first && pcr) x.base part =
        omega (arith, part_size, fits) in
      let ext = extends_packet m b (packet_at first count off) n n' m' b' v.extends in
      let split : part ++ drop (off + size) pes ≡ drop off pes =
        ap₂ (λ p q. p ++ q) same (sym (drop-drop off size pes)) ∙ take-drop size (drop off pes) in
      record {
        extends = ext;
        packets =
            subst (λ l. Packets x.pid (x.base % 2 ^ 33) pcr first count l ext.bytes cc') split
              (one_packet first count (packet_at first count off) part (drop (off + size) pes)
                v.extends.bytes cc'
                (length-packet_bytes x.pid count first (first && pcr) x.base part fit)
                (first-packet_bytes x.pid count first (first && pcr) x.base part)
                (λ e. omega (arith, part_size, some_bytes, ap length e))
                (λ more_left. elim (capacity_full (pes_total x - off) (first && pcr)) [
                  | inl last ↦ absurd (
                      more_left (drop-length (off + size) pes (omega (arith, length-pes, last, h))))
                  | inr many ↦ omega (arith, part_size, many)
                ])
                (parse-packet_bytes x.pid count first (first && pcr) x.base part low few fit)
                v.packets);
        room = v.room;
      }

  pub send_loop-Sending :
      (fuel : ℕ) (m : Mux) (b : TsBurst) (first : Bool) (count off : ℕ)
      → pes_total x - off ≤ fuel
      → count < 16
      → b.capacity ≡ cap
      → length b.written ≤ cap
      → Sending m b first count off (send_loop fuel x pcr first off m b count)
  unfolding send_loop Sending mux_packet part_at
  send_loop-Sending zero m b first count off h few same room =
      Done-end m b first count off (omega (arith, h)) room
  send_loop-Sending (suc fuel) m b first count off h few same room =
      let w = first && pcr in
      let n = payload_capacity (pes_total x - off) w in
      let more =
        λ (m' : Mux) (b' : TsBurst) (cc' : ℕ). send_loop fuel x pcr false (off + n) m' b' cc' in
      let p = packet_at first count off in
      if_elim (Sending m b first count off) (ltb off (pes_total x))
        (λ left.
          if_elim (λ o. Sending m b first count off (next_packet more m b o))
            (ltb (b.capacity - length b.written) packet_size) (λ _. extends_none m b)
            (λ free.
              let before : off < pes_total x = ground (arith, left) in
              let (some_bytes, inside, fits) =
                capacity_lem (pes_total x - off) w (omega (arith, before)) in
              let (_, part_size) = part_at_lem first off before in
              let size : length (b.written ++ p) ≡ length b.written + 188 =
                length-append b.written p
                ∙ ap (◌+◌ (length b.written)) (
                    length-packet_bytes x.pid count first w x.base (part_at first off)
                      (omega (arith, part_size, fits))) in
              prepend m b first count off (inc64 m.packets)
                (if w then inc64 m.pcr_packets else m.pcr_packets) _ before few
                (send_loop-Sending fuel _ _ false ((count + 1) % 16) (off + n)
                  (omega (arith, h, some_bytes, before)) (omega arith) same
                  (ground (arith, size, same, free, room)))))
        (λ none. Done-end m b first count off (ground (arith, none)) room)
