-- ===== src/Ts/Mux/Received.antt =====
-- The multiplexer and the demultiplexer together: the packets of a picture fill a track.
use nginx_media.Base.{
  ℕ, zero, suc, ◌+◌, ◌%◌, ◌^◌, ◌≤◌, ◌<◌, ◌≡◌, ◌≢◌, refl, sym, ap, ap₂, subst, ◌∙◌, Bool, true,
  false, ◌&&◌, Option, none, some, List, [], ◌∷◌, ◌++◌, length, ◌==◌, if◌then◌else◌, arith,
  length-append,
}
use mathlib.Core.List.{append-nil, append_assoc}
use nginx_media.Ts.Demux.{Es, Core}
use nginx_media.Ts.Demux.Flush.{au_flush, put_back}
use nginx_media.Ts.Demux.Packet.{
  cc_declined, continuity_error, see_pcr, track_packet, track_by_pid, act_on, process_packet,
  count_packet, parse_packet, good_packet,
}
use nginx_media.Ts.Mux.Parse.{read_as, pcr_of}
use nginx_media.Ts.Demux.Chunks.{cut, cut_whole, cut_short}
use nginx_media.Ts.Mux.Packets.{Packets, no_packet, one_packet}
use nginx_media.Ts.Mux.Receiver.{
  Holds, Same, put_back-Holds, found_pid, dispatched, appended, Kept, Growing, noted, continued,
}
use nginx_media.Ts.Mux.Header.{
  header_part, first_188, after_188, Stamped, header_with, length-header_with, holds_header, begun,
  started,
}

-- The track of a pid, with a whole picture in assembly.
pub record Arrived (pid : ℕ) (d : Core) (i pts dts : ℕ) (payload : List ℕ) : Type 0 where
  pub es : Es
  pub found : track_by_pid pid 0 d.tracks ≡ some (i, es)
  pub access_unit : es.au ≡ payload
  pub whole : es.au_overflow ≡ false
  pub stamped : Stamped pts dts es

module _ (mem : ℕ → Bool) (granted : (n : ℕ) → mem n ≡ true) (limit pid : ℕ) where
  -- What the first packet has made of the track.
  record First (d : Core) (t : Es) (pts dts : ℕ) (au : List ℕ) (r : Core × Es) : Type 0 where
    same : Same mem granted limit pid d r.0
    owner : r.1.pid ≡ t.pid
    growing : Growing mem granted limit pid r.1 au
    stamped : Stamped pts dts r.1

  start_of_unit :
      (i : ℕ) (d : Core) (t : Es) (count : ℕ) (pcr : Option ℕ) (two : Bool) (pts dts : ℕ)
      (more : List ℕ)
      → d.max_au_bytes ≡ limit
      → limit < 2 ^ 64
      → t.au ≡ []
      → (two ≡ true → pts ≡ dts)
      → length more ≤ limit
      → First d t pts dts more
          (track_packet mem i d t (read_as pid count true pcr (header_with two pts dts ++ more)))
  unfolding track_packet au_flush
  start_of_unit i d t count pcr two pts dts more same small none_held one room =
      let declined = cc_declined t.cc t.cc_valid count true && true in
      let d0 = continuity_error declined d in
      let t1 : Es = record t {
        cc = count;
        cc_valid = true;
        au = [];
        has_pts = false;
        has_dts = false;
        au_overflow = false;
      } in
      let part = header_with two pts dts ++ more in
      let empty : (length t.au == 0) ≡ true = ground (arith, ap length none_held) in
      let (e, stamped, clean) = started mem i d0 t1 two pts dts more one in
      let t2 = begun t1 part in
      let (cap, e') =
        appended mem granted limit pid d0 t2 more
          ((noted mem granted limit pid declined d).ceiling ∙ same) small
          (omega (arith, room, ap length clean.bytes)) in
      simp (empty, e, e')
        (record {
          same = noted mem granted limit pid declined d;
          owner = clean.owner;
          growing = record {
            bytes = ap (λ l. l ++ more) clean.bytes;
            whole = clean.whole;
            unbounded = clean.unbounded;
          };
          stamped = record {
            has_pts = stamped.has_pts;
            same_pts = stamped.same_pts;
            same_dts = stamped.same_dts;
          };
        })

  abbrev HoldsHere : Core → ℕ → Es → Type 0
  HoldsHere = Holds mem granted limit pid

  -- The packet's own counters are no matter.
  seen :
      (pcr : Option ℕ) (d : Core) (i : ℕ) (t : Es)
      → HoldsHere d i t
      → HoldsHere (see_pcr pcr (count_packet d)) i t
  seen none d i t v = record { found = v.found; ceiling = v.ceiling; other = v.other }
  seen (some base) d i t v = record { found = v.found; ceiling = v.ceiling; other = v.other }

  processed :
      (d : Core) (i : ℕ) (t : Es) (p : List ℕ) (count : ℕ) (pusi : Bool) (pcr : Option ℕ)
      (part : List ℕ)
      → pid ≢ 0
      → HoldsHere d i t
      → parse_packet p ≡ good_packet (read_as pid count pusi pcr part)
      → process_packet mem d p
        ≡ put_back i
            (track_packet mem i (see_pcr pcr (count_packet d)) t (read_as pid count pusi pcr part))
  unfolding process_packet
  processed d i t p count pusi pcr part nonzero v parsed =
      ap (act_on mem (count_packet d)) parsed
      ∙ dispatched mem granted limit pid (see_pcr pcr (count_packet d)) i t
          (read_as pid count pusi pcr part) refl nonzero (seen pcr d i t v)

  nil_of_append : (p q : List ℕ) → p ++ q ≡ [] → p ≡ []
  nil_of_append [] q e = refl
  nil_of_append (x ∷ p) q e = absurd (omega (arith, ap length e))

  -- After a run of packets, none of which is left.
  record After (t : Es) (i : ℕ) (au : List ℕ) (r : Core × List ℕ) : Type 0 where
    es : Es
    holds : HoldsHere r.0 i es
    growing : Growing mem granted limit pid es au
    kept : Kept mem granted limit pid t es
    done : r.1 ≡ []

  -- A packet is taken from a run of bytes.
  cut_one :
      (n : ℕ) (d : Core) (p bytes : List ℕ)
      → length p ≡ 188
      → length (p ++ bytes) ≤ n
      → (m : ℕ) × ((length bytes ≤ m)
          × (cut mem n d (p ++ bytes) ≡ cut mem m (process_packet mem d p) bytes))
  cut_one zero d p bytes size h = absurd (omega (arith, h, size, length-append p bytes))
  cut_one (suc n) d p bytes size h =
      let all = length-append p bytes in
      (
        n,
        (
          omega (arith, h, all, size),
          cut_whole mem n d (p ++ bytes) (omega (arith, all, size))
              ∙ ap₂ (λ q r. cut mem n (process_packet mem d q) r) (first_188 p bytes size)
                  (after_188 p bytes size),
        ),
      )

  rest_of_unit :
      (base : ℕ) (pcr first : Bool) (count : ℕ) (rest bytes : List ℕ) (count' : ℕ)
      → Packets pid base pcr first count rest bytes count'
      → first ≡ false
      → pid ≢ 0
      → limit < 2 ^ 64
      → (n : ℕ) (d : Core) (i : ℕ) (t : Es) (au : List ℕ) → length bytes ≤ n
      → HoldsHere d i t
      → Growing mem granted limit pid t au
      → (rest ≢ [] → 0 < length au)
      → length au + length rest ≤ limit
      → After t i (au ++ rest) (cut mem n d bytes)
  rest_of_unit base pcr _ _ _ _ _ (no_packet first count) late nonzero small n d i t au h v g
        some_bytes room =
      subst (After t i (au ++ [])) (sym (cut_short mem n d [] (omega arith))) (record {
        es = t;
        holds = v;
        growing = record {
          bytes = g.bytes ∙ sym (append-nil au);
          whole = g.whole;
          unbounded = g.unbounded;
        };
        kept = record { owner = refl; pts = refl; dts = refl; has_pts = refl; has_dts = refl };
        done = refl;
      })
  rest_of_unit base pcr _ _ _ _ _
        (one_packet first count p part rest bytes count' size sync some_part many parsed ps) late
        nonzero small n d i t au h v g some_bytes room =
      let (m, (fits, e)) = cut_one n d p bytes size h in
      let held : 0 < length au =
        some_bytes (λ none_left. some_part (nil_of_append part rest none_left)) in
      let d1 = see_pcr none (count_packet d) in
      let r = track_packet mem i d1 t (read_as pid count false none part) in
      let parsed' : parse_packet p ≡ good_packet (read_as pid count false none part) =
        subst
          (λ b. parse_packet p ≡ good_packet (read_as pid count b (pcr_of (b && pcr) base) part))
          late parsed in
      let both = length-append part rest in
      let grown = length-append au part in
      let v1 = seen none d i t v in
      let step =
        continued mem granted limit pid i d1 t count none au part v1.ceiling small g held
          (omega (arith, room, both)) in
      let v2 =
        put_back-Holds mem granted limit pid d1 r.0 i t r.1 v1 step.same
          (step.kept.owner ∙ found_pid mem granted limit pid 0 i t d.tracks v.found) in
      let rest_of =
        rest_of_unit base pcr false ((count + 1) % 16) rest bytes count' ps refl nonzero small m
          (put_back i r) i r.1 (au ++ part) fits v2 step.growing (λ _. omega (arith, grown, held))
          (omega (arith, room, both, grown)) in
      subst (After t i (au ++ (part ++ rest)))
        (sym (
          e
          ∙ ap (λ c. cut mem m c bytes)
              (processed d i t p count false none part nonzero v parsed')))
        (record {
          es = rest_of.es;
          holds = rest_of.holds;
          growing = record {
            bytes = rest_of.growing.bytes ∙ append_assoc au part rest;
            whole = rest_of.growing.whole;
            unbounded = rest_of.growing.unbounded;
          };
          kept = record {
            owner = rest_of.kept.owner ∙ step.kept.owner;
            pts = rest_of.kept.pts ∙ step.kept.pts;
            dts = rest_of.kept.dts ∙ step.kept.dts;
            has_pts = rest_of.kept.has_pts ∙ step.kept.has_pts;
            has_dts = rest_of.kept.has_dts ∙ step.kept.has_dts;
          };
          done = rest_of.done;
        })

  pub gathered :
      (base : ℕ) (pcr first : Bool) (count : ℕ) (all bytes : List ℕ) (count' : ℕ)
      → Packets pid base pcr first count all bytes count'
      → first ≡ true
      → pid ≢ 0
      → limit < 2 ^ 64
      → (two : Bool) (pts dts : ℕ) (payload : List ℕ) → all ≡ header_with two pts dts ++ payload
      → (two ≡ true → pts ≡ dts)
      → length payload ≤ limit
      → (n : ℕ) (d : Core) (i : ℕ) (t : Es) → length bytes ≤ n
      → HoldsHere d i t
      → t.au ≡ []
      → Arrived pid (cut mem n d bytes).0 i pts dts payload × ((cut mem n d bytes).1 ≡ [])
  unfolding header_with
  gathered base pcr _ _ _ _ _ (no_packet first count) start nonzero small two pts dts payload e one
        room n d i t h v empty =
      absurd (omega (arith, ap length e))
  gathered base pcr _ _ _ _ _
        (one_packet first count p part rest bytes count' size sync some_part many parsed ps) start
        nonzero small two pts dts payload e one room n d i t h v empty =
      let head = header_with two pts dts in
      let short : length head ≤ 19 = length-header_with two pts dts in
      let (more, (same_part, left)) =
        header_part head part rest payload e (holds_header head part rest payload many e short) in
      let both = length-append head more in
      let sizes = length-append more rest in
      let (m, (fits, cut_off)) = cut_one n d p bytes size h in
      let base_of = pcr_of pcr base in
      let d1 = see_pcr base_of (count_packet d) in
      let x = read_as pid count true base_of (head ++ more) in
      let r = track_packet mem i d1 t x in
      let parsed' : parse_packet p ≡ good_packet x =
        subst
          (λ b. parse_packet p ≡ good_packet (read_as pid count b (pcr_of (b && pcr) base) part))
          start parsed
        ∙ ap (λ l. good_packet (read_as pid count true base_of l)) same_part in
      let v1 = seen base_of d i t v in
      let step =
        start_of_unit i d1 t count base_of two pts dts more v1.ceiling small empty one
          (omega (arith, room, sizes, ap length left)) in
      let v2 =
        put_back-Holds mem granted limit pid d1 r.0 i t r.1 v1 step.same
          (step.owner ∙ found_pid mem granted limit pid 0 i t d.tracks v.found) in
      let after =
        rest_of_unit base pcr false ((count + 1) % 16) rest bytes count' ps refl nonzero small m
          (put_back i r) i r.1 more fits v2 step.growing
          (λ some_left. omega (arith, many some_left, both, short, ap length same_part))
          (omega (arith, room, sizes, ap length left)) in
      let kept = after.kept in
      subst (λ (y : Core × List ℕ). Arrived pid y.0 i pts dts payload × (y.1 ≡ []))
        (sym (
          cut_off
          ∙ ap (λ c. cut mem m c bytes)
              (processed d i t p count true base_of (head ++ more) nonzero v parsed')))
        (
          record {
            es = after.es;
            found = after.holds.found;
            access_unit = after.growing.bytes ∙ left;
            whole = after.growing.whole;
            stamped = record {
              has_pts = kept.has_pts ∙ step.stamped.has_pts;
              same_pts = kept.pts ∙ step.stamped.same_pts;
              same_dts =
                  (λ k. if kept.has_dts k then kept.dts k else kept.pts k) ∙ step.stamped.same_dts;
            };
          },
          after.done,
        )
