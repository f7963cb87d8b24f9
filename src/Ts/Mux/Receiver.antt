-- ===== src/Ts/Mux/Receiver.antt =====
-- A track of the demultiplexer that receives the later packets of a PES.
use nginx_media.Base.{
  ℕ, zero, suc, ◌+◌, ◌^◌, ◌≤◌, ◌<◌, ◌≡◌, ◌≢◌, refl, sym, ap, ap₂, ◌∙◌, Bool, true, false, ◌&&◌,
  ◌||◌, Option, some, List, [], ◌∷◌, ◌++◌, length, take, ltb, leb, ◌==◌, if◌then◌else◌, Bool-cases,
  inl, inr, arith,
}
use mathlib.Core.List.{append-nil}
use nginx_media.Ts.Demux.{Es, Core}
use nginx_media.Ts.Demux.Assembly.{au_append, au_capacity}
use nginx_media.Ts.Demux.Flush.{put_es, put_back}
use nginx_media.Ts.Demux.Packet.{
  cc_declined, continuity_error, pes_more, track_packet, track_by_pid, on_track, dispatch, Parsed,
}
use nginx_media.Ts.Mux.Parse.{read_as}

module _ (mem : ℕ → Bool) (granted : (n : ℕ) → mem n ≡ true) (limit pid : ℕ) where
  -- The track of a pid, at its place, with the access unit that it has in assembly.
  pub record Holds (d : Core) (i : ℕ) (t : Es) : Type 0 where
    pub found : track_by_pid pid 0 d.tracks ≡ some (i, t)
    pub ceiling : d.max_au_bytes ≡ limit
    pub other : (d.pat_valid && (pid == d.pmt_pid)) ≡ false

  -- Nothing that a packet of another track needs has changed.
  pub record Same (d d' : Core) : Type 0 where
    pub tracks : d'.tracks ≡ d.tracks
    pub ceiling : d'.max_au_bytes ≡ d.max_au_bytes
    pub pat : d'.pat_valid ≡ d.pat_valid
    pub pmt : d'.pmt_pid ≡ d.pmt_pid

  pub put_es_found :
      (t t' : Es) (j i : ℕ) (ts : List Es)
      → t'.pid ≡ pid
      → track_by_pid pid j ts ≡ some (j + i, t)
      → track_by_pid pid j (put_es i t' ts) ≡ some (j + i, t')
  unfolding track_by_pid
  put_es_found t t' j i [] same e = absurd (ground (arith, e))
  put_es_found t t' j zero (x ∷ ts) same e =
      let here : (t'.pid == pid) ≡ true = ground (arith, same) in
      simp here (ap (λ n. some (n, t')) {x = j} (omega arith))
  put_es_found t t' j (suc i) (x ∷ ts) same e = elim (Bool-cases (x.pid == pid)) [
    | inl here ↦ absurd (ground (arith, e, here))
    | inr there ↦
        let e' : track_by_pid pid (j + 1) ts ≡ some (j + 1 + i, t) =
          sym (ap (λ b. if b then some (j, x) else track_by_pid pid (j + 1) ts) there)
          ∙ e
          ∙ ap (λ n. some (n, t)) {x = j + suc i} (omega arith) in
        simp there (
          put_es_found t t' (j + 1) i ts same e'
          ∙ ap (λ n. some (n, t')) {x = j + 1 + i} {y = j + suc i} (omega arith))
  ]

  -- A track that is put back stays the track of its pid.
  pub put_back-Holds :
      (d d' : Core) (i : ℕ) (t t' : Es)
      → Holds d i t
      → Same d d'
      → t'.pid ≡ pid
      → Holds (put_back i (d', t')) i t'
  put_back-Holds d d' i t t' v same e = record {
    found =
        ap (λ ts. track_by_pid pid 0 (put_es i t' ts)) same.tracks
        ∙ put_es_found t t' 0 i d.tracks e
            (v.found ∙ ap (λ n. some (n, t)) {y = 0 + i} (omega arith))
        ∙ ap (λ n. some (n, t')) {x = 0 + i} (omega arith);
    ceiling = same.ceiling ∙ v.ceiling;
    other = ap₂ (λ b n. b && (pid == n)) same.pat same.pmt ∙ v.other;
  }

  pub found_pid :
      (j i : ℕ) (t : Es) (ts : List Es) → track_by_pid pid j ts ≡ some (i, t) → t.pid ≡ pid
  unfolding track_by_pid
  found_pid j i t [] e = absurd (ground (arith, e))
  found_pid j i t (x ∷ ts) e = elim (Bool-cases (x.pid == pid)) [
    | inl here ↦ ground (arith, e, here)
    | inr there ↦
        found_pid (j + 1) i t ts
          (sym (ap (λ b. if b then some (j, x) else track_by_pid pid (j + 1) ts) there) ∙ e)
  ]

  -- A packet that the demultiplexer parses for the pid goes to its track.
  pub dispatched :
      (d : Core) (i : ℕ) (t : Es) (x : Parsed)
      → x.pid ≡ pid
      → pid ≢ 0
      → Holds d i t
      → dispatch mem d x ≡ put_back i (track_packet mem i d t x)
  unfolding dispatch
  dispatched d i t x e nonzero v =
      let table : (x.pid == 0) ≡ false = ground (arith, e, nonzero) in
      let other : (d.pat_valid && (x.pid == d.pmt_pid)) ≡ false =
        ap (λ n. d.pat_valid && (n == d.pmt_pid)) e ∙ v.other in
      simp (table, other) (ap (on_track mem d x) (ap (λ n. track_by_pid n 0 d.tracks) e ∙ v.found))

  -- More bytes of an access unit that fits under the ceiling.
  pub appended :
      (d : Core) (t : Es) (p : List ℕ)
      → d.max_au_bytes ≡ limit
      → limit < 2 ^ 64
      → length t.au + length p ≤ limit
      → (cap : ℕ) × (au_append mem d t p ≡ (d, record t { au = t.au ++ p; au_cap = cap }))
  unfolding au_append
  appended d t [] same small h = (t.au_cap, λ i. (d, record t { au = sym (append-nil t.au) i }))
  appended d t (b ∷ p) same small h =
      let need = length t.au + length (b ∷ p) in
      let inside : (leb (2 ^ 64) need || ltb d.max_au_bytes need) ≡ false =
        ground (arith, same, small, h) in
      elim (Bool-cases (leb need t.au_cap)) [
        | inl fits ↦ (t.au_cap, simp (inside, fits) refl)
        | inr grows ↦
            (au_capacity d t need, simp (inside, grows, granted (au_capacity d t need)) refl)
      ]

  -- What of a track a later packet of the same PES leaves as it is.
  pub record Kept (t t' : Es) : Type 0 where
    pub owner : t'.pid ≡ t.pid
    pub pts : t'.pts ≡ t.pts
    pub dts : t'.dts ≡ t.dts
    pub has_pts : t'.has_pts ≡ t.has_pts
    pub has_dts : t'.has_dts ≡ t.has_dts

  -- A PES of no known length whose access unit is whole so far.
  pub record Growing (t : Es) (au : List ℕ) : Type 0 where
    pub bytes : t.au ≡ au
    pub whole : t.au_overflow ≡ false
    pub unbounded : t.pes_remaining ≡ 0

  pub noted : (b : Bool) (d : Core) → Same d (continuity_error b d)
  noted true d = record { tracks = refl; ceiling = refl; pat = refl; pmt = refl }
  noted false d = record { tracks = refl; ceiling = refl; pat = refl; pmt = refl }

  pub take_all : (p : List ℕ) → take (length p) p ≡ p
  take_all [] = refl
  take_all (b ∷ p) = ap (◌∷◌ b) (take_all p)

  -- What a packet has made of the track.
  pub record Step (d : Core) (t : Es) (au : List ℕ) (r : Core × Es) : Type 0 where
    pub same : Same d r.0
    pub kept : Kept t r.1
    pub growing : Growing r.1 au

  pub continued :
      (i : ℕ) (d : Core) (t : Es) (count : ℕ) (pcr : Option ℕ) (au part : List ℕ)
      → d.max_au_bytes ≡ limit
      → limit < 2 ^ 64
      → Growing t au
      → 0 < length au
      → length au + length part ≤ limit
      → Step d t (au ++ part) (track_packet mem i d t (read_as pid count false pcr part))
  unfolding track_packet pes_more
  continued i d t count pcr au part same small g some_bytes room =
      let declined = cc_declined t.cc t.cc_valid count true && true in
      let d0 = continuity_error declined d in
      let t0 : Es = record t { cc = count; cc_valid = true } in
      let goes_on : (ltb 0 (length t.au) || (t.au_overflow || ltb 0 t.pes_remaining)) ≡ true =
        ground (arith, some_bytes, ap length g.bytes) in
      let open_end : (t.pes_remaining == 0) ≡ true = ground (arith, g.unbounded) in
      let (cap, e) =
        appended d0 t0 part ((noted declined d).ceiling ∙ same) small
          (omega (arith, room, ap length g.bytes)) in
      simp (goes_on, open_end, take_all part, e)
        (record {
          same = noted declined d;
          kept = record { owner = refl; pts = refl; dts = refl; has_pts = refl; has_dts = refl };
          growing = record {
            bytes = ap (λ l. l ++ part) g.bytes;
            whole = g.whole;
            unbounded = g.unbounded;
          };
        })
