-- ===== src/Ts/Demux/Valid.antt =====
-- What the demultiplexer holds stays within its bounds.
pub mod Frames
pub mod Tables
pub mod Packets
use nginx_media.Base.{
  ℕ, zero, suc, ◌+◌, ◌-◌, ◌*◌, ◌^◌, ◌≤◌, ◌<◌, ◌≡◌, min, refl, sym, ap, subst, ◌∙◌, Bool, true,
  false, Option, none, some, List, [], ◌∷◌, ◌++◌, length, take, drop, ltb, leb, ◌==◌, if◌then◌else◌,
  All, All-append, Bool-cases, inl, inr, arith, tests, length-append, length-take,
}
use nginx_media.Ts.Demux.{
  Descriptor, Emitted, TsEvent, on_tracks, on_frame, Es, Psi, Core, count_overflow, emit_event,
}

module _ (limit max : ℕ) where
  -- The access unit is inside its allocation, and that within the ceiling.
  pub record EsValid (t : Es) : Type 0 where
    pub room : length t.au ≤ t.au_cap
    pub ceiling : t.au_cap ≤ limit

  -- The section is inside its buffer, and one that has its header is not complete.
  pub record PsiValid (x : Psi) : Type 0 where
    pub room : length x.buf ≤ 1024
    pub expected : x.expected ≤ 1024
    pub unfinished : 3 ≤ length x.buf → length x.buf < x.expected

  unfoldable pub TsEventValid : TsEvent → Type 0
  TsEventValid (on_tracks set) = length set ≤ max
  TsEventValid (on_frame f) = length f.payload ≤ limit

  -- Indexed by the fields that it is about, so that it stands for every other field at once.
  pub record Parts (au n : ℕ) (ts : List Es) (set : List Descriptor) (pat pmt : Psi)
      (out : List TsEvent) : Type 0 where
    pub au_limit : au ≡ limit
    pub track_limit : n ≡ max
    pub tracks_valid : All EsValid ts
    pub tracks_max : length ts ≤ max
    pub tracks_32 : length ts ≤ 32
    pub set_max : length set ≤ max
    pub pat_valid : PsiValid pat
    pub pmt_valid : PsiValid pmt
    pub out_valid : All TsEventValid out

  abbrev pub CoreValid : Core → Type 0
  CoreValid d = Parts d.max_au_bytes d.max_tracks d.tracks d.trackset d.pat d.pmt d.out

  abbrev pub BothValid : Core × Es → Type 0
  BothValid (d, t) = CoreValid d × EsValid t

  pub emit_event-Valid :
      (e : TsEvent) (d : Core) → TsEventValid e → CoreValid d → CoreValid (emit_event e d)
  emit_event-Valid e d h v = record {
    au_limit = v.au_limit;
    track_limit = v.track_limit;
    tracks_valid = v.tracks_valid;
    tracks_max = v.tracks_max;
    tracks_32 = v.tracks_32;
    set_max = v.set_max;
    pat_valid = v.pat_valid;
    pmt_valid = v.pmt_valid;
    out_valid = All-append TsEventValid d.out (e ∷ []) v.out_valid (h, tt);
  }

  pub with_trackset-Valid :
      (d : Core) (set : List Descriptor)
      → length set ≤ max
      → CoreValid d
      → CoreValid (record d { trackset = set })
  with_trackset-Valid d set h v = record {
    au_limit = v.au_limit;
    track_limit = v.track_limit;
    tracks_valid = v.tracks_valid;
    tracks_max = v.tracks_max;
    tracks_32 = v.tracks_32;
    set_max = h;
    pat_valid = v.pat_valid;
    pmt_valid = v.pmt_valid;
    out_valid = v.out_valid;
  }

  pub with_tracks-Valid :
      (d : Core) (ts : List Es)
      → All EsValid ts
      → length ts ≤ max
      → length ts ≤ 32
      → CoreValid d
      → CoreValid (record d { tracks = ts })
  with_tracks-Valid d ts h most few v = record {
    au_limit = v.au_limit;
    track_limit = v.track_limit;
    tracks_valid = h;
    tracks_max = most;
    tracks_32 = few;
    set_max = v.set_max;
    pat_valid = v.pat_valid;
    pmt_valid = v.pmt_valid;
    out_valid = v.out_valid;
  }

  pub with_pat-Valid :
      (d : Core) (x : Psi) → PsiValid x → CoreValid d → CoreValid (record d { pat = x })
  with_pat-Valid d x h v = record {
    au_limit = v.au_limit;
    track_limit = v.track_limit;
    tracks_valid = v.tracks_valid;
    tracks_max = v.tracks_max;
    tracks_32 = v.tracks_32;
    set_max = v.set_max;
    pat_valid = h;
    pmt_valid = v.pmt_valid;
    out_valid = v.out_valid;
  }

  pub with_pmt-Valid :
      (d : Core) (x : Psi) → PsiValid x → CoreValid d → CoreValid (record d { pmt = x })
  with_pmt-Valid d x h v = record {
    au_limit = v.au_limit;
    track_limit = v.track_limit;
    tracks_valid = v.tracks_valid;
    tracks_max = v.tracks_max;
    tracks_32 = v.tracks_32;
    set_max = v.set_max;
    pat_valid = v.pat_valid;
    pmt_valid = h;
    out_valid = v.out_valid;
  }
