-- ===== src/Queue/Push.antt =====
-- `ngx_media_srt_queue_push` against the list of retained units.
use nginx_media.Base.{
  ℕ, zero, suc, ◌+◌, ◌-◌, ◌^◌, ◌≤◌, ◌<◌, ◌≡◌, refl, sym, ap, ap₂, subst, ◌∙◌, Bool, true, false,
  ◌&&◌, ◌||◌, List, [], ◌∷◌, arith, length, inc64, ltb, leb, ◌/=◌, if◌then◌else◌, Bool-cases, inl,
  inr, ◌⊎◌, lt→ltb,
}
use nginx_media.Buffer.{Refs}
use nginx_media.Ring.{window, length-window}
use nginx_media.Queue.{Queue, Burst, slot_of, retire, evict, over_limits, make_room_loop, make_room}
use nginx_media.Queue.Valid.{
  IsValid, contents, total, contents-retire, bytes-retire_le, retire-IsValid, IsValid-counters,
}

-- the ceilings that a list of retained units breaks when `len` more bytes come
abbrev pub too_many : ℕ → ℕ → ℕ → List Burst → Bool
too_many capacity max_bytes len w =
    leb capacity (length w) || (max_bytes /= 0 && ltb max_bytes (total w + len))

-- the oldest units go while a ceiling is broken
abbrev pub trim : ℕ → ℕ → ℕ → List Burst → List Burst
trim capacity max_bytes len [] = []
trim capacity max_bytes len (u ∷ w) =
    let rest = trim capacity max_bytes len w in
    if too_many capacity max_bytes len (u ∷ w) then rest else u ∷ w

pub trim-fits :
    (c m len : ℕ) (w : List Burst)
    → (trim c m len w ≡ []) ⊎ (too_many c m len (trim c m len w) ≡ false)
trim-fits c m len [] = inl refl
trim-fits c m len (u ∷ w) = elim (Bool-cases (too_many c m len (u ∷ w))) [
  | inl over ↦ rw over (trim-fits c m len w)
  | inr fits ↦ inr (rw fits fits)
]

trim_stop : (c m len : ℕ) (w : List Burst) → too_many c m len w ≡ false → trim c m len w ≡ w
trim_stop c m len [] h = refl
trim_stop c m len (u ∷ w) h = rw h refl

length-trim : (c m len : ℕ) (w : List Burst) → length (trim c m len w) ≤ length w
length-trim c m len [] = omega arith
length-trim c m len (u ∷ w) = elim (Bool-cases (too_many c m len (u ∷ w))) [
  | inl over ↦ rw over omega (arith, length-trim c m len w)
  | inr fits ↦ rw fits omega arith
]

pub record Trimmed (len : ℕ) (p q : Queue) : Type 0 where
  pub valid : IsValid q
  pub kept : contents q ≡ trim p.capacity p.max_bytes len (contents p)
  pub head : q.head ≡ p.head
  pub capacity : q.capacity ≡ p.capacity
  pub max_bytes : q.max_bytes ≡ p.max_bytes
  pub bytes : q.bytes ≤ p.bytes
  pub dropped : p.dropped + (q.tail - p.tail) < 2 ^ 64 → q.dropped ≡ p.dropped + (q.tail - p.tail)
  pub ordered : p.tail ≤ q.tail
  pub waits : ((q.tail ≡ p.tail) × (q.resync ≡ p.resync)) ⊎ (q.resync ≡ true)

over-contents :
    (q : Queue) (len : ℕ)
    → IsValid q
    → q.bytes + len < 2 ^ 64
    → over_limits q len ≡ too_many q.capacity q.max_bytes len (contents q)
unfolding over_limits
over-contents q len v fits =
    ap₂ (λ n b. leb q.capacity n || (q.max_bytes /= 0 && ltb q.max_bytes b))
      (omega (
        arith,
        v.ordered,
        v.small,
        length-window (slot_of q.capacity) q.units q.tail (q.head - q.tail),
      ))
      (omega (arith, v.counted))

stays :
    (len : ℕ) (q : Queue)
    → IsValid q
    → contents q ≡ trim q.capacity q.max_bytes len (contents q)
    → Trimmed len q q
stays len q v e = record {
  valid = v;
  kept = e;
  head = refl;
  capacity = refl;
  max_bytes = refl;
  bytes = omega arith;
  dropped = λ h. omega arith;
  ordered = omega arith;
  waits = inl (refl, refl);
}

module _ (q : Queue) (r : Refs) (len : ℕ) (v : IsValid q) (more : q.tail < q.head) where
  -- what an eviction leaves
  gone : Queue
  gone = record (retire q r).0 { dropped = inc64 q.dropped; resync = true }

  evict-gone : (evict q r).0 ≡ gone
  unfolding evict gone
  evict-gone = simp more_left refl
    where
      more_left : leb q.head q.tail ≡ false
      more_left = ground arith

  gone-IsValid : IsValid gone
  unfolding gone
  gone-IsValid =
      IsValid-counters (retire q r).0 (inc64 q.dropped) (retire q r).0.pushed true
        (retire-IsValid q r v more)

  trim-gone :
      too_many q.capacity q.max_bytes len (contents q) ≡ true
      → trim q.capacity q.max_bytes len (contents q)
        ≡ trim q.capacity q.max_bytes len (contents gone)
  unfolding gone retire
  trim-gone over =
      let e = contents-retire q r v more in
      ap (trim q.capacity q.max_bytes len) e
      ∙ simp (sym (ap (too_many q.capacity q.max_bytes len) e) ∙ over) refl

  evicts :
      (g : Queue)
      → too_many q.capacity q.max_bytes len (contents q) ≡ true
      → Trimmed len gone g
      → Trimmed len q g
  unfolding gone retire
  evicts g over t = record {
    valid = t.valid;
    kept = t.kept ∙ sym (trim-gone over);
    head = t.head;
    capacity = t.capacity;
    max_bytes = t.max_bytes;
    bytes = omega (arith, t.bytes, bytes-retire_le q r v more);
    dropped =
        λ h. omega (arith, h, v.small, t.ordered, t.dropped (omega (arith, h, v.small, t.ordered)));
    ordered = omega (arith, t.ordered, v.small);
    waits = inr (waited t.waits);
  }
    where
      waited : ((g.tail ≡ gone.tail) × (g.resync ≡ true)) ⊎ (g.resync ≡ true) → g.resync ≡ true
      waited (inl e) = e.1
      waited (inr e) = e

loop-Trimmed :
    (n : ℕ) (q : Queue) (r : Refs) (len : ℕ)
    → IsValid q
    → q.bytes + len < 2 ^ 64
    → n ≡ q.head - q.tail
    → Trimmed len q (make_room_loop n q r len).0
unfolding make_room_loop gone retire
loop-Trimmed zero q r len v fits e =
    stays len q v (empty ∙ sym (ap (trim q.capacity q.max_bytes len) empty))
  where
    none_left : q.head - q.tail ≡ 0
    none_left = omega (arith, e)

    empty : contents q ≡ []
    empty = ap (window (slot_of q.capacity) q.units q.tail) none_left
loop-Trimmed (suc n) q r len v fits e = elim (Bool-cases (over_limits q len)) [
  | inl over ↦
      let same = evict-gone q r len v more in
      simp (lt→ltb q.tail q.head more, over)
        (evicts q r len v more _ (sym (over-contents q len v fits) ∙ over) (
          subst (λ g. Trimmed len (gone q r len v more) (make_room_loop n g (evict q r).1 len).0)
            (sym same)
            (loop-Trimmed n (gone q r len v more) (evict q r).1 len (gone-IsValid q r len v more)
              (omega (arith, fits, bytes-retire_le q r v more)) (omega (arith, e, v.small)))))
  | inr stop ↦
      simp (lt→ltb q.tail q.head more, stop)
        (stays len q v (
          sym (
            trim_stop q.capacity q.max_bytes len (contents q)
              (sym (over-contents q len v fits) ∙ stop))))
]
  where
    more : q.tail < q.head
    more = omega (arith, e)

-- Making room takes off the oldest units while a ceiling is broken, and counts them.
pub make_room-Trimmed :
    (q : Queue) (r : Refs) (len : ℕ)
    → IsValid q
    → q.bytes + len < 2 ^ 64
    → Trimmed len q (make_room q r len).0
unfolding make_room
make_room-Trimmed q r len v fits = loop-Trimmed (q.head - q.tail) q r len v fits refl
