-- ===== src/Ts/Demux/Chunks.antt =====
-- How a stream of packets is cut into byte runs makes no difference.
use nginx_media.Base.{
  ℕ, zero, suc, ◌+◌, ◌-◌, ◌*◌, ◌≤◌, ◌<◌, ◌≡◌, ◌⊎◌, min, refl, sym, ap, ap₂, subst, ◌∙◌, Bool, true,
  false, List, [], ◌∷◌, ◌++◌, length, take, drop, get_or, ltb, ◌==◌, if◌then◌else◌, if_elim,
  Bool-cases, inl, inr, arith, length-append, length-take, length-drop, take-append_le,
  drop-append_le, add64,
}
use mathlib.Core.List.{append-nil, append_assoc}
use nginx_media.Ts.{sync_byte}
use nginx_media.Ts.Demux.{Core, Demux}
use nginx_media.Ts.Demux.Packet.{process_packet}
use nginx_media.Ts.Demux.Feed.{process, feed_loop, demux_feed, feed_all, join}

-- A sync byte stands at each place where a packet begins.
unfoldable pub Aligned : List ℕ → Type 0
Aligned s = (k : ℕ) → 188 * k < length s → get_or s (188 * k) 0 ≡ 71

pub get_or-drop : (n i : ℕ) (s : List ℕ) → get_or (drop n s) i 0 ≡ get_or s (n + i) 0
get_or-drop zero i s = ap (λ j. get_or s j 0) (omega arith)
get_or-drop (suc n) i [] = refl
get_or-drop (suc n) i (b ∷ s) =
    get_or-drop n i s ∙ ap (λ j. get_or (b ∷ s) j 0) {x = suc (n + i)} (omega arith)

drop-Aligned : (s : List ℕ) → Aligned s → Aligned (drop 188 s)
unfolding Aligned
drop-Aligned s h k inside =
    get_or-drop 188 (188 * k) s
    ∙ ap (λ j. get_or s j 0) {y = 188 * suc k} (omega arith)
    ∙ h (suc k) (omega (arith, inside, length-drop 188 s))

get_or-append_lt : (i : ℕ) (s r : List ℕ) → i < length s → get_or (s ++ r) i 0 ≡ get_or s i 0
get_or-append_lt i [] r h = absurd (omega (arith, h))
get_or-append_lt zero (b ∷ s) r h = refl
get_or-append_lt (suc i) (b ∷ s) r h = get_or-append_lt i s r (omega (arith, h))

prefix-Aligned : (s r : List ℕ) → Aligned (s ++ r) → Aligned s
unfolding Aligned
prefix-Aligned s r h k inside =
    sym (get_or-append_lt (188 * k) s r inside) ∙ h k (omega (arith, inside, length-append s r))

module _ (mem : ℕ → Bool) where
  -- The packets of an aligned stream in turn, and the bytes that are left.
  pub cut : ℕ → Core → List ℕ → Core × List ℕ
  cut zero c s = (c, s)
  cut (suc n) c s =
      let rest = cut n (process_packet mem c (take 188 s)) (drop 188 s) in
      if ltb (length s) 188 then (c, s) else rest

  pub cut_short : (n : ℕ) (c : Core) (s : List ℕ) → length s < 188 → cut n c s ≡ (c, s)
  unfolding cut
  cut_short zero c s h = refl
  cut_short (suc n) c s h = simp h' refl
    where
      h' : ltb (length s) 188 ≡ true
      h' = ground (arith, h)

  pub cut_whole :
      (n : ℕ) (c : Core) (s : List ℕ)
      → 188 ≤ length s
      → cut (suc n) c s ≡ cut n (process_packet mem c (take 188 s)) (drop 188 s)
  unfolding cut
  cut_whole n c s h = simp h' refl
    where
      h' : ltb (length s) 188 ≡ false
      h' = ground (arith, h)

  split : (s : List ℕ) → (length s < 188) ⊎ (188 ≤ length s)
  split s = elim (Bool-cases (ltb (length s) 188)) [
    | inl short ↦ inl (ground (arith, short))
    | inr whole ↦ inr (ground (arith, whole))
  ]

  cut_fuel : (n m : ℕ) (c : Core) (s : List ℕ) → length s ≤ n → length s ≤ m → cut n c s ≡ cut m c s
  cut_fuel zero m c s hn hm =
      cut_short zero c s (omega (arith, hn)) ∙ sym (cut_short m c s (omega (arith, hn)))
  cut_fuel (suc n) zero c s hn hm =
      cut_short (suc n) c s (omega (arith, hm)) ∙ sym (cut_short zero c s (omega (arith, hm)))
  cut_fuel (suc n) (suc m) c s hn hm = elim (split s) [
    | inl short ↦ cut_short (suc n) c s short ∙ sym (cut_short (suc m) c s short)
    | inr whole ↦
        let size = length-drop 188 s in
        cut_whole n c s whole
        ∙ cut_fuel n m (process_packet mem c (take 188 s)) (drop 188 s)
            (omega (arith, hn, size, whole)) (omega (arith, hm, size, whole))
        ∙ sym (cut_whole m c s whole)
  ]

  cut_short-append :
      (n m k : ℕ) (c : Core) (s r : List ℕ)
      → length s < 188
      → length (s ++ r) ≤ m
      → length (s ++ r) ≤ k
      → cut m c (s ++ r) ≡ cut k (cut n c s).0 ((cut n c s).1 ++ r)
  cut_short-append n m k c s r short hm hk =
      cut_fuel m k c (s ++ r) hm hk
      ∙ ap (λ (x : Core × List ℕ). cut k x.0 (x.1 ++ r)) (sym (cut_short n c s short))

  -- A stream is cut in two steps as in one.
  cut-append :
      (n m k : ℕ) (c : Core) (s r : List ℕ)
      → length s ≤ n
      → length (s ++ r) ≤ m
      → length (s ++ r) ≤ k
      → cut m c (s ++ r) ≡ cut k (cut n c s).0 ((cut n c s).1 ++ r)
  cut-append zero m k c s r hn hm hk = cut_short-append zero m k c s r (omega (arith, hn)) hm hk
  cut-append (suc n) zero k c s r hn hm hk =
      cut_short-append (suc n) zero k c s r (omega (arith, hm, length-append s r)) hm hk
  cut-append (suc n) (suc m) k c s r hn hm hk = elim (split s) [
    | inl short ↦ cut_short-append (suc n) (suc m) k c s r short hm hk
    | inr whole ↦
        let size = length-drop 188 s in
        let all = length-append s r in
        let all' = length-append (drop 188 s) r in
        cut_whole m c (s ++ r) (omega (arith, whole, all))
        ∙ ap₂ (λ p q. cut m (process_packet mem c p) q) (take-append_le 188 s r whole)
            (drop-append_le 188 s r whole)
        ∙ cut-append n m k (process_packet mem c (take 188 s)) (drop 188 s) r
            (omega (arith, hn, size, whole)) (omega (arith, hm, size, whole, all, all'))
            (omega (arith, hk, size, whole, all, all'))
        ∙ ap (λ (x : Core × List ℕ). cut k x.0 (x.1 ++ r)) (sym (cut_whole n c s whole))
  ]

  cut_le : (n : ℕ) (c : Core) (s : List ℕ) → length (cut n c s).1 ≤ length s
  unfolding cut
  cut_le zero c s = omega arith
  cut_le (suc n) c s =
      if_elim (λ (x : Core × List ℕ). length x.1 ≤ length s) (ltb (length s) 188) (λ _. omega arith)
        (λ _.
          omega
            (arith, cut_le n (process_packet mem c (take 188 s)) (drop 188 s), length-drop 188 s))

  -- What is left of an aligned stream is shorter than a packet, and what follows it stays aligned.
  cut-Aligned :
      (n : ℕ) (c : Core) (s r : List ℕ)
      → length s ≤ n
      → Aligned (s ++ r)
      → Aligned ((cut n c s).1 ++ r) × (length (cut n c s).1 < 188)
  cut-Aligned zero c s r hn h =
      subst (λ (x : Core × List ℕ). Aligned (x.1 ++ r) × (length x.1 < 188))
        (sym (cut_short zero c s (omega (arith, hn)))) (h, omega (arith, hn))
  cut-Aligned (suc n) c s r hn h = elim (split s) [
    | inl short ↦
        subst (λ (x : Core × List ℕ). Aligned (x.1 ++ r) × (length x.1 < 188))
          (sym (cut_short (suc n) c s short)) (h, short)
    | inr whole ↦
        subst (λ (x : Core × List ℕ). Aligned (x.1 ++ r) × (length x.1 < 188))
          (sym (cut_whole n c s whole))
          (cut-Aligned n (process_packet mem c (take 188 s)) (drop 188 s) r
            (omega (arith, hn, whole, length-drop 188 s))
            (subst Aligned (drop-append_le 188 s r whole) (drop-Aligned (s ++ r) h)))
  ]

  unfoldable pub stored : Demux → Core × List ℕ → Demux
  stored d (c, t) = record d { core = c; tail = t }

  feed_loop_lem :
      (n : ℕ) (d : Demux) (p : List ℕ)
      → Aligned p
      → length p ≤ n
      → feed_loop mem n d p ≡ stored d (cut n d.core p)
  unfolding feed_loop cut stored Aligned
  feed_loop_lem zero d p h hn = refl
  feed_loop_lem (suc n) d p h hn = elim (Bool-cases (ltb (length p) 188)) [
    | inl short ↦ simp short
    | inr whole ↦
        let synced : (get_or p 0 0 == sync_byte) ≡ true =
          ground (arith, h 0 (ground (arith, whole))) in
        simp (whole, synced)
          (feed_loop_lem n (process mem d (take 188 p)) (drop 188 p) (drop-Aligned p h)
            (ground (arith, hn, whole, length-drop 188 p)))
  ]

  nil_of_length : (s : List ℕ) → length s ≡ 0 → s ≡ []
  nil_of_length [] h = refl
  nil_of_length (b ∷ s) h = absurd (omega (arith, h))

  take_all : (n : ℕ) (s : List ℕ) → length s ≤ n → take n s ≡ s
  take_all zero [] h = refl
  take_all zero (b ∷ s) h = absurd (omega (arith, h))
  take_all (suc n) [] h = refl
  take_all (suc n) (b ∷ s) h = ap (◌∷◌ b) (take_all n s (omega (arith, h)))

  -- What a run of bytes does to a demultiplexer that holds the tail of an aligned stream.
  unfoldable pub fed : Demux → List ℕ → Demux
  fed d p = record (stored d (cut (length (d.tail ++ p)) d.core (d.tail ++ p))) {
    bytes = add64 d.bytes (length p);
  }

  drop_over : (t p : List ℕ) (k : ℕ) → drop (length t + k) (t ++ p) ≡ drop k p
  drop_over [] p k = ap (λ n. drop n p) {y = k} (omega arith)
  drop_over (b ∷ t) p k =
      ap (λ n. drop n (b ∷ (t ++ p))) {y = suc (length t + k)} (omega arith) ∙ drop_over t p k

  take_over : (t p : List ℕ) (k : ℕ) → take (length t + k) (t ++ p) ≡ t ++ take k p
  take_over [] p k = ap (λ n. take n p) {y = k} (omega arith)
  take_over (b ∷ t) p k =
      ap (λ n. take n (b ∷ (t ++ p))) {y = suc (length t + k)} (omega arith)
      ∙ ap (◌∷◌ b) (take_over t p k)

  feed_tail :
      (d : Demux) (tail p : List ℕ)
      → Aligned (tail ++ p)
      → length tail < 188
      → demux_feed mem (record d { tail = tail }) p ≡ fed (record d { tail = tail }) p
  unfolding demux_feed fed stored Aligned
  feed_tail d [] p h short =
      feed_loop_lem (length p) (record d { tail = []; bytes = add64 d.bytes (length p) }) p h
        (omega arith)
  feed_tail d (a ∷ t) p h short =
      let tail = a ∷ t in
      let need = 188 - length tail in
      let d' : Demux = record d { tail = tail; bytes = add64 d.bytes (length p) } in
      let tail' = tail ++ take need p in
      let size : length tail' ≡ length tail + min need (length p) =
        length-append tail (take need p) ∙ ap (◌+◌ (length tail)) (length-take need p) in
      let all = length-append tail p in
      let held : (length tail == 0) ≡ false = ground arith in
      elim (Bool-cases (ltb (length tail') 188)) [
        | inl part ↦
            let few : length p < need = ground (arith, part, size, short) in
            simp (held, part)
              (ap (λ (q : List ℕ). record d' { tail = tail ++ q })
                  (take_all need p (omega (arith, few)))
                ∙ ap (λ (x : Core × List ℕ). stored d' x)
                    (sym (
                      cut_short (length (tail ++ p)) d.core (tail ++ p) (omega (arith, few, all)))))
        | inr full ↦
            let enough : need ≤ length p = ground (arith, full, size, short) in
            let synced : (a == sync_byte) ≡ true = ground (arith, h 0 (omega arith)) in
            let exact : length tail + need ≡ 188 = omega (arith, short) in
            let after : drop 188 (tail ++ p) ≡ drop need p =
              ap (λ n. drop n (tail ++ p)) (sym exact) ∙ drop_over tail p need in
            let first : take 188 (tail ++ p) ≡ tail' =
              ap (λ n. take n (tail ++ p)) (sym exact) ∙ take_over tail p need in
            let done : Demux = record (process mem d' tail') { tail = [] } in
            let left : length (drop need p) ≡ length p - need = length-drop need p in
            simp (held, full, synced)
              (feed_loop_lem (length p) done (drop need p)
                  (subst Aligned after (drop-Aligned (tail ++ p) h)) (omega (arith, left))
                ∙ ap (λ (x : Core × List ℕ). stored d' x)
                    (cut_fuel (length p) (length (t ++ p)) done.core (drop need p)
                        (omega (arith, left)) (omega (arith, left, length-append t p))
                      ∙ ap₂ (λ q r. cut (length (t ++ p)) (process_packet mem d.core q) r)
                          (sym first) (sym after)
                      ∙ sym (
                          cut_whole (length (t ++ p)) d.core (tail ++ p)
                            (omega (arith, all, enough, exact)))))
      ]

  pub demux_feed_lem :
      (d : Demux) (p : List ℕ)
      → Aligned (d.tail ++ p)
      → length d.tail < 188
      → demux_feed mem d p ≡ fed d p
  demux_feed_lem d p = feed_tail d d.tail p

  bytes_of :
      (p q : List ℕ) (n : ℕ) → add64 (add64 n (length p)) (length q) ≡ add64 n (length (p ++ q))
  bytes_of p q n = omega (arith, length-append p q)

  -- Two runs of bytes are one.
  fed-append : (d : Demux) (p q : List ℕ) → fed (fed d p) q ≡ fed d (p ++ q)
  unfolding fed stored
  fed-append d p q =
      let s = d.tail ++ p in
      let joined : s ++ q ≡ d.tail ++ (p ++ q) = append_assoc d.tail p q in
      let x = cut (length s) d.core s in
      let all = length-append s q in
      let short : length (x.1 ++ q) ≤ length (s ++ q) =
        omega (arith, cut_le (length s) d.core s, all, length-append x.1 q) in
      let same : cut (length (x.1 ++ q)) x.0 (x.1 ++ q)
          ≡ cut (length (d.tail ++ (p ++ q))) d.core (d.tail ++ (p ++ q)) =
        cut_fuel (length (x.1 ++ q)) (length (s ++ q)) x.0 (x.1 ++ q) (omega arith) short
        ∙ sym (
            cut-append (length s) (length (s ++ q)) (length (s ++ q)) d.core s q (omega arith)
              (omega arith) (omega arith))
        ∙ ap (λ r. cut (length r) d.core r) joined in
      λ i. record d { core = (same i).0; tail = (same i).1; bytes = bytes_of p q d.bytes i }

  feed_all-fed :
      (ps : List (List ℕ)) (d : Demux) (p : List ℕ)
      → Aligned (d.tail ++ (p ++ join ps))
      → length d.tail < 188
      → feed_all mem d (p ∷ ps) ≡ fed d (p ++ join ps)
  unfolding feed_all join fed stored
  feed_all-fed [] d p h short =
      let same : p ++ [] ≡ p = append-nil p in
      demux_feed_lem d p (subst (λ l. Aligned (d.tail ++ l)) same h) short ∙ ap (fed d) (sym same)
  feed_all-fed (q ∷ ps) d p h short =
      let s = d.tail ++ p in
      let more = q ++ join ps in
      let h' : Aligned (s ++ more) = subst Aligned (sym (append_assoc d.tail p more)) h in
      let (left, short') = cut-Aligned (length s) d.core s more (omega arith) h' in
      ap (λ e. feed_all mem e (q ∷ ps)) (demux_feed_lem d p (prefix-Aligned s more h') short)
      ∙ feed_all-fed ps (fed d p) q left short'
      ∙ fed-append d p more

  -- If a sync byte stands wherever a packet begins in the held tail and the bytes that follow it,
  -- then feeding these bytes in pieces leaves the demultiplexer in the same state as feeding them
  -- at once, however they are cut, the tail being shorter than a packet.
  pub feed_all-join :
      (d : Demux) (p : List ℕ) (ps : List (List ℕ))
      → Aligned (d.tail ++ join (p ∷ ps))
      → length d.tail < 188
      → feed_all mem d (p ∷ ps) ≡ demux_feed mem d (join (p ∷ ps))
  unfolding join
  feed_all-join d p ps h short =
      feed_all-fed ps d p h short ∙ sym (demux_feed_lem d (join (p ∷ ps)) h short)
