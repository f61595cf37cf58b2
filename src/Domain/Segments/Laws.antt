-- ===== src/Domain/Segments/Laws.antt =====
-- What the validity tests say of the bytes of a segment, an id and a prefix.
use ochakai.Common.{ℕ, ◌<◌, true, false, List, [], ◌∷◌, ◌≡◌, refl, arith, every, ◌==◌, any-append}
use ochakai.Text.{Bytes, has_byte, bytes_discrete}
use ochakai.Text.Utf8.{AsciiPass, runes-AsciiPass}
use ochakai.Text.Split.{split, join, join-split}
use ochakai.Domain.Segments.{slash, allowed_rune, valid_segment, valid_id_prefix}

AsciiPass-lacks : (b : ℕ) (s : Bytes) → b < 0x20 → AsciiPass allowed_rune s → has_byte b s ≡ false
AsciiPass-lacks b [] h a = refl
AsciiPass-lacks b (c ∷ s) h (a, as') = ground (arith, a, AsciiPass-lacks b s h as')

-- A segment holds no control byte.
pub valid_segment-lacks :
    (b : ℕ) (s : Bytes) → b < 0x20 → valid_segment s ≡ true → has_byte b s ≡ false
unfolding valid_segment
valid_segment-lacks b s h v = AsciiPass-lacks b s h (runes-AsciiPass allowed_rune s (ground arith))

join-lacks :
    (b : ℕ) (segs : List Bytes)
    → b < 0x20
    → every valid_segment segs ≡ true
    → has_byte b (join slash segs) ≡ false
unfolding join
join-lacks b [] h v = refl
join-lacks b (p ∷ []) h v = valid_segment-lacks b p h (ground arith)
join-lacks b (p ∷ q ∷ ps) h v =
    let first : has_byte b p ≡ false = valid_segment-lacks b p h (ground arith) in
    let rest = join-lacks b (q ∷ ps) h (ground arith) in
    rw (any-append (λ c. c == b) p (slash ∷ join slash (q ∷ ps))) (ground arith)

-- A prefix holds no control byte either.
pub valid_id_prefix-lacks :
    (b : ℕ) (p : Bytes) → b < 0x20 → valid_id_prefix p ≡ true → has_byte b p ≡ false
unfolding valid_id_prefix
valid_id_prefix-lacks b p h v = elim (bytes_discrete p []) [
  | yes e ↦ rw e
  | no ne ↦ rw (← join-split slash p) (join-lacks b (split slash p) h (ground arith))
]
