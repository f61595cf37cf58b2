-- ===== src/Service/Cursor/Paging.antt =====
-- The cursors that the listings hand out.
use ochakai.Common.{
  ℕ, zero, suc, ◌+◌, ◌/◌, ◌%◌, Bool, true, false, ◌||◌, List, [], ◌∷◌, ◌++◌, Option, none, some,
  ◌≡◌, refl, ◌↔◌, ◌⊎◌, inl, inr, arith, ltb, if◌then◌else◌, length, All, All-append, subst,
}
use ochakai.Common.Result.{ok}
use ochakai.Text.{Bytes, codes, ◌=?◌, has_byte}
use ochakai.Text.Base64.{IsByte}
use ochakai.Service.Cursor.{
  decode_cursor, SearchHit, usage_of, digits, cursor_time, cursor_keys, cursor_sort_keys, last_hit,
  next_cursor,
}
use ochakai.Service.Cursor.RoundTrip.{
  IsPlain, IsPlainKey, encode_cursor-ne-nil, decode-encode_cursor,
}

has_byte-append : (s t : Bytes) → has_byte 0 (s ++ t) ≡ (has_byte 0 s || has_byte 0 t)
has_byte-append [] t = refl
has_byte-append (c ∷ s) t = ground (arith, has_byte-append s t)

IsPlain-append : (s t : Bytes) → IsPlain s → IsPlain t → IsPlain (s ++ t)
IsPlain-append s t (a, b) (c, d) = (All-append IsByte s t a c, ground (arith, has_byte-append s t))

-- A choice has what both of its sides have.
if-cases {ℓ κ} :
    {A : Type ℓ} (P : A → Type κ) (b : Bool) {x y : A}
    → (b ≡ true → P x)
    → (b ≡ false → P y)
    → P (if b then x else y)
if-cases P true f g = f refl
if-cases P false f g = g refl

last_digit : (n : ℕ) → IsPlain ((n % 10 + 48) ∷ [])
last_digit n = ground arith

digits-IsPlain : (fuel n : ℕ) → IsPlain (digits fuel n)
unfolding digits
digits-IsPlain zero n = ground arith
digits-IsPlain (suc fuel) n =
    if-cases IsPlain (ltb n 10) (λ h. ground arith)
      (λ h.
        IsPlain-append (digits fuel (n / 10)) ((n % 10 + 48) ∷ []) (digits-IsPlain fuel (n / 10))
          (last_digit n))

-- The number of keys depends on the listing alone.
pub length-cursor_keys :
    {Time : Type 0} (format : Time → Bytes) (t : Time) (sort : Bytes) (h : SearchHit Time)
    → length (cursor_keys format sort h) ≡ cursor_sort_keys format t sort
unfolding cursor_keys cursor_sort_keys
length-cursor_keys format t sort h = ground arith

-- A hit whose texts can stand in a cursor.
pub record IsPlainHit {Time : Type 0} (h : SearchHit Time) : Type 0 where
  pub id : IsPlain h.id
  pub stale_after : IsPlain h.stale_after

cursor_time-IsPlain :
    {Time : Type 0} (format : Time → Bytes) (t : Option Time)
    → ((t : Time) → IsPlain (format t))
    → IsPlainKey (cursor_time format t)
unfolding cursor_time
cursor_time-IsPlain format none f = tt
cursor_time-IsPlain format (some t) f = f t

cursor_keys-IsPlain :
    {Time : Type 0} (format : Time → Bytes) (sort : Bytes) (h : SearchHit Time)
    → ((t : Time) → IsPlain (format t))
    → IsPlainHit h
    → All IsPlainKey (cursor_keys format sort h)
unfolding cursor_keys cursor_time usage_of
cursor_keys-IsPlain format sort h f p =
    if-cases (All IsPlainKey) (sort =? codes "verified_at") (λ _. (verified, tt))
      (λ _.
        if-cases (All IsPlainKey) (sort =? codes "stale_after") (λ _. (p.stale_after, tt))
          (λ _.
            if-cases (All IsPlainKey) (sort =? codes "usage")
              (λ _. (digits-IsPlain 19 _, (digits-IsPlain 19 _, (f h.created_at, tt))))
              (λ _.
                if-cases (All IsPlainKey) (sort =? codes "failed")
                  (λ _. (
                    digits-IsPlain 19 _,
                    (digits-IsPlain 19 _, (digits-IsPlain 19 _, (verified, tt))),
                  ))
                  (λ _. tt))))
  where
    verified : IsPlainKey (cursor_time format h.verified_at)
    verified = cursor_time-IsPlain format h.verified_at f

last_hit-IsPlainHit :
    {Time : Type 0} (h : SearchHit Time) (hits : List (SearchHit Time))
    → IsPlainHit h
    → All IsPlainHit hits
    → IsPlainHit (last_hit h hits)
unfolding last_hit
last_hit-IsPlainHit h [] p ps = p
last_hit-IsPlainHit h (k ∷ hits) p (q, ps) = last_hit-IsPlainHit k hits q ps

module _ {Time : Type 0} (format : Time → Bytes)
    (format-IsPlain : (t : Time) → IsPlain (format t)) where
  -- The cursor of a page that is not the last is read back, for the same listing, as the keys and
  -- the id of the page's last hit. The texts in the hits hold no zero byte.
  pub decode-next_cursor :
      (zero_time : Time) (sort : Bytes) (h : SearchHit Time) (hits : List (SearchHit Time))
      → IsPlain sort
      → All IsPlainHit (h ∷ hits)
      → decode_cursor
          (next_cursor format sort (h ∷ hits) true)
          sort
          (cursor_sort_keys format zero_time sort)
        ≡ ok (
            some (record {
              keys = cursor_keys format sort (last_hit h hits);
              id = (last_hit h hits).id;
            }))
  unfolding next_cursor
  decode-next_cursor zero_time sort h hits s (p, ps) =
      subst
        (λ n.
          decode_cursor (next_cursor format sort (h ∷ hits) true) sort n
          ≡ ok (some (record { keys = cursor_keys format sort last; id = last.id })))
        (length-cursor_keys format zero_time sort last)
        (decode-encode_cursor sort (cursor_keys format sort last) last.id s
          (cursor_keys-IsPlain format sort last format-IsPlain last-plain) last-plain.id)
    where
      last : SearchHit Time
      last = last_hit h hits

      last-plain : IsPlainHit last
      last-plain = last_hit-IsPlainHit h hits p ps

  -- A page has no cursor exactly when it is empty or nothing is behind it.
  pub next_cursor_iff :
      (sort : Bytes) (hits : List (SearchHit Time)) (more : Bool)
      → (next_cursor format sort hits more ≡ []) ↔ ((hits ≡ []) ⊎ (more ≡ false))
  unfolding next_cursor
  next_cursor_iff sort [] more = ((λ _. inl refl), (λ _. refl))
  next_cursor_iff sort (h ∷ hits) false = ((λ _. inr refl), (λ _. refl))
  next_cursor_iff sort (h ∷ hits) true =
      ((λ e. absurd (encode_cursor-ne-nil sort _ _ e)), (λ e. absurd (ground arith)))
