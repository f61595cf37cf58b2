-- ===== src/Service/Listing/Walk.antt =====
-- A caller who walks a listing gets every row of it once.
use ochakai.Common.{
  ℕ, zero, suc, ◌+◌, ◌<◌, true, false, List, [], ◌∷◌, ◌++◌, Option, none, some, ◌≡◌, ◌≢◌, refl, sym,
  ap, ◌∙◌, inl, inr, arith, ltb, length, take, drop, All, append_assoc, Bool-cases,
}
use ochakai.Common.Slices.{
  take-drop, take-take, more-take, take_of_short, length-drop_lt, All-take, All-drop,
}
use ochakai.Common.Result.{ok}
use ochakai.Text.{Bytes, bytes_discrete}
use ochakai.Service.Cursor.{
  After, SearchHit, decode_cursor, cursor_keys, cursor_sort_keys, last_hit, next_cursor,
}
use ochakai.Service.Cursor.RoundTrip.{IsPlain}
use ochakai.Service.Cursor.Paging.{IsPlainHit, decode-next_cursor, next_cursor_iff}
use ochakai.Service.Listing.{Listing, page_of, list_page, walk}

-- The rows of a page before its last.
before_last : {Time : Type 0} → SearchHit Time → List (SearchHit Time) → List (SearchHit Time)
before_last h [] = []
before_last h (k ∷ hits) = h ∷ before_last k hits

before_last-append :
    {Time : Type 0} (h : SearchHit Time) (hits : List (SearchHit Time))
    → before_last h hits ++ last_hit h hits ∷ [] ≡ h ∷ hits
unfolding before_last last_hit
before_last-append h [] = refl
before_last-append h (k ∷ hits) = ap (λ ys. h ∷ ys) (before_last-append k hits)

module _ {Time : Type 0} (format : Time → Bytes) (zero_time : Time)
    (query : Option After → ℕ → List (SearchHit Time)) (sort : Bytes)
    (rows : List (SearchHit Time)) where
  -- The query answers the first rows of the listing, and with a row's position the first rows behind
  -- that row.
  pub record Answers : Type 0 where
    pub start : (n : ℕ) → query none n ≡ take n rows
    pub behind :
        (before : List (SearchHit Time)) (h : SearchHit Time) (rest : List (SearchHit Time))
        → rows ≡ before ++ (h ∷ rest)
        → (n : ℕ)
        → query (some (record { keys = cursor_keys format sort h; id = h.id })) n ≡ take n rest

  -- A cursor behind which these rows are left.
  record Denotes (cursor : Bytes) (rest : List (SearchHit Time)) : Type 0 where
    position : Option After
    decoded : decode_cursor cursor sort (cursor_sort_keys format zero_time sort) ≡ ok position
    answered : (n : ℕ) → query position n ≡ take n rest

  page : ℕ → List (SearchHit Time) → Listing Time
  page limit rest = page_of format zero_time query sort limit (take (limit + 1) rest)

  list_page-page :
      (limit : ℕ) {cursor : Bytes} {rest : List (SearchHit Time)}
      → Denotes cursor rest
      → list_page format zero_time query sort limit cursor ≡ ok (page limit rest)
  unfolding list_page page
  list_page-page limit d = rw (d.decoded, d.answered (limit + 1)) refl

  walk-last :
      (limit pages : ℕ) (cursor : Bytes) {p : Listing Time}
      → list_page format zero_time query sort limit cursor ≡ ok p
      → p.cursor ≡ []
      → walk format zero_time query sort limit (suc pages) cursor ≡ ok p.hits
  unfolding walk
  walk-last limit pages cursor e c = ground arith

  walk-more :
      (limit pages : ℕ) (cursor : Bytes) {p : Listing Time} {behind : List (SearchHit Time)}
      → list_page format zero_time query sort limit cursor ≡ ok p
      → p.cursor ≢ []
      → walk format zero_time query sort limit pages p.cursor ≡ ok behind
      → walk format zero_time query sort limit (suc pages) cursor ≡ ok (p.hits ++ behind)
  unfolding walk
  walk-more limit pages cursor e c w = ground arith

  page-last :
      (limit : ℕ) (rest : List (SearchHit Time))
      → ltb limit (length rest) ≡ false
      → page limit rest ≡ record { hits = rest; cursor = next_cursor format sort rest false }
  unfolding page page_of
  page-last limit rest h = rw (more-take limit rest, h, take_of_short limit rest h) refl

  page-more :
      (limit : ℕ) (rest : List (SearchHit Time))
      → ltb limit (length rest) ≡ true
      → page limit rest
        ≡ record { hits = take limit rest; cursor = next_cursor format sort (take limit rest) true }
  unfolding page page_of
  page-more limit rest h = rw (more-take limit rest, h, take-take limit rest) refl

module _ {Time : Type 0} (format : Time → Bytes) (format-IsPlain : (t : Time) → IsPlain (format t))
    (zero_time : Time) (query : Option After → ℕ → List (SearchHit Time)) (sort : Bytes)
    (sort-IsPlain : IsPlain sort) (rows : List (SearchHit Time))
    (rows-IsPlain : All IsPlainHit rows) (answers : Answers format zero_time query sort rows) where
  no_cursor : (hits : List (SearchHit Time)) → next_cursor format sort hits false ≡ []
  no_cursor hits = (next_cursor_iff format format-IsPlain sort hits false).1 (inr refl)

  some_cursor :
      (h : SearchHit Time) (hits : List (SearchHit Time))
      → next_cursor format sort (h ∷ hits) true ≢ []
  some_cursor h hits e = elim ((next_cursor_iff format format-IsPlain sort (h ∷ hits) true).0 e) [
    | inl n ↦ absurd (ground arith)
    | inr n ↦ absurd (ground arith)
  ]

  -- The cursor of a page that is not the last leaves the rows behind the page.
  next-Denotes :
      (m : ℕ) (before : List (SearchHit Time)) (h : SearchHit Time) (t : List (SearchHit Time))
      → rows ≡ before ++ (h ∷ t)
      → All IsPlainHit (h ∷ t)
      → Denotes format zero_time query sort rows
          (next_cursor format sort (h ∷ take m t) true)
          (drop m t)
  next-Denotes m before h t e (p, ps) = record {
    position = some (record { keys = cursor_keys format sort last; id = last.id });
    decoded =
        decode-next_cursor format format-IsPlain zero_time sort h (take m t) sort-IsPlain
          (p, All-take IsPlainHit m t ps);
    answered = answers.behind (before ++ before_last h (take m t)) last (drop m t) (
        e
        ∙ ap (λ xs. before ++ xs) split_rows
        ∙ sym (append_assoc before (before_last h (take m t)) (last ∷ drop m t)));
  }
    where
      last : SearchHit Time
      last = last_hit h (take m t)

      split_rows : h ∷ t ≡ before_last h (take m t) ++ (last ∷ drop m t)
      split_rows =
          ap (λ xs. h ∷ xs) (sym (take-drop m t))
          ∙ ap (λ xs. xs ++ drop m t) (sym (before_last-append h (take m t)))
          ∙ append_assoc (before_last h (take m t)) (last ∷ []) (drop m t)

  walk-finish :
      (limit pages : ℕ) (cursor : Bytes) (rest : List (SearchHit Time))
      → ltb limit (length rest) ≡ false
      → Denotes format zero_time query sort rows cursor rest
      → walk format zero_time query sort limit (suc pages) cursor ≡ ok rest
  walk-finish limit pages cursor rest l d =
      walk-last format zero_time query sort rows limit pages cursor
        (list_page-page format zero_time query sort rows limit d
          ∙ ap ok (page-last format zero_time query sort rows limit rest l))
        (no_cursor rest)

  walk-Denotes :
      (m pages : ℕ) (cursor : Bytes) (before rest : List (SearchHit Time))
      → rows ≡ before ++ rest
      → All IsPlainHit rest
      → length rest < pages
      → Denotes format zero_time query sort rows cursor rest
      → walk format zero_time query sort (suc m) pages cursor ≡ ok rest
  walk-Denotes m zero cursor before rest e p l d = absurd (ground arith)
  walk-Denotes m (suc pages) cursor before [] e p l d =
      walk-finish (suc m) pages cursor [] (ground arith) d
  walk-Denotes m (suc pages) cursor before (h ∷ t) e p l d =
      elim (Bool-cases (ltb (suc m) (length (h ∷ t)))) [
        | inl more ↦
            walk-more format zero_time query sort rows (suc m) pages cursor
              (list_page-page format zero_time query sort rows (suc m) d
                ∙ ap ok (page-more format zero_time query sort rows (suc m) (h ∷ t) more))
              (some_cursor h (take m t))
              (walk-Denotes m pages (next_cursor format sort (h ∷ take m t) true)
                (before ++ (h ∷ take m t)) (drop m t)
                (e
                  ∙ ap (λ xs. before ++ (h ∷ xs)) (sym (take-drop m t))
                  ∙ sym (append_assoc before (h ∷ take m t) (drop m t)))
                (All-drop IsPlainHit m t p.1) (omega (arith, length-drop_lt m h t))
                (next-Denotes m before h t e p))
            ∙ ap (λ xs. ok (h ∷ xs)) (take-drop m t)
        | inr last ↦ walk-finish (suc m) pages cursor (h ∷ t) last d
      ]

  -- Whoever asks a listing for its first page and then for the page behind each cursor that is handed
  -- out, for more pages than there are rows, gets every row of the listing once, in its order. The
  -- query answers the rows from a position on, and the texts hold no zero byte.
  pub walk-rows :
      (limit pages : ℕ)
      → 0 < limit
      → length rows < pages
      → walk format zero_time query sort limit pages [] ≡ ok rows
  walk-rows zero pages l h = absurd (ground arith)
  walk-rows (suc m) pages l h = walk-Denotes m pages [] [] rows refl rows-IsPlain h first
    where
      first : Denotes format zero_time query sort rows [] rows
      first = record {
        position = none;
        decoded = unfold decode_cursor bytes_discrete in refl;
        answered = answers.start;
      }
