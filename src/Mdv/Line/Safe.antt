-- ===== src/Mdv/Line/Safe.antt =====
-- `Doc.line` of tools/mdvref.py on every line: it ends, raises no exception, and writes no row that
-- is wider than the screen.
pub mod Marks
use elf_dos.Base.{
  ℕ, zero, suc, ◌+◌, ◌-◌, ◌≤◌, ◌<◌, Bool, true, false, ◌&&◌, ◌||◌, not, Option, none, some, List,
  [], ◌∷◌, ◌++◌, ltb, leb, ◌==◌, if◌then◌else◌, ◌>>=◌, length, get_elem?, ◌≡◌, refl, sym, ap, ◌∙◌,
  arith, inl, inr, Bool-cases, Option-cases, Gives, Gives-bind, Gives-if, Gives_either,
  Gives-option, min, drop, get_elem?-some, if_either,
}
use elf_dos.Mdv.Wrap.{is_empty}
use elf_dos.Mdv.Wrap.Width.{IsMarker}
use elf_dos.Mdv.Blocks.{
  Kind, no_block, para, item, quote, head, table, Doc, is_none, flush, code_row, quote_blank, hr,
  start,
}
use elf_dos.Mdv.Blocks.Safe.{
  BlockOk, IsSafe, Flushed, flush_total, start_total, no_block-BlockOk, block_same, with_out-IsSafe,
  code_row-IsSafe, hr-Flushed, quote_blank-Flushed,
}
use elf_dos.Mdv.Line.{
  indent, run_of, strip_spaces, closes_fence, all_blank, fence_line, blank_line, opens_fence,
  open_fence, is_setext, setext, is_break, thematic_break, is_atx, atx, atx_text, list_mark,
  list_item, lstrip, strip_quote, is_quote, quote_line, table_row, strip_cols, goes_on, text_line,
  body_line, block_line, open_line, line,
}
use elf_dos.Mdv.Line.Safe.Marks.{MarkOk, list_mark-MarkOk, opens_fence-run_of}

module _ {n : ℕ} (wide : 20 ≤ n) (d : Doc) (h : IsSafe n d) where
  abbrev P : Doc → Type 0
  P = IsSafe n

  -- Behind `flush` the list flag can change.
  settled : (d' : Doc) (b : Bool) → Flushed wide d' → P (record d' { in_list = b })
  settled d' b f = record {
    out = f.safe.out;
    block = no_block-BlockOk d'.kind _ f.closed;
    list = f.safe.list;
    fence = f.safe.fence;
  }

  closes_fence_total :
      (ind : ℕ) (s : List ℕ) → d.in_fence ≡ true → Gives (λ _. Unit {0}) (closes_fence ind s d)
  unfolding closes_fence
  closes_fence_total ind s e =
      Gives-if (λ _. Unit {0}) (ltb ind 4 && leb d.flen (length s)) _ _
        (λ p.
          let (x, at) = get_elem?-some s 0 (ground (arith, h.fence e)) in
          Gives-bind (λ _. Unit {0}) (get_elem? s 0) _ x at (_, refl, tt))
        (λ _. (false, refl, tt))

  fence_line_total : (ind : ℕ) (s l : List ℕ) → d.in_fence ≡ true → Gives P (fence_line ind s l d)
  unfolding fence_line
  fence_line_total ind s l e =
      let (done, r, _) = closes_fence_total ind s e in
      Gives-bind P (closes_fence ind s d) _ done r (
        Gives_either P done (record d { in_fence = false }) (code_row (strip_spaces d.find l) d)
          (λ _. record {
            out = h.out;
            block = block_same d.kind d _ refl refl refl h.block;
            list = h.list;
            fence = λ q. absurd (cc);
          })
          (λ _. code_row-IsSafe wide _ d h))

  blank_line_total : Gives P (blank_line d)
  unfolding blank_line
  blank_line_total =
      let (d', r, f) = flush_total wide d h in
      Gives-bind P (flush d) _ d' r (
        Gives_either P d'.out.any_out (record d' { out = record d'.out { need_blank = true } }) d'
          (λ _.
            with_out-IsSafe wide (record d'.out { need_blank = true }) d' f.safe
              (record { same = f.safe.out.same; rows = f.safe.out.rows }))
          (λ _. f.safe))

  open_fence_total :
      (ind x : ℕ) (s : List ℕ)
      → opens_fence ind (x ∷ s) ≡ true
      → Gives P (open_fence ind x (x ∷ s) d)
  unfolding open_fence
  open_fence_total ind x s e =
      let (d', r, f) = flush_total wide d h in
      Gives-bind P (flush d) _ d' r (
        _,
        refl,
        record {
          out = f.safe.out;
          block = no_block-BlockOk d'.kind _ f.closed;
          list = f.safe.list;
          fence = λ _. opens_fence-run_of ind x s e;
        },
      )

  setext_total : (x : ℕ) → Gives P (setext x d)
  unfolding setext
  setext_total x =
      let d0 : Doc = record d { kind = head; level = if x == 61 then 1 else 2 } in
      let (d', r, f) =
        flush_total wide d0 (record { out = h.out; block = tt; list = h.list; fence = h.fence }) in
      Gives-bind P (flush d0) _ d' r (_, refl, settled d' false f)

  thematic_break_total : Gives P (thematic_break d)
  unfolding thematic_break
  thematic_break_total =
      let (d', r, f) = flush_total wide d h in
      Gives-bind P (flush d) _ d' r (_, refl, settled (hr d') false (hr-Flushed wide d' f))

  -- A block is started, changed by `g`, and written.
  written :
      (k : Kind) (content : List ℕ) (g : Doc → Doc)
      → ((d' : Doc) → Flushed wide d' → IsSafe n (g (record d' { kind = k; blk = content })))
      → Gives P (do d1 ← start k content d; d2 ← flush (g d1); some (record d2 { in_list = false }))
  written k content g keep =
      let (d1, r1, safe) = start_total wide (λ d'. IsSafe n (g d')) k content d h keep in
      let (d2, r2, f2) = flush_total wide (g d1) safe in
      Gives-bind P (start k content d) _ d1 r1
        (Gives-bind P (flush (g d1)) _ d2 r2 (_, refl, settled d2 false f2))

  atx_total : (s : List ℕ) → Gives P (atx s d)
  unfolding atx
  atx_total s =
      written head (atx_text s) (λ d1. record d1 { level = run_of 35 s })
        (λ d' f. record { out = f.safe.out; block = tt; list = f.safe.list; fence = f.safe.fence })

  table_row_total : (s : List ℕ) → Gives P (table_row s d)
  unfolding table_row
  table_row_total s =
      written table s (λ d1. d1)
        (λ d' f. record { out = f.safe.out; block = tt; list = f.safe.list; fence = f.safe.fence })

  list_item_total : (ind : ℕ) (mk rest : List ℕ) → MarkOk mk → Gives P (list_item ind mk rest d)
  unfolding list_item
  list_item_total ind mk rest ok =
      let m : ℕ = min ind 8 in
      let (d', r, safe) =
        start_total wide
          (λ d'. P (record d' {
            margin = m;
            mark = mk;
            cont = m + length mk + 1;
            in_list = true;
            list_cont = m + length mk + 1;
          }))
          item (lstrip rest) d h
          (λ d' f. record {
            out = f.safe.out;
            block = (refl, omega (arith, ok.1), ok.0);
            list = omega (arith, ok.1);
            fence = f.safe.fence;
          }) in
      Gives-bind P (start item (lstrip rest) d) _ d' r (_, refl, safe)

  quote_line_total : (s : List ℕ) → Gives P (quote_line s d)
  unfolding quote_line
  quote_line_total s =
      let c = lstrip (strip_quote false s) in
      Gives-if P (is_empty c) _ _
        (λ _.
          let (d', r, f) = flush_total wide d h in
          Gives-bind P (flush d) _ d' r (_, refl, (quote_blank-Flushed wide d' f).safe))
        (λ _.
          Gives-if P (is_quote d.kind) _ _
            (λ _. (
              _,
              refl,
              record {
                out = h.out;
                block = block_same d.kind d _ refl refl refl h.block;
                list = h.list;
                fence = h.fence;
              },
            ))
            (λ _.
              let (d', r, safe) =
                start_total wide (λ d'. P (record d' { in_list = false })) quote c d h
                  (λ d' f. record {
                    out = f.safe.out;
                    block = tt;
                    list = f.safe.list;
                    fence = f.safe.fence;
                  }) in
              Gives-bind P (start quote c d) _ d' r (_, refl, safe)))

  text_line_total : (ind : ℕ) (s : List ℕ) → Gives P (text_line ind s d)
  unfolding text_line
  text_line_total ind s =
      Gives-if P (goes_on d.kind) _ _
        (λ _. (
          _,
          refl,
          record {
            out = h.out;
            block = block_same d.kind d _ refl refl refl h.block;
            list = h.list;
            fence = h.fence;
          },
        ))
        (λ _.
          let d0 : Doc = record d { in_list = if ind == 0 then false else d.in_list } in
          let (d', r, safe) =
            start_total wide
              (λ d'. P (record d' { margin = if d'.in_list then d'.list_cont else 0 })) para s d0
              (record {
                out = h.out;
                block = block_same d.kind d d0 refl refl refl h.block;
                list = h.list;
                fence = h.fence;
              })
              (λ d' f. record {
                out = f.safe.out;
                block = ground (arith, f.safe.list);
                list = f.safe.list;
                fence = f.safe.fence;
              }) in
          Gives-bind P (start para s d0) _ d' r (_, refl, safe))

  body_line_total : (ind x : ℕ) (s l : List ℕ) → Gives P (body_line ind x s l d)
  unfolding body_line
  body_line_total ind x s l =
      let other =
        Gives-if P (ltb ind 4 && x == 62) _ _ (λ _. quote_line_total s)
          (λ _.
            Gives-if P (ltb ind 4 && x == 124) _ _ (λ _. table_row_total s)
              (λ _.
                Gives-if P (leb 4 ind && not d.in_list && is_none d.kind) _ _
                  (λ _.
                    (code_row (strip_cols 0 l) d, refl, code_row-IsSafe wide (strip_cols 0 l) d h))
                  (λ _. text_line_total ind s))) in
      Gives-if P (ltb ind (if d.in_list then 64 else 4)) _ _
        (λ _.
          Gives-option P (Marked (list_mark ind x s)) (list_mark ind x s) _ _ refl (λ _. other)
            (λ p e. list_item_total ind p.0 p.1 (list_mark-MarkOk ind x s p.0 p.1 e)))
        (λ _. other)
    where
      Marked : Option (List ℕ × List ℕ) → Option (List ℕ × List ℕ) → Type 0
      Marked o p = o ≡ p

  block_line_total : (ind x : ℕ) (s l : List ℕ) → Gives P (block_line ind x (x ∷ s) l d)
  unfolding block_line
  block_line_total ind x s l =
      Gives-if P (opens_fence ind (x ∷ s)) _ _ (open_fence_total ind x s) (λ _.
        Gives-if P (is_setext ind x (x ∷ s) d) _ _ (λ _. setext_total x)
          (λ _.
            Gives-if P (is_break ind x (x ∷ s)) _ _ (λ _. thematic_break_total)
              (λ _.
                Gives-if P (is_atx ind x (x ∷ s)) _ _ (λ _. atx_total (x ∷ s))
                  (λ _. body_line_total ind x (x ∷ s) l))))

  open_line_total : (ind : ℕ) (s l : List ℕ) → Gives P (open_line ind s l d)
  unfolding open_line
  open_line_total ind [] l = blank_line_total
  open_line_total ind (x ∷ s) l = block_line_total ind x s l

  -- Any line keeps the document safe.
  pub line_total : (l : List ℕ) → Gives P (line l d)
  unfolding line
  line_total l =
      Gives-if P d.in_fence _ _ (fence_line_total (indent 0 l).0 (indent 0 l).1 l)
        (λ _. open_line_total (indent 0 l).0 (indent 0 l).1 l)
