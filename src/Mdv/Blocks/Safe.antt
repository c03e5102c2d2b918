-- ===== src/Mdv/Blocks/Safe.antt =====
-- The methods of `Doc` in tools/mdvref.py that write a block always end, raise no exception, and
-- write no row that is wider than the screen.
use elf_dos.Base.{
  ℕ, zero, suc, ◌+◌, ◌-◌, ◌≤◌, ◌<◌, bit_and, Bool, true, false, ◌||◌, some, List, [], ◌∷◌, ◌++◌,
  ltb, ◌==◌, length, get_elem?, replicate, ◌≡◌, refl, arith, inl, inr, Bool-cases, Gives,
  Gives-bind, Gives-if,
}
use elf_dos.Mdv.Style.{s_c, bar_sgr, hr_sgr, reset, head_sgr, is_cont}
use elf_dos.Mdv.Style.Columns.{
  IsPiece, IsPiece-append, IsPiece-cons, csi-IsPiece, AreParams, IsPiece-behind, IsPiece-nil,
}
use elf_dos.Mdv.Wrap.{Out, blank, Prefix, prefix_cols, spaces, marker, bar, Wrap, new_wrap, finish}
use elf_dos.Mdv.Wrap.Width.{
  OutFits, row-OutFits, blank-OutFits, IsPrefix, IsMarker, sequence-IsPiece, reset-IsPiece,
}
use elf_dos.Mdv.Wrap.Put.{Fits, put-Fits, finish-IsReady, cur-Fits}
use elf_dos.Mdv.Inline.{render_inline}
use elf_dos.Mdv.Inline.Width.{put_all-Fits, render_inline-Fits}
use elf_dos.Mdv.Inline.Total.{render_inline_total}
use elf_dos.Mdv.Blocks.{
  Kind, no_block, para, item, quote, head, table, Doc, is_none, block_wrap, flush, code_char,
  code_chars, code_row, quote_blank, hr, start,
}

-- The prefixes of a block leave a column free on a screen of 20 columns or more.
abbrev pub BlockOk : Kind → Doc → Type 0
BlockOk para d = d.margin ≤ 19
BlockOk item d = (d.cont ≡ d.margin + length d.mark + 1) × (d.cont ≤ 19) × IsMarker d.mark
BlockOk _ d = Unit

pub record IsSafe (n : ℕ) (d : Doc) : Type 0 where
  pub out : OutFits n d.out
  pub block : BlockOk d.kind d
  pub list : d.list_cont ≤ 19
  pub fence : d.in_fence ≡ true → 3 ≤ d.flen

-- Nothing is asked of a document without a block.
pub no_block-BlockOk : (k : Kind) (d : Doc) → k ≡ no_block → BlockOk k d
no_block-BlockOk k d e = rw e tt

-- What is asked is about these fields only.
pub block_same :
    (k : Kind) (d d' : Doc)
    → d'.margin ≡ d.margin
    → d'.cont ≡ d.cont
    → d'.mark ≡ d.mark
    → BlockOk k d
    → BlockOk k d'
block_same para d d' m c k b = omega arith
block_same item d d' m c k b = rw (m, c, k) b
block_same _ d d' m c k b = tt

-- The text of a block ends in a NUL.
ends_nul : (b : List ℕ) → get_elem? (b ++ 0 ∷ []) (length b) ≡ some 0
ends_nul [] = refl
ends_nul (c ∷ b) = ends_nul b

head_sgr-AreParams : (level : ℕ) → AreParams (head_sgr level)
head_sgr-AreParams level = ground arith

module _ {n : ℕ} (wide : 20 ≤ n) where
  new_wrap-Fits :
      (o : Out) (words : Bool) (fp cp : Prefix) (base : List ℕ)
      → OutFits n o
      → AreParams base
      → IsPrefix fp
      → IsPrefix cp
      → prefix_cols cp ≤ prefix_cols fp
      → prefix_cols fp < n
      → Fits n (new_wrap o words fp cp base)
  new_wrap-Fits o words fp cp base ho hb hf hc order narrow = record {
    ready = record { out = ho; params = hb; first = hf; next = hc; order = order; narrow = narrow };
    in_row = λ e. absurd (cc);
  }

  block_wrap-Fits : (k : Kind) (d : Doc) → OutFits n d.out → BlockOk k d → Fits n (block_wrap k d)
  unfolding block_wrap
  block_wrap-Fits no_block d o b =
      new_wrap-Fits d.out true (spaces 0) (spaces 0) [] o tt tt tt (omega arith) (omega arith)
  block_wrap-Fits para d o b =
      new_wrap-Fits d.out true (spaces d.margin) (spaces d.margin) [] o tt tt tt (omega arith)
        (omega arith)
  block_wrap-Fits item d o b =
      new_wrap-Fits d.out true (marker d.margin d.mark) (spaces d.cont) [] o tt b.2 tt (omega arith)
        (omega arith)
  block_wrap-Fits quote d o b =
      new_wrap-Fits d.out true bar bar [] o tt tt tt (omega arith) (omega arith)
  block_wrap-Fits head d o b =
      new_wrap-Fits d.out true (spaces 0) (spaces 0) (head_sgr d.level) o
        (head_sgr-AreParams d.level) tt tt (omega arith) (omega arith)
  block_wrap-Fits table d o b =
      new_wrap-Fits d.out true (spaces 0) (spaces 0) [] o tt tt tt (omega arith) (omega arith)

  -- A document with no open block.
  pub record Flushed (d : Doc) : Type 0 where
    pub safe : IsSafe n d
    pub closed : d.kind ≡ no_block

  pub flush_total : (d : Doc) → IsSafe n d → Gives Flushed (flush d)
  unfolding flush
  flush_total d h =
      Gives-if Flushed (is_none d.kind) _ _
        (λ e. (d, refl, record { safe = h; closed = by_kind d.kind e }))
        (λ _.
          let w = block_wrap d.kind d in
          let (w', r) = render_inline_total (d.blk ++ 0 ∷ []) (length d.blk) (ends_nul d.blk) w in
          let f : Fits n w' =
            render_inline-Fits (d.blk ++ 0 ∷ []) w w' (block_wrap-Fits d.kind d h.out h.block) r in
          Gives-bind Flushed (render_inline (d.blk ++ 0 ∷ []) w) _ w' r (
            record d { out = (finish w').out; kind = no_block; blk = [] },
            refl,
            record {
              safe = record {
                out = (finish-IsReady w' f).out;
                block = tt;
                list = h.list;
                fence = h.fence;
              };
              closed = refl;
            },
          ))
    where
      by_kind : (k : Kind) → is_none k ≡ true → k ≡ no_block
      by_kind no_block e = refl
      by_kind _ e = absurd (cc)

  -- A new block that is safe on any document.
  pub start_total :
      (P : Doc → Type 0) (k : Kind) (content : List ℕ) (d : Doc)
      → IsSafe n d
      → ((d' : Doc) → Flushed d' → P (record d' { kind = k; blk = content }))
      → Gives P (start k content d)
  unfolding start
  start_total P k content d h keep =
      let (d', r, f) = flush_total d h in
      Gives-bind P (flush d) _ d' r (record d' { kind = k; blk = content }, refl, keep d' f)

  code_char-Fits : (c col : ℕ) (w : Wrap) → Fits n w → Fits n (code_char c col w)
  unfolding code_char
  code_char-Fits c col w h = elim (Bool-cases (c == 9)) [
    | inl e ↦ rw e (put_all-Fits (replicate (8 - bit_and col 7) 32) w h)
    | inr e ↦ elim (Bool-cases (ltb c 32 || c == 127)) [
      | inl e' ↦ rw (e, e') h
      | inr e' ↦ rw (e, e') (put-Fits c w h)
    ]
  ]

  code_chars-Fits : (text : List ℕ) (col : ℕ) (w : Wrap) → Fits n w → Fits n (code_chars text col w)
  unfolding code_chars
  code_chars-Fits [] col w h = h
  code_chars-Fits (c ∷ text) col w h = code_chars-Fits text _ _ (code_char-Fits c col w h)

  pub code_row-OutFits :
      (text : List ℕ) (d : Doc) → OutFits n d.out → OutFits n (code_row text d).out
  unfolding code_row
  code_row-OutFits text d h =
      let w = new_wrap d.out false (spaces 2) (spaces 2) [] in
      let f =
        new_wrap-Fits d.out false (spaces 2) (spaces 2) [] h tt tt tt (omega arith) (omega arith) in
      (finish-IsReady _ (code_chars-Fits text 0 _ (cur-Fits w s_c f))).out

  -- Only the output has changed.
  pub with_out-IsSafe :
      (o : Out) (d : Doc) → IsSafe n d → OutFits n o → IsSafe n (record d { out = o })
  with_out-IsSafe o d h f = record {
    out = f;
    block = block_same d.kind d _ refl refl refl h.block;
    list = h.list;
    fence = h.fence;
  }

  pub code_row-IsSafe : (text : List ℕ) (d : Doc) → IsSafe n d → IsSafe n (code_row text d)
  code_row-IsSafe text d h =
      let f = code_row-OutFits text d h.out in
      unfold code_row in with_out-IsSafe _ d h (unfold code_row in f)

  dashes-IsPiece : (k : ℕ) → IsPiece (replicate k b'-') k
  unfolding is_cont
  dashes-IsPiece zero = IsPiece-nil
  dashes-IsPiece (suc k) = IsPiece-cons b'-' _ k (omega arith) refl (dashes-IsPiece k)

  hr-OutFits : (d : Doc) → OutFits n d.out → OutFits n (hr d).out
  unfolding hr
  hr-OutFits d h =
      let o = blank d.out in
      let ok = blank-OutFits d.out h in
      row-OutFits _ o
        (record {
          cols = o.width + 0;
          piece =
              IsPiece-behind _ _ (o.width + 0)
                (sequence-IsPiece o.plain hr_sgr (csi-IsPiece (b'3' ∷ b'6' ∷ []) (omega arith)))
                (IsPiece-append _ _ o.width 0 (dashes-IsPiece o.width)
                  (sequence-IsPiece o.plain reset reset-IsPiece));
          fits = omega (arith, ok.same);
        })
        ok

  quote_blank-OutFits : (d : Doc) → OutFits n d.out → OutFits n (quote_blank d).out
  unfolding quote_blank is_cont
  quote_blank-OutFits d h =
      let o = blank d.out in
      row-OutFits _ o
        (record {
          cols = 1;
          piece =
              IsPiece-behind _ _ 1
                (sequence-IsPiece o.plain bar_sgr (csi-IsPiece (b'3' ∷ b'2' ∷ []) (omega arith)))
                (IsPiece-cons b'|' _ 0 (omega arith) refl
                  (sequence-IsPiece o.plain reset reset-IsPiece));
          fits = omega arith;
        })
        (blank-OutFits d.out h)

  pub hr-Flushed : (d : Doc) → Flushed d → Flushed (hr d)
  unfolding hr
  hr-Flushed d h = record {
    safe = with_out-IsSafe _ d h.safe (hr-OutFits d h.safe.out);
    closed = h.closed;
  }

  pub quote_blank-Flushed : (d : Doc) → Flushed d → Flushed (quote_blank d)
  unfolding quote_blank
  quote_blank-Flushed d h = record {
    safe = with_out-IsSafe _ d h.safe (quote_blank-OutFits d h.safe.out);
    closed = h.closed;
  }
