-- ===== src/Mdv/Inline/Width.antt =====
-- `render_inline` of tools/mdvref.py keeps the invariant of the row builder, whatever the text.
use elf_dos.Base.{
  ℕ, zero, suc, ◌+◌, ◌-◌, bit_and, bit_or, bit_xor, false, ◌&&◌, ◌||◌, not, Option, none, some,
  List, [], ◌∷◌, ◌++◌, ltb, leb, ◌==◌, length, get_elem?, slice, replicate, ◌≡◌, Option-cases, inl,
  inr, some-injective, subst, Holds, Holds-bind, Holds-map, Holds-if, if_either, Holds-bool,
  Holds-then, Holds-option,
}
use elf_dos.Mdv.Style.{s_l, s_c, s_u, has_bit}
use elf_dos.Mdv.Wrap.{Wrap, put}
use elf_dos.Mdv.Wrap.Put.{Fits, put-Fits, cur-Fits}
use elf_dos.Mdv.Scan.{is_punct, run_len, find_code_close, find_bracket, find_paren}
use elf_dos.Mdv.Inline.{
  State, put_all, style_on, style_off, plain_char, put_styled, at_link_end, show_url, leave_link,
  on_backslash, code_text, on_backquote, need_of, ends_emph, begins_emph, begin_emph, emph_run,
  on_emph, on_bang, url_end, enter_link, inline_link, reference_link, on_bracket, angle_loop,
  on_angle, render_step, render_loop, render_inline, initial,
}

pub put_all-Fits : {n : ℕ} (bs : List ℕ) (w : Wrap) → Fits n w → Fits n (put_all bs w)
unfolding put_all
put_all-Fits [] w h = h
put_all-Fits (b ∷ bs) w h = put_all-Fits bs (put b w) (put-Fits b w h)

module _ (n : ℕ) where
  style_on-Fits : (st : ℕ) (w : Wrap) → Fits n w → Fits n (style_on st w)
  unfolding style_on
  style_on-Fits st w h = cur-Fits w (bit_or w.cur st) h

  style_off-Fits : (st : ℕ) (w : Wrap) → Fits n w → Fits n (style_off st w)
  unfolding style_off
  style_off-Fits st w h = cur-Fits w (bit_xor w.cur (bit_and w.cur st)) h

  put_styled-Fits : (st : ℕ) (bs : List ℕ) (w : Wrap) → Fits n w → Fits n (put_styled st bs w)
  unfolding put_styled
  put_styled-Fits st bs w h = style_off-Fits st _ (put_all-Fits bs _ (style_on-Fits st w h))

  show_url-Fits : (u : Option (List ℕ)) (w : Wrap) → Fits n w → Fits n (show_url u w)
  unfolding show_url
  show_url-Fits none w h = h
  show_url-Fits (some u) w h = put_styled-Fits s_u (b' ' ∷ b'(' ∷ (u ++ b')' ∷ [])) w h

  -- The state's row builder.
  abbrev StateFits : State → Type 0
  StateFits s = Fits n s.w

  module _ (t : List ℕ) (s : State) (h : StateFits s) where
    plain_char-Fits : (c : ℕ) → StateFits (plain_char c s)
    unfolding plain_char
    plain_char-Fits c = put-Fits c s.w h

    leave_link-Fits : StateFits (leave_link s)
    unfolding leave_link
    leave_link-Fits = show_url-Fits s.url _ (style_off-Fits s_l s.w h)

    on_backslash-Fits : Holds StateFits (on_backslash t s)
    unfolding on_backslash
    on_backslash-Fits = Holds-bind StateFits (get_elem? t (s.i + 1)) _ (λ c.
        if_either StateFits (is_punct c) (record s { w = put c s.w; i = s.i + 2 }) _
          (put-Fits c s.w h) (plain_char-Fits 92))

    on_backquote-Fits : Holds StateFits (on_backquote t s)
    unfolding on_backquote
    on_backquote-Fits = Holds-bind StateFits (run_len t s.i 96) _ λ k.
        Holds-bind StateFits (find_code_close t s.i k) _ λ close.
          Holds-option StateFits close _ _ (put_all-Fits (replicate k 96) s.w h) λ e.
            Holds-bind StateFits (code_text t (s.i + k) e) _ λ code. put_styled-Fits s_c code s.w h

    begin_emph-Fits : (c need : ℕ) → StateFits (begin_emph t c need s)
    unfolding begin_emph
    begin_emph-Fits c need = style_on-Fits need s.w h

    emph_run-Fits : (c k : ℕ) → Holds StateFits (emph_run t c k s)
    unfolding emph_run
    emph_run-Fits c k =
        let literal = put_all-Fits (replicate k c) s.w h in
        Holds-if StateFits (leb 1 k && leb k 3) _ _
          (Holds-bind StateFits (ends_emph t c k (need_of t k) s) _ λ ends.
            Holds-if StateFits ends _ _ (style_off-Fits (need_of t k) s.w h) (
              Holds-bind StateFits (begins_emph t c k (need_of t k) s) _ λ begins.
                if_either StateFits begins (begin_emph t c (need_of t k) s) _
                  (begin_emph-Fits c (need_of t k)) literal))
          literal

    on_emph-Fits : (c : ℕ) → Holds StateFits (on_emph t c s)
    unfolding on_emph
    on_emph-Fits c = Holds-bind StateFits (run_len t s.i c) _ λ k.
        Holds-map StateFits (emph_run t c k s) (λ s'. record s' { i = s.i + k }) (λ s' f. f)
          (emph_run-Fits c k)

    on_bang-Fits : Holds StateFits (on_bang t s)
    unfolding on_bang
    on_bang-Fits = Holds-bind StateFits (get_elem? t (s.i + 1)) _ λ c.
        Holds-if StateFits (c == 91 && not (has_bit s.w.cur s_l)) _ _
          (Holds-bind StateFits (find_bracket t (s.i + 1)) _ λ close.
            Holds-option StateFits close _ _ (plain_char-Fits 33) λ j.
              Holds-bind StateFits (get_elem? t (j + 1)) _ λ d.
                if_either StateFits (d == 40 || d == 91) (record s { i = s.i + 1 }) _ h
                  (plain_char-Fits 33))
          (plain_char-Fits 33)

    enter_link-Fits : (u : Option (List ℕ)) (j after : ℕ) → StateFits (enter_link t u j after s)
    unfolding enter_link
    enter_link-Fits u j after = style_on-Fits s_l s.w h

    inline_link-Fits : (j : ℕ) → Holds StateFits (inline_link t j s)
    unfolding inline_link
    inline_link-Fits j = Holds-bind StateFits (find_paren t (j + 1)) _ λ close.
        Holds-option StateFits close _ _ (plain_char-Fits 91) λ e.
          Holds-bind StateFits (url_end t (e - (j + 2)) (j + 2)) _ λ ue. style_on-Fits s_l s.w h

    reference_link-Fits : (j : ℕ) → Holds StateFits (reference_link t j s)
    unfolding reference_link
    reference_link-Fits j =
        Holds-bind StateFits (find_bracket t (j + 1)) _
          (elim [ none ↦ plain_char-Fits 91 | some e ↦ style_on-Fits s_l s.w h ])

    on_bracket-Fits : Holds StateFits (on_bracket t s)
    unfolding on_bracket
    on_bracket-Fits = Holds-if StateFits (has_bit s.w.cur s_l) _ _ (plain_char-Fits 91) (
        Holds-bind StateFits (find_bracket t s.i) _ λ close.
          Holds-option StateFits close _ _ (plain_char-Fits 91) λ j.
            Holds-bind StateFits (get_elem? t (j + 1)) _ λ d.
              Holds-if StateFits (d == 40) _ _ (inline_link-Fits j)
                (Holds-if StateFits (d == 91) _ _ (reference_link-Fits j) (plain_char-Fits 91)))

    on_angle-Fits : Holds StateFits (on_angle t s)
    unfolding on_angle
    on_angle-Fits = Holds-bind StateFits (angle_loop t (length t) (s.i + 1) false) _ λ (j, special).
        Holds-bind StateFits (get_elem? t j) _ λ d.
          if_either StateFits (d == 62 && ltb (s.i + 1) j && special)
            (record s { w = put_styled s_l (slice (s.i + 1) j t) s.w; i = j + 1 }) _
            (put_styled-Fits s_l (slice (s.i + 1) j t) s.w h) (plain_char-Fits 60)

    render_step-Fits : (c : ℕ) → Holds StateFits (render_step t c s)
    unfolding render_step
    render_step-Fits c = Holds-if StateFits (at_link_end s) _ _ leave_link-Fits (
        Holds-if StateFits (c == 92) _ _ on_backslash-Fits (
          Holds-if StateFits (c == 96) _ _ on_backquote-Fits (
            Holds-if StateFits (c == 42 || c == 95) _ _ (on_emph-Fits c) (
              Holds-if StateFits (c == 33) _ _ on_bang-Fits (
                Holds-if StateFits (c == 91) _ _ on_bracket-Fits
                  (Holds-if StateFits (c == 60) _ _ on_angle-Fits (plain_char-Fits c)))))))

  render_loop-Fits :
      (t : List ℕ) (f : ℕ) (s : State) → StateFits s → Holds StateFits (render_loop t f s)
  unfolding render_loop
  render_loop-Fits t zero s h = tt
  render_loop-Fits t (suc f) s h = Holds-bind StateFits (get_elem? t s.i) _ λ c.
      Holds-bool StateFits (c == 0) _ _ h (
        Holds-then StateFits (render_step t c s) (render_loop t f) (render_loop-Fits t f)
          (render_step-Fits t s h c))

-- Whatever the text, the row builder that comes out keeps the invariant.
pub render_inline-Fits :
    {n : ℕ} (t : List ℕ) (w w' : Wrap) → Fits n w → render_inline t w ≡ some w' → Fits n w'
unfolding render_inline
render_inline-Fits {n} t w w' h e = elim (Option-cases (render_loop t (length t) (initial w))) [
  | inl g ↦ absurd (let e' = rw g at e in cc e')
  | inr (s, g) ↦
      let k : Fits n s.w = rw g at (render_loop-Fits n t (length t) (initial w) h) in
      let q : record s.w { cur = 0 } ≡ w' = some-injective _ _ (rw g at e) in
      subst (Fits n) q (cur-Fits s.w 0 k)
]
