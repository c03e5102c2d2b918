-- ===== src/Mdv/Inline/Spans.antt =====
-- Escapes, code spans and emphasis in `render_inline` of tools/mdvref.py: each step goes on in the
-- text and raises no IndexError.
use mathlib.Core.Option
use elf_dos.Base.{
  ℕ, ◌+◌, ◌-◌, ◌≤◌, ◌<◌, bit_and, Bool, true, false, ◌&&◌, Option, none, some, List, leb, ◌==◌,
  if◌then◌else◌, ◌>>=◌, get_elem?, slice, replicate, ◌≡◌, ◌≢◌, refl, arith, Gives, Gives-bind,
  Gives-if, Gives_either, Gives-option, ==_iff,
}
use elf_dos.Mdv.Style.{s_c}
use elf_dos.Mdv.Wrap.{put}
use elf_dos.Mdv.Scan.{is_punct, run_len, find_code_close, can_open, find_emph_close}
use elf_dos.Mdv.Scan.Total.{Within, char_at, run_len_total}
use elf_dos.Mdv.Scan.Marks.{
  find_code_close_total, can_open_total, can_close_total, find_emph_close_total,
}
use elf_dos.Mdv.Inline.{
  State, put_all, style_off, plain_char, put_styled, at_link_end, leave_link, on_backslash,
  code_text, on_backquote, need_of, ends_emph, begins_emph, begin_emph, emph_run, on_emph,
}

-- A link that is open ends before the place where the scan then goes on.
abbrev pub LinkOk : ℕ → Option ℕ → ℕ → Type 0
LinkOk n none after = Unit
LinkOk n (some j) after = (j < after) × (after ≤ n)

-- The scan has gone on, inside the text.
pub record Moves (n i : ℕ) (s : State) : Type 0 where
  pub on : i < s.i
  pub inside : s.i ≤ n
  pub link : LinkOk n s.link_end s.link_after

is_punct-ne-zero : (c : ℕ) → is_punct c ≡ true → c ≢ 0
unfolding is_punct
is_punct-ne-zero c h = ground arith

module _ (t : List ℕ) (n : ℕ) (nul : get_elem? t n ≡ some 0) (s : State) (here : s.i < n)
    (link : LinkOk n s.link_end s.link_after) where
  abbrev P : State → Type 0
  P = Moves n s.i

  pub plain_char-Moves : (c : ℕ) → P (plain_char c s)
  unfolding plain_char
  plain_char-Moves c = record { on = omega arith; inside = omega arith; link = link }

  pub plain : (c : ℕ) → Gives P (some (plain_char c s))
  plain c = (plain_char c s, refl, plain_char-Moves c)

  pub leave_link_total : at_link_end s ≡ true → P (leave_link s)
  unfolding leave_link at_link_end
  leave_link_total e = leaves s.link_end refl
    where
      leaves : (o : Option ℕ) → s.link_end ≡ o → P (leave_link s)
      leaves none q = absurd (let e' = rw q at e in cc e')
      leaves (some j) q =
          let l : LinkOk n (some j) s.link_after = rw q at link in
          let same : s.i ≡ j = (==_iff s.i j).0 (rw q at e) in
          record { on = omega arith; inside = l.1; link = tt }

  pub on_backslash_total : Gives P (on_backslash t s)
  unfolding on_backslash
  on_backslash_total =
      let (c, e, before) = char_at t n nul (s.i + 1) (omega arith) in
      Gives-bind P (get_elem? t (s.i + 1)) _ c e (
        Gives_either P (is_punct c) (record s { w = put c s.w; i = s.i + 2 }) (plain_char 92 s)
          (λ p. record {
            on = omega arith;
            inside = omega (arith, before (is_punct-ne-zero c p));
            link = link;
          })
          (λ _. plain_char-Moves 92))

  -- A result, whatever it is.
  abbrev Any : {A : Type 0} → A → Type 0
  Any a = Unit

  code_text_total : (a e : ℕ) → e ≤ n → Gives Any (code_text t a e)
  unfolding code_text
  code_text_total a e h =
      Gives-if Any (leb 2 (e - a)) _ _
        (λ long.
          let (x, ex, _) = char_at t n nul a (ground arith) in
          let (y, ey, _) = char_at t n nul (e - 1) (omega arith) in
          Gives-bind Any (get_elem? t a) _ x ex
            (Gives-bind Any (get_elem? t (e - 1)) _ y ey (_, refl, tt)))
        (λ short. (slice a e t, refl, tt))

  pub on_backquote_total : get_elem? t s.i ≡ some 96 → Gives P (on_backquote t s)
  unfolding on_backquote
  on_backquote_total at =
      let (k, r, high, pos) = run_len_total t n nul s.i 96 (ground arith) (omega arith) in
      let starts : 0 < k = pos at in
      let (close, r', w) = find_code_close_total t n nul s.i k high in
      Gives-bind P (run_len t s.i 96) _ k r (
        Gives-bind P (find_code_close t s.i k) _ close r' (
          Gives-option P (λ o. Within (s.i + k + k) (n + 1) (Option.map (λ e. e + k) o)) close _ _ w
            (λ _. (
              record s { w = put_all (replicate k 96) s.w; i = s.i + k },
              refl,
              record { on = omega arith; inside = high; link = link },
            ))
            (λ e u.
              let (code, r2, _) = code_text_total (s.i + k) e (omega (arith, u)) in
              Gives-bind P (code_text t (s.i + k) e) _ code r2 (
                record s { w = put_styled s_c code s.w; i = e + k },
                refl,
                record { on = omega (arith, u); inside = omega (arith, u); link = link },
              ))))

  ends_emph_total : (c k need : ℕ) → s.i + k ≤ n → Gives Any (ends_emph t c k need s)
  unfolding ends_emph
  ends_emph_total c k need h =
      let (b, e) = can_close_total t n nul s.i k c h in
      Gives-if Any _ _ _ (λ _. (b, e, tt)) (λ _. (false, refl, tt))

  begins_emph_total : (c k need : ℕ) → c ≢ 0 → s.i + k ≤ n → Gives Any (begins_emph t c k need s)
  unfolding begins_emph
  begins_emph_total c k need nz h =
      let (b, e) = can_open_total t n nul s.i k c h in
      let (o, e') = find_emph_close_total t n nul s.i k c nz h in
      let found : Bool = elim o [ none ↦ false | some j ↦ true ] in
      let inner : Gives Any (do
        close ← find_emph_close t s.i k c
        some (elim close [ none ↦ false | some j ↦ true ])) =
        (found, rw e' refl, tt) in
      Gives-if Any (bit_and s.w.cur need == 0)
        (do
          open_ok ← can_open t s.i k c
          if open_ok
              then (do
                close ← find_emph_close t s.i k c
                some (elim close [ none ↦ false | some j ↦ true ]))
              else some false)
        (some false)
        (λ _.
          Gives-bind Any (can_open t s.i k c) _ b e
            (Gives-if Any b _ _ (λ _. inner) (λ _. (false, refl, tt))))
        (λ _. (false, refl, tt))

  -- A run of emphasis leaves the link alone.
  abbrev SameLink : State → Type 0
  SameLink s' = (s'.link_end ≡ s.link_end) × (s'.link_after ≡ s.link_after)

  begin_emph-SameLink : (c need : ℕ) → SameLink (begin_emph t c need s)
  unfolding begin_emph
  begin_emph-SameLink c need = (refl, refl)

  emph_run_total : (c k : ℕ) → c ≢ 0 → s.i + k ≤ n → Gives SameLink (emph_run t c k s)
  unfolding emph_run
  emph_run_total c k nz h =
      let literal : State = record s { w = put_all (replicate k c) s.w } in
      let (ends, e, _) = ends_emph_total c k (need_of t k) h in
      let (begins, e', _) = begins_emph_total c k (need_of t k) nz h in
      Gives-if SameLink (leb 1 k && leb k 3) _ _
        (λ _. Gives-bind SameLink (ends_emph t c k (need_of t k) s) _ ends e (
          Gives-if SameLink ends _ _
            (λ _. (record s { w = style_off (need_of t k) s.w }, refl, (refl, refl)))
            (λ _. Gives-bind SameLink (begins_emph t c k (need_of t k) s) _ begins e' (
              Gives_either SameLink begins (begin_emph t c (need_of t k) s) literal
                (λ _. begin_emph-SameLink c (need_of t k)) (λ _. (refl, refl))))))
        (λ _. (literal, refl, (refl, refl)))

  pub on_emph_total : (c : ℕ) → c ≢ 0 → get_elem? t s.i ≡ some c → Gives P (on_emph t c s)
  unfolding on_emph
  on_emph_total c nz at =
      let (k, r, high, pos) = run_len_total t n nul s.i c nz (omega arith) in
      let starts : 0 < k = pos at in
      let (s', r', same) = emph_run_total c k nz high in
      Gives-bind P (run_len t s.i c) _ k r (
        Gives-bind P (emph_run t c k s) _ s' r' (
          record s' { i = s.i + k },
          refl,
          record { on = omega arith; inside = high; link = rw (same.0, same.1) link },
        ))
