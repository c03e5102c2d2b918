-- ===== src/Mdv/Inline/Links.antt =====
-- Images, links and autolinks in `render_inline` of tools/mdvref.py: each step goes on in the text
-- and raises no IndexError.
use elf_dos.Base.{
  ℕ, zero, suc, ◌+◌, ◌-◌, ◌≤◌, ◌<◌, Bool, false, ◌&&◌, ◌||◌, not, Option, none, some, List, ltb,
  ◌==◌, ◌>>=◌, length, get_elem?, slice, ◌≡◌, refl, arith, Bool-cases, inl, inr, Gives, Gives-bind,
  Gives-if, Gives_either, Gives-option,
}
use elf_dos.Mdv.Style.{s_l, has_bit}
use elf_dos.Mdv.Scan.{find_bracket, find_paren}
use elf_dos.Mdv.Scan.Total.{Within, n-lt, char_at}
use elf_dos.Mdv.Scan.Marks.{find_bracket_total, find_paren_total}
use elf_dos.Mdv.Inline.{
  State, plain_char, put_styled, on_bang, url_end, enter_link, inline_link, reference_link,
  on_bracket, angle_loop, on_angle,
}
use elf_dos.Mdv.Inline.Spans
use elf_dos.Mdv.Inline.Spans.{LinkOk, Moves}

module _ (t : List ℕ) (n : ℕ) (nul : get_elem? t n ≡ some 0) (s : State) (here : s.i < n)
    (link : LinkOk n s.link_end s.link_after) where
  abbrev P : State → Type 0
  P = Moves n s.i

  plain : (c : ℕ) → Gives P (some (plain_char c s))
  plain = Spans.plain t n nul s here link

  plain_char-Moves : (c : ℕ) → P (plain_char c s)
  plain_char-Moves = Spans.plain_char-Moves t n nul s here link

  abbrev Any : {A : Type 0} → A → Type 0
  Any a = Unit

  pub on_bang_total : Gives P (on_bang t s)
  unfolding on_bang
  on_bang_total =
      let (c, e, before) = char_at t n nul (s.i + 1) (omega arith) in
      Gives-bind P (get_elem? t (s.i + 1)) _ c e (
        Gives-if P (c == 91 && not (has_bit s.w.cur s_l)) _ _
          (λ p.
            let lt : s.i + 1 < n = before (ground arith) in
            let (close, r, w) = find_bracket_total t n nul (s.i + 1) lt in
            Gives-bind P (find_bracket t (s.i + 1)) _ close r (
              Gives-option P (Within (s.i + 1 + 1) n) close _ _ w (λ _. plain 33)
                (λ j u.
                  let (d, e', _) = char_at t n nul (j + 1) (omega (arith, u)) in
                  Gives-bind P (get_elem? t (j + 1)) _ d e' (
                    Gives_either P (d == 40 || d == 91) (record s { i = s.i + 1 }) (plain_char 33 s)
                      (λ _. record { on = omega arith; inside = omega arith; link = link })
                      (λ _. plain_char-Moves 33)))))
          (λ _. plain 33))

  url_end_total : (r ue : ℕ) → ue + r ≤ n → Gives Any (url_end t r ue)
  unfolding url_end
  url_end_total zero ue h = (ue, refl, tt)
  url_end_total (suc r) ue h =
      let (c, e, _) = char_at t n nul ue (omega arith) in
      elim (Bool-cases (c == 32 || c == 9)) [
        | inl q ↦ (ue, rw (e, ◌>>=◌, q) refl, tt)
        | inr q ↦
            let (u, r', _) = url_end_total r (ue + 1) (omega arith) in (u, rw (e, ◌>>=◌, q) r', tt)
      ]

  enter_link-Moves :
      (u : Option (List ℕ)) (j after : ℕ) → j < after → after ≤ n → P (enter_link t u j after s)
  unfolding enter_link
  enter_link-Moves u j after h k = record { on = omega arith; inside = omega arith; link = (h, k) }

  inline_link_total : (j : ℕ) → j + 1 < n → Gives P (inline_link t j s)
  unfolding inline_link
  inline_link_total j h =
      let (close, r, w) = find_paren_total t n nul (j + 1) h in
      Gives-bind P (find_paren t (j + 1)) _ close r (
        Gives-option P (Within (j + 1 + 1) n) close _ _ w (λ _. plain 91)
          (λ e u.
            let (ue, r', _) = url_end_total (e - (j + 2)) (j + 2) (omega (arith, u)) in
            Gives-bind P (url_end t (e - (j + 2)) (j + 2)) _ ue r'
              (_, refl, enter_link-Moves _ j (e + 1) (omega (arith, u)) (omega (arith, u)))))

  reference_link_total : (j : ℕ) → j + 1 < n → Gives P (reference_link t j s)
  unfolding reference_link
  reference_link_total j h =
      let (close, r, w) = find_bracket_total t n nul (j + 1) h in
      Gives-bind P (find_bracket t (j + 1)) _ close r (by_close close w)
    where
      by_close :
          (close : Option ℕ)
          → Within (j + 1 + 1) n close
          → Gives P (
              some (elim close [ none ↦ plain_char 91 s | some e ↦ enter_link t none j (e + 1) s ]))
      by_close none w = plain 91
      by_close (some e) w = (
        enter_link t none j (e + 1) s,
        refl,
        enter_link-Moves none j (e + 1) (omega arith) (omega arith),
      )

  pub on_bracket_total : Gives P (on_bracket t s)
  unfolding on_bracket
  on_bracket_total =
      let (close, r, w) = find_bracket_total t n nul s.i here in
      Gives-if P (has_bit s.w.cur s_l) _ _ (λ _. plain 91)
        (λ _. Gives-bind P (find_bracket t s.i) _ close r (
          Gives-option P (Within (s.i + 1) n) close _ _ w (λ _. plain 91)
            (λ j u.
              let (d, e, before) = char_at t n nul (j + 1) (omega (arith, u)) in
              Gives-bind P (get_elem? t (j + 1)) _ d e (
                Gives-if P (d == 40) _ _ (λ p. inline_link_total j (before (ground arith)))
                  (λ _.
                    Gives-if P (d == 91) _ _ (λ p. reference_link_total j (before (ground arith)))
                      (λ _. plain 91))))))

  angle_loop_total :
      (f j : ℕ) (special : Bool)
      → j ≤ n
      → n < f + j
      → Gives (λ (p : ℕ × Bool). (j ≤ p.0) × (p.0 ≤ n)) (angle_loop t f j special)
  unfolding angle_loop
  angle_loop_total zero j special h fuel = absurd (omega arith)
  angle_loop_total (suc f) j special h fuel =
      let (c, e, before) = char_at t n nul j h in
      elim (Bool-cases (ltb 32 c && not (c == 60 || c == 62))) [
        | inr q ↦ ((j, special), rw (e, ◌>>=◌, q) refl, (omega arith, h))
        | inl q ↦
            let lt : j < n = before (ground arith) in
            let (p, r, (low, high)) =
              angle_loop_total f (j + 1) (special || c == 58 || c == 64) (omega arith)
                (omega arith) in
            (p, rw (e, ◌>>=◌, q) r, (omega arith, high))
      ]

  pub on_angle_total : Gives P (on_angle t s)
  unfolding on_angle
  on_angle_total =
      let (p, r, (low, high)) =
        angle_loop_total (length t) (s.i + 1) false (omega arith) (omega (arith, n-lt t n nul)) in
      let (d, e, before) = char_at t n nul p.0 high in
      Gives-bind P (angle_loop t (length t) (s.i + 1) false) _ p r (
        Gives-bind P (get_elem? t p.0) _ d e (
          Gives_either P (d == 62 && ltb (s.i + 1) p.0 && p.1)
            (record s { w = put_styled s_l (slice (s.i + 1) p.0 t) s.w; i = p.0 + 1 })
            (plain_char 60 s)
            (λ q.
              let lt : p.0 < n = before (ground arith) in
              record { on = omega arith; inside = omega arith; link = link })
            (λ _. plain_char-Moves 60)))
