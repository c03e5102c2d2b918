-- ===== src/Mdv/Inline/Total.antt =====
-- `render_inline` of tools/mdvref.py never leaves its text and always ends.
use elf_dos.Base.{
  ℕ, zero, suc, ◌+◌, ◌≤◌, ◌<◌, ◌||◌, some, List, ◌==◌, ◌>>=◌, length, get_elem?, ◌≡◌, ◌≢◌, refl, ap,
  ◌∙◌, arith, Bool-cases, inl, inr, Gives, Gives-if, ==_iff,
}
use elf_dos.Mdv.Wrap.{Wrap}
use elf_dos.Mdv.Scan.Total.{n-lt, char_at}
use elf_dos.Mdv.Inline.{
  State, at_link_end, leave_link, render_step, render_loop, render_inline, initial,
}
use elf_dos.Mdv.Inline.Spans
use elf_dos.Mdv.Inline.Spans.{LinkOk, Moves}
use elf_dos.Mdv.Inline.Links

module _ (t : List ℕ) (n : ℕ) (nul : get_elem? t n ≡ some 0) (s : State) (here : s.i < n)
    (link : LinkOk n s.link_end s.link_after) where
  abbrev P : State → Type 0
  P = Moves n s.i

  render_step_total : (c : ℕ) → get_elem? t s.i ≡ some c → c ≢ 0 → Gives P (render_step t c s)
  unfolding render_step
  render_step_total c at nz =
      Gives-if P (at_link_end s) _ _
        (λ e. (leave_link s, refl, Spans.leave_link_total t n nul s here link e))
        (λ _.
          Gives-if P (c == 92) _ _ (λ _. Spans.on_backslash_total t n nul s here link)
            (λ _.
              Gives-if P (c == 96) _ _
                (λ e.
                  Spans.on_backquote_total t n nul s here link (at ∙ ap some ((==_iff c 96).0 e)))
                (λ _.
                  Gives-if P (c == 42 || c == 95) _ _
                    (λ _. Spans.on_emph_total t n nul s here link c nz at)
                    (λ _.
                      Gives-if P (c == 33) _ _ (λ _. Links.on_bang_total t n nul s here link)
                        (λ _.
                          Gives-if P (c == 91) _ _ (λ _. Links.on_bracket_total t n nul s here link)
                            (λ _.
                              Gives-if P (c == 60) _ _
                                (λ _. Links.on_angle_total t n nul s here link)
                                (λ _. Spans.plain t n nul s here link c)))))))

-- The text ends in a NUL, so some place `n` holds one.
module _ (t : List ℕ) (n : ℕ) (nul : get_elem? t n ≡ some 0) where
  render_loop_total :
      (f : ℕ) (s : State)
      → s.i ≤ n
      → LinkOk n s.link_end s.link_after
      → n < f + s.i
      → (s' : State) × (render_loop t f s ≡ some s')
  unfolding render_loop
  render_loop_total zero s h link fuel = absurd (omega arith)
  render_loop_total (suc f) s h link fuel =
      let (c, e, before) = char_at t n nul s.i h in
      elim (Bool-cases (c == 0)) [
        | inl z ↦ (s, rw (e, ◌>>=◌, z) refl)
        | inr z ↦
            let nz : c ≢ 0 = ground arith in
            let (s', r, m) = render_step_total t n nul s (before nz) link c e nz in
            let (s'', r') = render_loop_total f s' m.inside m.link (omega (arith, m.on)) in
            (s'', rw (e, ◌>>=◌, z, r) r')
      ]

  pub render_inline_total : (w : Wrap) → (w' : Wrap) × (render_inline t w ≡ some w')
  unfolding render_inline
  render_inline_total w =
      let (s, r) =
        render_loop_total (length t) (initial w) (omega arith) tt (omega (arith, n-lt t n nul)) in
      (record s.w { cur = 0 }, rw r refl)
