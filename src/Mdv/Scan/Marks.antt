-- ===== src/Mdv/Scan/Marks.antt =====
-- The searches for closing emphasis and brackets in tools/mdvref.py end inside the text.
use mathlib.Core.Option
use elf_dos.Base.{
  ℕ, zero, suc, ◌+◌, ◌-◌, ◌≤◌, ◌<◌, Bool, true, false, ◌&&◌, ◌||◌, not, Option, none, some, List,
  ◌==◌, ==_iff, if◌then◌else◌, ◌>>=◌, length, get_elem?, ◌≡◌, ◌≢◌, refl, ap, ◌∙◌, arith, Bool-cases,
  inl, inr,
}
use elf_dos.Mdv.Scan.{
  find_code_close, Flank, flank_of, char_before, flank, can_open, can_close, is_escape, skip_code,
  closes, emph_loop, find_emph_close, match_loop, find_bracket, find_paren,
}
use elf_dos.Mdv.Scan.Total.{Within, Within-mono, n-lt, char_at, run_len_total, code_loop_total}

module _ (t : List ℕ) (n : ℕ) (nul : get_elem? t n ≡ some 0) where
  -- A closing run of `k` backquotes ends before the NUL.
  pub find_code_close_total :
      (i k : ℕ)
      → i + k ≤ n
      → (o : Option ℕ) × (find_code_close t i k ≡ some o)
        × Within (i + k + k) (n + 1) (Option.map (λ e. e + k) o)
  unfolding find_code_close
  find_code_close_total i k h =
      code_loop_total t n nul (length t) (i + k) k h (omega (arith, n-lt t n nul))

  flank_total : (i k : ℕ) → i + k ≤ n → (f : Flank) × (flank t i k ≡ some f)
  unfolding flank
  flank_total i k h =
      let (prev, e) = before i (omega arith) in
      let (c, e', _) = char_at t n nul (i + k) h in (flank_of prev c, rw (e, ◌>>=◌, e') refl)
    where
      before : (j : ℕ) → j ≤ n → (c : ℕ) × (char_before t j ≡ some c)
      before zero p = (32, unfold char_before in refl)
      before (suc j) p =
          let (c, e, _) = char_at t n nul j (omega arith) in (c, unfold char_before in e)

  pub can_open_total : (i k ch : ℕ) → i + k ≤ n → (b : Bool) × (can_open t i k ch ≡ some b)
  unfolding can_open
  can_open_total i k ch h =
      let (f, e) = flank_total i k h in
      (if ch == 42 then f.left else f.left && (not f.right || f.pp), rw e refl)

  pub can_close_total : (i k ch : ℕ) → i + k ≤ n → (b : Bool) × (can_close t i k ch ≡ some b)
  unfolding can_close
  can_close_total i k ch h =
      let (f, e) = flank_total i k h in
      (if ch == 42 then f.right else f.right && (not f.left || f.npn), rw e refl)

  -- Behind an escaped character the text goes on.
  pub is_escape_total :
      (c j : ℕ) → j < n → (b : Bool) × (is_escape t c j ≡ some b) × (b ≡ true → j + 2 ≤ n)
  unfolding is_escape
  is_escape_total c j h = elim (Bool-cases (c == 92)) [
    | inr e ↦ (false, rw e refl, λ no_escape. absurd (cc))
    | inl e ↦
        let (d, e', before) = char_at t n nul (j + 1) (omega arith) in
        (not (d == 0), rw (e, e') refl, λ p. omega (arith, before (ground arith)))
  ]

  skip_code_total :
      (j : ℕ)
      → j ≤ n
      → get_elem? t j ≡ some 96
      → (j' : ℕ) × (skip_code t j ≡ some j') × (j < j') × (j' ≤ n)
  unfolding skip_code
  skip_code_total j h at =
      let (m, r, high, pos) = run_len_total t n nul j 96 (ground arith) h in
      let (o, r', w) = find_code_close_total j m high in
      let (j', e, low, high') = behind m o (pos at) high w in
      (j', rw (r, ◌>>=◌, r') (ap some e), low, high')
    where
      behind :
          (m : ℕ) (o : Option ℕ)
          → 0 < m
          → j + m ≤ n
          → Within (j + m + m) (n + 1) (Option.map (λ e. e + m) o)
          → (j' : ℕ) × (elim o [ none ↦ j + m | some e ↦ e + m ] ≡ j') × (j < j') × (j' ≤ n)
      behind m none pos high w = (j + m, refl, omega arith, high)
      behind m (some e) pos high w = (e + m, refl, omega arith, omega arith)

  closes_total : (j m k ch : ℕ) → j + m ≤ n → (b : Bool) × (closes t j m k ch ≡ some b)
  unfolding closes
  closes_total j m k ch h = elim (Bool-cases (m == k)) [
    | inr e ↦ (false, rw e refl)
    | inl e ↦ let (b, r) = can_close_total j k ch (ground arith) in (b, rw e r)
  ]

  emph_loop_total :
      (f j k ch : ℕ) → ch ≢ 0 → j ≤ n → n < f + j → (o : Option ℕ) × (emph_loop t f j k ch ≡ some o)
  unfolding emph_loop
  emph_loop_total zero j k ch nz h fuel = absurd (omega arith)
  emph_loop_total (suc f) j k ch nz h fuel =
      let (c, e, before) = char_at t n nul j h in
      elim (Bool-cases (c == 0)) [
        | inl z ↦ (none, rw (e, ◌>>=◌, z) refl)
        | inr z ↦
            let lt : j < n = before (ground arith) in
            let (esc, r, room) = is_escape_total c j lt in
            elim (Bool-cases esc) [
              | inl y ↦
                  let (o, ih) = emph_loop_total f (j + 2) k ch nz (room y) (omega arith) in
                  (o, rw (e, ◌>>=◌, z, r, ◌>>=◌, y) ih)
              | inr y ↦ elim (Bool-cases (c == 96)) [
                | inl q ↦
                    let (j', s, low, high) =
                      skip_code_total j h (e ∙ ap some ((==_iff c 96).0 q)) in
                    let (o, ih) = emph_loop_total f j' k ch nz high (omega arith) in
                    (o, rw (e, ◌>>=◌, z, r, ◌>>=◌, y, q, s) ih)
                | inr q ↦ elim (Bool-cases (c == ch)) [
                  | inr d ↦
                      let (o, ih) = emph_loop_total f (j + 1) k ch nz (omega arith) (omega arith) in
                      (o, rw (e, ◌>>=◌, z, r, ◌>>=◌, y, q, d) ih)
                  | inl d ↦
                      let (m, s, high, pos) = run_len_total t n nul j ch nz h in
                      let some_run : 0 < m = pos (e ∙ ap some ((==_iff c ch).0 d)) in
                      let (b, s') = closes_total j m k ch high in
                      let (o, ih) = emph_loop_total f (j + m) k ch nz high (omega arith) in
                      elim (Bool-cases b) [
                        | inl u ↦ (
                          some j,
                          rw (e, ◌>>=◌, z, r, ◌>>=◌, y, q, d, s, ◌>>=◌, s', ◌>>=◌, u) refl,
                        )
                        | inr u ↦
                            (o, rw (e, ◌>>=◌, z, r, ◌>>=◌, y, q, d, s, ◌>>=◌, s', ◌>>=◌, u) ih)
                      ]
                ]
              ]
            ]
      ]

  pub find_emph_close_total :
      (i k ch : ℕ) → ch ≢ 0 → i + k ≤ n → (o : Option ℕ) × (find_emph_close t i k ch ≡ some o)
  unfolding find_emph_close
  find_emph_close_total i k ch nz h =
      emph_loop_total (length t) (i + k) k ch nz h (omega (arith, n-lt t n nul))

  match_loop_total :
      (op cl f j depth : ℕ)
      → j ≤ n
      → n < f + j
      → (o : Option ℕ) × (match_loop t op cl f j depth ≡ some o) × Within j n o
  unfolding match_loop
  match_loop_total op cl zero j depth h fuel = absurd (omega arith)
  match_loop_total op cl (suc f) j depth h fuel =
      let (c, e, before) = char_at t n nul j h in
      elim (Bool-cases (c == 0)) [
        | inl z ↦ (none, rw (e, ◌>>=◌, z) refl, tt)
        | inr z ↦
            let lt : j < n = before (ground arith) in
            let (esc, r, room) = is_escape_total c j lt in
            let next = λ (d : ℕ). match_loop_total op cl f (j + 1) d (omega arith) (omega arith) in
            elim (Bool-cases esc) [
              | inl y ↦
                  let (o, ih, w) = match_loop_total op cl f (j + 2) depth (room y) (omega arith) in
                  (o, rw (e, ◌>>=◌, z, r, ◌>>=◌, y) ih, Within-mono j (j + 2) n o (omega arith) w)
              | inr y ↦ elim (Bool-cases (c == op)) [
                | inl q ↦
                    let (o, ih, w) = next (depth + 1) in
                    (
                      o,
                      rw (e, ◌>>=◌, z, r, ◌>>=◌, y, q) ih,
                      Within-mono j (j + 1) n o (omega arith) w,
                    )
                | inr q ↦ elim (Bool-cases (c == cl)) [
                  | inr d ↦
                      let (o, ih, w) = next depth in
                      (
                        o,
                        rw (e, ◌>>=◌, z, r, ◌>>=◌, y, q, d) ih,
                        Within-mono j (j + 1) n o (omega arith) w,
                      )
                  | inl d ↦ elim (Bool-cases (depth - 1 == 0)) [
                    | inl u ↦ (some j, rw (e, ◌>>=◌, z, r, ◌>>=◌, y, q, d, u) refl, omega arith)
                    | inr u ↦
                        let (o, ih, w) = next (depth - 1) in
                        (
                          o,
                          rw (e, ◌>>=◌, z, r, ◌>>=◌, y, q, d, u) ih,
                          Within-mono j (j + 1) n o (omega arith) w,
                        )
                  ]
                ]
              ]
            ]
      ]

  pub find_bracket_total :
      (i : ℕ) → i < n → (o : Option ℕ) × (find_bracket t i ≡ some o) × Within (i + 1) n o
  unfolding find_bracket
  find_bracket_total i h =
      match_loop_total 91 93 (length t) (i + 1) 1 (omega arith) (omega (arith, n-lt t n nul))

  pub find_paren_total :
      (j : ℕ) → j < n → (o : Option ℕ) × (find_paren t j ≡ some o) × Within (j + 1) n o
  unfolding find_paren
  find_paren_total j h =
      match_loop_total 40 41 (length t) (j + 1) 1 (omega arith) (omega (arith, n-lt t n nul))
