-- ===== src/Mdv/Scan/Total.antt =====
-- The look-ahead functions of tools/mdvref.py never leave a text that ends in a NUL, and never
-- run out of rounds.
use elf_dos.Base.{
  ℕ, zero, suc, ◌+◌, ◌≤◌, ◌<◌, true, Option, none, some, some-injective, List, ◌==◌, ==_iff, ◌>>=◌,
  length, get_elem?, ◌≡◌, ◌≢◌, refl, ap, sym, ◌∙◌, arith, Bool-cases, inl, inr, get_elem?-some,
  lt_of_get_elem?,
}
use mathlib.Core.Option
use elf_dos.Mdv.Scan.{run_loop, run_len, code_loop}

-- Where a look-ahead may end: behind `lo` and before `hi`, or nowhere.
abbrev pub Within : ℕ → ℕ → Option ℕ → Type 0
Within lo hi none = Unit
Within lo hi (some e) = (lo ≤ e) × (e < hi)

pub Within-mono : (lo lo' hi : ℕ) (o : Option ℕ) → lo ≤ lo' → Within lo' hi o → Within lo hi o
Within-mono lo lo' hi none h w = tt
Within-mono lo lo' hi (some e) h w = omega arith

-- The NUL of the text stands at `n`.
module _ (t : List ℕ) (n : ℕ) (nul : get_elem? t n ≡ some 0) where
  pub n-lt : n < length t
  n-lt = lt_of_get_elem? t n nul

  -- The character at a place up to the NUL; before the NUL, if it is no NUL.
  pub char_at : (j : ℕ) → j ≤ n → (c : ℕ) × (get_elem? t j ≡ some c) × (c ≢ 0 → j < n)
  char_at j h =
      let (c, e) = get_elem?-some t j (omega (arith, n-lt)) in
      (
        c,
        e,
        λ ne. elim (Bool-cases (j == n)) [
          | inl same ↦
              let q : get_elem? t j ≡ some 0 = ap (get_elem? t) ((==_iff j n).0 same) ∙ nul in
              absurd (ne (some-injective _ _ (sym e ∙ q)))
          | inr other ↦ ground arith
        ],
      )

  run_loop_total :
      (f i ch k : ℕ)
      → ch ≢ 0
      → i + k ≤ n
      → n < f + i + k
      → (m : ℕ) × (run_loop t f i ch k ≡ some m) × (k ≤ m) × (i + m ≤ n)
  unfolding run_loop
  run_loop_total zero i ch k nz h fuel = absurd (omega arith)
  run_loop_total (suc f) i ch k nz h fuel =
      let (c, e, before) = char_at (i + k) h in
      elim (Bool-cases (c == ch)) [
        | inr d ↦ (k, rw (e, ◌>>=◌, d) refl, omega arith, h)
        | inl s ↦
            let lt : i + k < n = before (λ z. nz (ground arith)) in
            let (m, r, low, high) = run_loop_total f i ch (k + 1) nz (omega arith) (omega arith) in
            (m, rw (e, ◌>>=◌, s) r, omega arith, high)
      ]

  -- A run that starts at `i` has a character.
  run_loop_starts :
      (f i ch m : ℕ)
      → ch ≢ 0
      → i < n
      → n < f + i
      → get_elem? t i ≡ some ch
      → run_loop t f i ch 0 ≡ some m
      → 0 < m
  unfolding run_loop
  run_loop_starts zero i ch m nz h fuel e r = absurd (omega arith)
  run_loop_starts (suc f) i ch m nz h fuel e r =
      let e' : get_elem? t (i + 0) ≡ some ch = ap (get_elem? t) {x = i + 0} (omega arith) ∙ e in
      let (m', r', low, high) = run_loop_total f i ch (0 + 1) nz (omega arith) (omega arith) in
      let d : (ch == ch) ≡ true = ground arith in
      let q : run_loop t f i ch (0 + 1) ≡ some m = rw (e', ◌>>=◌, d) at r in
      let same : m' ≡ m = some-injective _ _ (sym r' ∙ q) in omega arith

  -- The run of `ch` at `i` is counted, and ends before the NUL.
  pub run_len_total :
      (i ch : ℕ)
      → ch ≢ 0
      → i ≤ n
      → (m : ℕ) × (run_len t i ch ≡ some m) × (i + m ≤ n) × (get_elem? t i ≡ some ch → 0 < m)
  unfolding run_len
  run_len_total i ch nz h =
      let (m, r, low, high) =
        run_loop_total (length t) i ch 0 nz (omega arith) (omega (arith, n-lt)) in
      (
        m,
        r,
        high,
        λ e.
            let (c, e', before) = char_at i h in
            let same : c ≡ ch = some-injective _ _ (sym e' ∙ e) in
            run_loop_starts (length t) i ch m nz (before (λ z. nz (sym same ∙ z)))
              (omega (arith, n-lt)) e r,
      )

  pub code_loop_total :
      (f j k : ℕ)
      → j ≤ n
      → n < f + j
      → (o : Option ℕ) × (code_loop t f j k ≡ some o)
        × Within (j + k) (n + 1) (Option.map (λ e. e + k) o)
  unfolding code_loop
  code_loop_total zero j k h fuel = absurd (omega arith)
  code_loop_total (suc f) j k h fuel =
      let (c, e, before) = char_at j h in
      elim (Bool-cases (c == 0)) [
        | inl z ↦ (none, rw (e, ◌>>=◌, z) refl, tt)
        | inr nz ↦
            let lt : j < n = before (ground arith) in
            elim (Bool-cases (c == 96)) [
              | inr d ↦
                  let (o, r, w) = code_loop_total f (j + 1) k (omega arith) (omega arith) in
                  (
                    o,
                    rw (e, ◌>>=◌, nz, d) r,
                    Within-mono (j + k) (j + 1 + k) (n + 1) _ (omega arith) w,
                  )
              | inl s ↦
                  let (m, r, high, pos) = run_len_total j 96 (ground arith) h in
                  let starts : 0 < m = pos (e ∙ ap some ((==_iff c 96).0 s)) in
                  elim (Bool-cases (m == k)) [
                    | inl q ↦ (some j, rw (e, ◌>>=◌, nz, s, r, ◌>>=◌, q) refl, ground arith)
                    | inr q ↦
                        let (o, r', w) = code_loop_total f (j + m) k (omega arith) (omega arith) in
                        (
                          o,
                          rw (e, ◌>>=◌, nz, s, r, ◌>>=◌, q) r',
                          Within-mono (j + k) (j + m + k) (n + 1) _ (omega arith) w,
                        )
                  ]
            ]
      ]
