-- ===== src/Base/Words.antt =====
-- Two neighbouring elements written at once, as for a 16-bit word in an array of bytes.
use elf_dos.Base.{
  ℕ, ◌+◌, ◌<◌, ◌≡◌, ◌∙◌, inl, inr, some, List, arith, ◌==◌, ==_iff, Bool-cases, if◌then◌else◌,
  length, get_elem?, set, get_elem?-set_self, get_elem?-set_ne, length-set,
}

-- A write at two neighbouring places, read at any place.
pub get_elem?-set-set :
    (xs : List ℕ) (o a b j : ℕ)
    → o + 1 < length xs
    → get_elem? (set (set xs o a) (o + 1) b) j
      ≡ (if j == o + 1 then some b else if j == o then some a else get_elem? xs j)
get_elem?-set-set xs o a b j h = elim (Bool-cases (j == o + 1)) [
  | inl e ↦
      let e' : j ≡ o + 1 = (==_iff j (o + 1)).0 e in
      rw e (rw e' (get_elem?-set_self (set xs o a) (o + 1) b (omega (arith, length-set xs o a))))
  | inr n ↦
      let one : get_elem? (set (set xs o a) (o + 1) b) j ≡ get_elem? (set xs o a) j =
        get_elem?-set_ne (set xs o a) (o + 1) j b (ground arith) in
      elim (Bool-cases (j == o)) [
        | inl e ↦
            let e' : j ≡ o = (==_iff j o).0 e in
            rw (n, e) (one ∙ rw e' (get_elem?-set_self xs o a (omega arith)))
        | inr m ↦ rw (n, m) (one ∙ get_elem?-set_ne xs o j a (ground arith))
      ]
]
