-- ===== src/Sim/Cache/Coherence.antt =====
-- The mocked sector cache shows the table that it had before, with the sector asked for in the buffer.
use elf_dos.Base.{
  ℕ, ◌+◌, ◌/◌, ◌^◌, ◌≤◌, ◌<◌, ◌≡◌, refl, sym, ap, ◌∙◌, false, not, some, List, arith, ◌==◌,
  if◌then◌else◌, length, get_elem?, set, inl, inr, All, Gives, Bool-cases, lt_of_get_elem?,
  get_elem?-some, All-get_elem?, ==_iff, subst,
}
use elf_dos.Sim.Cpu.{Cpu, rd}
use elf_dos.Sim.Cache.{
  World, Symbols, current, is_dirty, buffer, clobber, fill, load_sector, fls, join, effective,
}
use elf_dos.Sim.Cache.Memory.{IsPlaced, fill_dirty, current-fill, buffer-fill, fill_else}
use elf_dos.Sim.Cache.View.{view, IsCoherent, HasLoaded, effective-view, hit, evicted, sized_view}

module _ (a : Symbols) (p : IsPlaced a) (rnd : ℕ → ℕ) (idx : ℕ) (bytes : List ℕ) (w : World)
    (c : Cpu) where
  -- The CPU after a sector was read.
  abbrev filled : Cpu
  filled = record (clobber rnd (fill a idx bytes c)) { df = 0 }

  filled_dirty : is_dirty a filled ≡ false
  unfolding rd
  filled_dirty = ap (λ k. not (k == 0)) (fill_dirty a p idx bytes c)

  filled-current : idx < 256 → current a filled ≡ idx
  unfolding current rd
  filled-current small = current-fill a p idx bytes c small

  filled-IsCoherent :
      length w.disk ≤ 256
      → All (λ b. length b ≡ 512) w.disk
      → get_elem? w.disk idx ≡ some bytes
      → IsCoherent a (record w { reads = w.reads + 1 }, filled)
  filled-IsCoherent few sized e =
      let lt = lt_of_get_elem? w.disk idx e in
      let len : length bytes ≡ 512 = All-get_elem? (λ b. length b ≡ 512) w.disk idx sized e in
      let cur = filled-current (omega arith) in
      let buf = buffer-fill a p idx bytes c len in
      record {
        few = few;
        sized = sized;
        of_disk = λ d. absurd (let n = filled_dirty in cc (d, n));
        clean = λ d n. rw (cur, buf) e;
      }

-- The sector is read into the buffer.
miss :
    (a : Symbols) (p : IsPlaced a) (rnd : ℕ → ℕ) (idx : ℕ) (w : World) (c : Cpu) (e : World × Cpu)
    (bytes : List ℕ)
    → IsCoherent a (w, c)
    → (e.0.disk ≡ view a (w, c)) × (e.1.m ≡ c.m)
    → get_elem? e.0.disk idx ≡ some bytes
    → HasLoaded a idx
        (w, c)
        (record e.0 { reads = e.0.reads + 1 }, filled a p rnd idx bytes e.0 e.1)
miss a p rnd idx w c e bytes h (disk, m) g =
    let (sized, long) = sized_view a w c h in
    let sized' : All (λ b. length b ≡ 512) e.0.disk = rw disk sized in
    let few : length e.0.disk ≤ 256 = rw disk (omega (arith, long, h.few)) in
    let len : length bytes ≡ 512 = All-get_elem? (λ b. length b ≡ 512) e.0.disk idx sized' g in
    let lt = lt_of_get_elem? e.0.disk idx g in
    let clean = filled_dirty a p rnd idx bytes e.0 e.1 in
    record {
      no_error = refl;
      is_current = filled-current a p rnd idx bytes e.0 e.1 (omega arith);
      in_buffer =
          ap (λ v. get_elem? v idx) (sym disk)
          ∙ g
          ∙ ap some (sym (buffer-fill a p idx bytes e.1 len));
      same_view =
          ap
            (λ b.
              if b
              then set e.0.disk (current a (filled a p rnd idx bytes e.0 e.1))
                  (buffer a (filled a p rnd idx bytes e.0 e.1))
              else e.0.disk)
            clean
          ∙ disk;
      coherent = filled-IsCoherent a p rnd idx bytes e.0 e.1 few sized' g;
      elsewhere = λ j out x y z. fill_else a p idx bytes e.1 j len out x y z ∙ ap (λ n. n j) m;
    }

loads :
    (a : Symbols) (rnd : ℕ → ℕ) (w : World) (c : Cpu)
    → IsPlaced a
    → IsCoherent a (w, c)
    → c.r 13 / 2 ^ 8 < length w.disk
    → Gives (HasLoaded a (c.r 13 / 2 ^ 8) (w, c)) (load_sector a rnd (w, c))
unfolding load_sector
loads a rnd w c p h lt =
    let idx : ℕ = c.r 13 / 2 ^ 8 in
    elim (Bool-cases (current a c == idx)) [
      | inl e ↦
          let q : current a c ≡ idx = (==_iff _ _).0 e in
          rw e (
            _,
            refl,
            subst (λ (k : ℕ). HasLoaded a k (w, c) (w, record (clobber rnd c) { df = 0 })) q
                (hit a rnd w c h (rw q lt)),
          )
      | inr e ↦
          let (s, eq, same) = evicted a rnd w c h in
          let in_disk : idx < length s.0.disk = rw same.0 (omega (arith, (sized_view a w c h).1)) in
          let (bytes, g) = get_elem?-some s.0.disk idx in_disk in
          rw (e, eq, g) (_, refl, miss a p rnd idx w c s bytes h same g)
    ]

no_error_to_come :
    (a : Symbols) (rnd : ℕ → ℕ) (w : World) (c : Cpu)
    → w.fail_next ≡ false
    → fls a rnd (w, c) ≡ load_sector a rnd (w, c)
unfolding fls
no_error_to_come a rnd w c ok =
    ap
      (λ b.
        if b
        then some (record w { fail_next = false }, clobber rnd (record c { df = 1 }))
        else load_sector a rnd (w, c))
      ok

-- A call of the cache's hook for a sector of the disk, with no error to come, succeeds. The table as
-- the kernel sees it is the same before and after, the sector asked for is in the buffer, and the
-- cache stays coherent.
pub fls-coherent :
    (a : Symbols) (rnd : ℕ → ℕ) (w : World) (c : Cpu)
    → IsPlaced a
    → IsCoherent a (w, c)
    → w.fail_next ≡ false
    → c.r 13 / 2 ^ 8 < length w.disk
    → (t : World × Cpu) × (fls a rnd (w, c) ≡ some t)
      × HasLoaded a (c.r 13 / 2 ^ 8) (w, c) t
      × (effective a t ≡ effective a (w, c))
fls-coherent a rnd w c p h ok lt =
    let (t, e, k) = loads a rnd w c p h lt in
    (
      t,
      no_error_to_come a rnd w c ok ∙ e,
      k,
      effective-view a t k.coherent
          ∙ ap (λ v. some (join v)) k.same_view
          ∙ sym (effective-view a (w, c) h),
    )
