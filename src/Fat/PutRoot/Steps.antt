-- ===== src/Fat/PutRoot/Steps.antt =====
-- The steps of a run of `putroot` of tools/fat12-proto/fatx.py that ends well, and the names it
-- splits.
use elf_dos.Base.{
  All-append, Bool, true, false, Option, ℕ, ◌+◌, ◌-◌, ◌*◌, ◌/◌, ◌≡◌, ◌≢◌, refl, sym, ap, ◌∙◌, some,
  some-injective, List, [], ◌∷◌, arith, length, take, max, All, bind-some, ◌==◌, ◌>>◌, require, not,
}
use elf_dos.Base.Int.{pos_part}
use elf_dos.Fat.Names.{split, is_empty}
use elf_dos.Fat.Names.Laws.{IsPlain, split_whole, split_first}
use elf_dos.Fat.Vol.{Vol, sec, free_from, link, flush, put_data}
use elf_dos.Fat.Dir.{root_sectors, dotted, nonempty}
use elf_dos.Fat.PutRoot.{base_ext, dir_entry, put_entry, first_of, putroot}
use elf_dos.Fat.PutRoot.Slot.{IsShort}

pub record Steps (v : Vol) (be : List ℕ × List ℕ) (bytes free : List ℕ) (v' : Vol) : Type 0 where
  pub all : List ℕ
  pub listed : free_from v (pos_part v.count) 2 ≡ some all
  pub need : ℕ
  pub taken : free ≡ take need all
  pub first : ℕ
  pub rest : List ℕ
  pub parts : free ≡ first ∷ rest
  pub mid : Vol
  pub linked : link v free 0 bytes ≡ some mid
  pub e : List ℕ
  pub built : dir_entry be.0 be.1 first (length bytes) ≡ some e
  pub entered : put_entry (root_sectors v) v.rootsec e (flush mid) ≡ some v'

first_of-cons :
    (free : List ℕ) (c : ℕ) → first_of free ≡ some c → (rest : List ℕ) × (free ≡ c ∷ rest)
first_of-cons [] c h = absurd (cc)
first_of-cons (x ∷ rest) c h = (rest, ap (λ y. y ∷ rest) (some-injective _ _ h))

require-bind : {A : Type 0} (b : Bool) (o : Option A) (a : A) → require b >> o ≡ some a → o ≡ some a
require-bind true o a h = h
require-bind false o a h = absurd (cc)

put_data-steps :
    (v : Vol) (bytes free : List ℕ) (w : Vol)
    → put_data v bytes ≡ some (free, w)
    → (all : List ℕ) × (mid : Vol) × (need : ℕ) × (free_from v (pos_part v.count) 2 ≡ some all)
      × (free ≡ take need all)
      × (link v free 0 bytes ≡ some mid)
      × (w ≡ flush mid)
unfolding put_data
put_data-steps v bytes free w h =
    let csz : ℕ = v.spc * sec in
    let need : ℕ = max 1 ((length bytes + csz - 1) / csz) in
    let h1 = require-bind (not (csz == 0)) _ (free, w) h in
    let (all, a, h2) = bind-some (free_from v (pos_part v.count) 2) _ h1 in
    let (mid, l, h3) = bind-some (link v (take need all) 0 bytes) _ h2 in
    let same = some-injective _ _ h3 in
    let f : free ≡ take need all = sym (ap (λ (x : List ℕ × Vol). x.0) same) in
    (
      all,
      mid,
      need,
      a,
      f,
      ap (λ t. link v t 0 bytes) f ∙ l,
      sym (ap (λ (x : List ℕ × Vol). x.1) same),
    )

pub putroot-Steps :
    (v : Vol) (name bytes free : List ℕ) (v' : Vol)
    → putroot v name bytes ≡ some (free, v')
    → Steps v (base_ext (split b'.' name)) bytes free v'
unfolding putroot
putroot-Steps v name bytes free v' h =
    let (p, d, h1) = bind-some (put_data v bytes) _ h in
    let (first, f, h2) = bind-some (first_of p.0) _ h1 in
    let be = base_ext (split b'.' name) in
    let (e, b, h3) = bind-some (dir_entry be.0 be.1 first (length bytes)) _ h2 in
    let (w, n, h4) = bind-some (put_entry (root_sectors v) v.rootsec e p.1) _ h3 in
    let same = some-injective _ _ h4 in
    let is_free : p.0 ≡ free = ap (λ (x : List ℕ × Vol). x.0) same in
    let (rest, c) = first_of-cons p.0 first f in
    let (all, mid, need, a, t, l, fl) = put_data-steps v bytes p.0 p.1 d in
    record {
      all = all;
      listed = a;
      need = need;
      taken = sym is_free ∙ t;
      first = first;
      rest = rest;
      parts = sym is_free ∙ c;
      mid = mid;
      linked = ap (λ t. link v t 0 bytes) (sym is_free) ∙ l;
      e = e;
      built = b;
      entered =
          ap (λ x. put_entry (root_sectors v) v.rootsec e x) (sym fl)
          ∙ n
          ∙ ap some (ap (λ (x : List ℕ × Vol). x.1) same);
    }

-- The name splits into its two parts at the dot, and is one part of a path.
plain_other :
    (sep : ℕ) (s : List ℕ) → ((c : ℕ) → IsPlain c → c ≢ sep) → All IsPlain s → All (λ c. c ≢ sep) s
plain_other sep [] h p = tt
plain_other sep (c ∷ s) h p = (h c p.0, plain_other sep s h p.1)

pub split-dotted :
    (base ext : List ℕ) → IsShort base ext → base_ext (split b'.' (dotted base ext)) ≡ (base, ext)
unfolding base_ext
split-dotted base [] s =
    ap base_ext (split_whole b'.' [] base (plain_other b'.' base (λ c p. p.2) s.base_plain))
split-dotted base (x ∷ ext) s = ap base_ext (
    split_first b'.' [] base (x ∷ ext) (plain_other b'.' base (λ c p. p.2) s.base_plain)
    ∙ ap (λ t. base ∷ t)
        (split_whole b'.' [] (x ∷ ext) (plain_other b'.' (x ∷ ext) (λ c p. p.2) s.ext_plain)))

dotted_no_slash : (base ext : List ℕ) → IsShort base ext → All (λ c. c ≢ b'/') (dotted base ext)
dotted_no_slash base [] s = plain_other b'/' base (λ c p. p.3) s.base_plain
dotted_no_slash base (x ∷ ext) s =
    All-append (λ c. c ≢ b'/') base (b'.' ∷ x ∷ ext)
      (plain_other b'/' base (λ c p. p.3) s.base_plain)
      (omega arith, plain_other b'/' (x ∷ ext) (λ c p. p.3) s.ext_plain)

dotted_some : (base ext : List ℕ) → IsShort base ext → is_empty (dotted base ext) ≡ false
dotted_some [] ext s = absurd (let h = s.some_base in omega (arith, h))
dotted_some (c ∷ base) [] s = refl
dotted_some (c ∷ base) (x ∷ ext) s = refl

pub path-dotted :
    (base ext : List ℕ)
    → IsShort base ext
    → nonempty (split b'/' (dotted base ext)) ≡ dotted base ext ∷ []
unfolding nonempty
path-dotted base ext s =
    ap nonempty (split_whole b'/' [] (dotted base ext) (dotted_no_slash base ext s))
    ∙ rw (nonempty, dotted_some base ext s) refl
