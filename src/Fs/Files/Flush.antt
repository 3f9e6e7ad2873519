-- ===== src/Fs/Files/Flush.antt =====
-- What `file_flush` and `fs_sync` of lab/fs/fs.c flush: every block of the file, and every block of
-- the disk.
use mathlib.Core.Path.{subst}
use native.Mathlib.Decide.{ℕ_discrete}
use cse.Base.{
  ℕ, zero, suc, ◌+◌, ◌-◌, ◌*◌, ◌^◌, ◌≤◌, ◌<◌, ◌||◌, leb, true, false, some, List, ◌∷◌, elem, ◌==◌,
  ◌≡◌, ◌≢◌, ◌⊎◌, inl, inr, refl, sym, ap, ◌∙◌, arith, ==_refl,
}
use cse.Fs.{Disk, ◌>>=◌, File, blksize, diskaddr, flush, file_block_walk, nblocks_of}
use cse.Fs.Alloc.{diskaddr-eq}
use cse.Fs.Files.{flush_rounds, flush_slot, flush_from, flush_own, file_flush, sync_from, fs_sync}
use cse.Fs.Files.Read.{block_no, NoHoles, bind-some, ==0-false, file_block_walk-eq, read_slot-slot}

elem-cons : (a b : ℕ) (xs : List ℕ) → elem a xs ≡ true → elem a (b ∷ xs) ≡ true
elem-cons a b xs h = ground (arith, h)

-- `d` with the blocks `fl` flushed.
abbrev pub after : Disk → List ℕ → Disk
after d fl = record d { flushed = fl }

pub NoHoles-after : (f : File) (d : Disk) (fl : List ℕ) → NoHoles f d → NoHoles f (after d fl)
NoHoles-after f d fl v = record { size = v.size; blocks = v.blocks; indirect = v.indirect }

module _ (f : File) (d : Disk) (whole : NoHoles f d) where
  flush_one :
      (n : ℕ) (fl : List ℕ)
      → n * blksize < f.f_size
      → (file_block_walk n false f >>= flush_slot) (after d fl)
        ≡ some (tt, after d (block_no f d n ∷ fl))
  flush_one n fl h =
      let (pos, inside) = whole.blocks n h in
      let w = NoHoles-after f d fl whole in
      bind-some (file_block_walk n false f) flush_slot
        (file_block_walk-eq f (after d fl) w n false h)
      ∙ rw (read_slot-slot f (after d fl) w n) (
          rw (==0-false (block_no f d n) pos) (
            bind-some (diskaddr (block_no f d n)) (λ b d'. some (tt, flush b d'))
              (diskaddr-eq (block_no f d n) (after d fl) pos inside)))

  flush_from_lem :
      (rounds i : ℕ) (fl : List ℕ)
      → ((n : ℕ) → i ≤ n → n < i + rounds → n * blksize < f.f_size)
      → (fl' : List ℕ) × (flush_from rounds i f (after d fl) ≡ some (tt, after d fl'))
        × ((n : ℕ) → i ≤ n → n < i + rounds → elem (block_no f d n) fl' ≡ true)
        × ((b : ℕ) → elem b fl ≡ true → elem b fl' ≡ true)
  unfolding flush_from
  flush_from_lem zero i fl inside =
      (fl, refl, λ n from below. absurd (omega (arith, from, below)), λ b h. h)
  flush_from_lem (suc rounds) i fl inside =
      let b = block_no f d i in
      let (fl', run, covers, keeps) =
        flush_from_lem rounds (i + 1) (b ∷ fl)
          (λ n from below. inside n (omega (arith, from)) (omega (arith, below))) in
      (
        fl',
        bind-some (file_block_walk i false f >>= flush_slot) (λ u. flush_from rounds (i + 1) f)
              (flush_one i fl (inside i (omega arith) (omega arith)))
            ∙ run,
        λ n from below. elim (ℕ_discrete n i) [
          | yes e ↦
              subst (λ x. elem (block_no f d x) fl' ≡ true) (sym e) (keeps b (rw (==_refl b) refl))
          | no ne ↦ covers n (omega (arith, from, ne)) (omega (arith, below))
        ],
        λ c h. keeps c (elem-cons c b fl h),
      )

  flush_own_lem :
      (home : ℕ) (fl : List ℕ)
      → (f.f_indirect ≡ 0) ⊎ (f.f_indirect < d.s_nblocks)
      → (fl' : List ℕ) × (flush_own home f (after d fl) ≡ some (tt, after d fl'))
        × (elem home fl' ≡ true)
        × ((b : ℕ) → elem b fl ≡ true → elem b fl' ≡ true)
        × (((f.f_indirect == 0) || elem f.f_indirect fl') ≡ true)
  flush_own_lem home fl where_is = elim (ℕ_discrete f.f_indirect 0) [
    | yes z ↦ (
      home ∷ fl,
      rw (ap (λ n. n == 0) z) refl,
      rw (==_refl home) refl,
      λ b h. elem-cons b home fl h,
      ground (arith, z),
    )
    | no nz ↦ (
      f.f_indirect ∷ home ∷ fl,
      rw (==0-false f.f_indirect (omega (arith, nz))) (
          bind-some (diskaddr f.f_indirect) (λ b d'. some (tt, flush b d'))
            (diskaddr-eq f.f_indirect (flush home (after d fl)) (omega (arith, nz)) (on_disk nz))),
      elem-cons home f.f_indirect (home ∷ fl) (rw (==_refl home) refl),
      λ b h. elem-cons b f.f_indirect (home ∷ fl) (elem-cons b home fl h),
      rw (==_refl f.f_indirect) (ground arith),
    )
  ]
    where
      on_disk : f.f_indirect ≢ 0 → f.f_indirect < d.s_nblocks
      on_disk nz = elim where_is [ inl z ↦ absurd (nz z) | inr l ↦ l ]

flush_rounds-eq : (f : File) (d : Disk) → NoHoles f d → flush_rounds f.f_size ≡ nblocks_of f.f_size
flush_rounds-eq f d whole = rw short refl
  where
    short : leb (2 ^ 31) f.f_size ≡ false
    short = ground (arith, whole.size)

-- `file_flush` ends, and only adds to the blocks that have been flushed.
pub file_flush-after :
    (home : ℕ) (f : File) (d : Disk)
    → NoHoles f d
    → (f.f_indirect ≡ 0) ⊎ (f.f_indirect < d.s_nblocks)
    → (fl : List ℕ) × (file_flush home f d ≡ some (tt, after d fl))
unfolding file_flush
file_flush-after home f d whole where_is =
    let all : (flush_rounds f.f_size ≡ nblocks_of f.f_size) = flush_rounds-eq f d whole in
    let (fl, run, covers, keeps) =
      flush_from_lem f d whole (flush_rounds f.f_size) 0 d.flushed
        (λ m from below. omega (arith, below, all)) in
    let (fl', own, at_home, keeps', indirect) = flush_own_lem f d whole home fl where_is in
    (fl', bind-some (flush_from (flush_rounds f.f_size) 0 f) (λ u. flush_own home f) run ∙ own)

-- On a file without holes, whose indirect block, if it has one, is on the disk, `file_flush` ends,
-- changes no block, and has flushed every block of the file, the block that holds its `struct
-- File`, and the indirect block if there is one.
pub file_flush_lem :
    (home n : ℕ) (f : File) (d : Disk)
    → NoHoles f d
    → (f.f_indirect ≡ 0) ⊎ (f.f_indirect < d.s_nblocks)
    → n * blksize < f.f_size
    → (d' : Disk) × (file_flush home f d ≡ some (tt, d'))
      × (d'.words ≡ d.words)
      × (elem (block_no f d n) d'.flushed ≡ true)
      × (elem home d'.flushed ≡ true)
      × (((f.f_indirect == 0) || elem f.f_indirect d'.flushed) ≡ true)
unfolding file_flush
file_flush_lem home n f d whole where_is h =
    let all : (flush_rounds f.f_size ≡ nblocks_of f.f_size) = flush_rounds-eq f d whole in
    let (fl, run, covers, keeps) =
      flush_from_lem f d whole (flush_rounds f.f_size) 0 d.flushed
        (λ m from below. omega (arith, below, all)) in
    let (fl', own, at_home, keeps', indirect) = flush_own_lem f d whole home fl where_is in
    (
      after d fl',
      bind-some (flush_from (flush_rounds f.f_size) 0 f) (λ u. flush_own home f) run ∙ own,
      refl,
      keeps' (block_no f d n) (covers n (omega arith) (omega (arith, h, all))),
      at_home,
      indirect,
    )

sync_from_lem :
    (rounds i : ℕ) (d : Disk) (fl : List ℕ)
    → 0 < i
    → i + rounds ≤ d.s_nblocks
    → (fl' : List ℕ) × (sync_from rounds i (after d fl) ≡ some (tt, after d fl'))
      × ((b : ℕ) → i ≤ b → b < i + rounds → elem b fl' ≡ true)
      × ((b : ℕ) → elem b fl ≡ true → elem b fl' ≡ true)
unfolding sync_from
sync_from_lem zero i d fl pos room =
    (fl, refl, λ b from below. absurd (omega (arith, from, below)), λ b h. h)
sync_from_lem (suc rounds) i d fl pos room =
    let (fl', run, covers, keeps) =
      sync_from_lem rounds (i + 1) d (i ∷ fl) (omega arith) (omega (arith, room)) in
    (
      fl',
      bind-some (diskaddr i >>= λ b s. some (tt, flush b s)) (λ u. sync_from rounds (i + 1))
            (bind-some (diskaddr i) (λ b s. some (tt, flush b s))
              (diskaddr-eq i (after d fl) pos (omega (arith, room))))
          ∙ run,
      λ b from below. elim (ℕ_discrete b i) [
        | yes e ↦ subst (λ x. elem x fl' ≡ true) (sym e) (keeps i (rw (==_refl i) refl))
        | no ne ↦ covers b (omega (arith, from, ne)) (omega (arith, below))
      ],
      λ b h. keeps b (elem-cons b i fl h),
    )

-- `fs_sync` ends, changes no block, and has flushed every block of the disk but block 0.
pub fs_sync_lem :
    (d : Disk) (b : ℕ)
    → 0 < b
    → b < d.s_nblocks
    → (d' : Disk) × (fs_sync d ≡ some (tt, d')) × (d'.words ≡ d.words) × (elem b d'.flushed ≡ true)
unfolding fs_sync
fs_sync_lem d b pos inside =
    let (fl, run, covers, keeps) =
      sync_from_lem (d.s_nblocks - 1) 1 d d.flushed (omega arith) (omega (arith, inside)) in
    (after d fl, run, refl, covers b (omega (arith, pos)) (omega (arith, inside)))
