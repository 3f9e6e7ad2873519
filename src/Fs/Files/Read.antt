-- ===== src/Fs/Files/Read.antt =====
-- What `file_read` of lab/fs/fs.c gives on a file without holes: the bytes of the file from the
-- offset on, as many as were asked for and are there.
use mathlib.Core.Path.{fun_ext, ap₂}
use cse.Base.{
  ◌^◌, Bool, ℕ, zero, suc, ◌+◌, ◌-◌, ◌*◌, ◌/◌, ◌%◌, ◌≤◌, ◌<◌, min, ◌&&◌, true, false, some, leb,
  ltb, ◌==◌, if◌then◌else◌, ◌≡◌, ◌⊎◌, inl, inr, refl, sym, ap, ◌∙◌, arith, Bool-cases, ltb→lt,
}
use cse.Fs.{
  Disk, D, pure, ◌>>=◌, get_at, File, ok, blksize, ndirect, nindirect, diskaddr, Slot,
  indirect_slot, direct, in_block, read_slot, file_block_walk, file_get_block,
}
use cse.Fs.Alloc.{diskaddr-eq}
use cse.Fs.Files.{byte_at, copy_out, read_loop, file_read}

-- The disk block of the `n`-th block of a file.
abbrev pub block_no : File → Disk → ℕ → ℕ
block_no f d n = if ltb n ndirect then f.f_direct n else d.words f.f_indirect (n - ndirect)

abbrev pub slot : ℕ → ℕ → Slot
slot b n = if ltb n ndirect then direct n else in_block b (n - ndirect)

-- Byte `x` of a file.
abbrev pub byte_of : File → Disk → ℕ → ℕ
byte_of f d x = byte_at d (block_no f d (x / blksize)) (x % blksize)

-- Every block of the file is allocated and on the disk.
pub record NoHoles (f : File) (d : Disk) : Type 0 where
  pub size : f.f_size ≤ (ndirect + nindirect) * blksize
  pub blocks :
      (n : ℕ) → n * blksize < f.f_size → (0 < block_no f d n) × (block_no f d n < d.s_nblocks)
  pub indirect : ndirect * blksize < f.f_size → (0 < f.f_indirect) × (f.f_indirect < d.s_nblocks)

pub bind-some :
    {A B : Type 0} (m : D A) (k : A → D B) {a : A} {d d' : Disk}
    → m d ≡ some (a, d')
    → (m >>= k) d ≡ k a d'
bind-some m k e = rw (◌>>=◌, e) refl

pub ==0-false : (n : ℕ) → 0 < n → (n == 0) ≡ false
==0-false n h = ground arith

leb-false : (a b : ℕ) → b < a → leb a b ≡ false
leb-false a b h = ground arith

module _ (f : File) (d : Disk) (whole : NoHoles f d) where
  indirect_slot-eq :
      (n : ℕ)
      → 0 < f.f_indirect
      → f.f_indirect < d.s_nblocks
      → indirect_slot n f d ≡ some ((ok (in_block f.f_indirect (n - ndirect)), f), d)
  indirect_slot-eq n pos inside =
      bind-some (diskaddr f.f_indirect) (λ b. pure (ok (in_block b (n - ndirect)), f))
        (diskaddr-eq f.f_indirect d pos inside)

  pub file_block_walk-eq :
      (n : ℕ) (alloc : Bool)
      → n * blksize < f.f_size
      → file_block_walk n alloc f d ≡ some ((ok (slot f.f_indirect n), f), d)
  unfolding file_block_walk diskaddr
  file_block_walk-eq n alloc h = elim (Bool-cases (ltb n ndirect)) [
    | inl low ↦ rw (low, leb-false (ndirect + nindirect) n small) refl
    | inr high ↦
        let (pos, inside) = whole.indirect (ground (arith, h, high)) in
        rw (high, leb-false (ndirect + nindirect) n small)
          (rw (==0-false f.f_indirect pos) (indirect_slot-eq n pos inside))
  ]
    where
      small : n < ndirect + nindirect
      small = omega (arith, h, whole.size)

  pub read_slot-slot : (n : ℕ) → read_slot (slot f.f_indirect n) f d ≡ block_no f d n
  read_slot-slot n = elim (Bool-cases (ltb n ndirect)) [
    | inl low ↦ rw low refl
    | inr high ↦ rw high refl
  ]

  pub file_get_block-eq :
      (n : ℕ) → n * blksize < f.f_size → file_get_block n f d ≡ some ((ok (block_no f d n), f), d)
  unfolding file_get_block
  file_get_block-eq n h =
      let (pos, inside) = whole.blocks n h in
      bind-some (file_block_walk n true f) get_at (file_block_walk-eq n true h)
      ∙ rw (read_slot-slot n, ==0-false (block_no f d n) pos)
          (bind-some (diskaddr (block_no f d n)) (λ a. pure (ok a, f))
            (diskaddr-eq (block_no f d n) d pos inside))

  -- The buffer with `n` bytes of the file from `pos` on at index `i`.
  abbrev filled : ℕ → ℕ → ℕ → (ℕ → ℕ) → ℕ → ℕ
  filled i n pos buf k = if leb i k && ltb k (i + n) then byte_of f d (pos + (k - i)) else buf k

  in_chunk :
      (i bn pos k : ℕ)
      → pos % blksize + bn ≤ blksize
      → i ≤ k
      → k < i + bn
      → byte_of f d (pos + (k - i))
        ≡ byte_at d (block_no f d (pos / blksize)) (pos % blksize + (k - i))
  in_chunk i bn pos k room from below =
      ap₂ (λ b j. byte_at d (block_no f d b) j) (omega (arith, room, from, below))
        (omega (arith, room, from, below))

  beyond :
      (i bn pos k : ℕ)
      → i + bn ≤ k
      → byte_of f d (pos + bn + (k - (i + bn))) ≡ byte_of f d (pos + (k - i))
  beyond i bn pos k from = ap (byte_of f d) (omega (arith, from))

  filled-split :
      (i n bn pos : ℕ) (buf : ℕ → ℕ) (k : ℕ)
      → bn ≤ n
      → pos % blksize + bn ≤ blksize
      → filled
          (i + bn)
          (n - bn)
          (pos + bn)
          (copy_out d (block_no f d (pos / blksize)) (pos % blksize) i bn buf)
          k
        ≡ filled i n pos buf k
  filled-split i n bn pos buf k le room = elim (Bool-cases (leb i k && ltb k (i + bn))) [
    | inl inside ↦
        rw (now_out inside, inside)
          (rw (whole_in inside)
            (sym (in_chunk i bn pos k room (ground (arith, inside)) (ground (arith, inside)))))
    | inr outside ↦ elim (Bool-cases (leb (i + bn) k && ltb k (i + bn + (n - bn)))) [
      | inl later ↦ rw (later, still later) (beyond i bn pos k (ground (arith, later)))
      | inr never ↦ rw (never, outside, neither outside never) refl
    ]
  ]
    where
      now_out :
          (leb i k && ltb k (i + bn)) ≡ true → (leb (i + bn) k && ltb k (i + bn + (n - bn))) ≡ false
      now_out h = ground (arith, h)

      whole_in : (leb i k && ltb k (i + bn)) ≡ true → (leb i k && ltb k (i + n)) ≡ true
      whole_in h = ground (arith, h, le)

      still :
          (leb (i + bn) k && ltb k (i + bn + (n - bn))) ≡ true → (leb i k && ltb k (i + n)) ≡ true
      still h = ground (arith, h, le)

      neither :
          (leb i k && ltb k (i + bn)) ≡ false
          → (leb (i + bn) k && ltb k (i + bn + (n - bn))) ≡ false
          → (leb i k && ltb k (i + n)) ≡ false
      neither h g = ground (arith, h, g, le)

  nothing : (i n pos : ℕ) (buf : ℕ → ℕ) (k : ℕ) → n ≡ 0 → filled i n pos buf k ≡ buf k
  nothing i n pos buf k z = rw (outside) refl
    where
      outside : (leb i k && ltb k (i + n)) ≡ false
      outside = ground (arith, z)

  read_loop_lem :
      (count rounds pos end i : ℕ) (buf : ℕ → ℕ)
      → end ≤ f.f_size
      → (end ≤ pos) ⊎ (end ≤ (pos / blksize + rounds) * blksize)
      → read_loop count rounds pos end i f buf d
        ≡ some (ok count, f, filled i (end - pos) pos buf, d)
  unfolding read_loop
  read_loop_lem count zero pos end i buf inside enough =
      ap (λ b. some (ok count, f, b, d)) (fun_ext λ k. sym (none_left k))
    where
      past : end ≤ pos
      past = elim enough [ inl h ↦ h | inr h ↦ omega (arith, h) ]

      none_left : (k : ℕ) → filled i (end - pos) pos buf k ≡ buf k
      none_left k = nothing i (end - pos) pos buf k (omega (arith, past))
  read_loop_lem count (suc rounds) pos end i buf inside enough = elim (Bool-cases (ltb pos end)) [
    | inl more ↦ rw more (
        rw (file_get_block-eq (pos / blksize) (omega (arith, ltb→lt pos end more, inside))) (
          read_loop_lem count rounds (pos + bn) end (i + bn)
            (copy_out d (block_no f d (pos / blksize)) (pos % blksize) i bn buf) inside
            (goes_on (ltb→lt pos end more))
          ∙ ap (λ b. some (ok count, f, b, d)) (fun_ext λ k. chunk k)))
    | inr past ↦ rw past (
        ap (λ b. some (ok count, f, b, d))
          (fun_ext λ k. sym (nothing i (end - pos) pos buf k (ground (arith, past)))))
  ]
    where
      bn : ℕ
      bn = min (blksize - pos % blksize) (end - pos)

      goes_on : pos < end → (end ≤ pos + bn) ⊎ (end ≤ ((pos + bn) / blksize + rounds) * blksize)
      goes_on h = elim (Bool-cases (leb (end - pos) (blksize - pos % blksize))) [
        | inl fits ↦ inl (ground (arith, fits))
        | inr more ↦ inr (ground (arith, more, far))
      ]
        where
          far : end ≤ (pos / blksize + suc rounds) * blksize
          far = elim enough [ inl p ↦ absurd (omega (arith, p, h)) | inr q ↦ q ]

      chunk :
          (k : ℕ)
          → filled
              (i + bn)
              (end - (pos + bn))
              (pos + bn)
              (copy_out d (block_no f d (pos / blksize)) (pos % blksize) i bn buf)
              k
            ≡ filled i (end - pos) pos buf k
      chunk k =
          ap
            (λ n.
              filled (i + bn) n (pos + bn)
                (copy_out d (block_no f d (pos / blksize)) (pos % blksize) i bn buf) k)
            (omega arith)
          ∙ filled-split i (end - pos) bn pos buf k (omega arith) (omega arith)

  filled-start :
      (n pos : ℕ) (buf : ℕ → ℕ) (k : ℕ)
      → filled 0 n pos buf k ≡ (if ltb k n then byte_of f d (pos + k) else buf k)
  filled-start n pos buf k = elim (Bool-cases (ltb k n)) [
    | inl l ↦ rw (both l, l) (ap (byte_of f d) (omega arith))
    | inr g ↦ rw (neither g, g) refl
  ]
    where
      both : ltb k n ≡ true → (leb 0 k && ltb k (0 + n)) ≡ true
      both l = ground (arith, l)

      neither : ltb k n ≡ false → (leb 0 k && ltb k (0 + n)) ≡ false
      neither g = ground (arith, g)

-- On a file without holes `file_read` ends and changes neither the file nor the disk. It returns
-- the smaller of `count` and what is left behind the offset, nothing if that is past the end; so
-- many bytes of the file from the offset on stand at the start of the buffer, whose rest is as it
-- was.
pub file_read_lem :
    (count offset : ℕ) (f : File) (buf : ℕ → ℕ) (d : Disk)
    → NoHoles f d
    → let n = min count (f.f_size - offset) in
      (buf' : ℕ → ℕ) × (file_read count offset f buf d ≡ some (ok n, f, buf', d))
      × ((k : ℕ) → buf' k ≡ (if ltb k n then byte_of f d (offset + k) else buf k))
unfolding file_read
file_read_lem count offset f buf d whole = elim (Bool-cases (leb f.f_size offset)) [
  | inl past ↦ (
    buf,
    rw past (ap (λ n. some (ok n, f, buf, d)) (ground (arith, past))),
    λ k. rw (none_left past k) refl,
  )
  | inr more ↦ (
    filled f d whole 0 n offset buf,
    rw more (
        rw short (
          read_loop_lem f d whole n (n / blksize + 2) offset (offset + n) 0 buf
            (ground (arith, more)) (inr (omega arith))
          ∙ ap (λ m. some (ok n, f, filled f d whole 0 m offset buf, d)) (omega arith))),
    λ k. filled-start f d whole n offset buf k,
  )
]
  where
    n : ℕ
    n = min count (f.f_size - offset)

    short : leb (2 ^ 31) f.f_size ≡ false
    short = ground (arith, whole.size)

    none_left : leb f.f_size offset ≡ true → (k : ℕ) → ltb k n ≡ false
    none_left past k = ground (arith, past)
