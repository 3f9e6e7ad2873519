-- ===== src/Fs/Writing/InPlace.antt =====
-- What `file_write` of lab/fs/fs.c makes of a file without holes when it writes inside the file.
use mathlib.Core.Path.{subst}
use native.Mathlib.Decide.{ℕ_discrete}
use cse.Base.{
  ◌^◌, ℕ, zero, suc, ◌+◌, ◌-◌, ◌*◌, ◌/◌, ◌%◌, ◌≤◌, ◌<◌, min, ◌&&◌, true, false, some, leb, ltb,
  if◌then◌else◌, ◌≡◌, ◌≢◌, ◌⊎◌, inl, inr, refl, sym, ap, ◌∙◌, arith, Bool-cases, ltb→lt, lt→ltb,
}
use cse.Fs.{Disk, File, ok, blksize, ndirect}
use cse.Fs.Files.{byte_at, file_read}
use cse.Fs.Files.Read.{block_no, byte_of, NoHoles, file_get_block-eq, file_read_lem}
use cse.Fs.Writing.{new_byte, copy_in, write_loop, file_write}
use cse.Fs.Writing.Bytes.{byte_at-copy_in, byte_at-copy_in_ne, s_nblocks-copy_in, words-copy_in}

-- The blocks of the file are different, and none is its indirect block.
pub record Apart (f : File) (d : Disk) : Type 0 where
  pub blocks :
      (m n : ℕ)
      → m * blksize < f.f_size
      → n * blksize < f.f_size
      → m ≢ n
      → block_no f d m ≢ block_no f d n
  pub indirect : (n : ℕ) → n * blksize < f.f_size → f.f_indirect ≢ block_no f d n

-- Going from `d` to `d'`, the bytes of the file from `pos` up to `end` became those of `buf` from
-- index `i` on; its other bytes and its blocks are as they were.
pub record Written (f : File) (d : Disk) (pos end i : ℕ) (buf : ℕ → ℕ) (d' : Disk) : Type 0 where
  nblocks : d'.s_nblocks ≡ d.s_nblocks
  same : (n : ℕ) → n * blksize < f.f_size → block_no f d' n ≡ block_no f d n
  bytes :
      (x : ℕ)
      → x < f.f_size
      → byte_of f d' x
        ≡ (if leb pos x && ltb x end then buf (i + (x - pos)) % 256 else byte_of f d x)

module _ (f : File) where
  Written-none : (d : Disk) (pos end i : ℕ) (buf : ℕ → ℕ) → end ≤ pos → Written f d pos end i buf d
  Written-none d pos end i buf past = record {
    nblocks = refl;
    same = λ n h. refl;
    bytes = λ x h. sym (rw (outside x) refl);
  }
    where
      outside : (x : ℕ) → (leb pos x && ltb x end) ≡ false
      outside x = ground (arith, past)

  NoHoles-Written :
      (d d' : Disk) (pos end i : ℕ) (buf : ℕ → ℕ)
      → NoHoles f d
      → Written f d pos end i buf d'
      → NoHoles f d'
  NoHoles-Written d d' pos end i buf v w = record {
    size = v.size;
    blocks = λ n h. rw (w.same n h, w.nblocks) (v.blocks n h);
    indirect = λ h. rw w.nblocks (v.indirect h);
  }

  Apart-Written :
      (d d' : Disk) (pos end i : ℕ) (buf : ℕ → ℕ)
      → Apart f d
      → Written f d pos end i buf d'
      → Apart f d'
  Apart-Written d d' pos end i buf v w = record {
    blocks = λ m n h g ne. rw (w.same m h, w.same n g) (v.blocks m n h g ne);
    indirect = λ n h. rw (w.same n h) (v.indirect n h);
  }

  Written-trans :
      (d d₁ d₂ : Disk) (pos mid end i : ℕ) (buf : ℕ → ℕ)
      → pos ≤ mid
      → mid ≤ end
      → Written f d pos mid i buf d₁
      → Written f d₁ mid end (i + (mid - pos)) buf d₂
      → Written f d pos end i buf d₂
  Written-trans d d₁ d₂ pos mid end i buf le le' a b = record {
    nblocks = b.nblocks ∙ a.nblocks;
    same = λ n h. b.same n h ∙ a.same n h;
    bytes = λ x h. b.bytes x h ∙ both x h;
  }
    where
      both :
          (x : ℕ)
          → x < f.f_size
          → (if leb mid x && ltb x end
              then buf (i + (mid - pos) + (x - mid)) % 256
              else byte_of f d₁ x)
            ≡ (if leb pos x && ltb x end then buf (i + (x - pos)) % 256 else byte_of f d x)
      both x h = elim (Bool-cases (leb mid x && ltb x end)) [
        | inl late ↦ rw (late, whole late) (ap (λ k. buf k % 256) (ground (arith, late, le)))
        | inr not_late ↦ elim (Bool-cases (leb pos x && ltb x mid)) [
          | inl early ↦ rw (not_late, whole' early) (a.bytes x h ∙ rw early refl)
          | inr not_early ↦
              rw (not_late, neither not_late not_early) (a.bytes x h ∙ rw not_early refl)
        ]
      ]
        where
          whole : (leb mid x && ltb x end) ≡ true → (leb pos x && ltb x end) ≡ true
          whole e = ground (arith, e, le)

          whole' : (leb pos x && ltb x mid) ≡ true → (leb pos x && ltb x end) ≡ true
          whole' e = ground (arith, e, le')

          neither :
              (leb mid x && ltb x end) ≡ false
              → (leb pos x && ltb x mid) ≡ false
              → (leb pos x && ltb x end) ≡ false
          neither e e' = ground (arith, e, e', le, le')

  copy_in-Written :
      (d : Disk) (pos i bn : ℕ) (buf : ℕ → ℕ)
      → Apart f d
      → pos < f.f_size
      → pos % blksize + bn ≤ blksize
      → Written f d pos
          (pos + bn)
          i
          buf
          (copy_in d (block_no f d (pos / blksize)) (pos % blksize) i bn buf)
  copy_in-Written d pos i bn buf v h room = record {
    nblocks = nblocks-copy_in;
    same = same;
    bytes = bytes;
  }
    where
      b : ℕ
      b = block_no f d (pos / blksize)

      d₁ : Disk
      d₁ = copy_in d b (pos % blksize) i bn buf

      nblocks-copy_in : d₁.s_nblocks ≡ d.s_nblocks
      nblocks-copy_in = s_nblocks-copy_in d b (pos % blksize) i bn buf

      same : (n : ℕ) → n * blksize < f.f_size → block_no f d₁ n ≡ block_no f d n
      same n g =
          ap (λ (w : ℕ → ℕ). if ltb n ndirect then f.f_direct n else w (n - ndirect))
            (words-copy_in d b f.f_indirect (pos % blksize) i bn buf
              (v.indirect (pos / blksize) (omega (arith, h))))

      outside : (x : ℕ) → x / blksize ≢ pos / blksize → (leb pos x && ltb x (pos + bn)) ≡ false
      outside x ne = ground (arith, ne, room)

      inside :
          (x : ℕ)
          → x / blksize ≡ pos / blksize
          → (leb (pos % blksize) (x % blksize) && ltb (x % blksize) (pos % blksize + bn))
            ≡ (leb pos x && ltb x (pos + bn))
      inside x e = ground (arith, e)

      here :
          (x : ℕ)
          → x / blksize ≡ pos / blksize
          → new_byte d b (pos % blksize) i bn buf (x % blksize)
            ≡ (if leb pos x && ltb x (pos + bn) then buf (i + (x - pos)) % 256 else byte_of f d x)
      here x e = elim (Bool-cases (leb pos x && ltb x (pos + bn))) [
        | inl t ↦ rw (inside x e ∙ t, t) (ap (λ k. buf k % 256) (ground (arith, t, e)))
        | inr n ↦
            rw (inside x e ∙ n, n) (ap (λ q. byte_at d (block_no f d q) (x % blksize)) (sym e))
      ]

      bytes :
          (x : ℕ)
          → x < f.f_size
          → byte_of f d₁ x
            ≡ (if leb pos x && ltb x (pos + bn) then buf (i + (x - pos)) % 256 else byte_of f d x)
      bytes x g =
          ap (λ c. byte_at d₁ c (x % blksize)) (same (x / blksize) (omega (arith, g)))
          ∙ elim (ℕ_discrete (x / blksize) (pos / blksize)) [
            | yes e ↦
                ap (λ q. byte_at d₁ (block_no f d q) (x % blksize)) e
                ∙ byte_at-copy_in d b (pos % blksize) i bn buf (x % blksize)
                ∙ here x e
            | no ne ↦
                byte_at-copy_in_ne d b (block_no f d (x / blksize)) (pos % blksize) i bn buf
                  (x % blksize)
                  (v.blocks (x / blksize) (pos / blksize) (omega (arith, g)) (omega (arith, h)) ne)
                ∙ sym (rw (outside x ne) refl)
          ]

  write_loop_lem :
      (count rounds pos end i : ℕ) (buf : ℕ → ℕ) (d : Disk)
      → NoHoles f d
      → Apart f d
      → end ≤ f.f_size
      → pos ≤ end
      → (end ≤ pos) ⊎ (end ≤ (pos / blksize + rounds) * blksize)
      → (d' : Disk) × (write_loop count rounds pos end i buf f d ≡ some (ok count, f, d'))
        × Written f d pos end i buf d'
  unfolding write_loop
  write_loop_lem count zero pos end i buf d v a inside le enough =
      (d, refl, Written-none d pos end i buf (elim enough [ inl h ↦ h | inr h ↦ omega (arith, h) ]))
  write_loop_lem count (suc rounds) pos end i buf d v a inside le enough =
      elim (Bool-cases (ltb pos end)) [
        | inl more ↦
            let w =
              copy_in-Written d pos i bn buf a (omega (arith, ltb→lt pos end more, inside))
                (omega arith) in
            let (d', run, w') =
              write_loop_lem count rounds (pos + bn) end (i + bn) buf d₁
                (NoHoles-Written d d₁ pos (pos + bn) i buf v w)
                (Apart-Written d d₁ pos (pos + bn) i buf a w) inside (omega arith)
                (goes_on (ltb→lt pos end more)) in
            (
              d',
              rw more (
                  rw
                    (file_get_block-eq f d v (pos / blksize)
                      (omega (arith, ltb→lt pos end more, inside)))
                    run),
              Written-trans d d₁ d' pos (pos + bn) end i buf (omega arith) (omega (arith, le)) w
                  (subst (λ k. Written f d₁ (pos + bn) end k buf d') (omega arith) w'),
            )
        | inr past ↦ (d, rw past refl, Written-none d pos end i buf (ground (arith, past)))
      ]
    where
      bn : ℕ
      bn = min (blksize - pos % blksize) (end - pos)

      d₁ : Disk
      d₁ = copy_in d (block_no f d (pos / blksize)) (pos % blksize) i bn buf

      goes_on : pos < end → (end ≤ pos + bn) ⊎ (end ≤ ((pos + bn) / blksize + rounds) * blksize)
      goes_on h = elim (Bool-cases (leb (end - pos) (blksize - pos % blksize))) [
        | inl fits ↦ inl (ground (arith, fits))
        | inr more ↦ inr (ground (arith, more, far))
      ]
        where
          far : end ≤ (pos / blksize + suc rounds) * blksize
          far = elim enough [ inl p ↦ absurd (omega (arith, p, h)) | inr q ↦ q ]

file_write-Written :
    (home count offset : ℕ) (buf : ℕ → ℕ) (f : File) (d : Disk)
    → NoHoles f d
    → Apart f d
    → offset + count ≤ f.f_size
    → (d' : Disk) × (file_write home count offset buf f d ≡ some (ok count, f, d'))
      × Written f d offset (offset + count) 0 buf d'
unfolding file_write
file_write-Written home count offset buf f d v a inside =
    let (d', run, w) =
      write_loop_lem f count (count / blksize + 2) offset (offset + count) 0 buf d v a inside
        (omega arith) (inr (omega arith)) in
    (d', rw fits run, w)
  where
    fits : (ltb f.f_size (2 ^ 31) && ltb f.f_size (offset + count)) ≡ false
    fits = ground (arith, inside)

-- A write inside a file without holes, whose blocks are different and not its indirect block, ends
-- and returns `count`; it leaves the file and replaces byte `x` of it exactly if `x` is one of the
-- `count` from the offset on, by the low byte of the buffer at that place.
pub file_write_lem :
    (home count offset x : ℕ) (buf : ℕ → ℕ) (f : File) (d : Disk)
    → NoHoles f d
    → Apart f d
    → offset + count ≤ f.f_size
    → x < f.f_size
    → (d' : Disk) × (file_write home count offset buf f d ≡ some (ok count, f, d'))
      × (byte_of f d' x ≡ (
          if leb offset x && ltb x (offset + count) then buf (x - offset) % 256 else byte_of f d x))
file_write_lem home count offset x buf f d v a inside h =
    let (d', run, w) = file_write-Written home count offset buf f d v a inside in
    (
      d',
      run,
      w.bytes x h
          ∙ ap (λ j. if leb offset x && ltb x (offset + count) then buf j % 256 else byte_of f d x)
              (omega arith),
    )

-- A write inside a file without holes, whose blocks are different and not its indirect block, ends,
-- returns `count` and leaves the file; `file_read` of the same range then ends too, returns
-- `count`, and gives at every place `k` the low byte of what the written buffer had there.
pub file_read-file_write :
    (home count offset k : ℕ) (buf out : ℕ → ℕ) (f : File) (d : Disk)
    → NoHoles f d
    → Apart f d
    → offset + count ≤ f.f_size
    → k < count
    → (d' : Disk) × (out' : ℕ → ℕ) × (file_write home count offset buf f d ≡ some (ok count, f, d'))
      × (file_read count offset f out d' ≡ some (ok count, f, out', d'))
      × (out' k ≡ buf k % 256)
file_read-file_write home count offset k buf out f d v a inside h =
    let (d', run, w) = file_write-Written home count offset buf f d v a inside in
    let (out', got, bytes) =
      file_read_lem count offset f out d'
        (NoHoles-Written f d d' offset (offset + count) 0 buf v w) in
    (
      d',
      out',
      run,
      got ∙ ap (λ n. some (ok n, f, out', d')) all,
      bytes k
          ∙ rw (all) (
              rw (lt→ltb k count h) (
                w.bytes (offset + k) (omega (arith, inside, h))
                ∙ rw (within k h) (ap (λ j. buf j % 256) (omega arith)))),
    )
  where
    all : min count (f.f_size - offset) ≡ count
    all = omega (arith, inside)

    within :
        (j : ℕ) → j < count → (leb offset (offset + j) && ltb (offset + j) (offset + count)) ≡ true
    within j l = ground (arith, l)
