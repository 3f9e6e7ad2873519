-- ===== src/Library/Pipe/Ring.antt =====
-- The ring of lab/lib/pipe.c as a queue of bytes: a write appends, a read takes from the front.
use mathlib.Core.Path.{subst, ap₂}
use mathlib.Core.List.{append-nil, append_assoc}
use cse.Base.{
  ℕ, zero, suc, ◌+◌, ◌-◌, ◌%◌, ◌≤◌, ◌<◌, ◌≡◌, refl, sym, ap, ◌∙◌, Bool, false, List, [], ◌∷◌, ◌++◌,
  arith, leb, ◌==◌,
}
use cse.Base.Cells.{update, update_self, update_ne}
use cse.Library.Pipe.{
  Pipe, off_max, returned, pipebufsiz, take_byte, store_byte, read_from, devpipe_read, write_from,
  devpipe_write,
}

-- `f(i)`, …, `f(i + k - 1)`.
unfoldable pub run_of : (ℕ → ℕ) → ℕ → ℕ → List ℕ
run_of f i zero = []
run_of f i (suc k) = f i ∷ run_of f (i + 1) k

-- The byte at a position.
abbrev byte_at : Pipe → ℕ → ℕ
byte_at p i = p.p_buf (i % pipebufsiz)

-- The bytes in the pipe, the oldest first.
abbrev pub contents : Pipe → List ℕ
contents p = run_of (byte_at p) p.p_rpos (p.p_wpos - p.p_rpos)

run_of-ext :
    (f g : ℕ → ℕ) (k i j : ℕ)
    → ((l : ℕ) → l < k → f (i + l) ≡ g (j + l))
    → run_of f i k ≡ run_of g j k
unfolding run_of
run_of-ext f g zero i j h = refl
run_of-ext f g (suc k) i j h =
    rw (first (h 0 (omega arith))) (
      ap (λ r. g j ∷ r)
        (run_of-ext f g k (i + 1) (j + 1) λ l lt. shift l (h (suc l) (omega arith))))
  where
    first : f (i + 0) ≡ g (j + 0) → f i ≡ g j
    first e = ap f (omega arith) ∙ e ∙ ap g (omega arith)

    shift : (l : ℕ) → f (i + suc l) ≡ g (j + suc l) → f (i + 1 + l) ≡ g (j + 1 + l)
    shift l e = ap f (omega arith) ∙ e ∙ ap g (omega arith)

recount : (f : ℕ → ℕ) (i k l : ℕ) → k ≡ l → run_of f i k ≡ run_of f i l
recount f i k l e = ap (run_of f i) e

run_of-append : (f : ℕ → ℕ) (k l i : ℕ) → run_of f i (k + l) ≡ run_of f i k ++ run_of f (i + k) l
unfolding run_of
run_of-append f zero l i = ap₂ (λ x k. run_of f x k) (omega arith) (omega arith)
run_of-append f (suc k) l i =
    recount f i (suc k + l) (suc (k + l)) (omega arith)
    ∙ ap (λ r. f i ∷ r)
        (run_of-append f k l (i + 1) ∙ ap (λ x. run_of f (i + 1) k ++ run_of f x l) (omega arith))

-- Storing a byte when the ring is not full appends it.
pub contents-store_byte :
    (c : ℕ) (p : Pipe)
    → p.p_rpos ≤ p.p_wpos
    → p.p_wpos < p.p_rpos + pipebufsiz
    → contents (store_byte c p) ≡ contents p ++ (c ∷ [])
unfolding run_of
contents-store_byte c p order room =
    ap (run_of (byte_at (store_byte c p)) p.p_rpos) (omega arith)
    ∙ run_of-append (byte_at (store_byte c p)) (p.p_wpos - p.p_rpos) 1 p.p_rpos
    ∙ ap₂ (λ u v. u ++ v)
        (run_of-ext (byte_at (store_byte c p)) (byte_at p) (p.p_wpos - p.p_rpos) p.p_rpos p.p_rpos
          λ l lt.
            update_ne p.p_buf (p.p_wpos % pipebufsiz) ((p.p_rpos + l) % pipebufsiz) c
              (λ e. omega arith))
        (ap (λ x. x ∷ [])
          (subst (λ x. byte_at (store_byte c p) x ≡ c) (omega arith)
            (update_self p.p_buf (p.p_wpos % pipebufsiz) c)))

write_from_lem :
    (closed : Bool) (n i : ℕ) (buf : ℕ → ℕ) (p : Pipe)
    → p.p_rpos ≤ p.p_wpos
    → p.p_wpos + n ≤ p.p_rpos + pipebufsiz
    → p.p_wpos + n ≤ off_max
    → (p' : Pipe) × (write_from closed n i buf p ≡ (returned (i + n), p'))
      × (contents p' ≡ contents p ++ run_of buf i n)
      × (p'.p_rpos ≡ p.p_rpos)
      × (p'.p_wpos ≡ p.p_wpos + n)
unfolding write_from run_of
write_from_lem closed zero i buf p order room low =
    (p, ap (λ x. (returned x, p)) (omega arith), sym (append-nil (contents p)), refl, omega arith)
write_from_lem closed (suc n) i buf p order room low =
    let (p', wrote, bytes, same, moved) =
      write_from_lem closed n (i + 1) buf (store_byte (buf i) p) (omega arith) (omega arith)
        (omega arith) in
    (
      p',
      rw not_full (rw no_overflow (wrote ∙ ap (λ x. (returned x, p')) (omega arith))),
      bytes
          ∙ ap (λ q. q ++ run_of buf (i + 1) n) (contents-store_byte (buf i) p order (omega arith))
          ∙ append_assoc (contents p) (buf i ∷ []) (run_of buf (i + 1) n),
      same,
      moved ∙ omega arith,
    )
  where
    not_full : leb (p.p_rpos + pipebufsiz) p.p_wpos ≡ false
    not_full = ground arith

    no_overflow : (p.p_wpos == off_max) ≡ false
    no_overflow = ground arith

pub contents-take_byte :
    (p : Pipe) → p.p_rpos < p.p_wpos → contents p ≡ byte_at p p.p_rpos ∷ contents (take_byte p)
unfolding run_of
contents-take_byte p some_left = ap (run_of (byte_at p) p.p_rpos) length_eq
  where
    length_eq : p.p_wpos - p.p_rpos ≡ suc (p.p_wpos - (p.p_rpos + 1))
    length_eq = omega arith

-- The bytes read and those left make up the contents before the call.
read_from_lem :
    (closed : Bool) (n i : ℕ) (buf : ℕ → ℕ) (p : Pipe)
    → p.p_rpos + n ≤ p.p_wpos
    → p.p_wpos ≤ off_max
    → (buf' : ℕ → ℕ) × (p' : Pipe) × (read_from closed n i buf p ≡ (returned (i + n), (buf', p')))
      × (contents p ≡ run_of buf' i n ++ contents p')
      × ((j : ℕ) → j < i → buf' j ≡ buf j)
      × (p'.p_rpos ≡ p.p_rpos + n)
      × (p'.p_wpos ≡ p.p_wpos)
unfolding read_from run_of
read_from_lem closed zero i buf p enough low =
    (buf, p, ap (λ x. (returned x, (buf, p))) (omega arith), refl, λ j l. refl, omega arith, refl)
read_from_lem closed (suc n) i buf p enough low =
    let (buf', p', got, bytes, kept, moved, same) =
      read_from_lem closed n (i + 1) (update buf i (byte_at p p.p_rpos)) (take_byte p) (omega arith)
        low in
    (
      buf',
      p',
      rw not_empty (rw no_overflow (got ∙ ap (λ x. (returned x, (buf', p'))) (omega arith))),
      contents-take_byte p (omega arith)
          ∙ ap₂ (λ c q. c ∷ q) (sym (kept i (omega arith) ∙ update_self buf i (byte_at p p.p_rpos)))
              bytes,
      λ j l. kept j (omega arith) ∙ update_ne buf i j (byte_at p p.p_rpos) (λ e. omega arith),
      moved ∙ omega arith,
      same,
    )
  where
    not_empty : (p.p_rpos == p.p_wpos) ≡ false
    not_empty = ground arith

    no_overflow : (p.p_rpos == off_max) ≡ false
    no_overflow = ground arith

-- On an open pipe whose ring is empty and whose positions stay below 2^31, `n` bytes written, with
-- `n` at most 32, are the `n` bytes read next, in their order; both calls return `n` and the ring
-- is empty again.
pub devpipe_read-devpipe_write :
    (n : ℕ) (sent into : ℕ → ℕ) (p : Pipe)
    → p.p_rpos ≡ p.p_wpos
    → n ≤ pipebufsiz
    → p.p_wpos + n ≤ off_max
    → (p₁ p₂ : Pipe) × (out : ℕ → ℕ) × (devpipe_write false n sent p ≡ (returned n, p₁))
      × (devpipe_read false n into p₁ ≡ (returned n, (out, p₂)))
      × (run_of out 0 n ≡ run_of sent 0 n)
      × (contents p₂ ≡ [])
unfolding run_of
devpipe_read-devpipe_write n sent into p empty small low =
    let (p₁, wrote, bytes, same, moved) =
      write_from_lem false n 0 sent p (omega arith) (omega arith) low in
    let (out, p₂, got, parts, kept, taken, held) =
      read_from_lem false n 0 into p₁ (omega (arith, same, moved)) (omega (arith, moved, low)) in
    let drained : contents p₂ ≡ [] = drained_lem p₂ (omega (arith, same, moved, taken, held)) in
    (
      p₁,
      p₂,
      out,
      wrote ∙ ap (λ x. (returned x, p₁)) (omega arith),
      got ∙ ap (λ x. (returned x, (out, p₂))) (omega arith),
      sym (
          sym (bytes ∙ ap (λ q. q ++ run_of sent 0 n) (drained_lem p empty))
          ∙ parts
          ∙ ap (λ q. run_of out 0 n ++ q) drained
          ∙ append-nil (run_of out 0 n)),
      drained,
    )
  where
    drained_lem : (q : Pipe) → q.p_rpos ≡ q.p_wpos → contents q ≡ []
    drained_lem q e = recount (byte_at q) q.p_rpos (q.p_wpos - q.p_rpos) 0 (omega arith)
