-- ===== src/Library/Pipe/Queue.antt =====
-- The pipe of lab/lib/pipe.c refines a queue of at most 32 bytes: the calls on it, in whatever
-- order its readers and writers make them, give the answers of the queue.
use cse.Base.{
  ℕ, zero, suc, ◌+◌, ◌-◌, ◌%◌, ◌≤◌, ◌≡◌, refl, sym, ap, ◌∙◌, Bool, true, false, List, [], ◌∷◌, ◌++◌,
  arith, ltb, leb, ◌==◌, if◌then◌else◌, length, Bool-cases, inl, inr,
}
use cse.Base.Cells.{update}
use cse.Library.Pipe.{
  Pipe, Outcome, off_max, returned, yields, pipebufsiz, take_byte, store_byte, read_from,
  write_from,
}
use cse.Library.Pipe.Ring.{run_of, contents, contents-store_byte, contents-take_byte}

-- The calls on the queue `q`.
abbrev pub enqueue_from : Bool → ℕ → ℕ → (ℕ → ℕ) → List ℕ → Outcome × List ℕ
enqueue_from closed zero i buf q = (returned i, q)
enqueue_from closed (suc n) i buf q =
    let rest = enqueue_from closed n (i + 1) buf (q ++ buf i ∷ []) in
    if leb pipebufsiz (length q) then ((if closed then returned 0 else yields i), q) else rest

abbrev pub dequeue_from : Bool → ℕ → ℕ → (ℕ → ℕ) → List ℕ → Outcome × ((ℕ → ℕ) × List ℕ)
dequeue_from closed zero i buf q = (returned i, (buf, q))
dequeue_from closed (suc n) i buf [] =
    ((if ltb 0 i then returned i else if closed then returned 0 else yields i), (buf, []))
dequeue_from closed (suc n) i buf (c ∷ q) = dequeue_from closed n (i + 1) (update buf i c) q

-- The positions are at most 32 apart, and at most the largest `off_t`.
pub record IsRing (p : Pipe) : Type 0 where
  pub order : p.p_rpos ≤ p.p_wpos
  pub bound : p.p_wpos ≤ off_max
  pub room : p.p_wpos ≤ p.p_rpos + pipebufsiz

length-run_of : (f : ℕ → ℕ) (i k : ℕ) → length (run_of f i k) ≡ k
unfolding run_of
length-run_of f i zero = refl
length-run_of f i (suc k) = ap suc (length-run_of f (i + 1) k)

length-contents : (p : Pipe) → length (contents p) ≡ p.p_wpos - p.p_rpos
length-contents p = length-run_of (λ i. p.p_buf (i % pipebufsiz)) p.p_rpos (p.p_wpos - p.p_rpos)

empty_of_length : (q : List ℕ) → length q ≡ 0 → q ≡ []
empty_of_length [] e = refl
empty_of_length (c ∷ q) e = absurd (omega arith)

write_from-refines :
    (closed : Bool) (n i : ℕ) (buf : ℕ → ℕ) (p : Pipe)
    → IsRing p
    → p.p_wpos + n ≤ off_max
    → (p' : Pipe) × (o : Outcome) × (write_from closed n i buf p ≡ (o, p'))
      × (enqueue_from closed n i buf (contents p) ≡ (o, contents p'))
      × IsRing p'
      × (p'.p_wpos ≤ p.p_wpos + n)
unfolding write_from
write_from-refines closed zero i buf p v low = (p, returned i, refl, refl, v, omega arith)
write_from-refines closed (suc n) i buf p v low =
    elim (Bool-cases (leb (p.p_rpos + pipebufsiz) p.p_wpos)) [
      | inl full ↦ (
        p,
        (if closed then returned 0 else yields i),
        rw full refl,
        rw (same full) refl,
        v,
        omega arith,
      )
      | inr open_room ↦
          let (p', o, wrote, queued, v', most) =
            write_from-refines closed n (i + 1) buf (store_byte (buf i) p) (stored open_room)
              (omega (arith, low)) in
          (
            p',
            o,
            rw open_room (rw no_overflow wrote),
            rw (same' open_room)
                (rw (sym (contents-store_byte (buf i) p v.order (ground arith))) queued),
            v',
            omega (arith, most),
          )
    ]
  where
    same : leb (p.p_rpos + pipebufsiz) p.p_wpos ≡ true → leb pipebufsiz (length (contents p)) ≡ true
    same full = ground (arith, length-contents p)

    same' :
        leb (p.p_rpos + pipebufsiz) p.p_wpos ≡ false → leb pipebufsiz (length (contents p)) ≡ false
    same' full = ground (arith, length-contents p)

    no_overflow : (p.p_wpos == off_max) ≡ false
    no_overflow = ground arith

    stored : leb (p.p_rpos + pipebufsiz) p.p_wpos ≡ false → IsRing (store_byte (buf i) p)
    stored h = ground arith

read_from-refines :
    (closed : Bool) (n i : ℕ) (buf : ℕ → ℕ) (p : Pipe)
    → IsRing p
    → (p' : Pipe) × (o : Outcome) × (out : ℕ → ℕ) × (read_from closed n i buf p ≡ (o, (out, p')))
      × (dequeue_from closed n i buf (contents p) ≡ (o, (out, contents p')))
      × IsRing p'
      × (p'.p_wpos ≡ p.p_wpos)
unfolding read_from
read_from-refines closed zero i buf p v = (p, returned i, buf, refl, refl, v, refl)
read_from-refines closed (suc n) i buf p v = elim (Bool-cases (p.p_rpos == p.p_wpos)) [
  | inl empty ↦ (
    p,
    (if ltb 0 i then returned i else if closed then returned 0 else yields i),
    buf,
    rw empty refl,
    rw (nothing empty) refl,
    v,
    refl,
  )
  | inr some_left ↦
      let (p', o, out, got, taken, v', same) =
        read_from-refines closed n (i + 1) (update buf i (p.p_buf (p.p_rpos % pipebufsiz)))
          (take_byte p) (took some_left) in
      (
        p',
        o,
        out,
        rw some_left (rw (no_overflow some_left) got),
        rw (contents-take_byte p (ground arith)) taken,
        v',
        same,
      )
]
  where
    nothing : (p.p_rpos == p.p_wpos) ≡ true → contents p ≡ []
    nothing e = empty_of_length (contents p) (ground (arith, length-contents p))

    no_overflow : (p.p_rpos == p.p_wpos) ≡ false → (p.p_rpos == off_max) ≡ false
    no_overflow h = ground arith

    took : (p.p_rpos == p.p_wpos) ≡ false → IsRing (take_byte p)
    took h = ground arith

-- A call, or the continuation of a write after a yield, by any environment that has the pipe open,
-- with what `_pipeisclosed` answers it.
pub data Call : Type 0 where
  write_call : (closed : Bool) (n i : ℕ) (buf : ℕ → ℕ) → Call
  read_call : (closed : Bool) (n : ℕ) (buf : ℕ → ℕ) → Call

-- How the call goes on, and the caller's buffer then.
abbrev pub Answer : Type 0
Answer = Outcome × (ℕ → ℕ)

abbrev wrote {ℓ} : {S : Type ℓ} → (ℕ → ℕ) → Outcome × S → Answer × S
wrote buf (o, s) = ((o, buf), s)

abbrev got {ℓ} : {S : Type ℓ} → Outcome × ((ℕ → ℕ) × S) → Answer × S
got (o, (buf, s)) = ((o, buf), s)

abbrev serve_ring : Call → Pipe → Answer × Pipe
serve_ring (write_call closed n i buf) p = wrote buf (write_from closed n i buf p)
serve_ring (read_call closed n buf) p = got (read_from closed n 0 buf p)

abbrev serve_queue : Call → List ℕ → Answer × List ℕ
serve_queue (write_call closed n i buf) q = wrote buf (enqueue_from closed n i buf q)
serve_queue (read_call closed n buf) q = got (dequeue_from closed n 0 buf q)

abbrev pub ring_answers : List Call → Pipe → List Answer
ring_answers [] p = []
ring_answers (c ∷ calls) p = let (a, p') = serve_ring c p in a ∷ ring_answers calls p'

abbrev pub queue_answers : List Call → List ℕ → List Answer
queue_answers [] q = []
queue_answers (c ∷ calls) q = let (a, q') = serve_queue c q in a ∷ queue_answers calls q'

-- How many bytes a call may write, and all calls together.
abbrev pub bytes_of : Call → ℕ
bytes_of (write_call closed n i buf) = n
bytes_of (read_call closed n buf) = 0

abbrev pub bytes_written : List Call → ℕ
bytes_written [] = 0
bytes_written (c ∷ calls) = bytes_of c + bytes_written calls

serve-refines :
    (c : Call) (p : Pipe)
    → IsRing p
    → p.p_wpos + bytes_of c ≤ off_max
    → (a : Answer) × (p' : Pipe) × (serve_ring c p ≡ (a, p'))
      × (serve_queue c (contents p) ≡ (a, contents p'))
      × IsRing p'
      × (p'.p_wpos ≤ p.p_wpos + bytes_of c)
serve-refines (write_call closed n i buf) p v low =
    let (p', o, ring, queue, v', most) = write_from-refines closed n i buf p v low in
    ((o, buf), p', ap (wrote buf) ring, ap (wrote buf) queue, v', most)
serve-refines (read_call closed n buf) p v low =
    let (p', o, out, ring, queue, v', same) = read_from-refines closed n 0 buf p v in
    ((o, out), p', ap got ring, ap got queue, v', omega (arith, same))

-- On a pipe whose positions are at most 32 apart, every sequence of calls whose writes together ask
-- for no more bytes than bring the write position to 2^31 - 1 is answered as by a queue
-- of at most 32 bytes that starts with the bytes between the positions, where a call is what runs
-- up to its return or its yield, and nothing of another environment runs in between.
pub ring_answers-refines :
    (calls : List Call) (p : Pipe)
    → IsRing p
    → p.p_wpos + bytes_written calls ≤ off_max
    → ring_answers calls p ≡ queue_answers calls (contents p)
ring_answers-refines [] p v low = refl
ring_answers-refines (c ∷ calls) p v low =
    let (a, p', ring, queue, v', most) = serve-refines c p v (omega (arith, low)) in
    ap (λ r. r.0 ∷ ring_answers calls r.1) ring
    ∙ ap (λ r. a ∷ r) (ring_answers-refines calls p' v' (omega (arith, low, most)))
    ∙ sym (ap (λ r. r.0 ∷ queue_answers calls r.1) queue)
