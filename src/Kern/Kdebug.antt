-- ===== src/Kern/Kdebug.antt =====
-- `stab_binsearch` of lab/kern/kdebug.c. The `int`s that can be one below an index, `r`,
-- `*region_right` and the final `*region_left`, are kept one higher, as the ends of ranges; the
-- table is so short that no sum of indices overflows.
pub mod Scan
pub mod Bracket
pub mod Found
pub mod Info
mod Examples
use cse.Base.{
  ℕ, zero, suc, ◌+◌, ◌-◌, ◌*◌, ◌/◌, ◌%◌, ◌^◌, Bool, true, false, Option, none, some, ltb, ◌==◌,
  if◌then◌else◌,
}

-- `struct Stab` of lab/inc/stab.h, without `n_other`.
pub record Stab : Type 0 where
  pub n_strx : ℕ
  pub n_type : ℕ
  pub n_desc : ℕ
  pub n_value : ℕ

-- The local variables of the search, and what the two pointers lead to.
pub record Search : Type 0 where
  pub l : ℕ
  pub r_end : ℕ
  pub region_left : ℕ
  pub region_right_end : ℕ
  pub any_matches : Bool
  pub addr : ℕ

module _ (stabs : ℕ → Stab) (type : ℕ) where
  -- The last stab of the type among the `n` that start at `l`: `m--` until one is found.
  unfoldable pub scan_down : ℕ → ℕ → Option ℕ
  scan_down l zero = none
  scan_down l (suc n) =
      let rest = scan_down l n in if (stabs (l + n)).n_type == type then some (l + n) else rest

  -- The body of the loop after the scan from `true_m`.
  abbrev pub compare_at : ℕ → Search → Option ℕ → Search
  compare_at true_m s none = record s { l = true_m + 1 }
  compare_at true_m s (some m) =
      if ltb (stabs m).n_value s.addr
      then record s { any_matches = true; region_left = m; l = true_m + 1 }
      else if ltb s.addr (stabs m).n_value
      then record s { any_matches = true; region_right_end = m; r_end = m }
      else record s { any_matches = true; region_left = m; l = m; addr = (s.addr + 1) % 2 ^ 64 }

  unfoldable pub narrow : Search → Search
  unfolding scan_down
  narrow s =
      let true_m = (s.l + (s.r_end - 1)) / 2 in
      compare_at true_m s (scan_down s.l (true_m + 1 - s.l))

  -- The loop with `fuel` rounds left; `none` is a loop that is cut off.
  unfoldable pub search : ℕ → Search → Option Search
  unfolding narrow
  search zero s = none
  search (suc fuel) s =
      let rest = search fuel (narrow s) in if ltb s.l s.r_end then rest else some s

  -- The last loop, from `left + n` down to `left`: where it stops.
  unfoldable pub last_of_type : ℕ → ℕ → ℕ
  last_of_type left zero = left
  last_of_type left (suc n) =
      let rest = last_of_type left n in
      if (stabs (left + suc n)).n_type == type then left + suc n else rest

  -- What the search leaves, both one higher: `*region_left` and `*region_right`.
  unfoldable pub finish : Search → ℕ × ℕ
  unfolding last_of_type
  finish s =
      if s.any_matches
      then if ltb s.region_left s.region_right_end
        then (
          last_of_type s.region_left (s.region_right_end - 1 - s.region_left) + 1,
          s.region_right_end,
        )
        else (s.region_right_end, s.region_right_end)
      else (s.region_left + 1, s.region_left)

  abbrev pub start : ℕ → ℕ → ℕ → Search
  start left right_end addr = record {
    l = left;
    r_end = right_end;
    region_left = left;
    region_right_end = right_end;
    any_matches = false;
    addr = addr;
  }

  abbrev pub finished : Option Search → Option (ℕ × ℕ)
  finished none = none
  finished (some s) = some (finish s)

  -- Two rounds for each stab of the range and one more, since `addr` is only raised at a stab that
  -- it is equal to.
  unfoldable pub stab_binsearch : ℕ → ℕ → ℕ → Option (ℕ × ℕ)
  unfolding search finish
  stab_binsearch left right_end addr =
      finished (search (2 * (right_end - left) + 2) (start left right_end addr))
