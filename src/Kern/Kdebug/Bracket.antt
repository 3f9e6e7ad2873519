-- ===== src/Kern/Kdebug/Bracket.antt =====
-- `stab_binsearch` of lab/kern/kdebug.c on a table that is in order.
use mathlib.Core.Path.{subst}
use native.Mathlib.Decide.{ℕ_discrete}
use cse.Base.{
  ℕ, zero, suc, ◌+◌, ◌-◌, ◌*◌, ◌/◌, ◌%◌, ◌^◌, ◌≤◌, ◌<◌, true, false, none, some, ltb, ◌≡◌, ◌≢◌, ◌⊎◌,
  inl, inr, refl, sym, ◌∙◌, arith, Bool-cases, Option-cases,
}
use cse.Kern.Kdebug.{Stab, Search, scan_down, compare_at, narrow, search}
use cse.Kern.Kdebug.Scan.{Typed, Other, scan_down-none, scan_down-some}

module _ (stabs : ℕ → Stab) (type : ℕ) where
  -- A search from `left` up to `right_end` for the address `addr`.
  module _ (left right_end addr : ℕ) where
    abbrev pub InOrder : Type 0
    InOrder =
        (i j : ℕ)
        → left ≤ i
        → i < j
        → j < right_end
        → Typed stabs type i
        → Typed stabs type j
        → (stabs i).n_value ≤ (stabs j).n_value

    -- No stab of the type is at the address that follows.
    abbrev pub NextFree : Type 0
    NextFree =
        (i : ℕ) → left ≤ i → i < right_end → Typed stabs type i → (stabs i).n_value ≢ addr + 1

    pub record Inv (s : Search) : Type 0 where
      pub low : left ≤ s.l
      pub mid : s.l ≤ s.r_end
      pub high : s.r_end ≤ right_end
      pub same : s.region_right_end ≡ s.r_end
      pub at_addr : (s.addr ≡ addr) ⊎ (s.addr ≡ addr + 1)
      pub above :
          (i : ℕ) → s.r_end ≤ i → i < right_end → Typed stabs type i → addr < (stabs i).n_value
      pub right :
          (s.r_end ≡ right_end)
          ⊎ ((s.r_end < right_end) × Typed stabs type s.r_end × (s.any_matches ≡ true))
      pub matched :
          (s.any_matches ≡ false) ⊎ ((i : ℕ) × (left ≤ i) × (i < right_end) × Typed stabs type i)
      pub below :
          ((s.region_left ≡ left) × ((i : ℕ) → left ≤ i → i < s.l → Other stabs type i))
          ⊎ ((left ≤ s.region_left)
              × (s.region_left < right_end)
              × Typed stabs type s.region_left
              × ((stabs s.region_left).n_value ≤ addr)
              × (s.any_matches ≡ true)
              × ((i : ℕ) → s.region_left < i → i < s.l → Other stabs type i))

    -- The rounds are enough.
    abbrev pub Budget : ℕ → Search → Type 0
    Budget fuel s =
        ((s.addr ≡ addr) × (2 * (s.r_end - s.l) + 1 < fuel))
        ⊎ ((s.addr ≡ addr + 1) × (2 * (s.r_end - s.l) < fuel))

    spend :
        (x w w' fuel : ℕ)
        → w' < w
        → ((x ≡ addr) × (2 * w + 1 < suc fuel)) ⊎ ((x ≡ addr + 1) × (2 * w < suc fuel))
        → ((x ≡ addr) × (2 * w' + 1 < fuel)) ⊎ ((x ≡ addr + 1) × (2 * w' < fuel))
    spend x w w' fuel less b = elim b [
      | inl (e, h) ↦ inl (e, omega (arith, h, less))
      | inr (e, h) ↦ inr (e, omega (arith, h, less))
    ]

    module _ (ordered : InOrder) (free : NextFree) (small : addr + 1 < 2 ^ 64) where
      module _ (s : Search) (v : Inv s) (more : s.l < s.r_end) where
        true_m : ℕ
        true_m = (s.l + (s.r_end - 1)) / 2

        true_m-inside : (s.l ≤ true_m) × (true_m < s.r_end)
        unfolding true_m
        true_m-inside = (omega (arith, more), omega (arith, more))

        -- No stab of the type from `l` to `true_m`.
        Inv-none :
            ((i : ℕ) → s.l ≤ i → i ≤ true_m → Other stabs type i)
            → Inv (compare_at stabs type true_m s none)
        Inv-none others = record {
          low = omega (arith, v.low, true_m-inside);
          mid = omega (arith, true_m-inside);
          high = v.high;
          same = v.same;
          at_addr = v.at_addr;
          above = v.above;
          right = v.right;
          matched = v.matched;
          below = elim v.below [
            | inl (base, none_yet) ↦ inl (base, λ i from under. extend i none_yet from under)
            | inr (from, under, typed, le, any, gap) ↦
                inr (from, under, typed, le, any, λ i above' under'. extend' i gap above' under')
          ];
        }
          where
            extend :
                (i : ℕ)
                → ((i : ℕ) → left ≤ i → i < s.l → Other stabs type i)
                → left ≤ i
                → i < true_m + 1
                → Other stabs type i
            extend i old from under = elim (Bool-cases (ltb i s.l)) [
              | inl early ↦ old i from (ground (arith, early))
              | inr late ↦ others i (ground (arith, late)) (omega (arith, under))
            ]

            extend' :
                (i : ℕ)
                → ((i : ℕ) → s.region_left < i → i < s.l → Other stabs type i)
                → s.region_left < i
                → i < true_m + 1
                → Other stabs type i
            extend' i old from under = elim (Bool-cases (ltb i s.l)) [
              | inl early ↦ old i from (ground (arith, early))
              | inr late ↦ others i (ground (arith, late)) (omega (arith, under))
            ]

        module _ (m : ℕ) (from : s.l ≤ m) (upto : m ≤ true_m) (typed : Typed stabs type m)
            (behind : (i : ℕ) → m < i → i ≤ true_m → Other stabs type i) where
          in_range : (left ≤ m) × (m < right_end)
          in_range = (omega (arith, v.low), omega (arith, true_m-inside, v.high))

          Inv-below :
              (stabs m).n_value ≤ addr
              → Inv (record s { any_matches = true; region_left = m; l = true_m + 1 })
          Inv-below le = record {
            low = omega (arith, v.low, true_m-inside);
            mid = omega (arith, true_m-inside);
            high = v.high;
            same = v.same;
            at_addr = v.at_addr;
            above = v.above;
            right = elim v.right [ inl e ↦ inl e | inr (h, t, any) ↦ inr (h, t, refl) ];
            matched = inr (m, in_range.0, in_range.1, typed);
            below =
                inr
                  (in_range.0, in_range.1, typed, le, refl, λ i a b. behind i a (omega (arith, b)));
          }

          Inv-above :
              addr < (stabs m).n_value
              → Inv (record s { any_matches = true; region_right_end = m; r_end = m })
          Inv-above lt = record {
            low = v.low;
            mid = from;
            high = omega (arith, in_range);
            same = refl;
            at_addr = v.at_addr;
            above = λ i a b t. elim (ℕ_discrete i m) [
              | yes e ↦ subst (λ x. addr < (stabs x).n_value) (sym e) lt
              | no ne ↦ omega (arith, lt, ordered m i in_range.0 (omega (arith, a, ne)) b typed t)
            ];
            right = inr (in_range.1, typed, refl);
            matched = inr (m, in_range.0, in_range.1, typed);
            below = elim v.below [
              | inl base ↦ inl base
              | inr (a, b, t, le, any, gap) ↦ inr (a, b, t, le, refl, gap)
            ];
          }

          Inv-at :
              (stabs m).n_value ≡ addr
              → (next : ℕ) → next ≡ addr + 1
              → Inv (record s { any_matches = true; region_left = m; l = m; addr = next })
          Inv-at eq next e = record {
            low = in_range.0;
            mid = omega (arith, upto, true_m-inside);
            high = v.high;
            same = v.same;
            at_addr = inr e;
            above = v.above;
            right = elim v.right [ inl e' ↦ inl e' | inr (h, t, any) ↦ inr (h, t, refl) ];
            matched = inr (m, in_range.0, in_range.1, typed);
            below = inr (
              in_range.0,
              in_range.1,
              typed,
              omega (arith, eq),
              refl,
              λ i a b. absurd (omega (arith, a, b)),
            );
          }

          -- The result of the comparison is again a search of this kind, with a smaller budget.
          compare_at-Inv :
              Inv (compare_at stabs type true_m s (some m))
              × ((fuel : ℕ)
                  → Budget (suc fuel) s
                  → Budget fuel (compare_at stabs type true_m s (some m)))
          compare_at-Inv = elim (Bool-cases (ltb (stabs m).n_value s.addr)) [
            | inl lt ↦ rw lt (
              Inv-below (at_most (ground (arith, lt))),
              λ fuel b. spend s.addr _ _ fuel (omega (arith, true_m-inside)) b,
            )
            | inr ge ↦ rw ge (elim (Bool-cases (ltb s.addr (stabs m).n_value)) [
              | inl gt ↦ rw gt (
                Inv-above (beyond (ground (arith, gt))),
                λ fuel b. spend s.addr _ _ fuel (omega (arith, upto, true_m-inside)) b,
              )
              | inr le ↦ rw le (
                Inv-at (exact (ground (arith, ge, le))) ((s.addr + 1) % 2 ^ 64)
                    (next (ground (arith, ge, le))),
                λ fuel b. raised fuel (ground (arith, ge, le)) b,
              )
            ])
          ]
            where
              not_next : (stabs m).n_value ≢ addr + 1
              not_next = free m in_range.0 in_range.1 typed

              at_most : (stabs m).n_value < s.addr → (stabs m).n_value ≤ addr
              at_most h = elim v.at_addr [
                | inl e ↦ omega (arith, e, h)
                | inr e ↦ omega (arith, e, h)
              ]

              beyond : s.addr < (stabs m).n_value → addr < (stabs m).n_value
              beyond h = elim v.at_addr [
                | inl e ↦ omega (arith, e, h)
                | inr e ↦ omega (arith, e, h)
              ]

              exact : (stabs m).n_value ≡ s.addr → (stabs m).n_value ≡ addr
              exact h = elim v.at_addr [
                | inl e ↦ omega (arith, e, h)
                | inr e ↦ absurd (not_next (h ∙ e))
              ]

              next : (stabs m).n_value ≡ s.addr → (s.addr + 1) % 2 ^ 64 ≡ addr + 1
              next h = omega (arith, h, exact h, small)

              raised :
                  (fuel : ℕ)
                  → (stabs m).n_value ≡ s.addr
                  → Budget (suc fuel) s
                  → (((s.addr + 1) % 2 ^ 64 ≡ addr) × (2 * (s.r_end - m) + 1 < fuel))
                    ⊎ (((s.addr + 1) % 2 ^ 64 ≡ addr + 1) × (2 * (s.r_end - m) < fuel))
              raised fuel h b = elim b [
                | inl (e, enough) ↦ inr (next h, omega (arith, enough, from))
                | inr (e, enough) ↦ absurd (omega (arith, e, h, exact h))
              ]

        narrow-Inv :
            Inv (narrow stabs type s)
            × ((fuel : ℕ) → Budget (suc fuel) s → Budget fuel (narrow stabs type s))
        unfolding narrow true_m
        narrow-Inv = elim (Option-cases (scan_down stabs type s.l (true_m + 1 - s.l))) [
          | inl e ↦ rw e (
            Inv-none λ i from upto.
                scan_down-none stabs type s.l (true_m + 1 - s.l) i e from
                  (omega (arith, from, upto)),
            λ fuel b. spend s.addr _ _ fuel (omega (arith, true_m-inside)) b,
          )
          | inr (m, e) ↦
              let (from, below, typed, behind) =
                scan_down-some stabs type s.l (true_m + 1 - s.l) m e in
              rw e (
                compare_at-Inv m from (omega (arith, below, from)) typed
                  (λ i a b. behind i a (omega (arith, b, from, a))))
        ]

      pub search-Inv :
          (fuel : ℕ) (s : Search)
          → Inv s
          → Budget fuel s
          → (s' : Search) × (search stabs type fuel s ≡ some s') × Inv s' × (s'.l ≡ s'.r_end)
      unfolding search
      search-Inv zero s v b =
          absurd (elim b [ inl (e, h) ↦ omega (arith, h) | inr (e, h) ↦ omega (arith, h) ])
      search-Inv (suc fuel) s v b = elim (Bool-cases (ltb s.l s.r_end)) [
        | inl more ↦
            let (v', budget) = narrow-Inv s v (ground (arith, more)) in
            let (s', run, last, done) = search-Inv fuel (narrow stabs type s) v' (budget fuel b) in
            (s', rw more run, last, done)
        | inr over ↦ (s, rw over refl, v, ground (arith, over, v.mid))
      ]
