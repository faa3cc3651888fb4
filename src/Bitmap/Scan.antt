-- ===== src/Bitmap/Scan.antt =====
-- bitmap_scan: what it finds, and what it misses.
use clean_os.Base.{
  ℕ, zero, suc, ◌+◌, ◌-◌, ◌*◌, ◌^◌, ◌≤◌, ◌<◌, ◌≡◌, ◌≢◌, ap, ◌∙◌, true, false, ltb, leb, ◌==◌,
  if◌then◌else◌, Bool-cases, Option, none, some, inl, inr, arith, ltb→lt,
}
use clean_os.Bitmap.{Bitmap, u32, scan_test, skip_full, first_clear, find_run, scan_from, scan}
use clean_os.Bitmap.Update.{IsBytes}
use clean_os.Bitmap.First.{
  Clear, SetBelow, FullBelow, skip_full_lem, SetBelow-of_FullBelow, IsFirst, IsFirst-intro,
}

-- The bits that a search looks at: for a run of two or more, also the one behind the bitmap.
abbrev pub reach : Bitmap → ℕ → ℕ
reach m cnt = m.bytes_len * 8 + (if cnt == 1 then 0 else 1)

-- What a search for `cnt` clear bits tells, by its result: the lowest run within reach, or that
-- there is none.
abbrev pub Outcome : Bitmap → ℕ → Option ℕ → Type 0
Outcome m cnt none = (s : ℕ) → Clear m s cnt → reach m cnt < s + cnt
Outcome m cnt (some r) = Clear m r cnt × (r + cnt ≤ reach m cnt) × ((s : ℕ) → Clear m s cnt → r ≤ s)

module _ (m : Bitmap) (cnt : ℕ) (small : m.bytes_len * 8 + 1 < 2 ^ 31) where
  -- The invariant of the third loop: the `f` bits before `next` are clear, and no run starts
  -- before them.
  record Run (next f : ℕ) : Type 0 where
    short : f < cnt
    back : f ≤ next
    clear : Clear m (next - f) f
    lowest : (s : ℕ) → Clear m s cnt → next - f ≤ s

  Run-Clear : {next f : ℕ} → Run next f → scan_test m next ≡ false → Clear m (next - f) (f + 1)
  Run-Clear {next} {f} r c i lo hi = elim (Bool-cases (i == next)) [
    | inl p ↦ ap (scan_test m) (ground arith) ∙ c
    | inr p ↦ r.clear i lo (ground (arith, r.back))
  ]

  Run-set :
      {next f : ℕ} → Run next f → scan_test m next ≡ true → (s : ℕ) → Clear m s cnt → next + 1 ≤ s
  Run-set {next} {f} r c s run = elim (Bool-cases (ltb next s)) [
    | inl p ↦ omega (arith, ltb→lt next s p)
    | inr p ↦ ground (arith, run next, r.lowest s run, r.short, r.back)
  ]

  find_run_lem :
      (n next f : ℕ)
      → next + n ≡ m.bytes_len * 8 + 1
      → 1 < cnt
      → Run next f
      → Outcome m cnt (find_run n m cnt next f)
  unfolding find_run
  find_run_lem zero next f e many r = λ s run. ground (arith, r.lowest s run, r.short, r.back)
  find_run_lem (suc n) next f e many r = elim (Bool-cases (scan_test m next)) [
    | inl hit ↦
        let miss : (0 == cnt) ≡ false = ground (arith, r.short) in
        let step : u32 (next + 1) ≡ next + 1 = omega (arith) in
        rw (hit, miss, step)
          (find_run_lem n (next + 1) 0 (omega arith) many (record {
            short = omega (arith, r.short);
            back = omega arith;
            clear = λ i lo hi. absurd (omega arith);
            lowest = λ s run. omega (arith, Run-set r hit s run);
          }))
    | inr free ↦
        let step : u32 (next + 1) ≡ next + 1 = omega arith in
        let grown : u32 (f + 1) ≡ f + 1 = omega (arith, r.back) in
        elim (Bool-cases ((f + 1) == cnt)) [
          | inl done ↦
              let here : f + 1 ≡ cnt = ground arith in
              let start : u32 (next + 2 ^ 32 - cnt + 1) ≡ next - f = omega (arith, r.back) in
              rw (free, grown, done, start)
                ((λ i lo hi. Run-Clear r free i lo (omega arith)), ground (arith, r.back), r.lowest)
          | inr more ↦
              rw (free, grown, more, step)
                (find_run_lem n (next + 1) (f + 1) (omega arith) many (record {
                  short = ground (arith, r.short);
                  back = omega (arith, r.back);
                  clear = λ i lo hi. Run-Clear r free i (omega arith) (omega (arith, r.back));
                  lowest = λ s run. omega (arith, r.lowest s run);
                }))
        ]
  ]

  Clear-first : (s : ℕ) → 1 ≤ cnt → Clear m s cnt → scan_test m s ≡ false
  Clear-first s h run = run s (omega arith) (omega arith)

  lowest_of_below : (first : ℕ) → 1 ≤ cnt → SetBelow m first → (s : ℕ) → Clear m s cnt → first ≤ s
  lowest_of_below first h below s run = elim (Bool-cases (ltb s first)) [
    | inl p ↦ ground (arith, below s, Clear-first s h run)
    | inr p ↦ ground arith
  ]

  IsFirst-Clear : {first : ℕ} → IsFirst m first → Clear m first 1
  IsFirst-Clear {first} f i lo hi =
      let same : i ≡ first = omega arith in ap (scan_test m) same ∙ f.clear

  -- The search from the first clear bit on.
  find_run_from :
      {first : ℕ}
      → 1 < cnt
      → IsFirst m first
      → Outcome m cnt
          (find_run (u32 (u32 (m.bytes_len * 8) + 2 ^ 32 - first)) m cnt (u32 (first + 1)) 1)
  find_run_from {first} h f =
      let left : u32 (u32 (m.bytes_len * 8) + 2 ^ 32 - first) ≡ m.bytes_len * 8 - first =
        omega (arith, f.inside) in
      let next : u32 (first + 1) ≡ first + 1 = omega (arith, f.inside) in
      rw (left, next)
        (find_run_lem (m.bytes_len * 8 - first) (first + 1) 1 (omega (arith, f.inside)) h (record {
          short = h;
          back = omega arith;
          clear = λ i lo hi. IsFirst-Clear f i (omega arith) (omega arith);
          lowest = λ s run. omega (arith, lowest_of_below first (omega arith) f.below s run);
        }))

  scan_from_lem :
      (k : ℕ)
      → 1 ≤ cnt
      → IsBytes m
      → (k ≤ m.bytes_len)
      → FullBelow m k
      → (k < m.bytes_len → m.bits k ≢ 0xff)
      → Outcome m cnt (scan_from m cnt k)
  unfolding scan_from
  scan_from_lem k h bytes le full other = elim (Bool-cases (leb m.bytes_len k)) [
    | inl done ↦
        rw done (λ s run.
          ground (arith, lowest_of_below (k * 8) h (SetBelow-of_FullBelow m k full) s run))
    | inr more ↦
        let inside : k < m.bytes_len = ground arith in
        let is = IsFirst-intro m bytes k full inside (other inside) in
        let exact : u32 (k * 8 + first_clear 8 (m.bits k) 0) ≡ k * 8 + first_clear 8 (m.bits k) 0 =
          omega (arith, is.inside) in
        elim (Bool-cases (cnt == 1)) [
          | inl one ↦
              let e : cnt ≡ 1 = ground arith in
              rw (more, one, exact)
                (
                  (λ i lo hi. IsFirst-Clear is i lo (omega arith)),
                  ground (arith, is.inside),
                  lowest_of_below _ h is.below,
                )
          | inr many ↦ rw (more, many, exact) (find_run_from (ground arith) is)
        ]
  ]

  -- `bitmap_scan` returns the start of the lowest run of `cnt` clear bits among the bits of the
  -- bitmap and, if `cnt` is not 1, the one bit behind it; it returns -1 exactly where there is no
  -- such run. The memory holds bytes, the bitmap has fewer than 2 ^ 31 - 1 bits and at least
  -- one bit is asked for.
  pub scan_lem : 1 ≤ cnt → IsBytes m → Outcome m cnt (scan m cnt)
  unfolding scan
  scan_lem h bytes =
      let (le, full, other) =
        skip_full_lem m.bytes_len m 0 (omega arith) (λ i p. absurd (omega arith)) in
      scan_from_lem (skip_full m.bytes_len m 0) h bytes le full other
