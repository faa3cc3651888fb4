-- ===== src/DateTime/RoundTrip.antt =====
-- mktime64 of what mkdatetime returns.
use clean_os.Base.{
  ℕ, ◌+◌, ◌-◌, ◌*◌, ◌/◌, ◌%◌, ◌≤◌, ◌<◌, ◌≡◌, refl, sym, subst, true, false, some, ltb, leb, ◌==◌,
  if◌then◌else◌, arith, Bool-cases, inl, inr,
}
use clean_os.Bitmap.{u32}
use clean_os.DateTime.{DateTime, mktime64, year_loop, month_day, mkdatetime}
use clean_os.DateTime.Loops.{Year-of, Month-of}

-- The days since 1970, as `mktime64` counts them.
days_since : (year m d : ℕ) → ℕ
days_since year m d =
    let early = leb (m + 1) 2 in
    let mon = if early then m + 1 + 12 - 2 else m + 1 - 2 in
    let y = if early then year - 1 else year in
    u32 (y / 4 - y / 100 + y / 400 + 367 * mon / 12 + d) + u32 (y * 365) - 719499

-- The days of a month in the year `k` of the four-year span `q`; `leap` is 1 behind the leap day.
days_lem :
    (q k m d leap : ℕ)
    → 1970 + q * 4 + k < 2100
    → k ≤ 3
    → m ≤ 11
    → (1 ≤ d) × (d ≤ 31)
    → leap ≡ (if k == 3 then 1 else if k == 2 then (if leb (m + 1) 2 then 0 else 1) else 0)
    → days_since (1970 + q * 4 + k) m d + 1
      ≡ 1461 * q
        + k * 365
        + leap
        + ((if m == 0 then 0 else if m == 1 then 31 else 367 * (m - 1) / 12 + 29) + d)
unfolding days_since
days_lem q k m d leap late few months bounds l = ground (arith, bounds, l)

-- The date of a day of the year, and that its days since 1970 are the right ones.
record Dated (q k n : ℕ) : Type 0 where
  m : ℕ
  d : ℕ
  runs : month_day (1970 + q * 4 + k) n ≡ some (m, d)
  days : days_since (1970 + q * 4 + k) m d + 1 ≡ 1461 * q + k * 365 + (if k == 3 then 1 else 0) + n

Dated-plain :
    (q k n : ℕ) → 1970 + q * 4 + k < 2100 → k ≤ 3 → (k == 2) ≡ false → 1 ≤ n → n ≤ 365 → Dated q k n
unfolding month_day
Dated-plain q k n late few plain g h =
    let (m, d, x) = Month-of n g h in
    let no_leap : ((1970 + q * 4 + k) % 4 == 0) ≡ false = ground (arith, plain, few) in
    let leap : (if k == 3 then 1 else 0)
        ≡ (if k == 3 then 1 else if k == 2 then (if leb (m + 1) 2 then 0 else 1) else 0) =
      ground (arith, plain) in
    let days =
      days_lem q k m d (if k == 3 then 1 else 0) late few x.few
        (x.bounds.0, ground (arith, x.bounds.1)) leap in
    record { m = m; d = d; runs = rw no_leap x.runs; days = omega (arith, days, x.total) }

Dated-leap : (q n : ℕ) → 1972 + q * 4 < 2100 → 1 ≤ n → n ≤ 366 → Dated q 2 n
unfolding month_day
Dated-leap q n late g h =
    let leap : ((1970 + q * 4 + 2) % 4 == 0) ≡ true = ground arith in
    elim (Bool-cases (n == 60)) [
      | inl at ↦
          let day : n ≡ 60 = ground (arith, at) in
          record {
            m = 1;
            d = 29;
            runs = rw (leap, at) refl;
            days = omega (
              arith,
              days_lem q 2 1 29 0 (omega arith) (omega arith) (omega arith)
                  (omega arith, omega arith) refl,
              day,
            );
          }
      | inr off ↦ elim (Bool-cases (ltb 60 n)) [
        | inl after ↦
            let (m, d, x) = Month-of (n - 1) (ground (arith, after)) (omega arith) in
            let behind : (if leb (m + 1) 2 then 0 else 1) ≡ 1 =
              ground (arith, x.total, x.bounds, after) in
            let days =
              days_lem q 2 m d 1 (omega arith) (omega arith) x.few
                (x.bounds.0, ground (arith, x.bounds.1)) (sym behind) in
            record {
              m = m;
              d = d;
              runs = rw (leap, off, after) x.runs;
              days = ground (arith, days, x.total, after);
            }
        | inr before ↦
            let (m, d, x) = Month-of n g (ground (arith, before)) in
            let ahead : (if leb (m + 1) 2 then 0 else 1) ≡ 0 =
              ground (arith, x.total, x.bounds, before, off) in
            let days =
              days_lem q 2 m d 0 (omega arith) (omega arith) x.few
                (x.bounds.0, ground (arith, x.bounds.1)) (sym ahead) in
            record {
              m = m;
              d = d;
              runs = rw (leap, off, before) x.runs;
              days = omega (arith, days, x.total);
            }
      ]
    ]

every-Dated :
    (q k n : ℕ)
    → 1970 + q * 4 + k < 2100
    → k ≤ 3
    → 1 ≤ n
    → n ≤ (if k == 2 then 366 else 365)
    → Dated q k n
every-Dated q k n late few g h = elim (Bool-cases (k == 2)) [
  | inl two ↦
      let is_two : k ≡ 2 = ground (arith, two) in
      subst (λ j. Dated q j n) (sym is_two)
        (Dated-leap q n (omega (arith, late, is_two)) g (ground (arith, h, two)))
  | inr other ↦ Dated-plain q k n late few other g (ground (arith, h, other))
]

mkdatetime_lem :
    (time year left m d : ℕ)
    → year_loop 4 (1970 + time / 60 / 60 / 35064 * 4) (time / 60 / 60 % 35064) ≡ some (year, left)
    → month_day year (left / 24 + 1) ≡ some (m, d)
    → mkdatetime time
      ≡ some (record {
        year = year;
        month = m;
        day = d;
        hour = left % 24;
        minute = time / 60 % 60;
        second = time % 60;
      })
unfolding mkdatetime
mkdatetime_lem time year left m d e e' = rw (mkdatetime, e, e') refl

-- The hours and seconds of a day put back.
whole :
    (time days q k left : ℕ)
    → q ≡ time / 60 / 60 / 35064
    → days + 1 ≡ 1461 * q + k * 365 + (if k == 3 then 1 else 0) + (left / 24 + 1)
    → time / 60 / 60 % 35064 ≡ k * (365 * 24) + (if k == 3 then 24 else 0) + left
    → ((days * 24 + left % 24) * 60 + time / 60 % 60) * 60 + time % 60 ≡ time
whole time days q k left p e h = ground (arith, p, e, h)

-- The date and time of day that `mkdatetime` returns for a second of the years 1970 to 2099 are those
-- for which `mktime64` returns this second, once 1 is added to the month: one function counts the
-- months from 0, the other one from 1. The loops of `mkdatetime` end.
pub mktime64-mkdatetime :
    (time : ℕ)
    → time < 4102444800
    → (t : DateTime) × (mkdatetime time ≡ some t)
      × (mktime64 t.year (t.month + 1) t.day t.hour t.minute t.second ≡ time)
unfolding mktime64 days_since
mktime64-mkdatetime time late =
    let hours : ℕ = time / 60 / 60 in
    let q : ℕ = hours / 35064 in
    let (k, left, y) = Year-of q (hours % 35064) (omega arith) in
    let early : 1970 + q * 4 + k < 2100 = ground (arith, y.total, y.few) in
    let x = every-Dated q k (left / 24 + 1) early y.few (omega arith) (ground (arith, y.within)) in
    (
      record {
        year = 1970 + q * 4 + k;
        month = x.m;
        day = x.d;
        hour = left % 24;
        minute = time / 60 % 60;
        second = time % 60;
      },
      mkdatetime_lem time (1970 + q * 4 + k) left x.m x.d y.runs x.runs,
      whole time (days_since (1970 + q * 4 + k) x.m x.d) q k left refl x.days y.total,
    )
