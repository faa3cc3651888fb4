-- ===== src/DateTime/Loops.antt =====
-- What the loops of mkdatetime over the years and the months return.
use clean_os.Base.{
  ℕ, ◌+◌, ◌-◌, ◌*◌, ◌/◌, ◌≤◌, ◌<◌, ◌≡◌, some, ltb, ◌==◌, if◌then◌else◌, arith, Bool-cases, inl, inr,
}
use clean_os.DateTime.{year_loop, month_loop, days_of}

-- The year `k` of a four-year span from 1970 on, and the hours of it
pub record Year (q hours k left : ℕ) : Type 0 where
  pub runs : year_loop 4 (1970 + q * 4) hours ≡ some (1970 + q * 4 + k, left)
  pub total : hours ≡ k * (365 * 24) + (if k == 3 then 24 else 0) + left
  pub few : k ≤ 3
  pub within : left < (if k == 2 then 366 * 24 else 365 * 24)

pub Year-of : (q hours : ℕ) → hours < 1461 * 24 → (k : ℕ) × (left : ℕ) × Year q hours k left
unfolding year_loop
Year-of q hours h = elim (Bool-cases (ltb hours 8760)) [
  | inl a ↦ (
    0,
    hours,
    record {
      runs = ground (arith, a);
      total = ground arith;
      few = omega arith;
      within = ground (arith, a);
    },
  )
  | inr b ↦ elim (Bool-cases (ltb hours 17520)) [
    | inl a ↦ (
      1,
      hours - 8760,
      record {
        runs = ground (arith, a, b);
        total = ground (arith, a, b);
        few = omega arith;
        within = ground (arith, a, b);
      },
    )
    | inr c ↦ elim (Bool-cases (ltb hours 26304)) [
      | inl a ↦ (
        2,
        hours - 17520,
        record {
          runs = ground (arith, a, b, c);
          total = ground (arith, a, c);
          few = omega arith;
          within = ground (arith, a, c);
        },
      )
      | inr d ↦ (
        3,
        hours - 26304,
        record {
          runs = ground (arith, b, c, d);
          total = ground (arith, d);
          few = omega arith;
          within = ground (arith, d, h);
        },
      )
    ]
  ]
]

-- The month `m` and the day `d` of it, of the day `n` of a year that is no leap year
pub record Month (n m d : ℕ) : Type 0 where
  pub runs : month_loop days_of 0 n ≡ some (m, d)
  pub total : n ≡ (if m == 0 then 0 else if m == 1 then 31 else 367 * (m - 1) / 12 + 29) + d
  pub few : m ≤ 11
  pub bounds : (1 ≤ d) × (d ≤ (if m == 1 then 28 else 31))

pub Month-of : (n : ℕ) → 1 ≤ n → n ≤ 365 → (m : ℕ) × (d : ℕ) × Month n m d
unfolding month_loop
Month-of n g h = elim (Bool-cases (ltb 31 n)) [
  | inr a ↦ (
    0,
    n - 0,
    record {
      runs = ground (arith, a);
      total = ground (arith, a);
      few = omega arith;
      bounds = (ground (arith, a, g), ground (arith, a));
    },
  )
  | inl b0 ↦ elim (Bool-cases (ltb 59 n)) [
    | inr a ↦ (
      1,
      n - 31,
      record {
        runs = ground (arith, b0, a);
        total = ground (arith, b0, a);
        few = omega arith;
        bounds = (ground (arith, b0, a, g), ground (arith, b0, a));
      },
    )
    | inl b1 ↦ elim (Bool-cases (ltb 90 n)) [
      | inr a ↦ (
        2,
        n - 59,
        record {
          runs = ground (arith, b0, b1, a);
          total = ground (arith, b1, a);
          few = omega arith;
          bounds = (ground (arith, b1, a, g), ground (arith, b1, a));
        },
      )
      | inl b2 ↦ elim (Bool-cases (ltb 120 n)) [
        | inr a ↦ (
          3,
          n - 90,
          record {
            runs = ground (arith, b0, b1, b2, a);
            total = ground (arith, b2, a);
            few = omega arith;
            bounds = (ground (arith, b2, a, g), ground (arith, b2, a));
          },
        )
        | inl b3 ↦ elim (Bool-cases (ltb 151 n)) [
          | inr a ↦ (
            4,
            n - 120,
            record {
              runs = ground (arith, b0, b1, b2, b3, a);
              total = ground (arith, b3, a);
              few = omega arith;
              bounds = (ground (arith, b3, a, g), ground (arith, b3, a));
            },
          )
          | inl b4 ↦ elim (Bool-cases (ltb 181 n)) [
            | inr a ↦ (
              5,
              n - 151,
              record {
                runs = ground (arith, b0, b1, b2, b3, b4, a);
                total = ground (arith, b4, a);
                few = omega arith;
                bounds = (ground (arith, b4, a, g), ground (arith, b4, a));
              },
            )
            | inl b5 ↦ elim (Bool-cases (ltb 212 n)) [
              | inr a ↦ (
                6,
                n - 181,
                record {
                  runs = ground (arith, b0, b1, b2, b3, b4, b5, a);
                  total = ground (arith, b5, a);
                  few = omega arith;
                  bounds = (ground (arith, b5, a, g), ground (arith, b5, a));
                },
              )
              | inl b6 ↦ elim (Bool-cases (ltb 243 n)) [
                | inr a ↦ (
                  7,
                  n - 212,
                  record {
                    runs = ground (arith, b0, b1, b2, b3, b4, b5, b6, a);
                    total = ground (arith, b6, a);
                    few = omega arith;
                    bounds = (ground (arith, b6, a, g), ground (arith, b6, a));
                  },
                )
                | inl b7 ↦ elim (Bool-cases (ltb 273 n)) [
                  | inr a ↦ (
                    8,
                    n - 243,
                    record {
                      runs = ground (arith, b0, b1, b2, b3, b4, b5, b6, b7, a);
                      total = ground (arith, b7, a);
                      few = omega arith;
                      bounds = (ground (arith, b7, a, g), ground (arith, b7, a));
                    },
                  )
                  | inl b8 ↦ elim (Bool-cases (ltb 304 n)) [
                    | inr a ↦ (
                      9,
                      n - 273,
                      record {
                        runs = ground (arith, b0, b1, b2, b3, b4, b5, b6, b7, b8, a);
                        total = ground (arith, b8, a);
                        few = omega arith;
                        bounds = (ground (arith, b8, a, g), ground (arith, b8, a));
                      },
                    )
                    | inl b9 ↦ elim (Bool-cases (ltb 334 n)) [
                      | inr a ↦ (
                        10,
                        n - 304,
                        record {
                          runs = ground (arith, b0, b1, b2, b3, b4, b5, b6, b7, b8, b9, a);
                          total = ground (arith, b9, a);
                          few = omega arith;
                          bounds = (ground (arith, b9, a, g), ground (arith, b9, a));
                        },
                      )
                      | inl b10 ↦ (
                        11,
                        n - 334,
                        record {
                          runs = ground (arith, b0, b1, b2, b3, b4, b5, b6, b7, b8, b9, b10, h);
                          total = ground (arith, b10, h);
                          few = omega arith;
                          bounds = (ground (arith, b10, h, g), ground (arith, b10, h));
                        },
                      )
                    ]
                  ]
                ]
              ]
            ]
          ]
        ]
      ]
    ]
  ]
]
