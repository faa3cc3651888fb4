-- ===== src/Fat/Copies.antt =====
-- kernel/fs/fat16fs.c: which sectors `write_copies` writes.
use clean_os.Base.{
  ℕ, zero, suc, ◌+◌, ◌-◌, ◌*◌, ◌≤◌, ◌<◌, ◌≡◌, ◌≢◌, refl, ap, ◌∙◌, Bool, true, false, ◌&&◌, ltb, leb,
  ◌==◌, if◌then◌else◌, Bool-cases, inl, inr, arith,
}
use clean_os.Fat.Disk.{Fat, buf_write, store}
use clean_os.Fat.Table.{write_copies}

-- A device on which every call succeeds
abbrev pub AllCalls : (ℕ → Bool) → Type 0
AllCalls dev = (n : ℕ) → dev n ≡ true

-- One sector written
store-one :
    (s : Fat) (sector a o : ℕ)
    → store s sector 1 a o ≡ (if a == sector then s.cache o else s.disk a o)
unfolding store
store-one s sector a o = elim (Bool-cases (a == sector)) [
  | inl same ↦
      let e : a ≡ sector = ground (arith, same) in
      let first : (a - sector) * 512 + o ≡ o = omega (arith, e) in
      let test : (leb sector a && ltb a (sector + 1)) ≡ true = ground (arith, same) in
      rw (test, same, first) refl
  | inr other ↦
      let test : (leb sector a && ltb a (sector + 1)) ≡ false = ground (arith, other) in
      rw (test, other) refl
]

buf_write-disk :
    (dev : ℕ → Bool) (sector : ℕ) (s : Fat) (a o : ℕ)
    → AllCalls dev
    → ((buf_write dev sector 1 s).1.disk a o ≡ (if a == sector then s.cache o else s.disk a o))
      × ((buf_write dev sector 1 s).1.cache ≡ s.cache)
      × ((buf_write dev sector 1 s).1.cache_sector_start ≡ s.cache_sector_start)
      × ((buf_write dev sector 1 s).1.cache_sector_size ≡ s.cache_sector_size)
unfolding buf_write
buf_write-disk dev sector s a o all = rw (all s.calls) (store-one s sector a o, refl, refl, refl)

module _ (dev : ℕ → Bool) (all : AllCalls dev) (start stride : ℕ) where
  pub copies-cache :
      (n i : ℕ) (s : Fat)
      → ((write_copies n dev start stride i s).cache ≡ s.cache)
        × ((write_copies n dev start stride i s).cache_sector_start ≡ s.cache_sector_start)
        × ((write_copies n dev start stride i s).cache_sector_size ≡ s.cache_sector_size)
  unfolding write_copies
  copies-cache zero i s = (refl, refl, refl)
  copies-cache (suc n) i s =
      let (a, b, c) = copies-cache n (i + 1) (buf_write dev (start + i * stride) 1 s).1 in
      let (w, x, y, z) = buf_write-disk dev (start + i * stride) s 0 0 all in (a ∙ x, b ∙ y, c ∙ z)

  -- A sector that is none of those written
  pub copies-other :
      (n i : ℕ) (s : Fat) (a o : ℕ)
      → ((j : ℕ) → i ≤ j → j < i + n → a ≢ start + j * stride)
      → (write_copies n dev start stride i s).disk a o ≡ s.disk a o
  unfolding write_copies
  copies-other zero i s a o ne = refl
  copies-other (suc n) i s a o ne =
      let (w, x, y, z) = buf_write-disk dev (start + i * stride) s a o all in
      copies-other n (i + 1) (buf_write dev (start + i * stride) 1 s).1 a o
        (λ j le lt. ne j (omega arith) (omega arith))
      ∙ ground (arith, w, ne i (omega arith) (omega arith))

  copies-kept :
      (n i : ℕ) (s : Fat) (a o : ℕ)
      → s.disk a o ≡ s.cache o
      → (write_copies n dev start stride i s).disk a o ≡ s.cache o
  unfolding write_copies
  copies-kept zero i s a o e = e
  copies-kept (suc n) i s a o e =
      let (w, x, y, z) = buf_write-disk dev (start + i * stride) s a o all in
      let same = ap (λ (c : ℕ → ℕ). c o) x in
      copies-kept n (i + 1) (buf_write dev (start + i * stride) 1 s).1 a o
        (ground (arith, w, e, same))
      ∙ same

  -- Each of those written has what the buffer has.
  pub copies-written :
      (n i j : ℕ) (s : Fat) (o : ℕ)
      → i ≤ j
      → j < i + n
      → (write_copies n dev start stride i s).disk (start + j * stride) o ≡ s.cache o
  unfolding write_copies
  copies-written zero i j s o le lt = absurd (omega arith)
  copies-written (suc n) i j s o le lt =
      let t = (buf_write dev (start + i * stride) 1 s).1 in
      let (w, x, y, z) = buf_write-disk dev (start + i * stride) s (start + j * stride) o all in
      let same = ap (λ (c : ℕ → ℕ). c o) x in
      elim (Bool-cases (i == j)) [
        | inl here ↦
            let e : j ≡ i = ground (arith, here) in
            let at : start + j * stride ≡ start + i * stride = ap (λ k. start + k * stride) e in
            copies-kept n (i + 1) t (start + j * stride) o (ground (arith, w, at, same)) ∙ same
        | inr other ↦ copies-written n (i + 1) j t o (ground (arith, other)) (omega arith) ∙ same
      ]
