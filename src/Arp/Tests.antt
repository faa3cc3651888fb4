-- ===== src/Arp/Tests.antt =====
-- A cache that learns two addresses.
use clean_os.Base.{ℕ, ◌≡◌, ◌≢◌, inr, true, some, [], ◌∷◌, arith}
use clean_os.Pktbuf.Store.{err_ok}
use clean_os.Arp.{Ether, init_arp, numbers, cache_insert, arp_find}
use clean_os.Arp.Cache.{IsCache}
use clean_os.Arp.Inv.{calls, inserts, resolves, finds, calls-IsCache}
use clean_os.Arp.Find.{arp_find-cache_insert}

abbrev wire : Ether
wire = record { raw_out = λ fs. err_ok; make_request = λ rs. err_ok; at_null = 0 }

calls-IsCache_example : IsCache (
    calls wire
      (resolves 1 10 7 ∷ inserts 1 10 99 true ∷ inserts 1 11 98 true ∷ finds 10 ∷ [])
      init_arp)
calls-IsCache_example =
    calls-IsCache wire
      (resolves 1 10 7 ∷ inserts 1 10 99 true ∷ inserts 1 11 98 true ∷ finds 10 ∷ [])

arp_find-cache_insert_example :
    let t = (cache_insert wire init_arp 1 10 99 true).1 in
    ((arp_find t 10).0 ≡ some 99) × ((a : ℕ) → a ≢ 10 → (arp_find t a).0 ≡ (arp_find init_arp a).0)
unfolding init_arp numbers
arp_find-cache_insert_example =
    arp_find-cache_insert wire init_arp 1 10 99 true (calls-IsCache wire []) (inr (omega arith))
