-- ===== src/MemoryCache/Tests.antt =====
-- Runs of the memory cache on two small ranges.
use s2e.Common.{ℕ, ◌≡◌, refl, arith, true, List, [], ◌∷◌, ok, fault, assertion}
use s2e.MemoryCache.{MemoryCache, init, contains, get, put, register_pool, pool_put}
use s2e.MemoryCache.Reset.{IsBlank, init-IsBlank}
use s2e.MemoryCache.Pool.{IsAligned, AllAligned, Stored, pool_get-put}

-- 2 MB at 16 MB, and 4 KB at 8 KB.
abbrev ram : MemoryCache ℕ
ram = init 0x1000000 0x200000

abbrev rom : MemoryCache ℕ
rom = init 0x2000 0x1000

ram-IsBlank : IsBlank 0 ram
ram-IsBlank = init-IsBlank 0 0x1000000 0x200000 (omega arith) (omega arith)

rom-IsBlank : IsBlank 0 rom
rom-IsBlank = init-IsBlank 0 0x2000 0x1000 (omega arith) (omega arith)

put_run :
    (c : MemoryCache ℕ) × (put 0 ram 0x1100080 7 ≡ ok c)
    × (get 0 c 0x11000ff ≡ ok 7)
    × (get 0 c 0x1100100 ≡ ok 0)
unfolding put get init
put_run = (_, refl, refl, refl)

unaligned_run : register_pool (ram ∷ []) 0x80 0x1000 ≡ fault assertion
unfolding register_pool
unaligned_run = refl

ram_holds : contains ram 0x1100080 ≡ true
unfolding init
ram_holds = refl

ram-IsAligned : IsAligned 0 ram
unfolding init
ram-IsAligned = record { valid = ram-IsBlank.valid; aligned = refl; whole = refl }

rom-IsAligned : IsAligned 0 rom
unfolding init
rom-IsAligned = record { valid = rom-IsBlank.valid; aligned = refl; whole = refl }

pool_get-put_example :
    (cs' : List (MemoryCache ℕ)) × (pool_put 0 (ram ∷ rom ∷ []) 0x2010 9 ≡ ok cs')
    × AllAligned 0 cs'
    × Stored 0 (ram ∷ rom ∷ []) cs' 0x2010 9
pool_get-put_example = pool_get-put 0 0x2010 9 (ram ∷ rom ∷ []) (ram-IsAligned, (rom-IsAligned, tt))
