-- ===== src/Paging/Kheap/Tests.antt =====
-- Runs of the allocator, and its theorems at concrete addresses.
use mal_os.Prelude.{ℕ, ◌≡◌, refl, some, List, [], ◌∷◌}
use mal_os.Paging.Kheap.{kmalloc_int, kmalloc_ap}

page_after : (kmalloc_ap 100 0x5001).phys ≡ some 0x6000
unfolding kmalloc_ap kmalloc_int
page_after = refl

-- What `initialise_paging` asks for first.
abbrev requests : List (ℕ × ℕ)
requests = (128, 0) ∷ (8196, 1) ∷ (4096, 1) ∷ []
