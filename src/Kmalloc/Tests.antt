-- ===== src/Kmalloc/Tests.antt =====
-- The kernel heap of `basekernel/kernel/kmalloc.c` with three chunks.
use stage_os.Base.{List, [], ◌∷◌, ◌≡◌, refl, true, false, some, arith}
use stage_os.Kmalloc.{
  Chunk, padded, first_fit, kmalloc, join_next, join_prev, free_behind, free_from, kfree,
}
use stage_os.Kmalloc.Layout.{Fills, kfree-Fills}

abbrev chunks : List Chunk
chunks =
    record { address = 1000; used = false; length = 64 }
    ∷ record { address = 1064; used = true; length = 32 }
    ∷ record { address = 1096; used = false; length = 904 }
    ∷ []

chunks-Fills : Fills false 1000 2000 chunks
chunks-Fills = (refl, omega arith, refl, (refl, omega arith, refl, (refl, omega arith, refl, refl)))

-- A request of 40 bytes takes the first chunk as it is, and one of 100 splits the last one.
takes_whole : (kmalloc 40 chunks).0 ≡ some 1016
unfolding kmalloc padded first_fit
takes_whole = refl

splits : (kmalloc 100 chunks).0 ≡ some 1112
unfolding kmalloc padded first_fit
splits = refl

joins_both : kfree 1080 chunks ≡ some (record { address = 1000; used = false; length = 1000 } ∷ [])
unfolding kfree free_from free_behind join_prev join_next
joins_both = refl

kfree-Fills_example :
    Fills false 1000 2000 (record { address = 1000; used = false; length = 1000 } ∷ [])
kfree-Fills_example =
    kfree-Fills 1000 2000 1080 chunks (record { address = 1000; used = false; length = 1000 } ∷ [])
      chunks-Fills joins_both
