-- ===== src/BCache/Tests.antt =====
-- The block cache of `basekernel/kernel/bcache.c` in front of one device whose blocks are numbers.
use stage_os.Base.{
  ℕ, ◌≡◌, refl, Bool, true, false, Option, some, [], ◌∷◌, ◌&&◌, ◌==◌, if◌then◌else◌, arith,
}
use stage_os.BCache.{Devices, Cache, write_block, flush_all, read, write}
use stage_os.BCache.View.{KeepsBlocks}
use stage_os.BCache.Refine.{shown, IsValid}
use stage_os.BCache.Write.{Written, write_block-Written}
use stage_os.BCache.Flush.{flush_all-disk}
use stage_os.BCache.Blocks.{read_back}

-- Devices as functions from device and block; no read fails.
abbrev Drive : Type 0
Drive = ℕ → ℕ → Option ℕ

-- A drive with a new block
abbrev written : Drive → (dv b x : ℕ) → Drive
written d dv b x dv' b' = if dv == dv' && b == b' then some x else d dv' b'

-- Device 0 can be written, and every other device refuses.
abbrev on_drive : ℕ → ℕ → Bool
on_drive dv b = dv == 0

abbrev io : Devices Drive ℕ
io = record {
  read_block = λ d dv b. d dv b;
  write_block = λ d dv b x. if dv == 0 then (written d dv b x, true) else (d, false);
}

kept :
    (d : Drive) (dv b x : ℕ)
    → (io.write_block d dv b x).1 ≡ true
    → io.read_block (io.write_block d dv b x).0 dv b ≡ some x
kept d dv b x done = ground arith

unchanged :
    (d : Drive) (dv b x : ℕ)
    → (io.write_block d dv b x).1 ≡ false
    → io.read_block (io.write_block d dv b x).0 dv b ≡ io.read_block d dv b
unchanged d dv b x failed = ground arith

others :
    (d : Drive) (dv b dv' b' x : ℕ)
    → (dv == dv' && b == b') ≡ false
    → io.read_block (io.write_block d dv b x).0 dv' b' ≡ io.read_block d dv' b'
others d dv b dv' b' x h = ground arith

io-KeepsBlocks : KeepsBlocks io on_drive
io-KeepsBlocks = record {
  accepts = λ d dv b x can. rw can refl;
  read_same = λ d dv b x done. kept d dv b x done;
  refuses = λ d dv b x failed. unchanged d dv b x failed;
  read_other = λ d dv b dv' b' x h. others d dv b dv' b' x h;
}

abbrev drive : Drive
drive dv b = some 7

-- Block 3 of device 0 is cached and dirty.
abbrev cached : Cache Drive ℕ
cached = record {
  entries = record { device = 0; block = 3; dirty = true; content = 5 } ∷ [];
  stats = record {
    read_hits = 0;
    read_misses = 0;
    write_hits = 0;
    write_misses = 0;
    writebacks = 0;
  };
  disk = drive;
}

cached-IsValid : IsValid io on_drive cached
cached-IsValid = record { backed = (λ e. cc, tt); distinct = (tt, tt); bound = omega arith }

write_block-Written_example : Written io on_drive cached 0 3 9 (write_block io 0 true 0 3 9 cached)
write_block-Written_example =
    write_block-Written io io-KeepsBlocks 0 true 0 3 9 cached refl cached-IsValid

flush_all-disk_example :
    (io.read_block (flush_all io cached).disk 0 3 ≡ shown io cached 0 3)
    × (shown io (flush_all io cached) 0 3 ≡ shown io cached 0 3)
flush_all-disk_example = flush_all-disk io io-KeepsBlocks cached 0 3 cached-IsValid

read_back_example :
    (read io 0 (λ b. false) 0 2 2 (write io 0 (λ b. true) 0 2 (8 ∷ 9 ∷ []) cached)).0 ≡ 8 ∷ 9 ∷ []
read_back_example =
    read_back io io-KeepsBlocks 0 (λ b. true) (λ b. false) 0 2 (8 ∷ 9 ∷ []) cached
      (refl, (refl, tt)) cached-IsValid
