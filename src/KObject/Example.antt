-- ===== src/KObject/Example.antt =====
-- A file of 10 bytes under the objects of `basekernel/kernel/kobject.c`, for tests.
use stage_os.Base.{ℕ, true, ◌*◌, Option, none, some, List, []}
use stage_os.Fs.{dirent_read}
use stage_os.Fs.Slice.{slice}
use stage_os.KObject.{Kind, KObject, Operations, Reader, Writer, not_implemented, failed}
use stage_os.KObject.Sequence.{as_result}

abbrev no_reader : Reader (Unit {0})
no_reader s t n = (s, [], failed not_implemented)

abbrev no_writer : Writer (Unit {0})
no_writer s t b = (s, failed not_implemented)

-- A file of 10 bytes in blocks of 4, the byte at `i` being `i`
abbrev pub content : ℕ → ℕ
content i = i

abbrev pub block : Unit {0} → ℕ → Option (List ℕ)
block s i = some (slice content (i * 4) 4)

abbrev file_read : (offset : ℕ) → Reader (Unit {0})
file_read offset s t n =
    let r = dirent_read 4 (some block) s true 10 offset n in (s, r.0, as_result r.1)

abbrev pub file_operations : Operations (Unit {0})
file_operations = record {
  dirent_read = file_read;
  dirent_write = λ offset. no_writer;
  dirent_size = λ s t. 10;
  dirent_list = no_reader;
  dirent_remove = no_writer;
  device_read = λ b. no_reader;
  device_write = λ n. no_writer;
  device_block_size = λ s t. 512;
  device_nblocks = λ s t. 100;
  pipe_read = λ b. no_reader;
  pipe_write = λ b. no_writer;
  pipe_size = λ s t. 0;
  window_read_events = λ b. no_reader;
  window_write = λ b. no_writer;
  window_size = λ s t. (0, 0);
  console_read = λ b. no_reader;
  console_write = λ b. no_writer;
  console_size = λ s t. (0, 0);
}

abbrev pub file_object : KObject
file_object = record { kind = Kind.file; target = 0; offset = 3; refcount = 1; tag = none }
