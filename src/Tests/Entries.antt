-- ===== src/Tests/Entries.antt =====
-- src/decoders.c: directory entries and sets of descriptors, at small inputs.
use mini_strace.Base.{[], ◌∷◌, ◌++◌, List, ◌≡◌, refl, arith, codes, false}
use mini_strace.Base.Bytes.{Bytes}
use mini_strace.ChildMem.{le_bytes}
use mini_strace.Decoders.Arrays.{fdset_loop}
use mini_strace.Decoders.Text.{append_text, decimal, radix_digits}
use mini_strace.Decoders.Dirents.{dirents_loop}
use mini_strace.Decoders.DirentsShown.{
  Dirent, entry_bytes, entries_bytes, entries_text, dirents_loop-entries_bytes,
}
use mini_strace.Decoders.FdsetShown.{fds_text, fdset_loop-fds_text}

abbrev two_entries : List Dirent
two_entries =
    record { ino = 5; off = 1; kind = 8; name = codes "a"; padding = 0 ∷ 0 ∷ 0 ∷ [] }
    ∷ record { ino = 6; off = 2; kind = 4; name = codes "bin"; padding = 0 ∷ [] }
    ∷ []

dirents_loop-entries_bytes_example :
    dirents_loop 512 64 (entries_bytes two_entries) 0 (codes "[") ≡ record {
      rest = [];
      count = 2;
      more = false;
      out = entries_text 512 two_entries 0 (codes "[");
    }
unfolding entries_bytes entry_bytes le_bytes
dirents_loop-entries_bytes_example =
    dirents_loop-entries_bytes 512 64 two_entries 0 (codes "[")
      (
        (omega arith, omega arith, omega arith, refl),
        ((omega arith, omega arith, omega arith, refl), refl),
      )
      (omega arith) (omega arith)

-- Descriptors 0, 3 and 9.
abbrev three_bits : Bytes
three_bits = 9 ∷ 2 ∷ []

fdset_text : fdset_loop three_bits 256 16 0 0 (codes "[") ≡ codes "[0, 3, 9"
unfolding fdset_loop append_text decimal radix_digits
fdset_text = refl

fdset_loop-fds_text_example :
    fdset_loop three_bits 256 16 0 0 (codes "[") ≡ codes "[" ++ fds_text 0 (0 ∷ 3 ∷ 9 ∷ [])
fdset_loop-fds_text_example =
    fdset_loop-fds_text three_bits 256 16 0 0 (codes "[") (omega arith) (omega arith)
