-- ===== src/Decoders/Dirents.antt =====
-- src/decoders.c, `format_getdents_buf`: the packed entries of a directory.
use mini_strace.Base.{
  ℕ, zero, suc, ◌+◌, ◌-◌, String, Bool, true, false, ◌&&◌, ◌||◌, ◌++◌, Option, if◌then◌else◌, ◌==◌,
  ltb, leb, length, codes, take, drop, min,
}
use mini_strace.Base.Bytes.{Bytes}
use mini_strace.Base.Int.{ℤ, is_positive, to_ℕ}
use mini_strace.ChildMem.{hex_address, snprintf, read_child_raw, text_length}
use mini_strace.Decoders.Text.{append_text, decimal}
use mini_strace.Decoders.Structs.{field, long_text}
use mini_strace.Decoders.Arrays.{comma_after, max_entries}

unfoldable pub dirent_type_name : ℕ → String
dirent_type_name d_type =
    if d_type == 8
    then "DT_REG"
    else if d_type == 4
    then "DT_DIR"
    else if d_type == 10
    then "DT_LNK"
    else if d_type == 2
    then "DT_CHR"
    else if d_type == 6
    then "DT_BLK"
    else if d_type == 1
    then "DT_FIFO"
    else if d_type == 12
    then "DT_SOCK"
    else "DT_UNKNOWN"

-- `GETDENTS_HEADER_SIZE`
abbrev pub header_size : ℕ
header_size = 19

-- `GETDENTS_MAX_BYTES`
abbrev pub getdents_max_bytes : ℕ
getdents_max_bytes = 4096

-- `d_reclen` of the entry that the bytes begin with.
abbrev pub d_reclen : Bytes → ℕ
d_reclen buf = field 16 2 buf

-- `"%.*s"` of the name, up to its NUL or the end of the entry.
unfoldable pub d_name : Bytes → Bytes
unfolding text_length field
d_name buf =
    let name = take (d_reclen buf - header_size) (drop header_size buf) in
    take (text_length name) name

unfoldable pub dirent_text : Bytes → Bytes
unfolding field decimal long_text d_name dirent_type_name
dirent_text buf =
    codes "{d_ino="
    ++ decimal (field 0 8 buf)
    ++ codes ", d_off="
    ++ long_text 8 buf
    ++ codes ", d_reclen="
    ++ decimal (d_reclen buf)
    ++ codes ", d_name=\""
    ++ d_name buf
    ++ codes "\", d_type="
    ++ codes (dirent_type_name (field 18 1 buf))
    ++ codes "}"

-- Where the loop over the entries ends: the bytes from `pos`, how many entries were shown, whether it
-- stopped at an entry (`more`), and the text.
pub record DirentsEnd : Type 0 where
  pub rest : Bytes
  pub count : ℕ
  pub more : Bool
  pub out : Bytes

-- Whether the loop stops at an entry: one that is too short or goes past the end, or one too many.
abbrev pub bad_entry : Bytes → ℕ → Bool
bad_entry buf count =
    (ltb (d_reclen buf) header_size || ltb (length buf) (d_reclen buf)) || leb max_entries count

-- The loop, on the bytes of the buffer from `pos`. A round takes 19 bytes at least.
unfoldable pub dirents_loop : ℕ → ℕ → Bytes → ℕ → Bytes → DirentsEnd
unfolding field dirent_text append_text
dirents_loop out_size zero buf count out = record {
  rest = buf;
  count = count;
  more = false;
  out = out;
}
dirents_loop out_size (suc fuel) buf count out = elim (leb header_size (length buf)) [
  | false ↦ record { rest = buf; count = count; more = false; out = out }
  | true ↦ elim (bad_entry buf count) [
    | true ↦ record { rest = buf; count = count; more = true; out = out }
    | false ↦
        dirents_loop out_size fuel (drop (d_reclen buf) buf) (count + 1)
          (append_text out_size (comma_after count ++ dirent_text buf) out)
  ]
]

-- The end of the text: three dots if the loop stopped or bytes are left.
unfoldable pub close_dirents : ℕ → DirentsEnd → Bytes
unfolding append_text
close_dirents out_size e = append_text out_size (codes "]") (
    if e.more || ltb 0 (length e.rest)
    then append_text out_size (comma_after e.count ++ codes "...") e.out
    else e.out)

unfoldable pub format_getdents_buf : (ℕ → Option ℕ) → ℕ → ℤ → ℕ → Bytes
unfolding read_child_raw dirents_loop close_dirents hex_address
format_getdents_buf peek addr ret out_size =
    let buf = read_child_raw peek addr (min (to_ℕ ret) getdents_max_bytes) in
    if is_positive ret && leb header_size (length buf)
    then snprintf out_size
        (close_dirents out_size (dirents_loop out_size (length buf) buf 0 (codes "[")))
    else snprintf out_size (hex_address addr)
