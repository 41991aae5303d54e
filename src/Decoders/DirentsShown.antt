-- ===== src/Decoders/DirentsShown.antt =====
-- `format_getdents_buf` of src/decoders.c, and an encoding of directory entries as the kernel writes them.
use mini_strace.Base.{
  ℕ, zero, suc, ◌+◌, ◌-◌, ◌/◌, ◌^◌, ◌≤◌, ◌<◌, true, false, not, List, [], ◌∷◌, ◌++◌, ◌≡◌, refl, sym,
  ap, ◌∙◌, arith, ◌==◌, leb, length, take, drop, codes, all_of, length-append,
}
use mini_strace.Base.Bytes.{Bytes}
use mini_strace.ChildMem.{le_bytes, text_length}
use mini_strace.Decoders.Text.{append_text, decimal, signed_decimal, as_long}
use mini_strace.Decoders.Structs.{le_value, field, long_text}
use mini_strace.Decoders.Arrays.{comma_after, max_entries}
use mini_strace.Decoders.Dirents.{
  header_size, d_reclen, d_name, dirent_text, dirent_type_name, bad_entry, dirents_loop,
}

-- `struct linux_dirent64`, with the bytes behind the NUL of its name.
pub record Dirent : Type 0 where
  pub ino : ℕ
  pub off : ℕ
  pub kind : ℕ
  pub name : Bytes
  pub padding : Bytes

abbrev pub entry_size : Dirent → ℕ
entry_size e = header_size + suc (length e.name + length e.padding)

-- What stands behind the header.
abbrev name_bytes : Dirent → Bytes
name_bytes e = e.name ++ 0 ∷ e.padding

unfoldable pub entry_bytes : Dirent → Bytes
unfolding le_bytes
entry_bytes e =
    le_bytes 8 e.ino ++ le_bytes 8 e.off ++ le_bytes 2 (entry_size e) ++ e.kind ∷ name_bytes e

unfoldable pub entries_bytes : List Dirent → Bytes
unfolding entry_bytes
entries_bytes [] = []
entries_bytes (e ∷ es) = entry_bytes e ++ entries_bytes es

-- Numbers of their widths, and a name without a NUL.
abbrev pub IsDirent : Dirent → Type 0
IsDirent e =
    (e.ino < 2 ^ 64)
    × (e.off < 2 ^ 64)
    × (entry_size e < 2 ^ 16)
    × (all_of (λ c. not (c == 0)) e.name ≡ true)

abbrev pub AllDirents : List Dirent → Type 0
AllDirents [] = true ≡ true
AllDirents (e ∷ es) = IsDirent e × AllDirents es

le_value-le_bytes : (n w : ℕ) → w < 256 ^ n → le_value (le_bytes n w) ≡ w
unfolding le_value le_bytes
le_value-le_bytes zero w h = omega arith
le_value-le_bytes (suc n) w h = omega (arith, le_value-le_bytes n (w / 256) (omega arith))

reclen_lem : (e : Dirent) (s : Bytes) → IsDirent e → d_reclen (entry_bytes e ++ s) ≡ entry_size e
unfolding field entry_bytes le_bytes le_value
reclen_lem e s (i, o, z, p) = le_value-le_bytes 2 (entry_size e) (omega arith)

text_length-name :
    (name rest : Bytes)
    → all_of (λ c. not (c == 0)) name ≡ true
    → text_length (name ++ 0 ∷ rest) ≡ length name
unfolding text_length
text_length-name [] rest h = refl
text_length-name (c ∷ name) rest h =
    let plain : (c == 0) ≡ false = ground arith in
    rw plain (ap suc (text_length-name name rest (ground arith)))

take-length : (s t : Bytes) → take (length s) (s ++ t) ≡ s
take-length [] t = refl
take-length (c ∷ s) t = ap (◌∷◌ c) (take-length s t)

drop-length : (s t : Bytes) → drop (length s) (s ++ t) ≡ t
drop-length [] t = refl
drop-length (c ∷ s) t = drop-length s t

name_lem : (e : Dirent) (s : Bytes) → IsDirent e → d_name (entry_bytes e ++ s) ≡ e.name
unfolding d_name field entry_bytes le_bytes le_value
name_lem e s (i, o, z, p) =
    let size = reclen_lem e s (i, o, z, p) in
    let room : d_reclen (entry_bytes e ++ s) - header_size ≡ length (name_bytes e) =
      omega (arith, size, length-append e.name (0 ∷ e.padding)) in
    let whole = take-length (name_bytes e) s in
    ap (λ n. take (text_length (take n (name_bytes e ++ s))) (take n (name_bytes e ++ s))) room
    ∙ ap (λ t. take (text_length t) t) whole
    ∙ ap (λ n. take n (name_bytes e)) (text_length-name e.name e.padding p)
    ∙ take-length e.name (0 ∷ e.padding)

-- The text of an entry, from its fields.
unfoldable pub fields_text : ℕ → ℕ → ℕ → Bytes → ℕ → Bytes
fields_text ino off len name kind =
    codes "{d_ino="
    ++ decimal ino
    ++ codes ", d_off="
    ++ signed_decimal (as_long off)
    ++ codes ", d_reclen="
    ++ decimal len
    ++ codes ", d_name=\""
    ++ name
    ++ codes "\", d_type="
    ++ codes (dirent_type_name kind)
    ++ codes "}"

abbrev pub entry_text : Dirent → Bytes
entry_text e = fields_text e.ino e.off (entry_size e) e.name e.kind

dirent_text-fields :
    (buf : Bytes)
    → dirent_text buf
      ≡ fields_text (field 0 8 buf) (field 8 8 buf) (d_reclen buf) (d_name buf) (field 18 1 buf)
unfolding dirent_text fields_text long_text
dirent_text-fields buf = refl

ino_lem : (e : Dirent) (s : Bytes) → IsDirent e → field 0 8 (entry_bytes e ++ s) ≡ e.ino
unfolding field entry_bytes le_bytes le_value
ino_lem e s (i, o, z, p) = le_value-le_bytes 8 e.ino (omega arith)

off_lem : (e : Dirent) (s : Bytes) → IsDirent e → field 8 8 (entry_bytes e ++ s) ≡ e.off
unfolding field entry_bytes le_bytes le_value
off_lem e s (i, o, z, p) = le_value-le_bytes 8 e.off (omega arith)

kind_lem : (e : Dirent) (s : Bytes) → field 18 1 (entry_bytes e ++ s) ≡ e.kind
unfolding field entry_bytes le_bytes le_value
kind_lem e s = omega arith

dirent_text-entry_bytes :
    (e : Dirent) (s : Bytes) → IsDirent e → dirent_text (entry_bytes e ++ s) ≡ entry_text e
dirent_text-entry_bytes e s d =
    dirent_text-fields (entry_bytes e ++ s)
    ∙ rw (ino_lem e s d, off_lem e s d, reclen_lem e s d, name_lem e s d, kind_lem e s) refl

length-entry_bytes : (e : Dirent) → length (entry_bytes e) ≡ entry_size e
unfolding entry_bytes le_bytes
length-entry_bytes e = omega (arith, length-append e.name (0 ∷ e.padding))

rest_lem :
    (e : Dirent) (s : Bytes)
    → IsDirent e
    → drop (d_reclen (entry_bytes e ++ s)) (entry_bytes e ++ s) ≡ s
rest_lem e s d =
    ap (λ n. drop n (entry_bytes e ++ s)) (reclen_lem e s d ∙ sym (length-entry_bytes e))
    ∙ drop-length (entry_bytes e) s

-- The entries in order, behind those that are written, as far as there is room.
unfoldable pub entries_text : ℕ → List Dirent → ℕ → Bytes → Bytes
unfolding append_text
entries_text out_size [] count out = out
entries_text out_size (e ∷ es) count out =
    entries_text out_size es (count + 1)
      (append_text out_size (comma_after count ++ entry_text e) out)

-- The loop over the entries of a directory, with as many rounds as bytes, reads a sequence of well-formed
-- entries, of which there are no more than eight with those before it, to its end, and shows the fields
-- of each in their order, as far as there is room. Numbers have the widths of their fields, and names
-- have no zero byte.
pub dirents_loop-entries_bytes :
    (out_size fuel : ℕ) (es : List Dirent) (count : ℕ) (out : Bytes)
    → AllDirents es
    → length es + count ≤ max_entries
    → length (entries_bytes es) ≤ fuel
    → dirents_loop out_size fuel (entries_bytes es) count out ≡ record {
      rest = [];
      count = count + length es;
      more = false;
      out = entries_text out_size es count out;
    }
unfolding dirents_loop entries_bytes entries_text
dirents_loop-entries_bytes out_size zero [] count out d few room =
    ap (λ n. record { rest = []; count = n; more = false; out = out }) (omega arith)
dirents_loop-entries_bytes out_size (suc fuel) [] count out d few room =
    ap (λ n. record { rest = []; count = n; more = false; out = out }) (omega arith)
dirents_loop-entries_bytes out_size zero (e ∷ es) count out d few room =
    absurd (omega (arith, length-append (entry_bytes e) (entries_bytes es), length-entry_bytes e))
dirents_loop-entries_bytes out_size (suc fuel) (e ∷ es) count out (d, ds) few room =
    let buf = entry_bytes e ++ entries_bytes es in
    let size = length-append (entry_bytes e) (entries_bytes es) in
    let one = length-entry_bytes e in
    let reclen = reclen_lem e (entries_bytes es) d in
    let long : leb header_size (length buf) ≡ true = ground (arith, size, one) in
    let good : bad_entry buf count ≡ false = ground (arith, size, one, reclen) in
    let shown = dirent_text-entry_bytes e (entries_bytes es) d in
    let rest = rest_lem e (entries_bytes es) d in
    let out' = append_text out_size (comma_after count ++ entry_text e) out in
    let ih =
      dirents_loop-entries_bytes out_size fuel es (count + 1) out' ds (omega arith)
        (omega (arith, size, one)) in
    rw (long, good, dirents_loop, rest, shown)
      (ih
        ∙ ap
            (λ n. record {
              rest = [];
              count = n;
              more = false;
              out = entries_text out_size es (count + 1) out';
            })
            (omega arith))
