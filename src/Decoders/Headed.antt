-- ===== src/Decoders/Headed.antt =====
-- A walk that goes on behind a first name, as for the access mode of open flags, and the reader.
use mini_strace.Base.{
  ℕ, ◌+◌, ◌^◌, ◌≤◌, ◌<◌, Bool, true, ◌∷◌, ◌++◌, some, ◌≡◌, ap, ◌∙◌, arith, codes, all_of,
  length-append,
}
use mini_strace.ChildMem.{snprintf}
use mini_strace.Decoders.Walk.{FlagEntry, FlagTable, walk, append_rest}
use mini_strace.Decoders.Parts.{parts, parts-total, parts-all_of}
use mini_strace.Decoders.Joined.{
  joined, more, texts, rest_text, budget, length-more-texts, walk-more, append_rest-joined,
}
use mini_strace.Decoders.Reading.{read_flags, good_row, good_table}
use mini_strace.Decoders.ReadBack.{read_flags-rows, length-joined, snprintf-fits}
use mini_strace.Decoders.Words.{rows-has_name}

-- The text of such a walk.
headed-joined :
    (known : FlagTable) (head : FlagEntry) (table : FlagTable) (skip_zero : Bool)
    (remaining out_size : ℕ)
    → all_of (good_row known) (head ∷ table) ≡ true
    → budget (head ∷ table) < out_size
    → append_rest out_size (walk skip_zero out_size table remaining (codes head.name))
      ≡ joined (
          texts (head ∷ (parts skip_zero table remaining).0)
          ++ rest_text (parts skip_zero table remaining).1)
headed-joined known head table skip_zero remaining out_size g room =
    let rows = (parts skip_zero table remaining).0 in
    let good = parts-all_of (good_row known) skip_zero table remaining (ground arith) in
    let named = rows-has_name known (head ∷ rows) (ground arith) in
    let size = length-append (codes head.name) (more (texts rows)) in
    let short = length-more-texts skip_zero table remaining in
    let walked =
      walk-more skip_zero out_size table remaining (codes head.name) (omega arith) (ground arith) in
    ap (append_rest out_size) walked
    ∙ append_rest-joined out_size (parts skip_zero table remaining).1 (head ∷ rows)
        (omega (arith, size, short)) named

pub headed-read :
    (known : FlagTable) (head : FlagEntry) (table : FlagTable) (skip_zero : Bool)
    (remaining out_size : ℕ)
    → good_table known ≡ true
    → all_of (good_row known) (head ∷ table) ≡ true
    → budget (head ∷ table) + 20 ≤ out_size
    → remaining < 2 ^ 64
    → read_flags known (
        snprintf out_size
          (append_rest out_size (walk skip_zero out_size table remaining (codes head.name))))
      ≡ some (head.value + remaining)
headed-read known head table skip_zero remaining out_size g h room k =
    let rows = (parts skip_zero table remaining).0 in
    let left = (parts skip_zero table remaining).1 in
    let sum = parts-total skip_zero table remaining in
    let good = parts-all_of (good_row known) skip_zero table remaining (ground arith) in
    let size = length-append (codes head.name) (more (texts rows)) in
    let short = length-more-texts skip_zero table remaining in
    let text = headed-joined known head table skip_zero remaining out_size h (omega arith) in
    let fits =
      snprintf-fits out_size (joined (texts (head ∷ rows) ++ rest_text left))
        (omega (arith, length-joined (head ∷ rows) left, size, short)) in
    ap (λ s. read_flags known (snprintf out_size s)) text
    ∙ ap (read_flags known) fits
    ∙ read_flags-rows known head rows left g (ground arith) (omega (arith, sum))
    ∙ ap some (omega (arith, sum))
