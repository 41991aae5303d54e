-- ===== src/Summary/Accounting.antt =====
-- What the rows of the `-c` table count.
use mini_strace.Base.{
  ℕ, zero, suc, String, Bool, true, false, [], ◌∷◌, ◌++◌, Option, none, some, if◌then◌else◌, ltb,
  str_eq, str_eq_iff, length, ◌≡◌, refl, arith, Bool-cases, Option-cases, inl, inr,
}
use mini_strace.Summary.{
  SummaryEntry, SummaryTable, row_of, account, counted, update_row, max_summary_entries,
}

module _ {T : Type 0} where
  -- The row of a name.
  unfoldable pub row : SummaryTable T → String → Option (SummaryEntry T)
  row [] name = none
  row (e ∷ table) name = if str_eq e.name name then some e else row table name

  -- The row of a name after one more call of it.
  abbrev pub one_more :
      T → (T → T → T) → Option (SummaryEntry T) → Bool → String → Bool → T → Option (SummaryEntry T)
  one_more zero_time plus (some e) room name failed elapsed = some (counted plus e failed elapsed)
  one_more zero_time plus none true name failed elapsed = some (
      counted plus (record { name = name; calls = 0; errors = 0; total_time = zero_time }) failed
        elapsed)
  one_more zero_time plus none false name failed elapsed = none

  row-update_row :
      (f : SummaryEntry T → SummaryEntry T) (table : SummaryTable T) (name : String) (i : ℕ)
      (q : String)
      → ((e : SummaryEntry T) → (f e).name ≡ e.name)
      → row_of table name ≡ some i
      → row (update_row f table i) q ≡ (
          if str_eq name q
          then elim (row table q) [ none ↦ none | some e ↦ some (f e) ]
          else row table q)
  unfolding row row_of
  row-update_row f [] name i q k h = cc
  row-update_row f (e ∷ table) name zero q k h = ground (
    arith,
    k e,
    str_eq_iff e.name name,
    str_eq_iff name q,
    str_eq_iff e.name q,
    str_eq_iff (f e).name q,
  )
  row-update_row f (e ∷ table) name (suc i) q k h = ground (
    arith,
    str_eq_iff e.name name,
    str_eq_iff name q,
    str_eq_iff e.name q,
    row-update_row f table name i q k,
  )

  row-append :
      (table : SummaryTable T) (e : SummaryEntry T) (q : String)
      → row (table ++ e ∷ []) q
        ≡ elim (row table q) [ some r ↦ some r | none ↦ if str_eq e.name q then some e else none ]
  unfolding row
  row-append [] e q = refl
  row-append (r ∷ table) e q = ground (arith, row-append table e q)

  row_of-append :
      (table : SummaryTable T) (e : SummaryEntry T)
      → row_of table e.name ≡ none
      → row_of (table ++ e ∷ []) e.name ≡ some (length table)
  unfolding row_of
  row_of-append [] e h = ground (arith, str_eq_iff e.name e.name)
  row_of-append (r ∷ table) e h = ground (arith, row_of-append table e)

  row_of-none :
      (table : SummaryTable T) (name : String) → row_of table name ≡ none → row table name ≡ none
  unfolding row_of row
  row_of-none [] name h = refl
  row_of-none (e ∷ table) name h = ground (arith, row_of-none table name)

  row_of-some :
      (table : SummaryTable T) (name : String) {i : ℕ}
      → row_of table name ≡ some i
      → (e : SummaryEntry T) × (row table name ≡ some e)
  unfolding row_of row
  row_of-some [] name h = cc
  row_of-some (e ∷ table) name h = elim (Bool-cases (str_eq e.name name)) [
    | inl same ↦ (e, rw same refl)
    | inr differ ↦ rw differ (elim (Option-cases (row_of table name)) [
      | inl f ↦ ground arith
      | inr (k, f) ↦ row_of-some table name f
    ])
  ]

  -- One exit stop under `-c` adds the call to the row of its name, or opens a row for it while fewer
  -- than 256 names have one, and leaves the row of every other name as it was.
  pub row-account :
      (zero_time : T) (plus : T → T → T) (table : SummaryTable T) (name : String) (failed : Bool)
      (elapsed : T) (q : String)
      → row (account zero_time plus table name failed elapsed) q ≡ (
          if str_eq name q
          then one_more zero_time plus
              (row table name)
              (ltb (length table) max_summary_entries)
              name
              failed
              elapsed
          else row table q)
  unfolding account
  row-account zero_time plus table name failed elapsed q = elim (Option-cases (row_of table name)) [
    | inr (i, e) ↦
        let (r, f) = row_of-some table name e in
        let bump = λ (t : SummaryEntry T). counted plus t failed elapsed in
        ground (arith, f, str_eq_iff name q, row-update_row bump table name i q (λ t. refl))
    | inl e ↦ elim (Bool-cases (ltb (length table) max_summary_entries)) [
      | inl room ↦
          let opened : SummaryEntry T = record {
            name = name;
            calls = 0;
            errors = 0;
            total_time = zero_time;
          } in
          let bump = λ (t : SummaryEntry T). counted plus t failed elapsed in
          ground (
            arith,
            str_eq_iff name q,
            row_of-none table name e,
            row_of-append table opened e,
            row-append table opened q,
            row-update_row bump (table ++ opened ∷ []) name (length table) q (λ t. refl),
          )
      | inr full ↦ ground (arith, str_eq_iff name q, row_of-none table name e)
    ]
  ]
