-- ===== src/Scripts/Rights/Unique.antt =====
-- The combinations of a file, a basis and an act that a3m/client/clientScripts/rights_from_csv.py stores.
use a3m.Common.{
  suc, ◌++◌, String, ◌≡◌, refl, sym, ap, ◌∙◌, true, false, inl, inr, List, [], ◌∷◌, arith, ◌+◌, All,
  Bool-cases, length, length-append, Exception, Result, ok, raise, raise-ne-ok, eq_refl,
}
use a3m.Scripts.Rights.{
  Usage, same_usage, used, Reader, new_reader, usage_of, skip, store, store_if, import_row,
  validate_first, parse_validated, parse_row, parse_rows,
}
use a3m.Scripts.Rights.Store.{Strings, Row, Statement, generate_rights_statement, store_row}
use mathlib.Core.Path.{subst}

-- No combination stands twice.
abbrev NoRepeats : List Usage → Type 0
NoRepeats [] = Unit
NoRepeats (usage ∷ usages) = (used usage usages ≡ false) × NoRepeats usages

abbrev usages : List (Usage × Statement) → List Usage
usages [] = []
usages ((usage, statement) ∷ rest) = usage ∷ usages rest

-- The combinations of the statements stored in full are those in use; none of them is twice there, nor is
-- one of those that a row has saved before it raised; and each row processed was stored or skipped.
pub record IsUnique (reader : Reader) : Type 0 where
  pub in_use : usages reader.stored ≡ reader.object_basis_act_usage
  pub distinct : NoRepeats (reader.unfinished ++ reader.object_basis_act_usage)
  pub counted : reader.rows_processed ≡ length reader.stored + length reader.skipped

same_usage_refl : (usage : Usage) → same_usage usage usage ≡ true
same_usage_refl (file, (basis, act)) = ground (arith, eq_refl file, eq_refl basis, eq_refl act)

-- Every combination in use stays in use.
abbrev Keeps : Reader → Reader → Type 0
Keeps before after =
    (usage : Usage)
    → used usage before.object_basis_act_usage ≡ true
    → used usage after.object_basis_act_usage ≡ true

module _ (strings : Strings) (file_at : String → Result String) where
  -- The combination of a row has a stored statement.
  abbrev pub IsImported : Reader → Row → Type 0
  IsImported reader row =
      (usage : Usage) × (usage_of strings file_at row ≡ ok usage)
      × (used usage (usages reader.stored) ≡ true)

  -- What a row comes to.
  record Imports (row : Row) (before : Reader) (result : Result (Unit {0})) (after : Reader)
      : Type 0 where
    unique : IsUnique after
    keeps : Keeps before after
    imported :
        result ≡ ok tt
        → IsImported after row
          × (after.rows_processed ≡ suc before.rows_processed)
          × (after.unfinished ≡ [])

  stopped :
      (row : Row) (e : Exception) (before after : Reader)
      → IsUnique after
      → before.object_basis_act_usage ≡ after.object_basis_act_usage
      → Imports row before (raise e) after
  stopped row e before after h same = record {
    unique = h;
    keeps = λ usage u. ap (used usage) (sym same) ∙ u;
    imported = λ p. absurd (raise-ne-ok p);
  }

  store_if-Imports :
      (row : Row) (usage : Usage) (generated : Result (String × String))
      (statement : Result Statement) (reader : Reader)
      → IsUnique reader
      → reader.unfinished ≡ []
      → usage_of strings file_at row ≡ ok usage
      → used usage reader.object_basis_act_usage ≡ false
      → Imports row reader
          (store_if strings file_at usage generated statement reader).0
          (store_if strings file_at usage generated statement reader).1
  unfolding store_if store
  store_if-Imports row usage (raise x) (raise e) reader h f p free =
      stopped row e reader reader h refl
  store_if-Imports row usage (ok generated) (raise e) reader h f p free =
      stopped row e reader (record reader { unfinished = usage ∷ reader.unfinished })
        (record {
          in_use = h.in_use;
          distinct =
              (ap (λ l. used usage (l ++ reader.object_basis_act_usage)) f ∙ free, h.distinct);
          counted = h.counted;
        })
        refl
  store_if-Imports row usage generated (ok statement) reader h f p free = record {
    unique = record {
      in_use = ap (λ l. usage ∷ l) h.in_use;
      distinct =
          subst (λ l. NoRepeats (l ++ usage ∷ reader.object_basis_act_usage)) (sym f)
            (free, subst (λ l. NoRepeats (l ++ reader.object_basis_act_usage)) f h.distinct);
      counted = omega (arith, h.counted);
    };
    keeps = λ other u. ground (arith, u);
    imported = λ _. ((usage, p, ground (arith, same_usage_refl usage)), omega arith, f);
  }

  import_row-Imports :
      (row : Row) (usage : Result Usage) (reader : Reader)
      → IsUnique reader
      → reader.unfinished ≡ []
      → usage_of strings file_at row ≡ usage
      → Imports row reader
          (import_row strings file_at row usage reader).0
          (import_row strings file_at row usage reader).1
  unfolding import_row skip
  import_row-Imports row (raise e) reader h f p = stopped row e reader reader h refl
  import_row-Imports row (ok usage) reader h f p =
      elim (Bool-cases (used usage reader.object_basis_act_usage)) [
        | inl q ↦ rw q (record {
          unique = record {
            in_use = h.in_use;
            distinct = h.distinct;
            counted =
                omega (
                  arith,
                  h.counted,
                  length-append reader.skipped ((reader.rows_processed + 1) ∷ []),
                );
          };
          keeps = λ other u. u;
          imported = λ _. ((usage, p, ap (used usage) h.in_use ∙ q), omega arith, f);
        })
        | inr q ↦ rw q (
            store_if-Imports row usage (generate_rights_statement strings file_at row)
              (store_row strings file_at row) reader h f p q)
      ]

  parse_validated-Imports :
      (validated : Result (Unit {0})) (row : Row) (reader : Reader)
      → IsUnique reader
      → reader.unfinished ≡ []
      → Imports row reader
          (parse_validated strings file_at validated row reader).0
          (parse_validated strings file_at validated row reader).1
  unfolding parse_validated
  parse_validated-Imports (raise e) row reader h f = stopped row e reader reader h refl
  parse_validated-Imports (ok _) row reader h f =
      let imports =
        import_row-Imports row (usage_of strings file_at row) (record reader { validated = true })
          (record { in_use = h.in_use; distinct = h.distinct; counted = h.counted }) f refl in
      record { unique = imports.unique; keeps = imports.keeps; imported = imports.imported }

  -- What the rows come to.
  record ImportsAll (rows : List Row) (before : Reader) (result : Result (Unit {0}))
      (after : Reader) : Type 0 where
    unique : IsUnique after
    keeps : Keeps before after
    imported :
        result ≡ ok tt
        → All (IsImported after) rows
          × (after.rows_processed ≡ length rows + before.rows_processed)
          × (after.unfinished ≡ [])

  parse_rows-ImportsAll :
      (rows : List Row) (reader : Reader)
      → IsUnique reader
      → reader.unfinished ≡ []
      → ImportsAll rows reader
          (parse_rows strings file_at rows reader).0
          (parse_rows strings file_at rows reader).1
  unfolding parse_rows parse_row
  parse_rows-ImportsAll [] reader h f = record {
    unique = h;
    keeps = λ usage u. u;
    imported = λ _. (tt, omega arith, f);
  }
  parse_rows-ImportsAll (row ∷ rows) reader h f =
      next (λ after h' f'. parse_rows-ImportsAll rows after h' f')
        (parse_row strings file_at row reader).0 (parse_row strings file_at row reader).1
        (parse_validated-Imports (validate_first strings file_at reader.validated row) row reader h
          f)
    where
      next :
          ((after : Reader)
            → IsUnique after
            → after.unfinished ≡ []
            → ImportsAll rows after
                (parse_rows strings file_at rows after).0
                (parse_rows strings file_at rows after).1)
          → (result : Result (Unit {0})) (after : Reader) → Imports row reader result after
          → ImportsAll
              (row ∷ rows)
              reader
              (elim result as (λ _. Result (Unit {0}) × Reader) [
                | raise e ↦ (raise e, after)
                | ok _ ↦ parse_rows strings file_at rows after
              ]).0
              (elim result as (λ _. Result (Unit {0}) × Reader) [
                | raise e ↦ (raise e, after)
                | ok _ ↦ parse_rows strings file_at rows after
              ]).1
      next rest (raise e) after i = record {
        unique = i.unique;
        keeps = i.keeps;
        imported = λ p. absurd (raise-ne-ok p);
      }
      next rest (ok t) after i =
          let (own_row, one, finished) = i.imported refl in
          let others = rest after i.unique finished in
          record {
            unique = others.unique;
            keeps = λ usage u. others.keeps usage (i.keeps usage u);
            imported = λ p.
                let (all, processed, none_left) = others.imported p in
                let (usage, q, u) = own_row in
                (
                  (
                    (
                      usage,
                      q,
                      ap (used usage) others.unique.in_use
                          ∙ others.keeps usage (ap (used usage) (sym i.unique.in_use) ∙ u),
                    ),
                    all,
                  ),
                  omega (arith, processed, one),
                  none_left,
                );
          }

  -- The rows of a rights.csv save at most one statement for a combination of a file, a basis and an act, also
  -- when a row raises, where a statement that the row saved before it raised counts; and the rows processed
  -- are those stored in full and those skipped. When no row raises all are processed, the combination of
  -- every row has its statement, and no statement is unfinished.
  pub parse_rows-IsUnique :
      (rows : List Row)
      → IsUnique (parse_rows strings file_at rows new_reader).1
        × ((parse_rows strings file_at rows new_reader).0 ≡ ok tt
            → All (IsImported (parse_rows strings file_at rows new_reader).1) rows
              × ((parse_rows strings file_at rows new_reader).1.rows_processed ≡ length rows)
              × ((parse_rows strings file_at rows new_reader).1.unfinished ≡ []))
  parse_rows-IsUnique rows =
      let all =
        parse_rows-ImportsAll rows new_reader
          (record { in_use = refl; distinct = tt; counted = refl }) refl in
      (
        all.unique,
        λ p.
            let (imported, processed, none_left) = all.imported p in
            (imported, omega (arith, processed), none_left),
      )
