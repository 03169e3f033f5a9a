-- ===== src/Parser/Statements.antt =====
-- Update, delete, insert and create of main/backend/parser/parser.go. The loops take fuel.
use wisdb.Parser.Tokener.{Token}
use wisdb.Parser.Monad.{Parser, pure, raise, peek, pop, require, ◌>>=◌, ◌>>◌, invalid_stat, no_fuel}
use wisdb.Parser.Statement.{Create, Update, Delete, Insert}
use wisdb.Parser.Words.{is, is_name, is_type}
use wisdb.Parser.Clauses.{expect_pop, expect_end, parse_where}
use wisdb.Base.{bytes_equal, if◌then◌else◌, ℕ, none, List, not, Bool, [], some, suc}
use wisdb.Base.{◌∷◌, ◌++◌, true, false, zero}

unfoldable pub parse_update : Parser Update
unfolding bytes_equal parse_where
parse_update = do
  table_name ← peek
  pop
  expect_pop "set"
  field_name ← peek
  pop
  expect_pop "="
  value ← peek
  pop
  tmp ← peek
  condition ← (if is tmp "" then pure none else (do w ← parse_where; pure (some w)))
  pure (record {
    table_name = table_name;
    field_name = field_name;
    value = value;
    condition = condition;
  })

unfoldable pub parse_delete : Parser Delete
unfolding bytes_equal is_name parse_where
parse_delete = do
  expect_pop "from"
  table_name ← peek
  require (is_name table_name)
  pop
  condition ← parse_where
  pure (record { table_name = table_name; condition = condition })

-- The values behind the first, up to the end.
unfoldable pub more_values : ℕ → List Token → Parser (List Token)
unfolding bytes_equal
more_values zero values = raise no_fuel
more_values (suc fuel) values =
    let again = (λ (v : Token). more_values fuel (values ++ (v ∷ []))) in
    (do pop; value ← peek; (if is value "" then pure values else again value))

-- One row, up to its closing brace.
unfoldable pub row_values : ℕ → List Token → Parser (List Token)
unfolding bytes_equal
row_values zero row = raise no_fuel
row_values (suc fuel) row =
    let again = (λ (r : List Token). row_values fuel r) in
    (do
      pop
      value ← peek
      (if is value ""
          then raise invalid_stat
          else if is value "}"
          then pure row
          else if is value ","
          then again row
          else again (row ++ (value ∷ []))))

unfoldable pub parse_insert_bulk : ℕ → ℕ → List (List Token) → Parser (List (List Token))
unfolding bytes_equal row_values
parse_insert_bulk row_fuel zero rows = raise no_fuel
parse_insert_bulk row_fuel (suc fuel) rows =
    let again = (λ (r : List (List Token)). parse_insert_bulk row_fuel fuel r) in
    (do
      row ← row_values row_fuel []
      pop
      next ← peek
      (if is next ""
          then pure (rows ++ (row ∷ []))
          else if is next ","
          then (do pop; br ← peek; require (is br "{"); again (rows ++ (row ∷ [])))
          else raise invalid_stat))

unfoldable pub parse_insert : ℕ → Parser Insert
unfolding bytes_equal is_name more_values parse_insert_bulk
parse_insert fuel = do
  expect_pop "into"
  table_name ← peek
  require (is_name table_name)
  pop
  expect_pop "values"
  first ← peek
  require (not (is first ""))
  (if is first "{"
      then (do
        rows ← parse_insert_bulk fuel fuel []
        pure (record { table_name = table_name; values = []; values_list = rows }))
      else (do
        values ← more_values fuel (first ∷ [])
        pure (record { table_name = table_name; values = values; values_list = [] })))

-- The fields of a create: `true` where an index clause follows.
unfoldable pub create_fields : ℕ → Create → Parser (Create × Bool)
unfolding bytes_equal is_name is_type
create_fields zero c = raise no_fuel
create_fields (suc fuel) c =
    let again = (λ (c' : Create). create_fields fuel c') in
    (do
      pop
      field ← peek
      (if is field "(" then pure (c, true) else (do
        require (is_name field)
        pop
        ftype ← peek
        require (is_type ftype)
        let c' = record c {
          field_name = c.field_name ++ (field ∷ []);
          field_type = c.field_type ++ (ftype ∷ []);
        }
        pop
        next ← peek
        (if is next ","
            then again c'
            else if is next ""
            then pure (c', false)
            else if is next "("
            then pure (c', true)
            else raise invalid_stat))))

-- The loop of the index clause, up to its closing bracket.
unfoldable pub index_fields : ℕ → List Token → Parser (List Token)
unfolding bytes_equal is_name
index_fields zero index = raise no_fuel
index_fields (suc fuel) index =
    let again = (λ (f : Token). index_fields fuel (index ++ (f ∷ []))) in
    (do
      pop
      field ← peek
      (if is field ")"
          then pure index
          else if not (is_name field)
          then raise invalid_stat
          else again field))

unfoldable pub parse_create : ℕ → Parser Create
unfolding bytes_equal is_name create_fields index_fields
parse_create fuel = do
  expect_pop "table"
  name ← peek
  require (is_name name)
  (c, indexed) ←
      create_fields fuel
        (record { table_name = name; field_name = []; field_type = []; index = [] })
  (if not indexed then pure c else (do
    pop
    word ← peek
    require (is word "index")
    index ← index_fields fuel []
    pop
    expect_end
    pure (record c { index = index })))
