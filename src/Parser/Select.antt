-- ===== src/Parser/Select.antt =====
-- Read (select) of main/backend/parser/parser.go.
use wisdb.Parser.Tokener.{Token}
use wisdb.Parser.Monad.{Parser, pure, raise, peek, pop, require, ◌>>=◌, ◌>>◌, invalid_stat, no_fuel}
use wisdb.Parser.Monad
use wisdb.Parser.Statement.{Read, Aggregate}
use wisdb.Parser.Words.{is, is_name, is_agg_func, str_to_int, codes}
use wisdb.Parser.Clauses.{expect_pop, parse_where}
use wisdb.Base.{bytes_equal, ℕ, [], ◌&&◌, if◌then◌else◌, suc, Bool, none, ◌||◌, ◌++◌}
use wisdb.Base.{true, some, false, zero, ◌∷◌}

unfoldable pub parse_aggregate : Token → Parser Aggregate
unfolding bytes_equal is_name
parse_aggregate func = do
  pop
  expect_pop "("
  arg ← peek
  require ((is arg "*" && is func "count") || is_name arg)
  pop
  expect_pop ")"
  pure (record { func = func; field = arg })

unfoldable pub select_item : Read → Parser Read
unfolding bytes_equal is_name is_agg_func parse_aggregate
select_item r = do
  field ← peek
  (if is_agg_func field
      then (do
        agg ← parse_aggregate field
        pure (record r { aggregates = r.aggregates ++ (agg ∷ []) }))
      else (do require (is_name field); pop; pure (record r { fields = r.fields ++ (field ∷ []) })))

unfoldable pub select_items : ℕ → Read → Parser Read
unfolding bytes_equal select_item
select_items zero r = raise no_fuel
select_items (suc fuel) r =
    let again = (λ (r' : Read). do pop; select_items fuel r') in
    (do r' ← select_item r; comma ← peek; (if is comma "," then again r' else pure r'))

-- Where the source looks at a token only if there was no error; an error comes back at the next peek.
abbrev pub peek_or : Token → Parser Token
peek_or other tk =
    let (r, tk') = peek tk in
    elim r [ Monad.ok t ↦ (Monad.ok t, tk') | Monad.err e ↦ (Monad.ok other, tk') ]

unfoldable pub parse_direction : Parser Bool
unfolding bytes_equal
parse_direction = do
  dir ← peek_or []
  (if is dir "desc"
      then (do pop; pure true)
      else if is dir "asc"
      then (do pop; pure false)
      else pure false)

unfoldable pub parse_order : Read → Parser Read
unfolding bytes_equal is_name parse_direction
parse_order r = do
  tmp ← peek
  (if is tmp "order"
      then (do
        pop
        expect_pop "by"
        field ← peek
        require (is_name field)
        pop
        desc ← parse_direction
        pure (record r { order_by = field; order_desc = desc }))
      else pure r)

abbrev pub number : Parser ℕ
number = do t ← peek; elim (str_to_int 0 t) [ none ↦ raise invalid_stat | some n ↦ pure n ]

unfoldable pub parse_offset_clause : Read → Parser Read
unfolding bytes_equal str_to_int
parse_offset_clause r = do
  off ← peek_or []
  (if is off "offset" then (do pop; n ← number; pop; pure (record r { offset = n })) else pure r)

unfoldable pub parse_limit : Read → Parser Read
unfolding bytes_equal str_to_int parse_offset_clause
parse_limit r = do
  tmp ← peek
  (if is tmp "limit"
      then (do pop; n ← number; pop; parse_offset_clause (record r { limit = n }))
      else pure r)

abbrev no_read : Read
no_read = record {
  table_name = [];
  fields = [];
  aggregates = [];
  condition = none;
  order_by = [];
  order_desc = false;
  limit = 0;
  offset = 0;
}

unfoldable pub parse_read : ℕ → Parser Read
unfolding bytes_equal is_name select_items parse_where parse_order parse_limit
parse_read fuel = do
  asterisk ← peek
  r ←
      (if is asterisk "*"
        then (do pop; pure (record no_read { fields = codes "*" ∷ [] }))
        else select_items fuel no_read)
  expect_pop "from"
  table_name ← peek
  require (is_name table_name)
  pop
  tmp ← peek
  let r' = record r { table_name = table_name }
  (if is tmp "" then pure r' else (do
    condition ← (if is tmp "where" then (do w ← parse_where; pure (some w)) else pure none)
    ordered ← parse_order (record r' { condition = condition })
    parse_limit ordered))
