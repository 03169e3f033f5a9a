-- ===== src/Parser/Clauses.antt =====
-- The clauses that statements share: expressions, where, begin, commit, abort, show, drop.
use Prim.Native.String.{String}
use wisdb.Parser.Tokener.{Token}
use wisdb.Parser.Monad.{Parser, pure, peek, pop, require, ◌>>=◌, ◌>>◌}
use wisdb.Parser.Statement.{SingleExp, Where}
use wisdb.Parser.Words.{is, is_name, is_cmp_op, is_logic_op, codes}
use wisdb.Base.{Bool, if◌then◌else◌, bytes_equal, ◌||◌, ◌++◌, false, not, true, []}
use wisdb.Base.{none, some}

-- A token that must be the text, and is popped.
abbrev pub expect_pop : String → Parser (Unit {0})
expect_pop text = do t ← peek; require (is t text); pop

-- The end of the statement.
abbrev pub expect_end : Parser (Unit {0})
expect_end = do eof ← peek; require (is eof "")

-- The operators <, > and ! take a following =.
abbrev pub takes_equal : Token → Bool
takes_equal op = is op "<" || is op ">" || is op "!"

abbrev pub second_char : Token → Parser Token
second_char op = do next ← peek; (if is next "=" then (do pop; pure (op ++ codes "=")) else pure op)

unfoldable pub parse_single_expr : Parser SingleExp
unfolding bytes_equal is_name is_cmp_op
parse_single_expr = do
  field ← peek
  require (is_name field)
  pop
  op0 ← peek
  pop
  op ← (if takes_equal op0 then second_char op0 else pure op0)
  require (is_cmp_op op)
  value ← peek
  pop
  pure (record { field = field; cmp_op = op; value = value })

unfoldable pub parse_where : Parser Where
unfolding bytes_equal parse_single_expr is_logic_op
parse_where = do
  expect_pop "where"
  sexp1 ← parse_single_expr
  op ← peek
  (if is op "" || not (is_logic_op op)
      then pure (record { single_exp1 = sexp1; logic_op = []; single_exp2 = none })
      else (do
        pop
        sexp2 ← parse_single_expr
        expect_end
        pure (record { single_exp1 = sexp1; logic_op = op; single_exp2 = some sexp2 })))

-- isolation level read committed | isolation level repeatable read
unfoldable pub parse_begin : Parser Bool
unfolding bytes_equal
parse_begin = do
  isolation ← peek
  (if is isolation "" then pure false else (do
    require (is isolation "isolation")
    pop
    expect_pop "level"
    tmp1 ← peek
    (if is tmp1 "read"
        then (do pop; expect_pop "committed"; expect_end; pure false)
        else (do require (is tmp1 "repeatable"); pop; expect_pop "read"; expect_end; pure true))))

unfoldable pub parse_commit : Parser (Unit {0})
unfolding bytes_equal
parse_commit = expect_end

unfoldable pub parse_abort : Parser (Unit {0})
unfolding bytes_equal
parse_abort = expect_end

unfoldable pub parse_show : Parser (Unit {0})
unfolding bytes_equal
parse_show = expect_end

unfoldable pub parse_drop : Parser Token
unfolding bytes_equal is_name
parse_drop = do
  expect_pop "table"
  table_name ← peek
  require (is_name table_name)
  pop
  expect_end
  pure table_name
