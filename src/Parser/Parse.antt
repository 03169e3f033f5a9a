-- ===== src/Parser/Parse.antt =====
-- Parse of main/backend/parser/parser.go.
pub mod Laws
use wisdb.Parser.Tokener.{Token, Tokener, new_tokener, err_stat}
use wisdb.Parser.Monad.{
  Parser, Result, ParseError, ok, err, pure, raise, peek, pop, ◌>>=◌, ◌>>◌, invalid_stat,
  unexpected_token,
}
use wisdb.Parser.Statement.{Statement}
use wisdb.Parser.Words.{is}
use wisdb.Parser.Clauses.{parse_begin, parse_commit, parse_abort, parse_show, parse_drop}
use wisdb.Parser.Statements.{parse_update, parse_delete, parse_insert, parse_create}
use wisdb.Parser.Select.{parse_read}
use wisdb.Base.{bytes_equal, Bool, ℕ, ◌||◌, ◌∷◌, List, if◌then◌else◌, [], length}
use wisdb.Base.{◌+◌}

unfoldable pub parse_statement : ℕ → Token → Parser Statement
unfolding bytes_equal
parse_statement fuel token =
    if is token "begin"
    then (do b ← parse_begin; pure (Statement.begin b))
    else if is token "commit"
    then (do parse_commit; pure Statement.commit)
    else if is token "abort"
    then (do parse_abort; pure Statement.abort)
    else if is token "create"
    then (do c ← parse_create fuel; pure (Statement.create c))
    else if is token "drop"
    then (do t ← parse_drop; pure (Statement.drop t))
    else if is token "read" || is token "select"
    then (do r ← parse_read fuel; pure (Statement.read r))
    else if is token "insert"
    then (do i ← parse_insert fuel; pure (Statement.insert i))
    else if is token "delete"
    then (do d ← parse_delete; pure (Statement.delete d))
    else if is token "update"
    then (do u ← parse_update; pure (Statement.update u))
    else if is token "show"
    then (do parse_show; pure Statement.show)
    else raise invalid_stat

abbrev known_words : Token → Bool
known_words t =
    is t "begin"
    || is t "commit"
    || is t "abort"
    || is t "create"
    || is t "drop"
    || is t "read"
    || is t "select"
    || is t "insert"
    || is t "delete"
    || is t "update"
    || is t "show"

-- What stands behind the statement overrides its result.
abbrev trailing : Result Statement × Tokener → Result Token × Tokener → Result Statement
trailing (r, tk) (ok [], tk') = r
trailing (r, tk) (ok (b ∷ bs), tk') = err (unexpected_token (err_stat tk'))
trailing (r, tk) (err e, tk') = r

-- Parse, with as much fuel for its loops as the statement has bytes, and one more.
unfoldable pub parse : List ℕ → Result Statement
unfolding parse_statement bytes_equal
parse stat =
    let (first, tk) = peek (new_tokener stat) in
    elim first [
      | err e ↦ err e
      | ok token ↦
          if known_words token
          then (let result = parse_statement (length stat + 1) token (pop tk).1 in
              trailing result (peek result.1))
          else err invalid_stat
    ]
