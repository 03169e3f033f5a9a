-- ===== src/Parser/Words.antt =====
-- The predicates on tokens of main/backend/parser/parser.go.
use Prim.Native.Char.{code}
use Prim.Native.String.{String}
use wisdb.Parser.Tokener.{Token, is_alpha_beta}
use wisdb.Base.{List, Bool, bytes_equal, ℕ, [], ◌||◌, true, Option, ◌∷◌, some, if◌then◌else◌}
use wisdb.Base.{ltb, none, ◌*◌, ◌+◌, ◌-◌}

-- The bytes of an ASCII text.
abbrev pub codes : String → List ℕ
codes String.[] = []
codes (String.◌∷◌ c s) = code c ∷ codes s

-- token == "text"
abbrev pub is : Token → String → Bool
is token text = bytes_equal token (codes text)

unfoldable pub is_logic_op : Token → Bool
unfolding bytes_equal
is_logic_op op = is op "and" || is op "or"

unfoldable pub is_agg_func : Token → Bool
unfolding bytes_equal
is_agg_func name =
    is name "count" || is name "sum" || is name "avg" || is name "min" || is name "max"

unfoldable pub is_type : Token → Bool
unfolding bytes_equal
is_type tp = is tp "uint32" || is tp "uint64" || is tp "string"

unfoldable pub is_name : Token → Bool
unfolding is_alpha_beta
is_name [] = true
is_name (c ∷ []) = is_alpha_beta c
is_name (c ∷ d ∷ cs) = true

unfoldable pub is_cmp_op : Token → Bool
unfolding bytes_equal
is_cmp_op op = is op "=" || is op ">" || is op "<" || is op "!=" || is op "<=" || is op ">="

-- utilsStrToInt. Go's int is not bounded here: digits only, base ten.
unfoldable pub str_to_int : ℕ → Token → Option ℕ
str_to_int n [] = some n
str_to_int n (c ∷ cs) =
    if ltb c b'0' || ltb b'9' c then none else str_to_int (n * 10 + (c - b'0')) cs
