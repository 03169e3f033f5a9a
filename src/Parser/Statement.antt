-- ===== src/Parser/Statement.antt =====
-- main/backend/parser/statement/statement.go: the syntax trees.
use wisdb.Parser.Tokener.{Token}
use wisdb.Base.{Option, List, Bool, ℕ}

pub record SingleExp : Type 0 where
  pub field : Token
  pub cmp_op : Token
  pub value : Token

pub record Where : Type 0 where
  pub single_exp1 : SingleExp
  pub logic_op : Token
  pub single_exp2 : Option SingleExp

pub record Create : Type 0 where
  pub table_name : Token
  pub field_name : List Token
  pub field_type : List Token
  pub index : List Token

pub record Update : Type 0 where
  pub table_name : Token
  pub field_name : Token
  pub value : Token
  pub condition : Option Where

pub record Delete : Type 0 where
  pub table_name : Token
  pub condition : Where

pub record Insert : Type 0 where
  pub table_name : Token
  pub values : List Token
  pub values_list : List (List Token)

pub record Aggregate : Type 0 where
  pub func : Token
  pub field : Token

pub record Read : Type 0 where
  pub table_name : Token
  pub fields : List Token
  pub aggregates : List Aggregate
  pub condition : Option Where
  pub order_by : Token
  pub order_desc : Bool
  pub limit : ℕ
  pub offset : ℕ

pub data Statement : Type 0 where
  begin : Bool → Statement
  commit abort show : Statement
  drop : Token → Statement
  create : Create → Statement
  update : Update → Statement
  delete : Delete → Statement
  insert : Insert → Statement
  read : Read → Statement
