-- ===== src/Parser/Ast.antt =====
-- expr.h, parser.cpp: the nodes that the parser of expressions and statements builds, and the parts
-- of the parser that it calls and that are left out.
use lacsap.Prelude.{ℕ, Bool, List, [], ◌∷◌, Option, Text}
use lacsap.Prelude.Int.{ℤ}
use lacsap.Outcome.{Outcome}
use lacsap.Token.{Token, Location}
use lacsap.Parser.Stream.{Parser}

-- `ExprAST` and the classes derived from it. `V` is what the parts left out build.
mutual
  pub data ExprAst (R V Ty : Type 0) : Type 0 where
    -- a null pointer, where a node can hold one
    null_expr : ExprAst R V Ty
    outside_expr : V → ExprAst R V Ty
    nil_expr : Location → ExprAst R V Ty
    real_expr : Location → R → ExprAst R V Ty
    -- the value, and whether the type is `Int64Decl`
    integer_expr : Location → ℤ → Bool → ExprAst R V Ty
    char_expr : Location → ℕ → ExprAst R V Ty
    -- the text, and the last index of its type
    string_expr : Location → Text → ℕ → ExprAst R V Ty
    unary_expr : Location → Token R → ExprAst R V Ty → ExprAst R V Ty
    binary_expr : Token R → ExprAst R V Ty → ExprAst R V Ty → ExprAst R V Ty
    range_expr : Location → ExprAst R V Ty → ExprAst R V Ty → ExprAst R V Ty
    set_expr : Location → ExprAsts R V Ty → Ty → ExprAst R V Ty
    -- a variable, by the name that it is found under
    variable_expr : Location → Text → ExprAst R V Ty
    block_expr : Location → ExprAsts R V Ty → ExprAst R V Ty
    assign_expr : Location → ExprAst R V Ty → ExprAst R V Ty → ExprAst R V Ty
    if_expr : Location → ExprAst R V Ty → ExprAst R V Ty → ExprAst R V Ty → ExprAst R V Ty
    -- variable, start, end, whether it is "downto", body
    for_expr :
        Location
        → ExprAst R V Ty
        → ExprAst R V Ty
        → ExprAst R V Ty
        → Bool
        → ExprAst R V Ty
        → ExprAst R V Ty
    for_in_expr : Location → ExprAst R V Ty → ExprAst R V Ty → ExprAst R V Ty → ExprAst R V Ty
    while_expr : Location → ExprAst R V Ty → ExprAst R V Ty → ExprAst R V Ty
    repeat_expr : Location → ExprAst R V Ty → ExprAst R V Ty → ExprAst R V Ty
    -- selector, labels, the statement after "otherwise"
    case_expr : Location → ExprAst R V Ty → ExprAsts R V Ty → ExprAst R V Ty → ExprAst R V Ty
    label_expr : Location → List (ℤ × ℤ) → ExprAst R V Ty → ExprAst R V Ty
    goto_expr : Location → ℤ → ExprAst R V Ty

  pub data ExprAsts (R V Ty : Type 0) : Type 0 where
    no_exprs : ExprAsts R V Ty
    more_exprs : ExprAst R V Ty → ExprAsts R V Ty → ExprAsts R V Ty

module _ {R V Ty : Type 0} where
  abbrev pub exprs_of : List (ExprAst R V Ty) → ExprAsts R V Ty
  exprs_of [] = no_exprs
  exprs_of (e ∷ es) = more_exprs e (exprs_of es)

-- What the parser of expressions and statements takes from the parts that are left out; those that
-- give a `V` begin at the current token and give a null pointer after a message.
pub record Outside (R V Ty Lx : Type 0) : Type 0 where
  -- Whether the type of a variable, by its name, is one of functions, for which `IsCall` can hold
  pub is_function : Text → Bool
  -- The loop of `ParseIdentifierExpr` over what goes on with a variable: an index, a field or a
  -- pointer that is followed
  pub suffix_expr : ExprAst R V Ty → Parser R Lx → Outcome (Option V × Parser R Lx)
  -- `ParseIdentifierExpr` of a name that is no variable, or a variable of functions
  pub identifier_expr : Token R → Parser R Lx → Outcome (Option V × Parser R Lx)
  -- `ParseDefaultExpr` and `ParseSizeOfExpr`
  pub default_expr : Parser R Lx → Outcome (Option V × Parser R Lx)
  pub sizeof_expr : Parser R Lx → Outcome (Option V × Parser R Lx)
  -- `ParseWithBlock`, `ParseWrite` and `ParseRead`, by the current token
  pub simple_statement : Parser R Lx → Outcome (Option V × Parser R Lx)
  -- `ExprAST::Type`
  pub expr_type : ExprAst R V Ty → Ty
