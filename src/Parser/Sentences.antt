-- ===== src/Parser/Sentences.antt =====
-- The statements of the language as trees over their tokens: how they are written, and the nodes
-- that the parser has to build for them.
use lacsap.Prelude.{ℕ, ◌+◌, ◌≡◌, Bool, false, List, [], ◌∷◌, some, Text, if◌then◌else◌}
use lacsap.Prelude.Int.{pos}
use lacsap.Token.{TokenType, Token, Location, token_eq}
use lacsap.Stack.{Stack, find}
use lacsap.Parser.ConstEval.{NamedObject, var_def}
use lacsap.Parser.Ast.{
  ExprAst, Outside, exprs_of, null_expr, variable_expr, block_expr, assign_expr, if_expr, for_expr,
  for_in_expr, while_expr, repeat_expr,
}
use lacsap.Parser.Terms.{sign}
use lacsap.Parser.Grammar.{
  Formula, spell, formula_node, formula_size, Closes, IsFormula, end_token, name_token,
}

-- Statements, each with the places of its words and signs
mutual
  pub data Stmt (R V Ty : Type 0) : Type 0 where
    -- variable, ":=", value
    assign : Location → ℕ → Text → Location → Formula R V Ty → Stmt R V Ty
    compound : Location → Stmts R V Ty → Location → Stmt R V Ty
    if_then : Location → Formula R V Ty → Location → Stmt R V Ty → Stmt R V Ty
    if_else :
        Location → Formula R V Ty → Location → Stmt R V Ty → Location → Stmt R V Ty → Stmt R V Ty
    while_do : Location → Formula R V Ty → Location → Stmt R V Ty → Stmt R V Ty
    repeat_until : Location → Stmts R V Ty → Location → Formula R V Ty → Stmt R V Ty
    -- variable, ":=", start, whether it is "downto", end, "do", body
    for_to :
        Location
        → Location
        → ℕ
        → Text
        → Location
        → Formula R V Ty
        → Bool
        → Location
        → Formula R V Ty
        → Location
        → Stmt R V Ty
        → Stmt R V Ty
    for_in :
        Location
        → Location
        → ℕ
        → Text
        → Location
        → Formula R V Ty
        → Location
        → Stmt R V Ty
        → Stmt R V Ty

  -- Statements with semicolons between them; one after the last is allowed.
  pub data Stmts (R V Ty : Type 0) : Type 0 where
    no_stmts : Stmts R V Ty
    last_stmt : Stmt R V Ty → Stmts R V Ty
    more_stmts : Stmt R V Ty → Location → Stmts R V Ty → Stmts R V Ty

module _ {R : Type 0} where
  abbrev pub word : TokenType → Location → Token R
  word t w = sign t w

  abbrev pub to_word : Bool → Location → Token R
  to_word down w = sign (if down then TokenType.downto else TokenType.to) w

  -- The place of the first token
  abbrev pub head_loc : List (Token R) → Location
  head_loc [] = (end_token {R = R}).loc
  head_loc (t ∷ ts) = t.loc

module _ {R V Ty : Type 0} where
  -- The tokens, before those that follow
  unfoldable mutual
    unfolding spell

    pub spell_stmt : Stmt R V Ty → List (Token R) → List (Token R)
    spell_stmt (assign v c cs w e) rest =
        name_token v (c ∷ cs) ∷ (word TokenType.assign w ∷ spell e rest)
    spell_stmt (compound w ss w') rest =
        word TokenType.begin w ∷ spell_stmts ss (word TokenType.end w' ∷ rest)
    spell_stmt (if_then w c w' s) rest =
        word TokenType.if_kw w ∷ spell c (word TokenType.then_kw w' ∷ spell_stmt s rest)
    spell_stmt (if_else w c w' s w'' t) rest =
        word TokenType.if_kw w
        ∷ spell c (
            word TokenType.then_kw w'
            ∷ spell_stmt s (word TokenType.else_kw w'' ∷ spell_stmt t rest))
    spell_stmt (while_do w c w' s) rest =
        word TokenType.while w ∷ spell c (word TokenType.do_kw w' ∷ spell_stmt s rest)
    spell_stmt (repeat_until w ss w' c) rest =
        word TokenType.repeat w ∷ spell_stmts ss (word TokenType.until w' ∷ spell c rest)
    spell_stmt (for_to w v c cs w' a down w'' b w₃ s) rest =
        word TokenType.for w
        ∷ (name_token v (c ∷ cs)
            ∷ (word TokenType.assign w'
                ∷ spell a
                    (to_word down w'' ∷ spell b (word TokenType.do_kw w₃ ∷ spell_stmt s rest))))
    spell_stmt (for_in w v c cs w' a w'' s) rest =
        word TokenType.for w
        ∷ (name_token v (c ∷ cs)
            ∷ (word TokenType.in_kw w' ∷ spell a (word TokenType.do_kw w'' ∷ spell_stmt s rest)))

    pub spell_stmts : Stmts R V Ty → List (Token R) → List (Token R)
    spell_stmts no_stmts rest = rest
    spell_stmts (last_stmt s) rest = spell_stmt s rest
    spell_stmts (more_stmts s w ss) rest =
        spell_stmt s (word TokenType.semicolon w ∷ spell_stmts ss rest)

  -- The nodes. Some hold the place of a token after the one that they begin with, so that they
  -- depend on the tokens that follow.
  unfoldable mutual
    unfolding spell spell_stmt formula_node

    pub stmt_node : Stmt R V Ty → List (Token R) → ExprAst R V Ty
    stmt_node (assign v c cs w e) rest =
        assign_expr (head_loc (spell e rest)) (variable_expr w (c ∷ cs))
          (formula_node e (head_loc rest))
    stmt_node (compound w ss w') rest =
        block_expr (head_loc (spell_stmts ss (word TokenType.end w' ∷ rest)))
          (exprs_of (stmt_nodes ss (word TokenType.end w' ∷ rest)))
    stmt_node (if_then w c w' s) rest = if_expr w (formula_node c w') (stmt_node s rest) null_expr
    stmt_node (if_else w c w' s w'' t) rest =
        if_expr w (formula_node c w') (stmt_node s (word TokenType.else_kw w'' ∷ spell_stmt t rest))
          (stmt_node t rest)
    stmt_node (while_do w c w' s) rest = while_expr w (formula_node c w') (stmt_node s rest)
    stmt_node (repeat_until w ss w' c) rest = repeat_expr w (formula_node c (head_loc rest)) (
        block_expr (head_loc (spell_stmts ss (word TokenType.until w' ∷ spell c rest)))
          (exprs_of (stmt_nodes ss (word TokenType.until w' ∷ spell c rest))))
    stmt_node (for_to w v c cs w' a down w'' b w₃ s) rest =
        for_expr v (variable_expr w' (c ∷ cs)) (formula_node a w'') (formula_node b w₃) down
          (stmt_node s rest)
    stmt_node (for_in w v c cs w' a w'' s) rest =
        for_in_expr v (variable_expr w' (c ∷ cs)) (formula_node a w'') (stmt_node s rest)

    pub stmt_nodes : Stmts R V Ty → List (Token R) → List (ExprAst R V Ty)
    stmt_nodes no_stmts rest = []
    stmt_nodes (last_stmt s) rest = stmt_node s rest ∷ []
    stmt_nodes (more_stmts s w ss) rest =
        stmt_node s (word TokenType.semicolon w ∷ spell_stmts ss rest) ∷ stmt_nodes ss rest

  unfoldable mutual
    unfolding formula_size

    pub stmt_size : Stmt R V Ty → ℕ
    stmt_size (assign v c cs w e) = formula_size e + 1
    stmt_size (compound w ss w') = stmts_size ss + 1
    stmt_size (if_then w c w' s) = formula_size c + stmt_size s + 1
    stmt_size (if_else w c w' s w'' t) = formula_size c + stmt_size s + stmt_size t + 1
    stmt_size (while_do w c w' s) = formula_size c + stmt_size s + 1
    stmt_size (repeat_until w ss w' c) = formula_size c + stmts_size ss + 1
    stmt_size (for_to w v c cs w' a down w'' b w₃ s) =
        formula_size a + formula_size b + stmt_size s + 1
    stmt_size (for_in w v c cs w' a w'' s) = formula_size a + stmt_size s + 1

    pub stmts_size : Stmts R V Ty → ℕ
    stmts_size no_stmts = 0
    stmts_size (last_stmt s) = stmt_size s + 1
    stmts_size (more_stmts s w ss) = stmt_size s + stmts_size ss + 1

module _ {R V Ty E : Type 0} (H : Outside R V Ty (List (Token R))) (ci : Bool)
    (names : Stack (NamedObject R Ty E)) (ahead : Token R) (errs : ℕ) where
  -- A statement that may stand before a token of the kind: no "else" stands after a statement that
  -- would take it, and no ":=" after a statement.
  mutual
    pub data IsStmt : TokenType → Stmt R V Ty → Type 0 where
      assign_ok :
          {k : TokenType} (v w : Location) (c : ℕ) (cs : Text) (e : Formula R V Ty)
          → Closes k
          → find ci (c ∷ cs) names ≡ some var_def
          → H.is_function (c ∷ cs) ≡ false
          → IsFormula H ci names ahead errs (pos 0) e
          → IsStmt k (assign v c cs w e)
      compound_ok :
          {k : TokenType} (w w' : Location) (ss : Stmts R V Ty)
          → IsStmts TokenType.end ss
          → IsStmt k (compound w ss w')
      if_then_ok :
          {k : TokenType} (w w' : Location) (c : Formula R V Ty) (s : Stmt R V Ty)
          → token_eq k TokenType.else_kw ≡ false
          → token_eq k TokenType.assign ≡ false
          → IsFormula H ci names ahead errs (pos 0) c
          → IsStmt k s
          → IsStmt k (if_then w c w' s)
      if_else_ok :
          {k : TokenType} (w w' w'' : Location) (c : Formula R V Ty) (s t : Stmt R V Ty)
          → token_eq k TokenType.assign ≡ false
          → IsFormula H ci names ahead errs (pos 0) c
          → IsStmt TokenType.else_kw s
          → IsStmt k t
          → IsStmt k (if_else w c w' s w'' t)
      while_ok :
          {k : TokenType} (w w' : Location) (c : Formula R V Ty) (s : Stmt R V Ty)
          → token_eq k TokenType.assign ≡ false
          → IsFormula H ci names ahead errs (pos 0) c
          → IsStmt k s
          → IsStmt k (while_do w c w' s)
      repeat_ok :
          {k : TokenType} (w w' : Location) (ss : Stmts R V Ty) (c : Formula R V Ty)
          → Closes k
          → token_eq k TokenType.assign ≡ false
          → IsStmts TokenType.until ss
          → IsFormula H ci names ahead errs (pos 0) c
          → IsStmt k (repeat_until w ss w' c)
      for_to_ok :
          {k : TokenType} (w v w' w'' w₃ : Location) (c : ℕ) (cs : Text) (a b : Formula R V Ty)
          (down : Bool) (s : Stmt R V Ty)
          → token_eq k TokenType.assign ≡ false
          → find ci (c ∷ cs) names ≡ some var_def
          → IsFormula H ci names ahead errs (pos 0) a
          → IsFormula H ci names ahead errs (pos 0) b
          → IsStmt k s
          → IsStmt k (for_to w v c cs w' a down w'' b w₃ s)
      for_in_ok :
          {k : TokenType} (w v w' w'' : Location) (c : ℕ) (cs : Text) (a : Formula R V Ty)
          (s : Stmt R V Ty)
          → token_eq k TokenType.assign ≡ false
          → find ci (c ∷ cs) names ≡ some var_def
          → IsFormula H ci names ahead errs (pos 0) a
          → IsStmt k s
          → IsStmt k (for_in w v c cs w' a w'' s)

    -- Statements before the "end" or "until" of the kind
    pub data IsStmts : TokenType → Stmts R V Ty → Type 0 where
      no_stmts_ok : {z : TokenType} → IsStmts z no_stmts
      last_ok : {z : TokenType} (s : Stmt R V Ty) → IsStmt z s → IsStmts z (last_stmt s)
      more_ok :
          {z : TokenType} (s : Stmt R V Ty) (w : Location) (ss : Stmts R V Ty)
          → IsStmt TokenType.semicolon s
          → IsStmts z ss
          → IsStmts z (more_stmts s w ss)
