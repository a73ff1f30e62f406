-- ===== src/Token/Table.antt =====
-- token.cpp: the table of token spellings and the two searches of it.
use Prim.Native.String.{String}
use mathlib.Core.Bool.{◌&&◌}
use lacsap.Prelude.{
  Bool, true, false, List, [], ◌∷◌, ◌++◌, Option, none, some, ◌==◌, if◌then◌else◌, Text, codes,
  text_eq, strlower,
}
use lacsap.Token.Enum.{TokenType, token_eq}

-- `Standard` of options.h
pub data Standard : Type 0 where
  none_std iso7185 iso10206 : Standard

pub record TokenEntry : Type 0 where
  pub type : TokenType
  pub is_key_word : Bool
  pub str : Text

abbrev entry : TokenType → Bool → String → TokenEntry
entry t k s = record { type = t; is_key_word = k; str = codes s }

-- `tokenTable`, as it is before `Initialize`
abbrev pub initial_table : List TokenEntry
initial_table =
    entry TokenType.for true "for"
    ∷ entry TokenType.to true "to"
    ∷ entry TokenType.downto true "downto"
    ∷ entry TokenType.do_kw true "do"
    ∷ entry TokenType.function true "function"
    ∷ entry TokenType.procedure true "procedure"
    ∷ entry TokenType.if_kw true "if"
    ∷ entry TokenType.then_kw true "then"
    ∷ entry TokenType.else_kw true "else"
    ∷ entry TokenType.while true "while"
    ∷ entry TokenType.repeat true "repeat"
    ∷ entry TokenType.until true "until"
    ∷ entry TokenType.begin true "begin"
    ∷ entry TokenType.end true "end"
    ∷ entry TokenType.case true "case"
    ∷ entry TokenType.otherwise true "otherwise"
    ∷ entry TokenType.with true "with"
    ∷ entry TokenType.program true "program"
    ∷ entry TokenType.unit true "unit"
    ∷ entry TokenType.module_kw true "module"
    ∷ entry TokenType.write true "write"
    ∷ entry TokenType.writeln true "writeln"
    ∷ entry TokenType.write_str true "writestr"
    ∷ entry TokenType.read true "read"
    ∷ entry TokenType.readln true "readln"
    ∷ entry TokenType.read_str true "readstr"
    ∷ entry TokenType.var true "var"
    ∷ entry TokenType.array true "array"
    ∷ entry TokenType.of true "of"
    ∷ entry TokenType.packed true "packed"
    ∷ entry TokenType.record_kw true "record"
    ∷ entry TokenType.type true "type"
    ∷ entry TokenType.file true "file"
    ∷ entry TokenType.string true "string"
    ∷ entry TokenType.set true "set"
    ∷ entry TokenType.forward true "forward"
    ∷ entry TokenType.inline true "inline"
    ∷ entry TokenType.implementation true "implementation"
    ∷ entry TokenType.interface true "interface"
    ∷ entry TokenType.const true "const"
    ∷ entry TokenType.nil true "nil"
    ∷ entry TokenType.and true "and"
    ∷ entry TokenType.and_then true "and_then"
    ∷ entry TokenType.or true "or"
    ∷ entry TokenType.or_else true "or_else"
    ∷ entry TokenType.not_kw true "not"
    ∷ entry TokenType.div true "div"
    ∷ entry TokenType.mod_kw true "mod"
    ∷ entry TokenType.xor true "xor"
    ∷ entry TokenType.shr true "shr"
    ∷ entry TokenType.shl true "shl"
    ∷ entry TokenType.sym_diff false "><"
    ∷ entry TokenType.pow true "pow"
    ∷ entry TokenType.in_kw true "in"
    ∷ entry TokenType.plus false "+"
    ∷ entry TokenType.minus false "-"
    ∷ entry TokenType.multiply false "*"
    ∷ entry TokenType.divide false "/"
    ∷ entry TokenType.power false "**"
    ∷ entry TokenType.assign false ":="
    ∷ entry TokenType.less_than false "<"
    ∷ entry TokenType.less_or_equal false "<="
    ∷ entry TokenType.greater_or_equal false ">="
    ∷ entry TokenType.greater_than false ">"
    ∷ entry TokenType.equal false "="
    ∷ entry TokenType.not_equal false "<>"
    ∷ entry TokenType.integer false "integer"
    ∷ entry TokenType.real false "real"
    ∷ entry TokenType.boolean false "boolean"
    ∷ entry TokenType.char false "char"
    ∷ entry TokenType.string_literal false "string"
    ∷ entry TokenType.left_paren false "("
    ∷ entry TokenType.right_paren false ")"
    ∷ entry TokenType.left_square false "["
    ∷ entry TokenType.right_square false "]"
    ∷ entry TokenType.comma false ","
    ∷ entry TokenType.semicolon false ";"
    ∷ entry TokenType.colon false ":"
    ∷ entry TokenType.period false "."
    ∷ entry TokenType.dot_dot false ".."
    ∷ entry TokenType.uparrow false "^"
    ∷ entry TokenType.static true "static"
    ∷ entry TokenType.virtual true "virtual"
    ∷ entry TokenType.override true "override"
    ∷ entry TokenType.private true "private"
    ∷ entry TokenType.public true "public"
    ∷ entry TokenType.protected true "protected"
    ∷ entry TokenType.restricted true "restricted"
    ∷ entry TokenType.constructor true "constructor"
    ∷ entry TokenType.destructor true "destructor"
    ∷ entry TokenType.label true "label"
    ∷ entry TokenType.goto true "goto"
    ∷ entry TokenType.uses true "uses"
    ∷ entry TokenType.at false "@"
    ∷ entry TokenType.bindable true "bindable"
    ∷ entry TokenType.default true "default"
    ∷ entry TokenType.value true "value"
    ∷ entry TokenType.import true "import"
    ∷ entry TokenType.line_number true "__LINE__"
    ∷ entry TokenType.file_name true "__FILE__"
    ∷ entry TokenType.size_of true "sizeof"
    ∷ entry TokenType.identifier false "identifier"
    ∷ entry TokenType.unknown false "Unknown"
    ∷ entry TokenType.end_of_file false "EOF"
    ∷ []

-- `Token::Initialize`
unfoldable pub initialize : Standard → List TokenEntry → List TokenEntry
initialize none_std table =
    table ++ (entry TokenType.class true "class" ∷ entry TokenType.object true "object" ∷ [])
initialize _ table = table

-- The table that the compiler works with.
unfoldable pub token_table : Standard → List TokenEntry
unfolding initialize
token_table std = initialize std initial_table

-- `FindToken(Token::TokenType)`; `none` is the internal compiler error "Could not find token!"
unfoldable pub find_token_type : TokenType → List TokenEntry → Option TokenEntry
unfolding token_eq
find_token_type t [] = none
find_token_type t (e ∷ es) = if token_eq t e.type then some e else find_token_type t es

-- `kw == i.str`, in a search from the front
unfoldable pub find_str : Text → List TokenEntry → Option TokenEntry
find_str kw [] = none
find_str kw (e ∷ es) = if text_eq kw e.str then some e else find_str kw es

-- `kw.substr(0, 2) != "__"` is the negation of this.
unfoldable pub has_two_underscores : Text → Bool
has_two_underscores (a ∷ b ∷ _) = a == b'_' && b == b'_'
has_two_underscores _ = false

-- `FindToken(std::string)`
unfoldable pub find_token : Text → List TokenEntry → Option TokenEntry
unfolding find_str has_two_underscores strlower
find_token kw table = find_str (if has_two_underscores kw then kw else strlower kw) table

-- `Token::TypeStr`
unfoldable pub type_str : List TokenEntry → TokenType → Option Text
unfolding find_token_type
type_str table t = elim (find_token_type t table) [ none ↦ none | some e ↦ some e.str ]

-- What an entry that was found, or none, says of a word.
abbrev pub key_word_of : Option TokenEntry → TokenType
key_word_of none = TokenType.unknown
key_word_of (some e) = if e.is_key_word then e.type else TokenType.unknown

-- `Token::KeyWordToToken`
unfoldable pub key_word_to_token : List TokenEntry → Text → TokenType
unfolding find_token
key_word_to_token table str = key_word_of (find_token str table)
