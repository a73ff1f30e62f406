-- ===== src/Token/Enum.antt =====
-- token.h: `Token::TokenType`. An enumerator that is a reserved word here ends in `_kw`.
use lacsap.Prelude.{Bool, List, [], ◌∷◌, get_or, ◌≡◌, refl, ap, ◌∙◌, sym, zero, suc, true, arith}
use lacsap.Prelude.Int.{ℤ, pos, negsuc, eq_ℤ}

pub data TokenType : Type 0 where
  integer real string_literal char boolean type var packed : TokenType
  array of record_kw class object identifier const file : TokenType
  set string nil bindable value left_paren right_paren left_square : TokenType
  right_square plus minus multiply divide power comma semicolon : TokenType
  colon assign period dot_dot uparrow div mod_kw pow : TokenType
  xor shr shl sym_diff less_or_equal less_than greater_or_equal greater_than : TokenType
  equal not_equal in_kw for to downto do_kw if_kw : TokenType
  then_kw else_kw while repeat until function procedure begin : TokenType
  end program unit module_kw write writeln write_str read : TokenType
  readln read_str builtin forward inline interface implementation and : TokenType
  and_then or or_else not_kw case otherwise with virtual : TokenType
  override static private public protected restricted constructor destructor : TokenType
  label goto uses at default import line_number file_name : TokenType
  size_of overflow unterm_string end_of_file unknown : TokenType

-- The enumerators that count up from 0, in order.
abbrev pub enumerators : List TokenType
enumerators =
    integer ∷ real ∷ string_literal ∷ char ∷ boolean ∷ type ∷ var ∷ packed ∷ array ∷ of ∷ record_kw
    ∷ class ∷ object ∷ identifier ∷ const ∷ file ∷ set ∷ string ∷ nil ∷ bindable ∷ value
    ∷ left_paren ∷ right_paren ∷ left_square ∷ right_square ∷ plus ∷ minus ∷ multiply ∷ divide
    ∷ power ∷ comma ∷ semicolon ∷ colon ∷ assign ∷ period ∷ dot_dot ∷ uparrow ∷ div ∷ mod_kw ∷ pow
    ∷ xor ∷ shr ∷ shl ∷ sym_diff ∷ less_or_equal ∷ less_than ∷ greater_or_equal ∷ greater_than
    ∷ equal ∷ not_equal ∷ in_kw ∷ for ∷ to ∷ downto ∷ do_kw ∷ if_kw ∷ then_kw ∷ else_kw ∷ while
    ∷ repeat ∷ until ∷ function ∷ procedure ∷ begin ∷ end ∷ program ∷ unit ∷ module_kw ∷ write
    ∷ writeln ∷ write_str ∷ read ∷ readln ∷ read_str ∷ builtin ∷ forward ∷ inline ∷ interface
    ∷ implementation ∷ and ∷ and_then ∷ or ∷ or_else ∷ not_kw ∷ case ∷ otherwise ∷ with ∷ virtual
    ∷ override ∷ static ∷ private ∷ public ∷ protected ∷ restricted ∷ constructor ∷ destructor
    ∷ label ∷ goto ∷ uses ∷ at ∷ default ∷ import ∷ line_number ∷ file_name ∷ size_of ∷ overflow
    ∷ unterm_string ∷ []

-- The value of an enumerator.
unfoldable pub ordinal : TokenType → ℤ
ordinal integer = pos 0
ordinal real = pos 1
ordinal string_literal = pos 2
ordinal char = pos 3
ordinal boolean = pos 4
ordinal type = pos 5
ordinal var = pos 6
ordinal packed = pos 7
ordinal array = pos 8
ordinal of = pos 9
ordinal record_kw = pos 10
ordinal class = pos 11
ordinal object = pos 12
ordinal identifier = pos 13
ordinal const = pos 14
ordinal file = pos 15
ordinal set = pos 16
ordinal string = pos 17
ordinal nil = pos 18
ordinal bindable = pos 19
ordinal value = pos 20
ordinal left_paren = pos 21
ordinal right_paren = pos 22
ordinal left_square = pos 23
ordinal right_square = pos 24
ordinal plus = pos 25
ordinal minus = pos 26
ordinal multiply = pos 27
ordinal divide = pos 28
ordinal power = pos 29
ordinal comma = pos 30
ordinal semicolon = pos 31
ordinal colon = pos 32
ordinal assign = pos 33
ordinal period = pos 34
ordinal dot_dot = pos 35
ordinal uparrow = pos 36
ordinal div = pos 37
ordinal mod_kw = pos 38
ordinal pow = pos 39
ordinal xor = pos 40
ordinal shr = pos 41
ordinal shl = pos 42
ordinal sym_diff = pos 43
ordinal less_or_equal = pos 44
ordinal less_than = pos 45
ordinal greater_or_equal = pos 46
ordinal greater_than = pos 47
ordinal equal = pos 48
ordinal not_equal = pos 49
ordinal in_kw = pos 50
ordinal for = pos 51
ordinal to = pos 52
ordinal downto = pos 53
ordinal do_kw = pos 54
ordinal if_kw = pos 55
ordinal then_kw = pos 56
ordinal else_kw = pos 57
ordinal while = pos 58
ordinal repeat = pos 59
ordinal until = pos 60
ordinal function = pos 61
ordinal procedure = pos 62
ordinal begin = pos 63
ordinal end = pos 64
ordinal program = pos 65
ordinal unit = pos 66
ordinal module_kw = pos 67
ordinal write = pos 68
ordinal writeln = pos 69
ordinal write_str = pos 70
ordinal read = pos 71
ordinal readln = pos 72
ordinal read_str = pos 73
ordinal builtin = pos 74
ordinal forward = pos 75
ordinal inline = pos 76
ordinal interface = pos 77
ordinal implementation = pos 78
ordinal and = pos 79
ordinal and_then = pos 80
ordinal or = pos 81
ordinal or_else = pos 82
ordinal not_kw = pos 83
ordinal case = pos 84
ordinal otherwise = pos 85
ordinal with = pos 86
ordinal virtual = pos 87
ordinal override = pos 88
ordinal static = pos 89
ordinal private = pos 90
ordinal public = pos 91
ordinal protected = pos 92
ordinal restricted = pos 93
ordinal constructor = pos 94
ordinal destructor = pos 95
ordinal label = pos 96
ordinal goto = pos 97
ordinal uses = pos 98
ordinal at = pos 99
ordinal default = pos 100
ordinal import = pos 101
ordinal line_number = pos 102
ordinal file_name = pos 103
ordinal size_of = pos 104
ordinal overflow = pos 105
ordinal unterm_string = pos 106
ordinal end_of_file = negsuc 0
ordinal unknown = negsuc 999

-- `==` on enumerators
unfoldable pub token_eq : TokenType → TokenType → Bool
unfolding ordinal
token_eq a b = eq_ℤ (ordinal a) (ordinal b)

of_ordinal : ℤ → TokenType
of_ordinal (pos n) = get_or enumerators n unknown
of_ordinal (negsuc zero) = end_of_file
of_ordinal (negsuc (suc n)) = unknown

of_ordinal-ordinal : (t : TokenType) → of_ordinal (ordinal t) ≡ t
unfolding of_ordinal ordinal
of_ordinal-ordinal integer = refl
of_ordinal-ordinal _ = refl

eq_ℤ_sound : (a b : ℤ) → eq_ℤ a b ≡ true → a ≡ b
eq_ℤ_sound a b h = ground arith

-- Equal values are equal enumerators.
pub token_eq_sound : (a b : TokenType) → token_eq a b ≡ true → a ≡ b
unfolding token_eq
token_eq_sound a b h =
    sym (of_ordinal-ordinal a)
    ∙ ap of_ordinal (eq_ℤ_sound (ordinal a) (ordinal b) h)
    ∙ of_ordinal-ordinal b
