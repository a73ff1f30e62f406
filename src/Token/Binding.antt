-- ===== src/Token/Binding.antt =====
-- token.cpp: how strongly operators bind.
use lacsap.Prelude.{◌≡◌, refl}
use lacsap.Prelude.Int.{pos, eq_ℤ}
use lacsap.Token.Enum.{TokenType}
use lacsap.Token.Value.{precedence, is_compare}

-- A kind of token is a comparison exactly when it binds like one, at 5.
is_compare-eq-precedence : (t : TokenType) → is_compare t ≡ eq_ℤ (precedence t) (pos 5)
unfolding is_compare precedence
is_compare-eq-precedence TokenType.integer = refl
is_compare-eq-precedence _ = refl
