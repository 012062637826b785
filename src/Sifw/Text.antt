-- ===== src/Sifw/Text.antt =====
-- Characters and texts of iw_fw_lwMsgUtils.c: a C string is the list of its bytes before the
-- terminating NUL, in the C locale.
use io_tware.Common.{ℕ, Bool, true, false, not, ◌&&◌, ◌||◌, List, [], ◌∷◌, leb, ◌==◌}

abbrev pub Text : Type 0
Text = List ℕ

-- `strcmp(a, b) == 0`
unfoldable pub text_eq : Text → Text → Bool
text_eq [] [] = true
text_eq [] (_ ∷ _) = false
text_eq (_ ∷ _) [] = false
text_eq (a ∷ as') (b ∷ bs) = a == b && text_eq as' bs

unfoldable pub is_space : ℕ → Bool
is_space c = c == 32 || (leb 9 c && leb c 13)

-- `isalnum(c) || ispunct(c)`
unfoldable pub is_graph : ℕ → Bool
is_graph c = leb 33 c && leb c 126

-- The loop of `_lwm_is_token` over its second argument.
unfoldable pub token_loop : ℕ → Text → Bool
token_loop c [] = false
token_loop c (t ∷ tokens) = (c == t || not (is_graph c || is_space c)) || token_loop c tokens

-- `_lwm_is_token`
unfoldable pub is_token : ℕ → Text → Bool
unfolding token_loop
is_token c [] = true
is_token c (t ∷ tokens) = token_loop c (t ∷ tokens)

-- The characters of the grammar.
abbrev pub lbrace : ℕ
lbrace = b'{'

abbrev pub rbrace : ℕ
rbrace = b'}'

abbrev pub lbrack : ℕ
lbrack = b'['

abbrev pub rbrack : ℕ
rbrack = b']'

abbrev pub equals : ℕ
equals = b'='

abbrev pub semicolon : ℕ
semicolon = b';'

abbrev pub comma : ℕ
comma = b','
