-- ===== src/Text/Fields.antt =====
-- The fields of a datagram: `ParseData` of parsedata.h, and the text that `SendMsg2Server` and
-- `SendMsg2Monitor` of operation.cpp send.
pub mod Framed
use my_linux_pbs.Base.{
  take, ℕ, Bool, List, [], ◌∷◌, ◌++◌, ◌-◌, if◌then◌else◌, Bytes, codes, length, get_or, take, drop,
  replicate,
}
use my_linux_pbs.Text.Decimal.{to_string}
use my_linux_pbs.Text.Split.{bitten, left_over, holds, parse_string, terminated}

-- `SetStyle`.
pub record Style : Type 0 where
  pub start_ch : ℕ
  pub end_ch : ℕ
  pub separator : ℕ

-- Behind the first start character; from the start where there is none.
unfoldable pub behind_start : ℕ → Bytes → Bytes
behind_start c text = if holds c text then left_over text c else text

-- Up to the first end character behind that; all of it where there is none. An empty text has no
-- field. The loop is that of `FnParseString`: a field that the separator ends, and on with what is
-- behind it until nothing is left.
unfoldable pub parse : Style → Bytes → List Bytes
unfolding behind_start
parse st text = parse_string (bitten (behind_start st.start_ch text) st.end_ch) st.separator

unfoldable pub field : List Bytes → ℕ → Bytes
field fs number = get_or fs number []

-- The last `n` characters, with a `0` for each that is missing.
unfoldable pub set_str_len : Bytes → ℕ → Bytes
set_str_len str n = let padded = replicate n b'0' ++ str in drop (length padded - n) padded

unfoldable pub int_to_n_char : ℕ → ℕ → Bytes
unfolding set_str_len
int_to_n_char i n = set_str_len (to_string i) n

-- `[name|sid|cmd|text|]`.
unfoldable pub framed : Bytes → ℕ → Bytes → Bytes → Bytes
framed name sid cmd text =
    b'[' ∷ (terminated (name ∷ to_string sid ∷ cmd ∷ text ∷ []) b'|' ++ codes "]")

-- The size of `data_`.
abbrev pub max_length : ℕ
max_length = 1024

-- The memory from the buffer on: the first `max_length` bytes of a datagram overwrite its first bytes,
-- and the rest stays.
unfoldable pub received : Bytes → Bytes → Bytes
received datagram before = let kept = take max_length datagram in kept ++ drop (length kept) before

-- `ParseData pField('[',']','|')`.
abbrev pub brackets : Style
brackets = record { start_ch = b'['; end_ch = b']'; separator = b'|' }

-- The buffer is passed as a `const char*`, so that it ends at the first byte 0; the length of the
-- datagram is not used.
unfoldable pub parse_buffer : Bytes → List Bytes
unfolding parse
parse_buffer buffer = parse brackets (bitten buffer 0)
