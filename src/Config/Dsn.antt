-- ===== src/Config/Dsn.antt =====
-- The data source names of config/config.go: both methods DSNString, and Encode of package net/url.
use chobits.Prelude.{
  ℕ, ◌+◌, ◌/◌, ◌%◌, Bool, true, false, ◌&&◌, ◌||◌, [], ◌∷◌, ◌++◌, Bytes, codes, if◌then◌else◌,
  Result, ok, err, leb, ltb, ◌==◌, ◌≡◌, refl,
}
use chobits.Int64.{ℤ, pos, is_zero}
use chobits.Int64.Decimal.{format_int}
use chobits.Text.Trim.{trim_space}
use chobits.Cache.Config.{or_text}
use chobits.Config.{Error, message, MySql, SqLite}

-- if value == 0 { value = fallback }
unfoldable pub or_int : ℤ → ℕ → ℤ
unfolding is_zero
or_int z n = if is_zero z then pos n else z

-- value == ""
unfoldable pub is_empty : Bytes → Bool
is_empty [] = true
is_empty (a ∷ s) = false

-- what a query of a URL leaves as it is: letters, digits, and - . _ ~
unfoldable pub is_unreserved : ℕ → Bool
is_unreserved c =
    (leb b'a' c && leb c b'z')
    || (leb b'A' c && leb c b'Z')
    || (leb b'0' c && leb c b'9')
    || ((c == b'-') || ((c == b'.') || ((c == b'_') || (c == b'~'))))

unfoldable pub upper_hex : ℕ → ℕ
upper_hex n = if ltb n 10 then b'0' + n else 55 + n

-- url.QueryEscape
unfoldable pub query_escape : Bytes → Bytes
unfolding is_unreserved upper_hex
query_escape [] = []
query_escape (c ∷ s) =
    let rest = query_escape s in
    if is_unreserved c
    then c ∷ rest
    else if c == b' '
    then b'+' ∷ rest
    else b'%' ∷ upper_hex (c / 16) ∷ upper_hex (c % 16) ∷ rest

-- params.Encode(), whose keys come sorted
unfoldable pub params : Bytes → Bytes
unfolding query_escape
params charset = codes "charset=" ++ query_escape charset ++ codes "&loc=Local&parseTime=true"

-- the name of the database
unfoldable pub database_name : MySql → Bytes
unfolding or_text
database_name c = or_text c.database c.db_name

unfoldable pub my_sql_dsn : MySql → Result Error Bytes
unfolding trim_space is_empty database_name or_text or_int format_int params
my_sql_dsn c =
    let name = database_name c in
    let charset = or_text c.charset (codes "utf8mb4") in
    let port = or_int c.port 3306 in
    if is_empty (trim_space c.dsn)
    then (if is_empty c.host || is_empty c.user || is_empty name
        then err (message (codes "mysql dsn is required, or host/user/database must be set"))
        else ok (
            c.user
            ++ codes ":"
            ++ c.password
            ++ codes "@tcp("
            ++ c.host
            ++ codes ":"
            ++ format_int port
            ++ codes ")/"
            ++ name
            ++ codes "?"
            ++ params charset))
    else ok c.dsn

unfoldable pub sq_lite_dsn : SqLite → Result Error Bytes
unfolding trim_space is_empty
sq_lite_dsn c =
    if is_empty (trim_space c.dsn)
    then (if is_empty (trim_space c.path)
        then err (message (codes "sqlite dsn or path is required"))
        else ok c.path)
    else ok c.dsn

escape_test : query_escape (b'a' ∷ b' ' ∷ 195 ∷ 169 ∷ []) ≡ codes "a+%C3%A9"
unfolding query_escape
escape_test = refl
