-- ===== src/Config/Dotenv.antt =====
-- config/dotenv.go: the parser of .env files and the loop that sets what they hold. `Host` has what
-- it calls of packages os and bufio, and strconv.Unquote, over a world with the environment.
use chobits.Prelude.{
  ℕ, suc, Bool, ◌&&◌, Option, none, some, List, [], ◌∷◌, ◌++◌, reverse, Bytes, codes, if◌then◌else◌,
  Result, ok, err,
}
use chobits.Text.{has_prefix, trim_prefix, drop_text, cut}
use chobits.Text.Trim.{trim_space}

-- `at_line` holds the name of the file and the number of the line, `in_file` the name;
-- `unquotable` is strconv.ErrSyntax.
pub data Error : Type 0 where
  missing_equals empty_key unquotable : Error
  failure : ℕ → Error
  at_line : Bytes → ℕ → Error → Error
  in_file : Bytes → Error → Error

abbrev pub Err : Type 0
Err = Option Error

pub record Entry : Type 0 where
  pub key : Bytes
  pub value : Bytes

-- An open file, as bufio.Scanner gives it: its lines, and the error that ended the scan.
pub record Scanned : Type 0 where
  pub lines : List Bytes
  pub scan_error : Err

pub record Host (W : Type 0) : Type 0 where
  -- os.Open; `none` is an error that is os.ErrNotExist
  pub open_file : Bytes → W → Result (Option Error) ℕ × W
  pub scan : ℕ → W → Scanned × W
  pub close_file : ℕ → W → Err × W
  pub lookup_env : Bytes → W → Option Bytes
  pub setenv : Bytes → Bytes → W → Err × W
  pub unquote : Bytes → Result Error Bytes

-- strings.HasSuffix
unfoldable pub has_suffix : Bytes → Bytes → Bool
unfolding has_prefix
has_suffix s suffix = has_prefix (reverse s) (reverse suffix)

-- strings.TrimSuffix
unfoldable pub trim_suffix : Bytes → Bytes → Bytes
unfolding has_suffix drop_text
trim_suffix s suffix =
    if has_suffix s suffix then reverse (drop_text (reverse s) (reverse suffix)) else s

-- what stands before the first " #"
unfoldable pub before_comment : Bytes → Bytes
unfolding has_prefix
before_comment [] = []
before_comment (a ∷ s) =
    let rest = before_comment s in if has_prefix (a ∷ s) (codes " #") then [] else a ∷ rest

unfoldable pub parse_value : (Bytes → Result Error Bytes) → Bytes → Result Error Bytes
unfolding has_prefix has_suffix trim_prefix trim_suffix before_comment trim_space
parse_value unquote [] = ok []
parse_value unquote (a ∷ s) =
    let value = a ∷ s in
    if has_prefix value (codes "\"")
    then unquote value
    else if has_prefix value (codes "'") && has_suffix value (codes "'")
    then ok (trim_suffix (trim_prefix value (codes "'")) (codes "'"))
    else ok (trim_space (before_comment value))

-- the entry of a key and of what parseDotEnvValue replied
unfoldable pub entry_of : Bytes → Result Error Bytes → Result Error Entry
entry_of key (ok value) = ok (record { key = key; value = value })
entry_of key (err e) = err e

unfoldable pub parse_pair : (Bytes → Result Error Bytes) → Bytes → Bytes → Result Error Entry
unfolding trim_space parse_value entry_of
parse_pair unquote key value = elim (trim_space key) [
  | [] ↦ err empty_key
  | a ∷ s ↦ entry_of (a ∷ s) (parse_value unquote (trim_space value))
]

-- a line that is trimmed, not empty and no comment
unfoldable pub parse_assignment : (Bytes → Result Error Bytes) → Bytes → Result Error Entry
unfolding trim_prefix cut parse_pair
parse_assignment unquote line = elim (cut b'=' (trim_prefix line (codes "export "))) [
  | none ↦ err missing_equals
  | some (key, value) ↦ parse_pair unquote key value
]

-- one line: nothing, if it is empty or a comment
unfoldable pub parse_line : (Bytes → Result Error Bytes) → Bytes → Option (Result Error Entry)
unfolding trim_space has_prefix parse_assignment
parse_line unquote text = elim (trim_space text) [
  | [] ↦ none
  | a ∷ s ↦ if has_prefix (a ∷ s) (codes "#") then none else some (parse_assignment unquote (a ∷ s))
]

-- The entries in front of more entries, or of an error.
unfoldable pub with_entry : Entry → Result Error (List Entry) → Result Error (List Entry)
with_entry e (ok es) = ok (e ∷ es)
with_entry e (err x) = err x

unfoldable pub after_line :
    Bytes → ℕ → Option (Result Error Entry) → Result Error (List Entry) → Result Error (List Entry)
unfolding with_entry
after_line name n none rest = rest
after_line name n (some (ok e)) rest = with_entry e rest
after_line name n (some (err x)) rest = err (at_line name n x)

-- the loop of parseDotEnv, at a line with this number
unfoldable pub parse_lines :
    (Bytes → Result Error Bytes) → Bytes → ℕ → List Bytes → Result Error (List Entry)
unfolding parse_line after_line
parse_lines unquote name n [] = ok []
parse_lines unquote name n (line ∷ lines) =
    after_line name n (parse_line unquote line) (parse_lines unquote name (suc n) lines)

-- An error that comes after a result, if there is none yet.
unfoldable pub or_error {ℓ} : {A : Type ℓ} → Result Error A → Err → Result Error A
or_error (ok a) none = ok a
or_error (ok a) (some e) = err e
or_error (err x) e = err x

unfoldable pub parse_dotenv :
    (Bytes → Result Error Bytes) → Bytes → Scanned → Result Error (List Entry)
unfolding parse_lines or_error
parse_dotenv unquote name s = or_error (parse_lines unquote name 1 s.lines) s.scan_error

pub record Loaded : Type 0 where
  pub loaded : List Bytes
  pub errors : List Error

unfoldable pub add_error : Error → Loaded → Loaded
add_error e r = record r { errors = r.errors ++ e ∷ [] }

unfoldable pub add_path : Bytes → Loaded → Loaded
add_path path r = record r { loaded = r.loaded ++ path ∷ [] }

-- Err: nil, or errors.Join of the errors
unfoldable pub error_of : Loaded → Option (List Error)
error_of r = elim r.errors [ [] ↦ none | e ∷ es ↦ some (e ∷ es) ]

module _ {W : Type 0} (host : Host W) where
  -- from the result of os.Setenv on: an error ends the loop
  unfoldable pub after_set : (W → Err × W) → Err × W → Err × W
  after_set rest (none, w) = rest w
  after_set rest (some e, w) = (some e, w)

  -- one entry, if the variable is set already and if it is not
  unfoldable pub set_unless : Entry → (W → Err × W) → Option Bytes → W → Err × W
  unfolding after_set
  set_unless e rest (some v) w = rest w
  set_unless e rest none w = after_set rest (host.setenv e.key e.value w)

  -- the loop over the entries
  unfoldable pub set_entries : List Entry → W → Err × W
  unfolding set_unless
  set_entries [] w = (none, w)
  set_entries (e ∷ es) w = set_unless e (set_entries es) (host.lookup_env e.key w) w

  unfoldable pub record_errors : Bytes → Loaded → Err → Loaded
  unfolding add_error add_path
  record_errors path r none = add_path path r
  record_errors path r (some e) = add_path path (add_error e r)

  -- from the result of parseDotEnv and Close on
  unfoldable pub apply_entries : Bytes → Loaded → Result Error (List Entry) → W → Loaded × W
  unfolding set_entries record_errors add_error
  apply_entries path r (err e) w = (add_error e r, w)
  apply_entries path r (ok es) w = let (e, w') = set_entries es w in (record_errors path r e, w')

  -- from the result of os.Open on
  unfoldable pub after_open : Bytes → Loaded → Result (Option Error) ℕ → W → Loaded × W
  unfolding apply_entries parse_dotenv or_error add_error
  after_open path r (err none) w = (r, w)
  after_open path r (err (some e)) w = (add_error (in_file path e) r, w)
  after_open path r (ok file) w =
      let (scanned, w1) = host.scan file w in
      let (closed, w2) = host.close_file file w1 in
      apply_entries path r (or_error (parse_dotenv host.unquote path scanned) closed) w2

  unfoldable pub load_one : Bytes → Loaded → W → Loaded × W
  unfolding after_open
  load_one [] r w = (r, w)
  load_one (a ∷ path) r w =
      let (opened, w') = host.open_file (a ∷ path) w in after_open (a ∷ path) r opened w'

  -- the loop of TryLoadDotEnv
  unfoldable pub load_loop : List Bytes → Loaded → W → Loaded × W
  unfolding load_one
  load_loop [] r w = (r, w)
  load_loop (path ∷ paths) r w = let (r', w') = load_one path r w in load_loop paths r' w'

  unfoldable pub try_load : List Bytes → W → Loaded × W
  unfolding load_loop
  try_load paths w = load_loop paths (record { loaded = []; errors = [] }) w

  -- LoadDotEnv
  unfoldable pub load : List Bytes → W → Option (List Error) × W
  unfolding try_load error_of
  load paths w =
      let (r, w') = try_load paths w in (elim r.loaded [ [] ↦ error_of r | _ ↦ none ], w')
