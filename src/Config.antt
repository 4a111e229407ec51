-- ===== src/Config.antt =====
-- The configuration file of src/log_utils.c. A string is the list of its bytes, without the NUL at its
-- end; a file has no NUL in it. atoi, and the conversion of printf for "%d", are parameters. `none` as an outcome means that the
-- process stops, at a NULL pointer or a write behind the end of an array.
pub mod Strip
pub mod Lines
pub mod Socks
pub mod Round
pub mod Find
use logstats.Base.{
  ◌>>=◌, ℕ, zero, suc, ◌+◌, ◌-◌, ℤ, pos, negsuc, Bool, Option, none, some, List, [], ◌∷◌, ◌++◌, ltb,
  leb, ◌==◌, if◌then◌else◌, length, ◌≡◌,
}
use logstats.LogLine.{chop, fields}
use logstats.NameTree.Tree.{Name}
use logstats.ViewStats.{bytes, same_name}

-- REDIS_INSTANCE, and the sizes of the arrays of the structure and of a line.
abbrev pub redis_instance : ℕ
redis_instance = 100

abbrev pub filename_len : ℕ
filename_len = 100

abbrev pub address_len : ℕ
address_len = 20

abbrev pub path_len : ℕ
path_len = 128

abbrev pub log_ip_len : ℕ
log_ip_len = 100

abbrev pub conf_line_len : ℕ
conf_line_len = 1024

-- `redis_unix_num` is the length of `redis_unix_sock`.
pub record Config : Type 0 where
  pub filename : Name
  pub eth_dev : Name
  pub server_ip : Name
  pub server_port : ℤ
  pub server_mgr_port : ℤ
  pub max_line : ℤ
  pub enable_auto : ℤ
  pub home_dir : Name
  pub file_prefix : Name
  pub max_file_count : ℤ
  pub file_size_limit : ℤ
  pub redis_unix_sock : List Name
  pub log_ip : Name

-- Of the C library: atoi, and what printf writes for "%d".
pub record Decimal : Type 0 where
  pub atoi : Name → ℤ
  pub show : ℤ → Name

-- The two loops of strip: the spaces at the end, and those in front.
pub strip_end : Name → Name
strip_end [] = []
strip_end (c ∷ s) =
    let rest = strip_end s in
    elim rest [ [] ↦ (if c == b' ' then [] else c ∷ []) | d ∷ t ↦ c ∷ d ∷ t ]

pub strip_front : Name → Name
strip_front [] = []
strip_front (c ∷ s) = let rest = strip_front s in if c == b' ' then rest else c ∷ s

pub strip : Name → Name
unfolding strip_end strip_front
strip s = strip_front (strip_end s)

-- `strchr(tempconf, '=')`: what stands before it, and what behind, if it is there.
pub split_line : Name → Name × Option Name
split_line [] = ([], none)
split_line (c ∷ s) =
    let rest = split_line s in if c == b'=' then ([], some s) else (c ∷ rest.0, rest.1)

-- strcpy into an array of so many bytes.
abbrev pub strcpy : ℕ → Name → Option Name
strcpy size s = if ltb (length s) size then some s else none

-- The loop over the words of redis_sock_path, each entered behind those that are there.
pub add_socks : List Name → List Name → Option (List Name)
add_socks socks [] = some socks
add_socks socks (token ∷ rest) =
    let more = add_socks (socks ++ token ∷ []) rest in
    if ltb (length socks) redis_instance then more else none

-- fgets with room for so many bytes: the line, with its newline, and the rest of the file.
pub line_of : ℕ → Name → Name × Name
line_of zero s = ([], s)
line_of (suc n) [] = ([], [])
line_of (suc n) (c ∷ s) =
    let rest = line_of n s in if c == b'\n' then (c ∷ [], s) else (c ∷ rest.0, rest.1)

-- The calls of fgets up to the end of the file, at most so many.
pub lines_of : ℕ → Name → List Name
unfolding line_of
lines_of zero s = []
lines_of (suc fuel) [] = []
lines_of (suc fuel) (c ∷ s) = let r = line_of (conf_line_len - 1) (c ∷ s) in r.0 ∷ lines_of fuel r.1

-- Some pieces of text, one after the other.
pub joined_text : List Name → Name
joined_text [] = []
joined_text (line ∷ rest) = line ++ joined_text rest

-- `fprintf(fp, "%s ", ...)` for each socket.
unfoldable pub socks_text : List Name → Name
socks_text [] = []
socks_text (s ∷ rest) = s ++ b' ' ∷ socks_text rest

-- A line "key = value".
abbrev pub printed : (key value : Name) → Name
printed key value = key ++ b' ' ∷ b'=' ∷ b' ' ∷ value

-- Each line with its newline.
abbrev pub ended : List Name → List Name
ended [] = []
ended (l ∷ ls) = (l ++ b'\n' ∷ []) ∷ ended ls

module _ (decimal : Decimal) where
  open decimal use {atoi, show}

  -- The chain of comparisons with the names of the settings.
  pub set_field : Config → (key p : Name) → Option Config
  unfolding add_socks
  set_field conf key p =
      let eth : Option Config = do s ← strcpy address_len p; some (record conf { eth_dev = s })
      in let socks : Option Config = do
        all ← add_socks conf.redis_unix_sock (fields conf_line_len p)
        some (record conf { redis_unix_sock = all })
        in let ip : Option Config = do
          s ← strcpy address_len p
          some (record conf { server_ip = s })
          in let home : Option Config = do
            s ← strcpy path_len p
            some (record conf { home_dir = s })
            in let prefix : Option Config = do
              s ← strcpy path_len p
              some (record conf { file_prefix = s })
              in let log : Option Config = do
                s ← strcpy log_ip_len p
                some (record conf { log_ip = s })
                in if same_name (bytes "eth_dev") key
                  then eth
                  else if same_name (bytes "enable_auto") key
                  then some (record conf { enable_auto = atoi p })
                  else if same_name (bytes "redis_sock_path") key
                  then socks
                  else if same_name (bytes "server_ip") key
                  then ip
                  else if same_name (bytes "server_port") key
                  then some (record conf { server_port = atoi p })
                  else if same_name (bytes "server_mgr_port") key
                  then some (record conf { server_mgr_port = atoi p })
                  else if same_name (bytes "max_line") key
                  then some (record conf { max_line = atoi p })
                  else if same_name (bytes "home_dir") key
                  then home
                  else if same_name (bytes "file_prefix") key
                  then prefix
                  else if same_name (bytes "file_size_limit") key
                  then some (record conf { file_size_limit = atoi p })
                  else if same_name (bytes "max_file_count") key
                  then some (record conf { max_file_count = atoi p })
                  else if same_name (bytes "log_ip") key
                  then log
                  else some conf

  -- A line with its last byte, whatever it is, cut off. Without '=' the pointer behind it is NULL + 1.
  pub setting : Config → Name → Option Config
  unfolding split_line strip
  setting conf line =
      let parts = split_line (strip (chop line)) in
      elim parts.1 [ none ↦ none | some p ↦ set_field conf (strip parts.0) (strip p) ]

  -- One round of the loop over the lines.
  pub config_line : Config → Name → Option Config
  unfolding setting
  config_line conf [] = some conf
  config_line conf (c ∷ line) =
      let set = setting conf (c ∷ line) in
      if length line == 0 then some conf else if c == b'#' then some conf else set

  pub config_lines : Config → List Name → Option Config
  config_lines conf [] = some conf
  config_lines conf (line ∷ rest) = do conf' ← config_line conf line; config_lines conf' rest

  -- `held` is what the memory of malloc holds, `file` what is read, unless the file is not there. Every
  -- line has a byte at least.
  pub config_create : Config → (filename : Name) → (file : Option Name) → Option Config
  unfolding config_lines lines_of
  config_create held filename none = some held
  config_create held filename (some text) = do
    name ← strcpy filename_len filename
    config_lines (record held { filename = name; redis_unix_sock = [] })
        (lines_of (length text) text)

  -- The lines that are printed.
  pub output_lines : Config → List Name
  unfolding socks_text
  output_lines conf =
      printed (bytes "eth_dev") conf.eth_dev
      ∷ printed (bytes "server_ip") conf.server_ip
      ∷ printed (bytes "server_port") (show conf.server_port)
      ∷ printed (bytes "server_mgr_port") (show conf.server_mgr_port)
      ∷ printed (bytes "max_line") (show conf.max_line)
      ∷ printed (bytes "home_dir") conf.home_dir
      ∷ printed (bytes "enable_auto") (show conf.enable_auto)
      ∷ printed (bytes "file_prefix") conf.file_prefix
      ∷ printed (bytes "file_size_limit") (show conf.file_size_limit)
      ∷ printed (bytes "max_file_count") (show conf.max_file_count)
      ∷ printed (bytes "redis_sock_path") (socks_text conf.redis_unix_sock)
      ∷ printed (bytes "log_ip") conf.log_ip
      ∷ []

  pub config_output : Config → Name
  unfolding output_lines joined_text
  config_output conf = joined_text (ended (output_lines conf))

  -- What stands in the file afterwards; a file that cannot be opened stays as it is.
  pub config_write_file : Config → (opened : Bool) → (file : Option Name) → Option Name
  config_write_file conf opened file = if opened then some (config_output conf) else file

-- `str` has `recv_len` bytes: the place behind the last `ch`, or 0; -1 for NULL.
pub rev_find : ℕ → (ℕ → ℕ) → ℕ → ℕ
rev_find zero str ch = 0
rev_find (suc n) str ch = let rest = rev_find n str ch in if str n == ch then suc n else rest

pub rev_find_str : ℕ → Option (ℕ → ℕ) → ℕ → ℤ
unfolding rev_find
rev_find_str recv_len none ch = negsuc 0
rev_find_str recv_len (some str) ch = pos (rev_find recv_len str ch)
