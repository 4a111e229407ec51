-- ===== src/Tests/Files.antt =====
-- A configuration of src/log_utils.c that is written and read again, and the functions on strings.
use logstats.Base.{
  ℕ, ◌+◌, ◌-◌, ◌<◌, ◌≡◌, refl, ap, ℤ, pos, negsuc, true, none, some, [], ◌∷◌, arith, ◌==◌,
  if◌then◌else◌,
}
use logstats.NameTree.Tree.{Name}
use logstats.ViewStats.{bytes}
use logstats.Config.{
  Config, Decimal, strip, socks_text, rev_find_str, config_create, config_write_file,
}
use logstats.Config.Find.{Last, rev_find_str-Last}
use logstats.Config.Round.{Text, Number, IsPrintable, config_create-write}
use logstats.Config.Strip.{Stripped, Solid-Stripped, strip-Stripped}

-- Numbers of one digit.
abbrev show : ℤ → Name
show (pos n) = (b'0' + n) ∷ []
show (negsuc n) = []

abbrev atoi : Name → ℤ
atoi [] = pos 0
atoi (c ∷ s) = pos (c - b'0')

abbrev digits : Decimal
digits = record { atoi = atoi; show = show }

abbrev conf : Config
conf = record {
  filename = bytes "log.conf";
  eth_dev = bytes "e";
  server_ip = bytes "i";
  server_port = pos 9;
  server_mgr_port = pos 8;
  max_line = pos 7;
  enable_auto = pos 1;
  home_dir = bytes "/";
  file_prefix = bytes "p";
  max_file_count = pos 3;
  file_size_limit = pos 4;
  redis_unix_sock = bytes "a" ∷ bytes "b" ∷ [];
  log_ip = bytes "l";
}

eth_dev : Text 20 (bytes "e")
eth_dev = record {
  stripped = Solid-Stripped (bytes "e") (refl, tt);
  one_line = (refl, tt);
  short = omega arith;
}

server_ip : Text 20 (bytes "i")
server_ip = record {
  stripped = Solid-Stripped (bytes "i") (refl, tt);
  one_line = (refl, tt);
  short = omega arith;
}

home_dir : Text 128 (bytes "/")
home_dir = record {
  stripped = Solid-Stripped (bytes "/") (refl, tt);
  one_line = (refl, tt);
  short = omega arith;
}

file_prefix : Text 128 (bytes "p")
file_prefix = record {
  stripped = Solid-Stripped (bytes "p") (refl, tt);
  one_line = (refl, tt);
  short = omega arith;
}

log_ip : Text 100 (bytes "l")
log_ip = record {
  stripped = Solid-Stripped (bytes "l") (refl, tt);
  one_line = (refl, tt);
  short = omega arith;
}

digit : (n : ℕ) → n < 10 → Number digits (pos n)
digit n h = record {
  again = ap pos (omega arith);
  solid = (ground arith, tt);
  one_line = (ground arith, tt);
  short = omega arith;
}

conf-IsPrintable : IsPrintable digits conf
unfolding socks_text
conf-IsPrintable = record {
  filename = omega arith;
  eth_dev = eth_dev;
  server_ip = server_ip;
  server_port = digit 9 (omega arith);
  server_mgr_port = digit 8 (omega arith);
  max_line = digit 7 (omega arith);
  home_dir = home_dir;
  enable_auto = digit 1 (omega arith);
  file_prefix = file_prefix;
  file_size_limit = digit 4 (omega arith);
  max_file_count = digit 3 (omega arith);
  socks = (tt, (refl, tt), (tt, (refl, tt), tt));
  socks_one_line = (refl, (refl, (refl, (refl, tt))));
  socks_short = omega arith;
  socks_few = omega arith;
  log_ip = log_ip;
}

-- What malloc's memory held.
abbrev held : Config
held = record conf { eth_dev = bytes "?"; redis_unix_sock = []; max_line = pos 0 }

config_create-write_example :
    config_create digits held conf.filename (config_write_file digits conf true none) ≡ some conf
config_create-write_example = config_create-write digits held conf conf-IsPrintable

strip-Stripped_example :
    Stripped (strip (bytes "  a b ")) × (strip (strip (bytes "  a b ")) ≡ strip (bytes "  a b "))
strip-Stripped_example = strip-Stripped (bytes "  a b ")

abbrev path : ℕ → ℕ
path i = if i == 2 then b'/' else b'a'

rev_find_str-Last_example : (r : ℕ) × (rev_find_str 5 (some path) b'/' ≡ pos r) × Last 5 path b'/' r
rev_find_str-Last_example = rev_find_str-Last 5 path b'/'
