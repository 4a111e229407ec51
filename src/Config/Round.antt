-- ===== src/Config/Round.antt =====
-- What config_output of src/log_utils.c prints, config_create reads.
use logstats.Base.{
  ◌>>=◌, ℕ, ◌≤◌, ◌<◌, ◌≡◌, refl, ap, ◌∙◌, ℤ, true, false, none, some, List, [], ◌∷◌, ◌++◌, ◌==◌,
  arith, length,
}
use logstats.LogLine.{fields}
use logstats.LogLine.Words.{Solid, Words}
use logstats.NameTree.Tree.{Name}
use logstats.ViewStats.{bytes, same_name}
use logstats.Config.{
  Config, Decimal, filename_len, address_len, path_len, log_ip_len, conf_line_len, redis_instance,
  strip_end, strip, split_line, strcpy, lines_of, joined_text, socks_text, printed, ended,
  set_field, config_line, config_lines, config_create, config_write_file, output_lines,
  config_output, add_socks,
}
use logstats.Config.Lines.{
  OneLine, Lines, lines_of-ended, length-ended, printed_line, config_line-printed,
}
use logstats.Config.Socks.{socks_again}
use logstats.Config.Strip.{Stripped, Solid-Stripped, strip-value}

-- A text that fits into an array of so many bytes, on one line and with no space at its ends.
pub record Text (size : ℕ) (s : Name) : Type 0 where
  pub stripped : Stripped s
  pub one_line : OneLine s
  pub short : length s < size

module _ (decimal : Decimal) where
  open decimal use {atoi, show}

  -- A number that atoi reads from what printf wrote: at most 11 bytes, none of them a space.
  pub record Number (n : ℤ) : Type 0 where
    pub again : atoi (show n) ≡ n
    pub solid : Solid (show n)
    pub one_line : OneLine (show n)
    pub short : length (show n) < 12

  pub record IsPrintable (conf : Config) : Type 0 where
    pub filename : length conf.filename < filename_len
    pub eth_dev : Text address_len conf.eth_dev
    pub server_ip : Text address_len conf.server_ip
    pub server_port : Number conf.server_port
    pub server_mgr_port : Number conf.server_mgr_port
    pub max_line : Number conf.max_line
    pub home_dir : Text path_len conf.home_dir
    pub enable_auto : Number conf.enable_auto
    pub file_prefix : Text path_len conf.file_prefix
    pub file_size_limit : Number conf.file_size_limit
    pub max_file_count : Number conf.max_file_count
    pub socks : Words conf.redis_unix_sock
    pub socks_one_line : OneLine (socks_text conf.redis_unix_sock)
    pub socks_short : length (socks_text conf.redis_unix_sock) < 1000
    pub socks_few : length conf.redis_unix_sock ≤ redis_instance
    pub log_ip : Text log_ip_len conf.log_ip

  int_value : (n : ℤ) → Number n → atoi (strip (strip_end (b' ' ∷ show n))) ≡ n
  int_value n h = ap atoi (strip-value (show n) (Solid-Stripped (show n) h.solid)) ∙ h.again

  text-value :
      (size : ℕ) (s : Name) → Text size s → strcpy size (strip (strip_end (b' ' ∷ s))) ≡ some s
  text-value size s h = ap (strcpy size) (strip-value s h.stripped) ∙ ground (arith, h.short)

  -- The line of a setting that is a text.
  text_line :
      (held : Config) (c : ℕ) (k : Name) (size : ℕ) (v : Name) (with : Name → Config)
      → (c == b' ') ≡ false
      → (c == b'#') ≡ false
      → split_line ((c ∷ k) ++ b' ' ∷ []) ≡ ((c ∷ k) ++ b' ' ∷ [], none)
      → strip ((c ∷ k) ++ b' ' ∷ []) ≡ c ∷ k
      → ((p : Name) → set_field decimal held (c ∷ k) p ≡ (strcpy size p >>= λ s. some (with s)))
      → Text size v
      → config_line decimal held (printed (c ∷ k) v ++ b'\n' ∷ []) ≡ some (with v)
  text_line held c k size v with solid plain free stripped set h =
      config_line-printed decimal held c k v solid plain free stripped
      ∙ set (strip (strip_end (b' ' ∷ v)))
      ∙ ap (λ o. o >>= λ s. some (with s)) (text-value size v h)

  -- The line of a setting that is a number.
  int_line :
      (held : Config) (c : ℕ) (k : Name) (n : ℤ) (with : ℤ → Config)
      → (c == b' ') ≡ false
      → (c == b'#') ≡ false
      → split_line ((c ∷ k) ++ b' ' ∷ []) ≡ ((c ∷ k) ++ b' ' ∷ [], none)
      → strip ((c ∷ k) ++ b' ' ∷ []) ≡ c ∷ k
      → ((p : Name) → set_field decimal held (c ∷ k) p ≡ some (with (atoi p)))
      → Number n
      → config_line decimal held (printed (c ∷ k) (show n) ++ b'\n' ∷ []) ≡ some (with n)
  int_line held c k n with solid plain free stripped set h =
      config_line-printed decimal held c k (show n) solid plain free stripped
      ∙ set (strip (strip_end (b' ' ∷ show n)))
      ∙ ap (λ m. some (with m)) (int_value n h)

  next_line :
      (held held' : Config) (line : Name) (rest : List Name)
      → config_line decimal held line ≡ some held'
      → config_lines decimal held (line ∷ rest) ≡ config_lines decimal held' rest
  unfolding config_lines
  next_line held held' line rest h = ap (λ o. o >>= λ k. config_lines decimal k rest) h

  no_lines : (held : Config) → config_lines decimal held [] ≡ some held
  unfolding config_lines
  no_lines held = refl

  -- The line of the sockets.
  socks_line :
      (held : Config) (ws : List Name)
      → held.redis_unix_sock ≡ []
      → Words ws
      → length ws ≤ redis_instance
      → config_line decimal held (printed (bytes "redis_sock_path") (socks_text ws) ++ b'\n' ∷ [])
        ≡ some (record held { redis_unix_sock = ws })
  unfolding set_field same_name strip strip_end split_line
  socks_line held ws none_yet h few =
      let value = strip (strip_end (b' ' ∷ socks_text ws)) in
      config_line-printed decimal held b'r' (bytes "edis_sock_path") (socks_text ws) refl refl refl
        refl
      ∙ ap
          (λ socks. add_socks socks (fields conf_line_len value) >>= λ all.
            some (record held { redis_unix_sock = all }))
          none_yet
      ∙ ap (λ o. o >>= λ all. some (record held { redis_unix_sock = all })) (socks_again ws h few)

  -- The settings are read in the order in which they are printed.
  lines_again :
      (held conf : Config)
      → IsPrintable conf
      → config_lines decimal
          (record held { filename = conf.filename; redis_unix_sock = [] })
          (ended (output_lines decimal conf))
        ≡ some conf
  unfolding output_lines set_field same_name strip strip_end split_line
  lines_again held conf h =
      let k0 : Config = record held { filename = conf.filename; redis_unix_sock = [] } in
      let k1 : Config = record k0 { eth_dev = conf.eth_dev } in
      let k2 : Config = record k1 { server_ip = conf.server_ip } in
      let k3 : Config = record k2 { server_port = conf.server_port } in
      let k4 : Config = record k3 { server_mgr_port = conf.server_mgr_port } in
      let k5 : Config = record k4 { max_line = conf.max_line } in
      let k6 : Config = record k5 { home_dir = conf.home_dir } in
      let k7 : Config = record k6 { enable_auto = conf.enable_auto } in
      let k8 : Config = record k7 { file_prefix = conf.file_prefix } in
      let k9 : Config = record k8 { file_size_limit = conf.file_size_limit } in
      let k10 : Config = record k9 { max_file_count = conf.max_file_count } in
      let k11 : Config = record k10 { redis_unix_sock = conf.redis_unix_sock } in
      next_line k0 k1 _ _ (
        text_line k0 b'e' (bytes "th_dev") address_len conf.eth_dev (λ s. record k0 { eth_dev = s })
          refl refl refl refl (λ p. refl) h.eth_dev)
      ∙ next_line k1 k2 _ _ (
          text_line k1 b's' (bytes "erver_ip") address_len conf.server_ip
            (λ s. record k1 { server_ip = s }) refl refl refl refl (λ p. refl) h.server_ip)
      ∙ next_line k2 k3 _ _ (
          int_line k2 b's' (bytes "erver_port") conf.server_port
            (λ n. record k2 { server_port = n }) refl refl refl refl (λ p. refl) h.server_port)
      ∙ next_line k3 k4 _ _ (
          int_line k3 b's' (bytes "erver_mgr_port") conf.server_mgr_port
            (λ n. record k3 { server_mgr_port = n }) refl refl refl refl (λ p. refl)
            h.server_mgr_port)
      ∙ next_line k4 k5 _ _ (
          int_line k4 b'm' (bytes "ax_line") conf.max_line (λ n. record k4 { max_line = n }) refl
            refl refl refl (λ p. refl) h.max_line)
      ∙ next_line k5 k6 _ _ (
          text_line k5 b'h' (bytes "ome_dir") path_len conf.home_dir
            (λ s. record k5 { home_dir = s }) refl refl refl refl (λ p. refl) h.home_dir)
      ∙ next_line k6 k7 _ _ (
          int_line k6 b'e' (bytes "nable_auto") conf.enable_auto
            (λ n. record k6 { enable_auto = n }) refl refl refl refl (λ p. refl) h.enable_auto)
      ∙ next_line k7 k8 _ _ (
          text_line k7 b'f' (bytes "ile_prefix") path_len conf.file_prefix
            (λ s. record k7 { file_prefix = s }) refl refl refl refl (λ p. refl) h.file_prefix)
      ∙ next_line k8 k9 _ _ (
          int_line k8 b'f' (bytes "ile_size_limit") conf.file_size_limit
            (λ n. record k8 { file_size_limit = n }) refl refl refl refl (λ p. refl)
            h.file_size_limit)
      ∙ next_line k9 k10 _ _ (
          int_line k9 b'm' (bytes "ax_file_count") conf.max_file_count
            (λ n. record k9 { max_file_count = n }) refl refl refl refl (λ p. refl)
            h.max_file_count)
      ∙ next_line k10 k11 _ _ (socks_line k10 conf.redis_unix_sock refl h.socks h.socks_few)
      ∙ next_line k11 conf _ _ (
          text_line k11 b'l' (bytes "og_ip") log_ip_len conf.log_ip (λ s. record k11 { log_ip = s })
            refl refl refl refl (λ p. refl) h.log_ip)
      ∙ no_lines conf

  output_lines-Lines : (conf : Config) → IsPrintable conf → Lines (output_lines decimal conf)
  unfolding output_lines
  output_lines-Lines conf h = (
    printed_line (bytes "eth_dev") conf.eth_dev refl (omega arith) h.eth_dev.one_line
        (omega (arith, h.eth_dev.short)),
    (
      printed_line (bytes "server_ip") conf.server_ip refl (omega arith) h.server_ip.one_line
          (omega (arith, h.server_ip.short)),
      (
        printed_line (bytes "server_port") (show conf.server_port) refl (omega arith)
            h.server_port.one_line (omega (arith, h.server_port.short)),
        (
          printed_line (bytes "server_mgr_port") (show conf.server_mgr_port) refl (omega arith)
              h.server_mgr_port.one_line (omega (arith, h.server_mgr_port.short)),
          (
            printed_line (bytes "max_line") (show conf.max_line) refl (omega arith)
                h.max_line.one_line (omega (arith, h.max_line.short)),
            (
              printed_line (bytes "home_dir") conf.home_dir refl (omega arith) h.home_dir.one_line
                  (omega (arith, h.home_dir.short)),
              (
                printed_line (bytes "enable_auto") (show conf.enable_auto) refl (omega arith)
                    h.enable_auto.one_line (omega (arith, h.enable_auto.short)),
                (
                  printed_line (bytes "file_prefix") conf.file_prefix refl (omega arith)
                      h.file_prefix.one_line (omega (arith, h.file_prefix.short)),
                  (
                    printed_line (bytes "file_size_limit") (show conf.file_size_limit) refl
                        (omega arith) h.file_size_limit.one_line
                        (omega (arith, h.file_size_limit.short)),
                    (
                      printed_line (bytes "max_file_count") (show conf.max_file_count) refl
                          (omega arith) h.max_file_count.one_line
                          (omega (arith, h.max_file_count.short)),
                      (
                        printed_line (bytes "redis_sock_path") (socks_text conf.redis_unix_sock)
                            refl (omega arith) h.socks_one_line (omega (arith, h.socks_short)),
                        (
                          printed_line (bytes "log_ip") conf.log_ip refl (omega arith)
                              h.log_ip.one_line (omega (arith, h.log_ip.short)),
                          tt,
                        ),
                      ),
                    ),
                  ),
                ),
              ),
            ),
          ),
        ),
      ),
    ),
  )

  -- A configuration with a name of fewer than 100 bytes, texts that fit into their arrays, numbers that
  -- atoi reads back from at most 11 bytes, and at most 100 sockets printed in fewer than 1000 bytes, each on
  -- one line, the texts with no space at an end and the numbers and sockets with none at all, is what
  -- config_create reads from the file that config_write_file writes.
  pub config_create-write :
      (held conf : Config)
      → IsPrintable conf
      → config_create decimal held conf.filename (config_write_file decimal conf true none)
        ≡ some conf
  unfolding config_create config_write_file config_output
  config_create-write held conf h =
      let lines = output_lines decimal conf in
      let text = joined_text (ended lines) in
      let named : strcpy filename_len conf.filename ≡ some conf.filename =
        ground (arith, h.filename) in
      ap
        (λ o. o >>= λ name.
          config_lines decimal (record held { filename = name; redis_unix_sock = [] })
            (lines_of (length text) text))
        named
      ∙ ap (config_lines decimal (record held { filename = conf.filename; redis_unix_sock = [] }))
          (lines_of-ended (length text) lines (output_lines-Lines conf h) (length-ended lines))
      ∙ lines_again held conf h
