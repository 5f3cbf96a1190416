-- ===== src/Command.antt =====
-- The remote command line: `encode_posix_remote_command` of crates/rssh-ssh/src/russh_client.rs.
-- `Shell` reads a command line the way a POSIX shell splits it into words, and `RoundTrip`
-- relates the two.
pub mod Shell
pub mod RoundTrip
use r_ssh.Base.{ℕ, List, [], ◌∷◌, ◌++◌, map, ◌==◌, if◌then◌else◌}
use r_ssh.Base.Text.{Text, codes}

-- One character of an argument, as it stands between the single quotes.
unfoldable pub quote_char : ℕ → Text
quote_char c = if c == b'\'' then codes "'\"'\"'" else c ∷ []

unfoldable pub quote_chars : Text → Text
unfolding quote_char
quote_chars [] = []
quote_chars (c ∷ cs) = quote_char c ++ quote_chars cs

unfoldable pub quote : Text → Text
unfolding quote_chars
quote argument = b'\'' ∷ (quote_chars argument ++ (b'\'' ∷ []))

-- `[Text]::join(" ")`.
unfoldable pub join_space : List Text → Text
join_space [] = []
join_space (w ∷ []) = w
join_space (w ∷ v ∷ ws) = w ++ (b' ' ∷ join_space (v ∷ ws))

unfoldable pub encode_posix_remote_command : List Text → Text
unfolding quote join_space
encode_posix_remote_command arguments = join_space (map quote arguments)
