-- ===== src/Server/Loop/Parsing.antt =====
-- internal/server/main.go: the name and the token in a message that asks for a tunnel.
use mmar.Prelude.Text.{split, split-part, split_last, Lacks}
use mmar.Prelude.{◌≡◌, refl, Bytes, [], ◌∷◌, ◌++◌}
use mmar.Server.Loop.{name_and_token, second_part, parse_tunnel_data}

split_all : Bytes → Bytes × Bytes
split_all s = name_and_token (split b'|' s)

parse_tunnel_data_lem : (s : Bytes) → parse_tunnel_data s ≡ split_all s
unfolding parse_tunnel_data split_all name_and_token second_part split
parse_tunnel_data_lem [] = refl
parse_tunnel_data_lem (c ∷ s) = refl

-- A name and a token with a bar between them.
pub parse_tunnel_data-bar :
    (name token : Bytes)
    → Lacks b'|' name
    → Lacks b'|' token
    → parse_tunnel_data (name ++ b'|' ∷ token) ≡ (name, token)
unfolding split_all name_and_token second_part
parse_tunnel_data-bar name token h k =
    rw (parse_tunnel_data_lem, split-part b'|' name token h, split_last b'|' token k)

-- A name alone.
pub parse_tunnel_data-name : (name : Bytes) → Lacks b'|' name → parse_tunnel_data name ≡ (name, [])
unfolding split_all name_and_token second_part
parse_tunnel_data-name name h = rw (parse_tunnel_data_lem, split_last b'|' name h)
