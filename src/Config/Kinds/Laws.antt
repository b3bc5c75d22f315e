-- ===== src/Config/Kinds/Laws.antt =====
-- Tokens are read in any case and with blanks around them.
use archetype_proxy_server.Prelude.{◌≡◌, ap, ◌∙◌}
use archetype_proxy_server.Text.{Str, to_ascii_lowercase}
use archetype_proxy_server.Text.Case.{to_ascii_lowercase_idem, trim-to_ascii_lowercase}
use archetype_proxy_server.Config.Kinds.{token, parse_bool_token, match_token, bool_arms}

pub token-to_ascii_lowercase : (s : Str) → token (to_ascii_lowercase s) ≡ token s
unfolding token
token-to_ascii_lowercase s =
    ap to_ascii_lowercase (trim-to_ascii_lowercase s) ∙ to_ascii_lowercase_idem _

-- The case of a boolean token does not matter.
pub parse_bool_token-to_ascii_lowercase :
    (s : Str) → parse_bool_token (to_ascii_lowercase s) ≡ parse_bool_token s
unfolding parse_bool_token
parse_bool_token-to_ascii_lowercase s =
    ap (λ t. match_token t bool_arms) (token-to_ascii_lowercase s)
