-- ===== src/Bus/Match/Quoting/Tests.antt =====
-- Runs of the parser of match rules.
use dbus_broker.Common.{◌≡◌, refl, some, none, codes, ◌++◌, ◌∷◌}
use dbus_broker.Bus.Match.{match_parse_key, match_copy_value, key, prepend}
use dbus_broker.Bus.Match.Quoting.{quote, match_copy_value-quote}

keys : match_parse_key (codes " =type ='signal'") ≡ key (codes "type") (codes "'signal'")
unfolding match_parse_key
keys = refl

values : match_copy_value (codes "'signal',x") ≡ some (codes "signal", codes "x")
unfolding match_copy_value prepend
values = refl

unfinished : match_copy_value (codes "'signal,x") ≡ none
unfolding match_copy_value prepend
unfinished = refl

match_copy_value-quote_example :
    match_copy_value (quote (codes "it's, ok") ++ b',' ∷ codes "x")
    ≡ some (codes "it's, ok", codes "x")
match_copy_value-quote_example = match_copy_value-quote (codes "it's, ok") (codes "x")
