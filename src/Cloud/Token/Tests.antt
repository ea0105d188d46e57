-- ===== src/Cloud/Token/Tests.antt =====
-- Runs of the transport against a server that refuses a token.
use yby_cli.Prelude.{
  ℕ, ◌+◌, ◌*◌, ◌≤◌, ◌≡◌, refl, String, none, some, arith, ◌==◌, eq_String, if◌then◌else◌,
}
use yby_cli.Prelude.Result.{ok}
use yby_cli.Cloud.Token.{Token, Outside, Transport, refresh_token, get_token, round_trip}
use yby_cli.Cloud.Token.Laws.{Synced, refresh_token-Synced, get_token-Synced, round_trip_bounded}

-- The world counts what is sent; the clock stands still, and a token lives for ten minutes. The
-- server knows one token only.
abbrev server : Outside ℕ String
server = record {
  now = λ w. 0;
  generate_token = λ w. (ok (record { value = "new"; expires_at = 600000000000 }), w);
  round_trip =
      λ v w. (ok (record { status_code = if v == "new" then 200 else 401; body = v }), w + 1);
}

abbrev revoked : Token
revoked = record { value = "old"; expires_at = 600000000000 }

abbrev stale : Transport ℕ
stale = record { token = some revoked; world = 0 }

abbrev empty : Transport ℕ
empty = record { token = none; world = 0 }

stale_fails :
    round_trip server stale
    ≡ (ok (record { status_code = 401; body = "old" }), record { token = some revoked; world = 2 })
unfolding round_trip
stale_fails = refl

refresh_token-Synced_example : Synced (refresh_token server empty)
refresh_token-Synced_example = refresh_token-Synced server empty

get_token-Synced_example : Synced (get_token server empty)
get_token-Synced_example = get_token-Synced server empty

round_trip_bounded_example : (round_trip server stale).1.world ≤ 0 + (2 * 1 + 2 * 0)
round_trip_bounded_example =
    round_trip_bounded server (λ w. w) 1 0 stale (λ v w. omega arith) (λ w. omega arith)
