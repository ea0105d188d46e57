-- ===== src/Cloud/Token.antt =====
-- pkg/cloud/token_cache.go and pkg/cloud/token_refresh.go: the bearer token of an HTTP transport.
-- The generator (SDK or CLI of a cloud), the inner transport and the clock are parameters over a
-- world `W` that they change; times are nanoseconds.
pub mod Laws
pub mod Tests
use yby_cli.Prelude.{ℕ, ◌+◌, ◌*◌, String, Option, none, some, ltb, nat_eq, if◌then◌else◌}
use yby_cli.Prelude.Result.{Result, ok, err}
use yby_cli.Prelude.Exec.{Exec, ◌>>=◌, ◌>>◌, pure}

pub record Token : Type 0 where
  pub value : String
  pub expires_at : ℕ

pub record Response : Type 0 where
  pub status_code : ℕ
  pub body : String

-- const tokenMargin = 60 * time.Second
abbrev pub token_margin : ℕ
token_margin = 60 * 1000000000

-- What the transport uses and this package does not implement.
pub record Outside (W E : Type 0) : Type 0 where
  pub now : W → ℕ
  pub generate_token : Exec W E Token
  pub round_trip : String → Exec W E Response

-- A transport with its cache, beside the world that its calls change.
pub record Transport (W : Type 0) : Type 0 where
  pub token : Option Token
  pub world : W

-- (c *TokenCache) Get
unfoldable pub cache_get : ℕ → Option Token → Option Token
cache_get now none = none
cache_get now (some t) = if ltb t.expires_at (now + token_margin) then none else some t

module _ {W E : Type 0} where
  -- (c *TokenCache) Set
  unfoldable pub cache_set : Token → Exec (Transport W) E (Unit {0})
  cache_set t s = (ok tt, record s { token = some t })

  -- (c *TokenCache) Invalidate
  unfoldable pub cache_invalidate : Exec (Transport W) E (Unit {0})
  cache_invalidate s = (ok tt, record s { token = none })

-- A call that touches only the world.
module _ {W E A : Type 0} where
  abbrev pub on_world : Exec W E A → Exec (Transport W) E A
  on_world m s = ((m s.world).0, record s { world = (m s.world).1 })

module _ {W E : Type 0} (o : Outside W E) where
  -- Generate after an invalidation, and remember.
  unfoldable pub renew : Exec (Transport W) E String
  unfolding cache_set cache_invalidate
  renew = do
    cache_invalidate
    new_token ← on_world o.generate_token
    cache_set new_token
    pure new_token.value

  -- (t *AutoRefreshTransport) refreshToken
  unfoldable pub refresh_token : Exec (Transport W) E String
  unfolding renew cache_get
  refresh_token s = elim (cache_get (o.now s.world) s.token) [
    | some tok ↦ (ok tok.value, s)
    | none ↦ renew s
  ]

  -- (t *AutoRefreshTransport) getToken
  unfoldable pub get_token : Exec (Transport W) E String
  unfolding refresh_token cache_get
  get_token s = elim (cache_get (o.now s.world) s.token) [
    | some tok ↦ (ok tok.value, s)
    | none ↦ refresh_token s
  ]

  -- What follows the first response: 403 is passed on, 401 leads to one repetition.
  unfoldable pub after_response : Response → Exec (Transport W) E Response
  unfolding refresh_token
  after_response resp =
      if nat_eq resp.status_code 403
      then pure resp
      else if nat_eq resp.status_code 401
      then (do new_token ← refresh_token; on_world (o.round_trip new_token))
      else pure resp

  -- (t *AutoRefreshTransport) RoundTrip
  unfoldable pub round_trip : Exec (Transport W) E Response
  unfolding get_token after_response
  round_trip = do token ← get_token; resp ← on_world (o.round_trip token); after_response resp
