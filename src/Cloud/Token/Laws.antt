-- ===== src/Cloud/Token/Laws.antt =====
-- What the transport promises of its token.
use yby_cli.Prelude.{
  ℕ, ◌+◌, ◌*◌, ◌≤◌, ◌≡◌, ◌≢◌, refl, String, Option, none, some, arith, Option-cases, inl, inr,
}
use yby_cli.Prelude.Result.{Result, ok, err}
use yby_cli.Prelude.Exec.{continue}
use yby_cli.Cloud.Token.{
  Token, Response, Outside, Transport, token_margin, cache_get, renew, refresh_token, get_token,
  round_trip,
}

-- A token that the cache gives out is the stored one, with more than the margin left.
pub cache_get_sound :
    (now : ℕ) (c : Option Token) {t : Token}
    → cache_get now c ≡ some t
    → (c ≡ some t) × (now + token_margin ≤ t.expires_at)
unfolding cache_get
cache_get_sound now c h = ground arith

module _ {W E : Type 0} where
  -- After a success the cache holds a token of the returned value, after an error it is empty.
  abbrev pub Synced : Result E String × Transport W → Type 0
  Synced (ok v, s) = (t : Token) × (s.token ≡ some t) × (t.value ≡ v)
  Synced (err e, s) = s.token ≡ none

  renewed :
      (r : Result E Token) (x : Transport W)
      → x.token ≡ none
      → Synced (continue r (λ t y. (ok t.value, record y { token = some t })) x)
  renewed (ok t) x h = (t, refl, refl)
  renewed (err e) x h = h

module _ {W E : Type 0} (o : Outside W E) where
  renew-Synced : (s : Transport W) → Synced (renew o s)
  unfolding renew
  renew-Synced s = renewed (o.generate_token s.world).0 _ refl

  -- After `refreshToken` succeeds the cache holds a token whose value was returned, and after it
  -- fails the cache is empty, whether the token came from the cache or from the generator.
  pub refresh_token-Synced : (s : Transport W) → Synced (refresh_token o s)
  unfolding refresh_token
  refresh_token-Synced s = elim (Option-cases (cache_get (o.now s.world) s.token)) [
    | inl e ↦ rw (e, refresh_token) (renew-Synced s)
    | inr (t, e) ↦ rw (e, refresh_token) (t, (cache_get_sound _ s.token e).0, refl)
  ]

  -- The same holds of `getToken`.
  pub get_token-Synced : (s : Transport W) → Synced (get_token o s)
  unfolding get_token
  get_token-Synced s = elim (Option-cases (cache_get (o.now s.world) s.token)) [
    | inl e ↦ rw (e, get_token) (refresh_token-Synced s)
    | inr (t, e) ↦ rw (e, get_token) (t, (cache_get_sound _ s.token e).0, refl)
  ]

  -- Whatever the server answers, a round trip sends at most two requests and generates at most two
  -- tokens: a count that a send raises by at most `a`, and a generation by at most `b`, rises by at
  -- most 2a + 2b.
  pub round_trip_bounded :
      (count : W → ℕ) (a b : ℕ) (s : Transport W)
      → ((v : String) (w : W) → count (o.round_trip v w).1 ≤ count w + a)
      → ((w : W) → count (o.generate_token w).1 ≤ count w + b)
      → count (round_trip o s).1.world ≤ count s.world + (2 * a + 2 * b)
  unfolding round_trip
  round_trip_bounded count a b s sends generations = grind arith

  -- Only a 401 is repeated: a first answer with any other status, 403 among them, is returned as it
  -- came, from the world and with the cache that this one send left.
  pub round_trip_passes_on :
      (s s' : Transport W) (v : String) (w : W) (resp : Response)
      → get_token o s ≡ (ok v, s')
      → o.round_trip v s'.world ≡ (ok resp, w)
      → resp.status_code ≢ 401
      → round_trip o s ≡ (ok resp, record s' { world = w })
  unfolding round_trip
  round_trip_passes_on s s' v w resp got sent status =
      rw (got, round_trip) (rw (sent, round_trip) (ground arith))
