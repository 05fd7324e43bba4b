-- ===== src/Client/Identity/Cached.antt =====
-- One identity serves a burst of calls.
use signoz_mcp_server.Base.{
  ℕ, ◌+◌, ◌*◌, ◌++◌, ◌≤◌, ◌<◌, String, ◌≡◌, ◌⊎◌, inl, inr, refl, ap, Option, none, some, List, [],
  ◌∷◌, All, arith, lt→ltb, map,
}
use signoz_mcp_server.Client.{SigNoz, Bytes}
use signoz_mcp_server.Client.Identity.{
  AnalyticsIdentity, IdentityData, IdentityResult, identified, CachedIdentity, IdentityError,
  nothing, unidentified, analytics_identity_cache_ttl, Call, CallResult, fetch_analytics_identity,
  refresh, get_analytics_identity, get_identities,
}

pub sum : List ℕ → ℕ
sum [] = 0
sum (n ∷ ns) = n + sum ns

-- In nanoseconds
abbrev pub ten_minutes : ℕ
ten_minutes = 10 * 60 * 1000000000

IdentityResult-cases :
    (r : IdentityResult)
    → ((i : AnalyticsIdentity) × (r ≡ identified i))
      ⊎ ((e : IdentityError) × (r ≡ unidentified e))
      ⊎ (r ≡ nothing)
IdentityResult-cases (identified i) = inl (i, refl)
IdentityResult-cases (unidentified e) = inr (inl (e, refl))
IdentityResult-cases nothing = inr (inr refl)

module _ (unmarshal : Bytes → Option IdentityData) (version : String) (s : SigNoz) where
  -- Every result is this identity, without a fetch.
  abbrev pub IsServed : AnalyticsIdentity → List CallResult → Type 0
  IsServed identity results = All (λ r. (r.result ≡ identified identity) × (r.fetches ≡ 0)) results

  served :
      (cached : CachedIdentity) (calls : List Call)
      → All (λ c. c.now < cached.cached_at + analytics_identity_cache_ttl) calls
      → IsServed cached.identity (get_identities unmarshal version s (some cached) calls)
  unfolding get_identities get_analytics_identity
  served cached [] h = tt
  served cached (c ∷ calls) (h, hs) = rw (lt→ltb _ _ h) ((refl, refl), served cached calls hs)

  -- The cache after calls that it serves, for those that follow.
  fetches-served :
      (cached : CachedIdentity) (calls rest : List Call)
      → All (λ c. c.now < cached.cached_at + analytics_identity_cache_ttl) calls
      → sum
          (map (λ r. r.fetches) (get_identities unmarshal version s (some cached) (calls ++ rest)))
        ≡ sum (map (λ r. r.fetches) (get_identities unmarshal version s (some cached) rest))
  unfolding get_identities get_analytics_identity sum
  fetches-served cached [] rest h = refl
  fetches-served cached (c ∷ calls) rest (h, hs) =
      rw (lt→ltb _ _ h) (omega (arith, fetches-served cached calls rest hs))

  -- No identity is cached, or one that was stored ten minutes or more before the call.
  abbrev pub IsStale : Option CachedIdentity → Call → Type 0
  IsStale none call = Unit
  IsStale (some cached) call = cached.cached_at + ten_minutes ≤ call.now

  stale-refreshes :
      (cache : Option CachedIdentity) (call : Call)
      → IsStale cache call
      → get_analytics_identity unmarshal version s cache call
        ≡ refresh unmarshal version s cache call
  unfolding get_analytics_identity analytics_identity_cache_ttl
  stale-refreshes none call h = refl
  stale-refreshes (some cached) call h = ground arith

  fetches-refresh :
      (cache : Option CachedIdentity) (call : Call)
      → (refresh unmarshal version s cache call).fetches ≡ 1
  unfolding refresh
  fetches-refresh cache call =
      ground (arith, IdentityResult-cases (fetch_analytics_identity unmarshal version s call.net))

  -- A call that fetches an identity keeps it with the time of its own store.
  refresh-keeps :
      (cache : Option CachedIdentity) (call : Call) (identity : AnalyticsIdentity)
      → (refresh unmarshal version s cache call).result ≡ identified identity
      → (refresh unmarshal version s cache call).cache
        ≡ some record { identity = identity; cached_at = call.stored }
  unfolding refresh
  refresh-keeps cache call identity given =
      ground (arith, IdentityResult-cases (fetch_analytics_identity unmarshal version s call.net))

  no_fetches :
      (identity : AnalyticsIdentity) (results : List CallResult)
      → IsServed identity results
      → sum (map (λ r. r.fetches) results) ≡ 0
  unfolding sum
  no_fetches identity [] h = refl
  no_fetches identity (r ∷ rs) ((a, b), hs) = omega (arith, no_fetches identity rs hs)

  results_of :
      (identity : AnalyticsIdentity) (results : List CallResult)
      → IsServed identity results
      → All (λ r. r.result ≡ identified identity) results
  results_of identity [] h = tt
  results_of identity (r ∷ rs) ((a, b), hs) = (a, results_of identity rs hs)

  -- Where a call meets no cached identity, or one of ten minutes or more, and gives an identity, the
  -- calls after it that read the clock less than ten minutes after its store give the same identity
  -- without a fetch; the next call, at ten minutes after the store or later, fetches again. All
  -- these calls together fetch twice.
  pub get_identities-burst :
      (cache : Option CachedIdentity) (call : Call) (calls : List Call) (late : Call)
      (identity : AnalyticsIdentity)
      → IsStale cache call
      → (get_analytics_identity unmarshal version s cache call).result ≡ identified identity
      → All (λ c. c.now < call.stored + ten_minutes) calls
      → call.stored + ten_minutes ≤ late.now
      → All
          (λ r. r.result ≡ identified identity)
          (get_identities unmarshal version s cache (call ∷ calls))
        × (sum (map (λ r. r.fetches) (get_identities unmarshal version s cache (call ∷ calls))) ≡ 1)
        × (sum (
              map
                (λ r. r.fetches)
                (get_identities unmarshal version s cache (call ∷ calls ++ late ∷ [])))
            ≡ 2)
  unfolding get_identities sum analytics_identity_cache_ttl
  get_identities-burst cache call calls late identity stale given soon over =
      let cached : CachedIdentity = record { identity = identity; cached_at = call.stored } in
      let refreshed = stale-refreshes cache call stale in
      let kept = refresh-keeps cache call identity (rw refreshed at given) in
      let later = served cached calls soon in
      let last = fetches-refresh (some cached) late in
      let once = fetches-refresh cache call in
      rw refreshed (
        rw kept (
          (rw refreshed at given, results_of identity _ later),
          omega (arith, once, no_fetches identity _ later),
          omega (
            arith,
            once,
            fetches-served cached calls (late ∷ []) soon,
            last,
            ap (λ r. r.fetches) (stale-refreshes (some cached) late over),
          ),
        ))
