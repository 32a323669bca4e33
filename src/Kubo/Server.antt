-- ===== src/Kubo/Server.antt =====
-- blox/kubo_proxy.go: fetchServerKuboPeerID, with its cache file.
use go_fula.Prelude.{
  ℕ, false, Option, none, some, some-injective, [], eqb, if◌then◌else◌, ◌≡◌, refl, ◌∙◌, inl, inr,
  Bool-cases,
}
use go_fula.Evm.Hex.{Text}
use go_fula.Evm.Abi.{text_eq}

-- What the pools API answers about a pool, with the id of its kubo if the body can be decoded.
pub data Fetched : Type 0 where
  no_response : Fetched
  response : ℕ → Option Text → Fetched

-- The answer of the API, what the write of the cache file leaves if it fails, and strings.TrimSpace.
-- The content of the file is passed on, `none` if it cannot be read.
pub record Pools : Type 0 where
  pub fetch : Text → Fetched
  pub write_fails : Option (Option Text)
  pub trim_space : Text → Text

unfoldable pub cached : (Text → Text) → Option Text → Option Text
unfolding text_eq
cached trim none = none
cached trim (some content) = if text_eq (trim content) [] then none else some (trim content)

unfoldable pub written_cache : Option (Option Text) → Text → Option Text
written_cache none id = some id
written_cache (some left) id = left

module _ (pools : Pools) where
  unfoldable pub decoded : Option Text → Option Text → Option Text × Option Text
  unfolding written_cache text_eq
  decoded file none = (none, file)
  decoded file (some id) =
      if text_eq id [] then (none, file) else (some id, written_cache pools.write_fails id)

  unfoldable pub from_api : Option Text → Fetched → Option Text × Option Text
  unfolding decoded
  from_api file no_response = (none, file)
  from_api file (response status body) = if eqb status 200 then decoded file body else (none, file)

  unfoldable pub or_fetch : Text → Option Text → Option Text → Option Text × Option Text
  unfolding from_api
  or_fetch pool file (some id) = (some id, file)
  or_fetch pool file none = from_api file (pools.fetch pool)

  -- The id, `none` with an error, and the file behind it.
  unfoldable pub fetch_server_kubo_peer_id : Text → Option Text → Option Text × Option Text
  unfolding or_fetch cached
  fetch_server_kubo_peer_id pool file = or_fetch pool file (cached pools.trim_space file)

  -- What the file says after a fetch that gave an id.
  decoded-cached :
      (file body : Option Text) (id : Text)
      → pools.write_fails ≡ none
      → pools.trim_space id ≡ id
      → (decoded file body).0 ≡ some id
      → cached pools.trim_space (decoded file body).1 ≡ some id
  unfolding decoded cached written_cache
  decoded-cached file none id ok keeps h = absurd (cc)
  decoded-cached file (some new) id ok keeps h = elim (Bool-cases (text_eq new [])) [
    | inl e ↦ absurd (cc (rw e at h))
    | inr e ↦
        let same : new ≡ id = some-injective _ _ (rw e at h) in
        let named : text_eq id [] ≡ false = rw same at e in
        rw (same, named, ok) (rw keeps (rw named refl))
  ]

  from_api-cached :
      (file : Option Text) (f : Fetched) (id : Text)
      → pools.write_fails ≡ none
      → pools.trim_space id ≡ id
      → (from_api file f).0 ≡ some id
      → cached pools.trim_space (from_api file f).1 ≡ some id
  unfolding from_api
  from_api-cached file no_response id ok keeps h = absurd (cc)
  from_api-cached file (response status body) id ok keeps h = elim (Bool-cases (eqb status 200)) [
    | inl e ↦ rw e (decoded-cached file body id ok keeps (rw e at h))
    | inr e ↦ absurd (cc (rw e at h))
  ]

  or_fetch-cached :
      (pool : Text) (file c : Option Text) (id : Text)
      → pools.write_fails ≡ none
      → pools.trim_space id ≡ id
      → cached pools.trim_space file ≡ c
      → (or_fetch pool file c).0 ≡ some id
      → cached pools.trim_space (or_fetch pool file c).1 ≡ some id
  unfolding or_fetch
  or_fetch-cached pool file (some old) id ok keeps known h = known ∙ h
  or_fetch-cached pool file none id ok keeps known h =
      from_api-cached file (pools.fetch pool) id ok keeps h

-- An id that was fetched is given again from the file, whatever the API answers then, if the write of
-- the file succeeds and strings.TrimSpace keeps the id.
pub fetch_server_kubo_peer_id-cached :
    (pools : Pools) (pool id : Text) (file : Option Text) (fetch : Text → Fetched)
    → pools.write_fails ≡ none
    → pools.trim_space id ≡ id
    → (fetch_server_kubo_peer_id pools pool file).0 ≡ some id
    → (fetch_server_kubo_peer_id
        (record pools { fetch = fetch })
        pool
        (fetch_server_kubo_peer_id pools pool file).1).0
      ≡ some id
unfolding fetch_server_kubo_peer_id or_fetch
fetch_server_kubo_peer_id-cached pools pool id file fetch ok keeps h =
    let known = or_fetch-cached pools pool file (cached pools.trim_space file) id ok keeps refl h in
    rw known refl
