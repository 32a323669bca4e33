-- ===== src/AutoPin/Secret.antt =====
-- The pairing secret.
use go_fula.Prelude.{
  either_second, String, ◌≡◌, ◌≢◌, refl, ap, Bool, false, ◌||◌, Option, none, some, List, [], ◌∷◌,
  ◌==◌, is_some, Assoc, lookup, delete, lookup-put, lookup-delete, All, arith, Bool-cases, inl, inr,
}
use go_fula.AutoPin.{
  Value, text, Properties, unreadable, nil_map, properties, Env, Reply, failed, paired,
  write_properties, after_write, put_token, is_secret, already, pair_again, pair_new, pair_with,
  handle_auto_pin_pair, refresh_with, handle_auto_pin_refresh, handle_auto_pin_unpair, Call, pair,
  refresh, unpair, handle, handle_all, or_empty, unpaired,
}
use go_fula.AutoPin.Kept.{value}

-- A request other than unpair, whose write succeeds.
abbrev pub Keeps : Env × Call → Type 0
Keeps (env, c) = (env.write_fails ≡ none) × (c ≢ unpair)

module _ (s : String) (named : (s == "") ≡ false) where
  -- The file has the secret.
  abbrev Has : Properties → Type 0
  Has file = value "auto_pin_pairing_secret" file ≡ some (text s)

  put_token-secret :
      (token endpoint : String) (m : Assoc Value)
      → Has (properties m)
      → Has (properties (put_token token endpoint m))
  unfolding value put_token
  put_token-secret token endpoint m h = rw lookup-put (rw lookup-put h)

  module _ (env : Env) (writes : env.write_fails ≡ none) where
    written :
        (r : Reply) (file : Properties)
        → after_write r (write_properties env.write_fails file) ≡ (r, file)
    unfolding after_write write_properties
    written r file = rw writes refl

    pair_known :
        (token endpoint : String) (m : Assoc Value)
        → Has (properties m)
        → pair_with env token endpoint (properties m) ≡ (
          paired "already_paired" s (or_empty env.hardware_id),
          properties (put_token token endpoint m),
        )
    unfolding value pair_with pair_again is_secret already
    pair_known token endpoint m h = rw h (rw named (written _ _))

    pair_stays :
        (token endpoint : String) (file : Properties)
        → Has file
        → Has (pair_with env token endpoint file).1
    unfolding value
    pair_stays token endpoint unreadable h = absurd (cc)
    pair_stays token endpoint nil_map h = absurd (cc)
    pair_stays token endpoint (properties m) h =
        rw (pair_known token endpoint m h) (put_token-secret token endpoint m h)

    refresh_stays :
        (token : String) (file : Properties) → Has file → Has (refresh_with env token file).1
    unfolding refresh_with value
    refresh_stays token unreadable h = h
    refresh_stays token nil_map h = h
    refresh_stays token (properties m) h = elim (Bool-cases (is_some (lookup "auto_pin_token" m))) [
      | inl e ↦ rw e (rw written (rw lookup-put h))
      | inr e ↦ rw e h
    ]

    handle_stays :
        (c : Call) (file : Properties) → c ≢ unpair → Has file → Has (handle env c file).1
    unfolding handle handle_auto_pin_pair handle_auto_pin_refresh
    handle_stays (pair none) file k h = h
    handle_stays (pair (some (token, endpoint))) file k h =
        either_second Has (token == "" || endpoint == "") (failed 400, file) _ h
          (pair_stays token endpoint file h)
    handle_stays (refresh none) file k h = h
    handle_stays (refresh (some token)) file k h =
        either_second Has (token == "") (failed 400, file) _ h (refresh_stays token file h)
    handle_stays unpair file k h = absurd (k refl)

    pair_answers :
        (token endpoint : String) (file : Properties)
        → (token == "" || endpoint == "") ≡ false
        → Has file
        → (handle env (pair (some (token, endpoint))) file).0
          ≡ paired "already_paired" s (or_empty env.hardware_id)
    unfolding value handle handle_auto_pin_pair
    pair_answers token endpoint unreadable full h = absurd (cc)
    pair_answers token endpoint nil_map full h = absurd (cc)
    pair_answers token endpoint (properties m) full h =
        rw full (ap (λ x. x.0) (pair_known token endpoint m h))

  calls_stay :
      (cs : List (Env × Call)) (file : Properties)
      → All Keeps cs
      → Has file
      → Has (handle_all cs file)
  unfolding handle_all
  calls_stay [] file k h = h
  calls_stay ((env, c) ∷ cs) file k h =
      calls_stay cs (handle env c file).1 k.1 (handle_stays env k.0.0 c file k.0.1 h)

  -- A device that has a secret: after any pair and refresh requests, a pair request with a token and
  -- an endpoint is answered with that secret, if the writes succeed.
  pub secret_stays :
      (cs : List (Env × Call)) (env : Env) (token endpoint : String) (file : Properties)
      → value "auto_pin_pairing_secret" file ≡ some (text s)
      → All Keeps cs
      → env.write_fails ≡ none
      → (token == "" || endpoint == "") ≡ false
      → (handle env (pair (some (token, endpoint))) (handle_all cs file)).0
        ≡ paired "already_paired" s (or_empty env.hardware_id)
  secret_stays cs env token endpoint file h k w full =
      pair_answers env w token endpoint (handle_all cs file) full (calls_stay cs file k h)

first_of : (x y : Bool) → x || y ≡ false → x ≡ false
first_of x y h = ground arith

unfoldable cleared : Assoc Value → Assoc Value
cleared m =
    delete "auto_pin_pairing_secret" (delete "auto_pin_endpoint" (delete "auto_pin_token" m))

cleared_write :
    (o : Option Properties) (file : Properties)
    → (after_write unpaired (write_properties o file)).0 ≡ unpaired
    → (after_write unpaired (write_properties o file)).1 ≡ file
unfolding after_write write_properties
cleared_write none file ok = refl
cleared_write (some left) file ok = absurd (cc)

cleared_file :
    (env : Env) (m : Assoc Value)
    → (handle env unpair (properties m)).0 ≡ unpaired
    → (handle env unpair (properties m)).1 ≡ properties (cleared m)
unfolding handle handle_auto_pin_unpair cleared
cleared_file env m ok = cleared_write env.write_fails _ ok

no_token : (m : Assoc Value) → lookup "auto_pin_token" (cleared m) ≡ none
unfolding cleared
no_token m = rw lookup-delete (rw lookup-delete (rw lookup-delete refl))

no_secret : (m : Assoc Value) → lookup "auto_pin_pairing_secret" (cleared m) ≡ none
unfolding cleared
no_secret m = rw lookup-delete refl

-- After an unpair that reports success, a refresh is refused, and a pair request with a token and an
-- endpoint is answered with a new secret, if its write succeeds. The file holds an object.
pub unpair_forgets :
    (env env' : Env) (token endpoint : String) (m : Assoc Value)
    → (token == "" || endpoint == "") ≡ false
    → (handle env unpair (properties m)).0 ≡ unpaired
    → env'.write_fails ≡ none
    → ((handle env' (refresh (some token)) (handle env unpair (properties m)).1).0 ≡ failed 404)
      × ((handle env' (pair (some (token, endpoint))) (handle env unpair (properties m)).1).0
          ≡ paired "paired" env'.new_uuid (or_empty env'.hardware_id))
unfolding handle_auto_pin_refresh refresh_with handle_auto_pin_pair pair_with pair_new is_secret
unpair_forgets env env' token endpoint m full ok w =
    let named : (token == "") ≡ false = first_of (token == "") (endpoint == "") full in
    rw (cleared_file env m ok) (
      (unfold handle in rw named (rw (no_token m) refl)),
      (unfold handle in
          rw full (rw (no_secret m) (unfold after_write write_properties in rw w refl))),
    )
