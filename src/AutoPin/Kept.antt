-- ===== src/AutoPin/Kept.antt =====
-- The requests leave the other properties of the device as they are.
use go_fula.Prelude.{
  either_second, String, ◌≡◌, ◌∙◌, refl, false, ◌||◌, Option, none, some, List, [], ◌∷◌, ◌==◌,
  is_some, Assoc, lookup, lookup-put, lookup-delete, All,
}
use go_fula.AutoPin.{
  Value, Properties, unreadable, nil_map, properties, Env, Reply, failed, write_properties,
  after_write, put_token, is_secret, pair_again, pair_new, pair_with, handle_auto_pin_pair,
  refresh_with, handle_auto_pin_refresh, handle_auto_pin_unpair, Call, pair, refresh, unpair,
  handle, handle_all,
}

-- The value of a key in the file.
unfoldable pub value : String → Properties → Option Value
value k unreadable = none
value k nil_map = none
value k (properties m) = lookup k m

-- Not one of the three keys of auto-pin.
abbrev pub Foreign : String → Type 0
Foreign k =
    (("auto_pin_token" == k) ≡ false)
    × (("auto_pin_endpoint" == k) ≡ false)
    × (("auto_pin_pairing_secret" == k) ≡ false)

-- The write succeeds.
abbrev pub Writes : Env × Call → Type 0
Writes (env, c) = env.write_fails ≡ none

module _ (k : String) (foreign : Foreign k) where
  put_token-foreign :
      (token endpoint : String) (m : Assoc Value)
      → lookup k (put_token token endpoint m) ≡ lookup k m
  unfolding put_token
  put_token-foreign token endpoint m = rw (lookup-put, foreign.1) (rw (lookup-put, foreign.0) refl)

  module _ (env : Env) (writes : env.write_fails ≡ none) where
    written :
        (r : Reply) (file : Properties)
        → value k (after_write r (write_properties env.write_fails file)).1 ≡ value k file
    unfolding after_write write_properties
    written r file = rw writes refl

    pair_new-foreign :
        (token endpoint : String) (m : Assoc Value)
        → value k (pair_new env token endpoint m).1 ≡ lookup k m
    unfolding pair_new
    pair_new-foreign token endpoint m =
        written _ _
        ∙ (unfold value in rw (lookup-put, foreign.2) (put_token-foreign token endpoint m))

    pair-foreign :
        (token endpoint : String) (file : Properties)
        → value k (pair_with env token endpoint file).1 ≡ value k file
    unfolding pair_with value lookup
    pair-foreign token endpoint unreadable = pair_new-foreign token endpoint []
    pair-foreign token endpoint nil_map = refl
    pair-foreign token endpoint (properties m) =
        either_second (λ f. value k f ≡ value k (properties m))
          (is_secret (lookup "auto_pin_pairing_secret" m)) _ _
          (unfold pair_again in written _ _ ∙ put_token-foreign token endpoint m)
          (pair_new-foreign token endpoint m)

    pair_body-foreign :
        (body : Option (String × String)) (file : Properties)
        → value k (handle_auto_pin_pair env body file).1 ≡ value k file
    unfolding handle_auto_pin_pair
    pair_body-foreign none file = refl
    pair_body-foreign (some (token, endpoint)) file =
        either_second (λ f. value k f ≡ value k file) (token == "" || endpoint == "")
          (failed 400, file) _ refl (pair-foreign token endpoint file)

    refresh-foreign :
        (token : String) (file : Properties)
        → value k (refresh_with env token file).1 ≡ value k file
    unfolding refresh_with value
    refresh-foreign token unreadable = refl
    refresh-foreign token nil_map = refl
    refresh-foreign token (properties m) =
        either_second (λ f. value k f ≡ value k (properties m))
          (is_some (lookup "auto_pin_token" m)) _ (failed 404, properties m)
          (written _ _ ∙ rw (lookup-put, foreign.0) refl) refl

    refresh_body-foreign :
        (body : Option String) (file : Properties)
        → value k (handle_auto_pin_refresh env body file).1 ≡ value k file
    unfolding handle_auto_pin_refresh
    refresh_body-foreign none file = refl
    refresh_body-foreign (some token) file =
        either_second (λ f. value k f ≡ value k file) (token == "") (failed 400, file) _ refl
          (refresh-foreign token file)

    unpair-foreign :
        (file : Properties) → value k (handle_auto_pin_unpair env file).1 ≡ value k file
    unfolding handle_auto_pin_unpair value
    unpair-foreign unreadable = refl
    unpair-foreign nil_map = written _ _
    unpair-foreign (properties m) =
        written _ _
        ∙ rw (lookup-delete, foreign.2)
            (rw (lookup-delete, foreign.1) (rw (lookup-delete, foreign.0) refl))

    handle-foreign : (c : Call) (file : Properties) → value k (handle env c file).1 ≡ value k file
    unfolding handle
    handle-foreign (pair body) file = pair_body-foreign body file
    handle-foreign (refresh body) file = refresh_body-foreign body file
    handle-foreign unpair file = unpair-foreign file

  -- Whatever auto-pin requests arrive, a property that is not one of their three keeps its value, if
  -- the writes succeed.
  pub handle_all-foreign :
      (cs : List (Env × Call)) (file : Properties)
      → All Writes cs
      → value k (handle_all cs file) ≡ value k file
  unfolding handle_all
  handle_all-foreign [] file h = refl
  handle_all-foreign ((env, c) ∷ cs) file h =
      handle_all-foreign cs (handle env c file).1 h.1 ∙ handle-foreign env h.0 c file
