-- ===== src/AutoPin/Examples.antt =====
-- Concrete auto-pin requests.
use go_fula.Prelude.{String, ◌≡◌, refl, none, some, List, [], ◌∷◌, lookup}
use go_fula.AutoPin.{
  Env, Properties, properties, Value, text, Call, pair, refresh, unpair, handle, handle_all, paired,
  failed, or_empty,
}
use go_fula.AutoPin.Kept.{value, handle_all-foreign}
use go_fula.AutoPin.Secret.{secret_stays, unpair_forgets}

abbrev env : Env
env = record { write_fails = none; new_uuid = "uuid"; hardware_id = some "hw" }

abbrev file : Properties
file = properties (("auto_pin_pairing_secret", text "s") ∷ ("wifi", text "home") ∷ [])

abbrev calls : List (Env × Call)
calls = (env, pair (some ("t", "e"))) ∷ (env, refresh (some "u")) ∷ []

handle_all-foreign_test : value "wifi" (handle_all calls file) ≡ value "wifi" file
handle_all-foreign_test = handle_all-foreign "wifi" (refl, refl, refl) calls file (refl, (refl, tt))

secret_stays_test :
    (handle env (pair (some ("t", "e"))) (handle_all calls file)).0
    ≡ paired "already_paired" "s" "hw"
unfolding or_empty value lookup
secret_stays_test =
    secret_stays "s" refl calls env "t" "e" file refl
      ((refl, λ e. absurd (cc)), ((refl, λ e. absurd (cc)), tt)) refl refl

abbrev held : List (String × Value)
held = ("auto_pin_token", text "t") ∷ ("auto_pin_pairing_secret", text "s") ∷ []

unpair_forgets_example :
    ((handle env (refresh (some "t")) (handle env unpair (properties held)).1).0 ≡ failed 404)
    × ((handle env (pair (some ("t", "e"))) (handle env unpair (properties held)).1).0
        ≡ paired "paired" "uuid" "hw")
unfolding handle or_empty
unpair_forgets_example = unpair_forgets env env "t" "e" held refl refl refl
