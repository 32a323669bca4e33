-- ===== src/Exchange/Peers/Checks.antt =====
-- What the checks of `authorized` leave of the state.
use go_fula.Prelude.{
  either_second, String, ◌≡◌, refl, Bool, true, false, Option, none, some, ◌==◌, if◌then◌else◌,
  Assoc, lookup, has,
}
use go_fula.Exchange.Peers.{Peers, TempAuth, authorized, push_permitted}

-- What does not read the temporary authorizations survives a check.
module _ (P : Peers → Type 0) where
  pub when-P :
      (b : Bool) (x y : Bool × Peers)
      → (b ≡ true → P x.1)
      → (b ≡ false → P y.1)
      → P (if b then x else y).1
  when-P true x y f g = f refl
  when-P false x y f g = g refl

  push_permitted-P :
      (pid cid : String) (o : Option TempAuth) (s : Peers)
      → ((m : Assoc TempAuth) → P (record s { temp_auths = m }))
      → P s
      → P (push_permitted pid cid o s).1
  unfolding push_permitted
  push_permitted-P pid cid none s k h = h
  push_permitted-P pid cid (some e) s k h =
      either_second P (e.peer == pid) _ (has pid s.authorized_peers, s) (k _) h

  pub authorized-P :
      (pid action cid : String) (s : Peers)
      → ((m : Assoc TempAuth) → P (record s { temp_auths = m }))
      → P s
      → P (authorized pid action cid s).1
  unfolding authorized
  authorized-P pid action cid s k h =
      either_second P _ (true, s) _ h
        (either_second P _ (false, s) _ h
          (either_second P (action == "push") _ _
            (push_permitted-P pid cid (lookup cid s.temp_auths) s k h)
            (either_second P (action == "auth") (pid == s.authorizer, s) (action == "pull", s) h
              h)))
