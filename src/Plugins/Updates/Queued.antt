-- ===== src/Plugins/Updates/Queued.antt =====
-- What is read back from the queue of updates, and the names that are listed.
use go_fula.Prelude.{
  true, Option, none, some, List, [], ◌∷◌, ◌++◌, All, ◌≡◌, refl, sym, ap, ◌∙◌, subst, ◌⊎◌, inl, inr,
  Bool-cases,
}
use go_fula.Evm.Hex.{Text}
use go_fula.Plugins.Lines.{OneLine, append-OneLine}
use go_fula.Plugins.{Disk, Env, join_lines, contains, read_active_plugins}
use go_fula.Plugins.Listed.{read_content-OneLine, read_written_list, append_not_empty}
use go_fula.Plugins.Updates.{read_update_plugins, written_queue, update_read, update_plugin}

module _ (env : Env) where
  written_queue-ok :
      (queued : List Text) (o : Option (Option Text))
      → (written_queue env queued o).0.ok ≡ true
      → (written_queue env queued o).1 ≡ some (join_lines queued)
  unfolding written_queue
  written_queue-ok queued none h = refl
  written_queue-ok queued (some left) h = absurd (cc)

  read_written_queue :
      (ws : List Text) (queue : Option Text)
      → env.readable ≡ true
      → All OneLine ws
      → env.trim_space (join_lines ws) ≡ join_lines ws
      → queue ≡ some (join_lines ws)
      → read_update_plugins env queue ≡ some (elim ws [ [] ↦ [] ∷ [] | w ∷ rest ↦ w ∷ rest ])
  unfolding read_update_plugins read_active_plugins
  read_written_queue ws queue r lines k e =
      let d : Disk = record { active = queue; files = [] } in read_written_list env ws d r lines k e

  update_read-ok :
      (name : Text) (queued : List Text) (queue : Option Text)
      → env.readable ≡ true
      → OneLine name
      → All OneLine queued
      → env.trim_space (join_lines (queued ++ (name ∷ []))) ≡ join_lines (queued ++ (name ∷ []))
      → (update_read env name (some queued) queue).0.ok ≡ true
      → ((contains name queued ≡ true) × ((update_read env name (some queued) queue).1 ≡ queue))
        ⊎ (read_update_plugins env (update_read env name (some queued) queue).1
            ≡ some (queued ++ (name ∷ [])))
  unfolding update_read
  update_read-ok name queued queue r line lines k ok = elim (Bool-cases (contains name queued)) [
    | inl e ↦ rw e (inl (refl, refl))
    | inr e ↦
        let after = written_queue-ok (queued ++ (name ∷ [])) env.write_fails (rw e at ok) in
        rw e (
          inr (
            read_written_queue (queued ++ (name ∷ [])) _ r (append-OneLine name queued lines line) k
              after
            ∙ ap some (append_not_empty env name queued)))
  ]

  updates :
      (name : Text) (queue : Option Text) (o : Option (List Text))
      → read_update_plugins env queue ≡ o
      → (update_plugin env name queue).0.ok ≡ true
      → update_plugin env name queue ≡ update_read env name o queue
  unfolding update_plugin
  updates name queue o h ok = elim (Bool-cases env.cancelled) [
    | inl e ↦ absurd (cc (rw e at ok))
    | inr e ↦ rw e (ap (λ x. update_read env name x queue) h)
  ]

  -- An update that reports success: the plugin was in the queue, which stays as it was, or the queue
  -- is read back with the plugin at its end. The name is on one line, the file can be read, and
  -- strings.TrimSpace keeps the new content.
  pub update_plugin-queued :
      (name : Text) (queued : List Text) (queue : Option Text)
      → env.readable ≡ true
      → OneLine name
      → env.trim_space (join_lines (queued ++ (name ∷ []))) ≡ join_lines (queued ++ (name ∷ []))
      → read_update_plugins env queue ≡ some queued
      → (update_plugin env name queue).0.ok ≡ true
      → ((contains name queued ≡ true) × ((update_plugin env name queue).1 ≡ queue))
        ⊎ (read_update_plugins env (update_plugin env name queue).1 ≡ some (queued ++ (name ∷ [])))
  update_plugin-queued name queued queue r line k h ok =
      let same = updates name queue (some queued) h ok in
      let lines : All OneLine queued =
        read_content-OneLine env env.readable queue queued (unfold read_update_plugins in h) in
      subst
        (λ x.
          ((contains name queued ≡ true) × (x.1 ≡ queue))
          ⊎ (read_update_plugins env x.1 ≡ some (queued ++ (name ∷ []))))
        (sym same)
        (update_read-ok name queued queue r line lines k (ap (λ x. x.0.ok) (sym same) ∙ ok))
