-- ===== src/Plugins/Updates.antt =====
-- blockchain/bl_plugins.go: the queue of updates and the names of the active plugins. The queue is
-- the content of its file, `none` if it is missing.
pub mod Queued
mod Examples
use go_fula.Prelude.{
  String, Bool, true, false, Option, none, some, List, [], ◌∷◌, ◌++◌, if◌then◌else◌,
}
use go_fula.Evm.Hex.{Text}
use go_fula.Evm.Abi.{text_eq}
use go_fula.Plugins.{
  Disk, Env, Reply, join_lines, contains, without, read_content, read_active_plugins,
}

-- The names of the plugins, or the message of a failure.
pub data Listing : Type 0 where
  names : List Text → Listing
  refused : String → Listing

unfoldable pub not_empty : List Text → Listing
unfolding without
not_empty read = names (without [] read)

unfoldable pub list_read : Option (List Text) → Listing
unfolding not_empty
list_read none = refused "Failed to read active plugins"
list_read (some read) = not_empty read

module _ (env : Env) where
  -- listActivePluginsImpl
  unfoldable pub list_active_plugins : Disk → Listing
  unfolding list_read read_active_plugins
  list_active_plugins d =
      if env.cancelled then refused "Operation cancelled" else list_read (read_active_plugins env d)

  -- readUpdatePlugins
  unfoldable pub read_update_plugins : Option Text → Option (List Text)
  unfolding read_content
  read_update_plugins queue = read_content env env.readable queue

  unfoldable pub written_queue : List Text → Option (Option Text) → Reply × Option Text
  unfolding join_lines
  written_queue queued none =
      (record { msg = "Plugin update queued successfully"; ok = true }, some (join_lines queued))
  written_queue queued (some left) =
      (record { msg = "Failed to write update plugins"; ok = false }, left)

  unfoldable pub update_read : Text → Option (List Text) → Option Text → Reply × Option Text
  unfolding written_queue contains
  update_read name none queue =
      (record { msg = "Failed to read update plugins"; ok = false }, queue)
  update_read name (some queued) queue =
      if contains name queued
      then (record { msg = "Plugin already in update queue"; ok = true }, queue)
      else written_queue (queued ++ (name ∷ [])) env.write_fails

  -- updatePluginImpl
  unfoldable pub update_plugin : Text → Option Text → Reply × Option Text
  unfolding update_read read_update_plugins
  update_plugin name queue =
      if env.cancelled
      then (record { msg = "Operation cancelled"; ok = false }, queue)
      else update_read name (read_update_plugins queue) queue
