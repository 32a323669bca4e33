-- ===== src/Client/Operations/Manifest.antt =====
-- The requests of the methods in blockchain/bl_manifest.go.
use go_fula.Prelude.{true, some}
use go_fula.Access.Actions.{Action}
use go_fula.Access.Proxy.{get}
use go_fula.Client.{Operation, operation}

abbrev pub manifest_upload : Operation
manifest_upload = operation get Action.manifest_upload (some 202) true

abbrev pub manifest_store : Operation
manifest_store = operation get Action.manifest_store (some 202) true

abbrev pub manifest_available : Operation
manifest_available = operation get Action.manifest_available (some 202) true

abbrev pub manifest_batch_store : Operation
manifest_batch_store = operation get Action.manifest_batch_store (some 202) true

abbrev pub manifest_batch_upload : Operation
manifest_batch_upload = operation get Action.manifest_batch_upload (some 202) true

abbrev pub manifest_remove : Operation
manifest_remove = operation get Action.manifest_remove (some 202) true

abbrev pub manifest_remove_storer : Operation
manifest_remove_storer = operation get Action.manifest_remove_storer (some 202) true

abbrev pub manifest_remove_stored : Operation
manifest_remove_stored = operation get Action.manifest_remove_stored (some 202) true
