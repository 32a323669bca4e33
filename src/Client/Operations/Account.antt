-- ===== src/Client/Operations/Account.antt =====
-- The requests of the methods in blockchain/bl_account.go.
use go_fula.Prelude.{true, false, some}
use go_fula.Access.Actions.{Action}
use go_fula.Access.Proxy.{get}
use go_fula.Client.{Operation, operation}

abbrev pub seeded : Operation
seeded = operation get Action.seeded (some 202) true

abbrev pub account_create : Operation
account_create = operation get Action.account_create (some 202) false

abbrev pub account_fund : Operation
account_fund = operation get Action.account_fund (some 202) true

abbrev pub account_exists : Operation
account_exists = operation get Action.account_exists (some 202) true

abbrev pub account_balance : Operation
account_balance = operation get Action.account_balance (some 202) true

abbrev pub assets_balance : Operation
assets_balance = operation get Action.assets_balance (some 202) true
