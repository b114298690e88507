-- ===== src/Client.antt =====
-- src/client.rs: what a session asks of the user's client type, and the factory that makes one.
use little_stomper.Prelude.{String, Option, none, some}
use little_stomper.Prelude.Effects.{Act, Result, ok, pure}
use little_stomper.Error.{StomperError}

-- `concat!(env!("CARGO_PKG_NAME"), "/", env!("CARGO_PKG_VERSION"))` with the values of Cargo.toml.
abbrev pub default_server : String
default_server = "little-stomper/0.4.0"

pub record Client (C : Type 0) : Type 0 where
  pub server : C → Option String
  pub session : C → Option String

-- The trait's default methods.
abbrev trait_server : {C : Type 0} → C → Option String
trait_server c = some default_server

abbrev trait_session : {C : Type 0} → C → Option String
trait_session c = none

-- `create` takes the login and the passcode.
abbrev pub ClientFactory : Type 0 → Type 0 → Type 0
ClientFactory W C = Option String → Option String → Act W (Result C StomperError)

pub data DefaultClient : Type 0 where
  default_client : DefaultClient

instance abbrev pub default_client_methods : Client DefaultClient
default_client_methods = record { server = trait_server; session = trait_session }

abbrev pub default_client_factory : {W : Type 0} → ClientFactory W DefaultClient
default_client_factory login passcode = pure (ok default_client)
