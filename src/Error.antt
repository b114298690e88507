-- ===== src/Error.antt =====
-- src/error/mod.rs: the error that the library reports, and what is converted to it.
use little_stomper.Prelude.{String, ◌<>◌}

pub record StomperError : Type 0 where
  pub message : String

abbrev pub new : String → StomperError
new message = record { message = message }

-- `From<StompParseError>`: `message` is the accessor of the parser's error.
abbrev pub from_parse_error : {E : Type 0} → (E → String) → E → StomperError
from_parse_error message e = record { message = message e }

-- `From<Infallible>`: there is no value to convert.
abbrev from_infallible : ⊥ → StomperError
from_infallible _ = record { message = "Should have been Infallible!" }

-- `From<SinkError>`, with `debug` for `{:?}`.
abbrev from_sink_error : {E : Type 0} → (E → String) → E → StomperError
from_sink_error debug e = record { message = "Error sending to Sink: " <> debug e }

-- `Display for StomperError`.
abbrev pub display : StomperError → String
display e = e.message

-- `ErrorWrapper`: any error, boxed, with its `{:?}`. `From<T>` is `new`.
pub record ErrorWrapper : Type 1 where
  pub Boxed : Type 0
  pub error : Boxed
  pub debug : Boxed → String

abbrev wrap : {E : Type 0} → (E → String) → E → ErrorWrapper
wrap {E} debug e = record { Boxed = E; error = e; debug = debug }

abbrev display_wrapper : ErrorWrapper → String
display_wrapper w = w.debug w.error <> ","

pub record UnknownCommandError : Type 0 where
  pub text : String

-- With `quote` for `{:?}` of a string.
abbrev display_unknown : (String → String) → UnknownCommandError → String
display_unknown quote e = "Unknown command " <> quote e.text
