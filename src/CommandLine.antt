-- ===== src/CommandLine.antt =====
-- src/main.rs and the main of whitenoise-client/src/main.rs: what the subcommands start. The parser of the command
-- line is clap; what it gives are the arguments.
use white_noise_rs.Prelude.{ℕ, String, Bool, Option, none, some, List}
use mathlib.Core.Option
use white_noise_rs.Host.{Codec, Host, Keypair}
use white_noise_rs.Task.{Task}
use white_noise_rs.Account.Keys.{KeyType}
use white_noise_rs.Sdk.Start.{Node, StartEffect, start_server}
use white_noise_rs.Chat.{ChatMessage, start_client}

-- unwrap_or
abbrev pub or_else : Option String → String → String
or_else none s = s
or_else (some t) s = t

module _ (host : Host) (default_keypair : KeyType → Option Keypair) (listens : String → Bool) where
  -- The subcommand `start`, in the default build.
  unfoldable pub start_command :
      Option String → Option String → Option String → Option (Node × List StartEffect)
  start_command bootstrap port ktype =
      start_server host default_keypair listens bootstrap port (or_else ktype "ed25519") none

  -- The subcommand `chat`: the address of the bootstrap node has to be given.
  unfoldable pub chat_command :
      (ℕ → List ℕ → Option (List ℕ))
      → (ℕ → List ℕ → Option (List ℕ))
      → Codec ChatMessage
      → Option String
      → Option String
      → Option String
      → Option String
      → Option ((Node × List StartEffect) × Task (Unit {0}))
  chat_command encrypts decrypts chat_message bootstrap nick id ktype =
      Option.bind bootstrap (λ bootstrap_addr_str.
        start_client host encrypts decrypts chat_message default_keypair listens bootstrap_addr_str
          (or_else nick "Alice") id (or_else ktype "ed25519"))
