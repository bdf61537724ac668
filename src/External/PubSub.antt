-- ===== src/External/PubSub.antt =====
-- The `rust-pubsub-lib` crate: the messages, and a publisher as the arguments of `P::new`.
use alarms_actions_synchroni.Prelude.{String, Option}

pub record StringMessage : Type 0 where
  pub key : Option String
  pub value : String

pub record Publisher : Type 0 where
  pub host : String
  pub topic : String
