-- ===== src/External.antt =====
-- What the program calls and does not implement: the `chrono`, `serde_json` and `rust-pubsub-lib`
-- crates and the generated gRPC client. Each is a record of operations that the model takes.
pub mod Chrono
pub mod SerdeJson
pub mod PubSub
