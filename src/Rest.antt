-- ===== src/Rest.antt =====
-- The REST variant (rest): its nodes call each other over HTTP. The components are in the modules below
-- this one.
pub mod Draw
pub mod Names
pub mod Model
pub mod ExecutorBroker
pub mod DatastoreCache
pub mod DataBroker
pub mod Datastore
pub mod Breakout
pub mod Delivery
pub mod Jobs
pub mod Client
