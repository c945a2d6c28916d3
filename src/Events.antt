-- ===== src/Events.antt =====
-- The events service: the table of subscriptions in shared memory, the requests of
-- src/events_service.c and the notify server's side in src/onvif_notify_server.c.
pub mod State
pub mod Slots
pub mod Requests
pub mod Notify
pub mod Pull
pub mod Steps
pub mod Semaphore
pub mod Properties
pub mod Tests
