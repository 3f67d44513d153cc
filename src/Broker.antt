-- ===== src/Broker.antt =====
-- What the two brokers share (app/tool_broker.c and app/helper_broker.c): arguments that travel as
-- strings that end with a NUL, and the channels that they travel through.
pub mod Strings
pub mod Channel
